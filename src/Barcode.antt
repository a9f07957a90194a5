-- ===== src/Barcode.antt =====
-- internal/barcode/code128.go: a text as the bars of Code 128.
mod Examples
pub mod Reader
pub mod RoundTrip
pub mod Svg
pub mod Qr
use free_sms.Common.{
  ℕ, zero, suc, ◌+◌, ◌-◌, ◌*◌, ◌%◌, Bool, true, false, ◌||◌, List, [], ◌∷◌, ◌++◌, map, Option, none,
  some, ltb, if◌then◌else◌, ◌>>=◌,
}
use free_sms.Common.Text.{Text, codes}

-- The widths of bars and spaces of each value.
abbrev pub patterns : List Text
patterns =
    codes "212222"
    ∷ codes "222122"
    ∷ codes "222221"
    ∷ codes "121223"
    ∷ codes "121322"
    ∷ codes "131222"
    ∷ codes "122213"
    ∷ codes "122312"
    ∷ codes "132212"
    ∷ codes "221213"
    ∷ codes "221312"
    ∷ codes "231212"
    ∷ codes "112232"
    ∷ codes "122132"
    ∷ codes "122231"
    ∷ codes "113222"
    ∷ codes "123122"
    ∷ codes "123221"
    ∷ codes "223211"
    ∷ codes "221132"
    ∷ codes "221231"
    ∷ codes "213212"
    ∷ codes "223112"
    ∷ codes "312131"
    ∷ codes "311222"
    ∷ codes "321122"
    ∷ codes "321221"
    ∷ codes "312212"
    ∷ codes "322112"
    ∷ codes "322211"
    ∷ codes "212123"
    ∷ codes "212321"
    ∷ codes "232121"
    ∷ codes "111323"
    ∷ codes "131123"
    ∷ codes "131321"
    ∷ codes "112313"
    ∷ codes "132113"
    ∷ codes "132311"
    ∷ codes "211313"
    ∷ codes "231113"
    ∷ codes "231311"
    ∷ codes "112133"
    ∷ codes "112331"
    ∷ codes "132131"
    ∷ codes "113123"
    ∷ codes "113321"
    ∷ codes "133121"
    ∷ codes "313121"
    ∷ codes "211331"
    ∷ codes "231131"
    ∷ codes "213113"
    ∷ codes "213311"
    ∷ codes "213131"
    ∷ codes "311123"
    ∷ codes "311321"
    ∷ codes "331121"
    ∷ codes "312113"
    ∷ codes "312311"
    ∷ codes "332111"
    ∷ codes "314111"
    ∷ codes "221411"
    ∷ codes "431111"
    ∷ codes "111224"
    ∷ codes "111422"
    ∷ codes "121124"
    ∷ codes "121421"
    ∷ codes "141122"
    ∷ codes "141221"
    ∷ codes "112214"
    ∷ codes "112412"
    ∷ codes "122114"
    ∷ codes "122411"
    ∷ codes "142112"
    ∷ codes "142211"
    ∷ codes "241211"
    ∷ codes "221114"
    ∷ codes "413111"
    ∷ codes "241112"
    ∷ codes "134111"
    ∷ codes "111242"
    ∷ codes "121142"
    ∷ codes "121241"
    ∷ codes "114212"
    ∷ codes "124112"
    ∷ codes "124211"
    ∷ codes "411212"
    ∷ codes "421112"
    ∷ codes "421211"
    ∷ codes "212141"
    ∷ codes "214121"
    ∷ codes "412121"
    ∷ codes "111143"
    ∷ codes "111341"
    ∷ codes "131141"
    ∷ codes "114113"
    ∷ codes "114311"
    ∷ codes "411113"
    ∷ codes "411311"
    ∷ codes "113141"
    ∷ codes "114131"
    ∷ codes "311141"
    ∷ codes "411131"
    ∷ codes "211412"
    ∷ codes "211214"
    ∷ codes "211232"
    ∷ codes "2331112"
    ∷ []

abbrev pub start_b : ℕ
start_b = 104

abbrev pub stop : ℕ
stop = 106

-- `patterns[v]`; no value is past the end of the table.
abbrev pub nth : ℕ → List Text → Text
nth v [] = []
nth zero (p ∷ ps) = p
nth (suc v) (p ∷ ps) = nth v ps

unfoldable pub pattern_of : ℕ → Text
pattern_of v = nth v patterns

-- The variables `values` and `sum` of the loop over the characters.
pub record Symbols : Type 0 where
  pub values : List ℕ
  pub sum : ℕ

-- A character before the one at `i` is one byte, so that `i` counts characters.
unfoldable pub symbols : ℕ → Text → Symbols → Option Symbols
symbols i [] s = some s
symbols i (r ∷ rs) s =
    let v = r - 32 in
    let rest =
      symbols (suc i) rs (record { values = s.values ++ (v ∷ []); sum = s.sum + v * (i + 1) }) in
    if ltb r 32 || ltb 126 r then none else rest

-- The loop over the values: the digits of their patterns, one after the other.
unfoldable pub widths : List ℕ → List ℕ
unfolding pattern_of
widths [] = []
widths (v ∷ vs) = map (λ c. c - b'0') (pattern_of v) ++ widths vs

abbrev pub finished : Option Symbols → Option (List ℕ)
finished none = none
finished (some s) = some (widths (s.values ++ (s.sum % 103 ∷ stop ∷ [])))

-- `Modules`; `none` is `ErrUnencodable`.
unfoldable pub modules : Text → Option (List ℕ)
unfolding symbols widths
modules [] = none
modules (c ∷ text) =
    finished (symbols 0 (c ∷ text) (record { values = start_b ∷ []; sum = start_b }))
