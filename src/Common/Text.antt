-- ===== src/Common/Text.antt =====
-- Text as the list of its code points, and the functions of Go's strings and strconv on it.
pub mod Laws
use Prim.Native.Nat.{ℕ, zero, suc, ◌+◌, ◌-◌, ◌*◌, ◌^◌}
use Prim.Native.Char.{code}
use Prim.Native.String.{String}
use mathlib.Core.Bool.{Bool, true, false, ◌&&◌, ◌||◌}
use mathlib.Core.List.{List, [], ◌∷◌, ◌++◌, reverse}
use mathlib.Core.Option.{Option, none, some}
use free_sms.Common.Tests.{ltb, leb, ◌==◌, if◌then◌else◌}
use free_sms.Common.Int.{ℤ, pos, of_neg}

abbrev pub Text : Type 0
Text = List ℕ

abbrev pub codes : String → Text
codes String.[] = []
codes (String.◌∷◌ c s) = code c ∷ codes s

-- `==` on two texts.
abbrev pub text_eq : Text → Text → Bool
text_eq [] [] = true
text_eq [] (d ∷ t) = false
text_eq (c ∷ s) [] = false
text_eq (c ∷ s) (d ∷ t) = (c == d) && text_eq s t

-- The bytes that a text takes in UTF-8: Go's `len`.
abbrev pub width : ℕ → ℕ
width c = if ltb c 0x80 then 1 else if ltb c 0x800 then 2 else if ltb c 0x10000 then 3 else 4

abbrev pub byte_len : Text → ℕ
byte_len [] = 0
byte_len (c ∷ s) = width c + byte_len s

abbrev pub has_prefix : ℕ → Text → Bool
has_prefix c [] = false
has_prefix c (x ∷ s) = x == c

abbrev pub trim_prefix : ℕ → Text → Text
trim_prefix c [] = []
trim_prefix c (x ∷ s) = if x == c then s else x ∷ s

unfoldable pub is_digit : ℕ → Bool
is_digit c = leb b'0' c && leb c b'9'

-- `unicode.IsSpace`.
unfoldable pub is_space : ℕ → Bool
is_space c =
    (leb 0x09 c && leb c 0x0d)
    || (c == 0x20)
    || (c == 0x85)
    || (c == 0xa0)
    || (c == 0x1680)
    || (leb 0x2000 c && leb c 0x200a)
    || (c == 0x2028)
    || (c == 0x2029)
    || (c == 0x202f)
    || (c == 0x205f)
    || (c == 0x3000)

-- Drops the characters at the front that pass a test: `strings.TrimLeft`.
unfoldable pub trim_left : (ℕ → Bool) → Text → Text
trim_left p [] = []
trim_left p (c ∷ s) = if p c then trim_left p s else c ∷ s

unfoldable pub trim : (ℕ → Bool) → Text → Text
trim p s = reverse (trim_left p (reverse (trim_left p s)))

-- `strings.TrimSpace`.
unfoldable pub trim_space : Text → Text
trim_space = trim is_space

-- `strings.ReplaceAll(s, c, "")`, and the dropping half of `strings.Map`.
unfoldable pub without : (ℕ → Bool) → Text → Text
without p [] = []
without p (c ∷ s) = if p c then without p s else c ∷ without p s

-- `strings.Replace(s, c, d, 1)`.
unfoldable pub replace_first : ℕ → ℕ → Text → Text
replace_first c d [] = []
replace_first c d (x ∷ s) = if x == c then d ∷ s else x ∷ replace_first c d s

-- `strings.Cut` at one character: what stands before it and behind it, and whether it is there.
unfoldable pub cut : ℕ → Text → Text × Text × Bool
cut c [] = ([], [], false)
cut c (x ∷ s) =
    let (before, after, found) = cut c s in
    if x == c then ([], s, true) else (x ∷ before, after, found)

abbrev pub is_empty : Text → Bool
is_empty [] = true
is_empty (c ∷ s) = false

-- The digits of `strconv.ParseUint` in base ten.
unfoldable pub scan : ℕ → Text → Option ℕ
unfolding is_digit
scan n [] = some n
scan n (c ∷ s) = let rest = scan (n * 10 + (c - b'0')) s in if is_digit c then rest else none

abbrev pub scan_some : Text → Option ℕ
scan_some [] = none
scan_some (c ∷ s) = scan 0 (c ∷ s)

-- A magnitude with its sign, where an int64 holds it.
abbrev pub signed : Bool → Option ℕ → Option ℤ
signed negative none = none
signed true (some n) = if leb n (2 ^ 63) then some (of_neg n) else none
signed false (some n) = if ltb n (2 ^ 63) then some (pos n) else none

-- `strconv.ParseInt(s, 10, 64)`; `none` is an error.
unfoldable pub parse_int : Text → Option ℤ
parse_int [] = none
parse_int (c ∷ s) =
    if c == b'-'
    then signed true (scan_some s)
    else if c == b'+'
    then signed false (scan_some s)
    else signed false (scan_some (c ∷ s))
