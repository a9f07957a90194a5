-- ===== src/Barcode/Reader.antt =====
-- A reader of Code 128, and that it reads what internal/barcode/code128.go prints.
use free_sms.Common.{
  ℕ, suc, ◌+◌, ◌-◌, ◌*◌, ◌%◌, ◌<◌, ◌≡◌, refl, sym, ap, Bool, true, false, not, ◌&&◌, List, [], ◌∷◌,
  ◌++◌, map, Option, none, some, ◌==◌, if◌then◌else◌, length, All, ==_iff, all_below, all_below-at,
  arith,
}
use free_sms.Common.Text.{Text, text_eq}
use free_sms.Barcode.{patterns, stop, pattern_of, widths}

-- The value whose widths are read, from the table, and the six widths that only the stop begins with.
unfoldable pub value_of : ℕ → List ℕ → List Text → Option ℕ
value_of v six [] = none
value_of v six (p ∷ ps) =
    let rest = value_of (suc v) six ps in
    if text_eq (map (λ c. c - b'0') p) six then some v else rest

abbrev stop_begins : List ℕ
stop_begins = 2 ∷ 3 ∷ 3 ∷ 1 ∷ 1 ∷ 1 ∷ []

abbrev pub put : Option ℕ → Option (List ℕ) → Option (List ℕ)
put (some v) (some vs) = some (v ∷ vs)
put o p = none

-- The values up to the stop.
unfoldable pub read_values : List ℕ → Option (List ℕ)
unfolding value_of
read_values (a ∷ b ∷ c ∷ d ∷ e ∷ f ∷ s) =
    let six = a ∷ b ∷ c ∷ d ∷ e ∷ f ∷ [] in
    let rest = put (value_of 0 six patterns) (read_values s) in
    if text_eq six stop_begins then (if text_eq s (2 ∷ []) then some [] else none) else rest
read_values s = none

-- The characters of the values behind the start, when the last value is the check on the others.
abbrev pub and_then : ℕ → Option Text → Option Text
and_then c none = none
and_then c (some s) = some (c ∷ s)

unfoldable pub read_text : ℕ → ℕ → List ℕ → Option Text
read_text sum i [] = none
read_text sum i (v ∷ []) = if v == sum % 103 then some [] else none
read_text sum i (v ∷ w ∷ vs) = and_then (v + 32) (read_text (sum + v * i) (suc i) (w ∷ vs))

abbrev pub read_start : Option (List ℕ) → Option Text
read_start none = none
read_start (some []) = none
read_start (some (v ∷ vs)) = if v == 104 then read_text 104 1 vs else none

unfoldable pub read_code : List ℕ → Option Text
unfolding read_values read_text
read_code s = read_start (read_values s)

abbrev pub digits_of : ℕ → List ℕ
digits_of v = map (λ c. c - b'0') (pattern_of v)

abbrev found : ℕ → Option ℕ → Bool
found v none = false
found v (some w) = v == w

-- The pattern of a value is six widths, is not the beginning of the stop, and is found at that value.
abbrev is_own : ℕ → Bool
is_own v =
    (length (digits_of v) == 6)
    && (not (text_eq (digits_of v) stop_begins) && found v (value_of 0 (digits_of v) patterns))

table_is_own : all_below 106 is_own ≡ true
unfolding pattern_of value_of
table_is_own = refl

found-some : (v : ℕ) (o : Option ℕ) → found v o ≡ true → o ≡ some v
found-some v none h = absurd cc
found-some v (some w) h = ap some (sym ((==_iff v w).0 h))

read_values-symbol :
    (xs s : List ℕ)
    → (length xs == 6) ≡ true
    → text_eq xs stop_begins ≡ false
    → read_values (xs ++ s) ≡ put (value_of 0 xs patterns) (read_values s)
unfolding read_values
read_values-symbol (a ∷ b ∷ c ∷ d ∷ e ∷ f ∷ []) s h k = rw k
read_values-symbol [] s h k = absurd (ground (arith, h))
read_values-symbol (a ∷ []) s h k = absurd (ground (arith, h))
read_values-symbol (a ∷ b ∷ []) s h k = absurd (ground (arith, h))
read_values-symbol (a ∷ b ∷ c ∷ []) s h k = absurd (ground (arith, h))
read_values-symbol (a ∷ b ∷ c ∷ d ∷ []) s h k = absurd (ground (arith, h))
read_values-symbol (a ∷ b ∷ c ∷ d ∷ e ∷ []) s h k = absurd (ground (arith, h))
read_values-symbol (a ∷ b ∷ c ∷ d ∷ e ∷ f ∷ g ∷ xs) s h k = absurd (ground (arith, h))

three_tests : (a b c : Bool) → (a && (not b && c)) ≡ true → (a ≡ true) × (b ≡ false) × (c ≡ true)
three_tests a b c h = ground arith

read_values-value :
    (v : ℕ) (s : List ℕ) → v < 106 → read_values (digits_of v ++ s) ≡ put (some v) (read_values s)
read_values-value v s lt =
    let (six, other, own) = three_tests _ _ _ (all_below-at 106 v is_own table_is_own lt) in
    rw (
      read_values-symbol (digits_of v) s six other,
      found-some v (value_of 0 (digits_of v) patterns) own,
    )

-- Values below the stop, and the stop, are read back.
pub read_values-widths :
    (vs : List ℕ) → All (λ v. v < 106) vs → read_values (widths (vs ++ (stop ∷ []))) ≡ some vs
unfolding widths read_values pattern_of
read_values-widths [] h = refl
read_values-widths (v ∷ vs) (h, hs) =
    rw (read_values-value v (widths (vs ++ (stop ∷ []))) h, read_values-widths vs hs)
