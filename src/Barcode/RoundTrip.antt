-- ===== src/Barcode/RoundTrip.antt =====
-- What internal/barcode/code128.go prints is read back, and is as wide as it should be.
use free_sms.Common.{
  ℕ, suc, ◌+◌, ◌-◌, ◌*◌, ◌%◌, ◌<◌, ◌≡◌, refl, sym, ap, subst, ◌∙◌, Bool, true, false, ◌||◌, ◌&&◌,
  List, [], ◌∷◌, ◌++◌, map, Option, none, some, ltb, leb, ◌==◌, length, length-append, All,
  All-append, append-nil, append_assoc, ==_iff, Bool-cases, inl, inr, arith,
}
use free_sms.Common.Text.{Text}
use free_sms.Barcode.{start_b, stop, pattern_of, Symbols, symbols, widths, finished, modules}
use free_sms.Common.{all_below, all_below-at}
use free_sms.Barcode.Reader.{
  read_text, read_start, read_code, and_then, digits_of, read_values-widths,
}

-- Printable ASCII.
abbrev pub is_printable : ℕ → Bool
is_printable r = leb 32 r && leb r 126

unfoldable pub all_printable : Text → Bool
all_printable [] = true
all_printable (r ∷ rs) = is_printable r && all_printable rs

abbrev data_of : Text → List ℕ
data_of text = map (λ r. r - 32) text

both : (a b : Bool) → a && b ≡ true → (a ≡ true) × (b ≡ true)
both a b h = ground arith

printed : (r : ℕ) → is_printable r ≡ true → (ltb r 32 || ltb 126 r) ≡ false
printed r h = ground arith

unprinted : (r : ℕ) → is_printable r ≡ false → (ltb r 32 || ltb 126 r) ≡ true
unprinted r h = ground arith

unfoldable weighted : ℕ → Text → ℕ
weighted i [] = 0
weighted i (r ∷ rs) = (r - 32) * (i + 1) + weighted (suc i) rs

abbrev made : List ℕ → ℕ → Symbols
made vs n = record { values = vs; sum = n }

symbols_eq : {a b : List ℕ} {m n : ℕ} → a ≡ b → m ≡ n → some (made a m) ≡ some (made b n)
symbols_eq e k = rw (e, k)

back_to : (r : ℕ) → is_printable r ≡ true → r - 32 + 32 ≡ r
back_to r h = ground arith

value_small : (r : ℕ) → is_printable r ≡ true → r - 32 < 106
value_small r h = ground arith

symbols-some :
    (i : ℕ) (text : Text) (values : List ℕ) (sum : ℕ)
    → all_printable text ≡ true
    → symbols i text (record { values = values; sum = sum })
      ≡ some (record { values = values ++ data_of text; sum = sum + weighted i text })
unfolding symbols all_printable weighted
symbols-some i [] values sum h = symbols_eq (sym (append-nil values)) (omega arith)
symbols-some i (r ∷ rs) values sum h =
    let (p, ps) = both (is_printable r) (all_printable rs) h in
    rw
      (
        printed r p,
        symbols-some (suc i) rs (values ++ ((r - 32) ∷ [])) (sum + (r - 32) * (i + 1)) ps,
      )
      (symbols_eq (append_assoc values ((r - 32) ∷ []) (data_of rs)) (omega arith))

symbols-none :
    (i : ℕ) (text : Text) (s : Symbols) → all_printable text ≡ false → symbols i text s ≡ none
unfolding symbols all_printable
symbols-none i [] s h = absurd cc
symbols-none i (r ∷ rs) s h = elim (Bool-cases (is_printable r)) [
  | inl e ↦ rw (printed r e) (symbols-none (suc i) rs _ (rw e at h))
  | inr e ↦ rw (unprinted r e)
]

read_text-more :
    (sum i v c : ℕ) (ws : List ℕ)
    → read_text sum i (v ∷ (ws ++ (c ∷ [])))
      ≡ and_then (v + 32) (read_text (sum + v * i) (suc i) (ws ++ (c ∷ [])))
unfolding read_text
read_text-more sum i v c [] = refl
read_text-more sum i v c (w ∷ ws) = refl

read_text-data :
    (sum i : ℕ) (text : Text)
    → all_printable text ≡ true
    → read_text sum (suc i) (data_of text ++ ((sum + weighted i text) % 103 ∷ [])) ≡ some text
unfolding read_text all_printable weighted
read_text-data sum i [] h = ground arith
read_text-data sum i (r ∷ rs) h =
    let (p, ps) = both (is_printable r) (all_printable rs) h in
    let v = r - 32 in
    let check : (sum + v * suc i + weighted (suc i) rs) % 103
        ≡ (sum + (v * (i + 1) + weighted (suc i) rs)) % 103 =
      omega arith in
    read_text-more sum (suc i) v ((sum + (v * (i + 1) + weighted (suc i) rs)) % 103) (data_of rs)
    ∙ ap (and_then (v + 32)) (
        subst (λ c. read_text (sum + v * suc i) (suc (suc i)) (data_of rs ++ (c ∷ [])) ≡ some rs)
          check (read_text-data (sum + v * suc i) (suc i) rs ps))
    ∙ ap (λ c. some (c ∷ rs)) (back_to r p)

-- Every value that is printed stands in the table before the stop.
data_small : (text : Text) → all_printable text ≡ true → All (λ v. v < 106) (data_of text)
unfolding all_printable
data_small [] h = tt
data_small (r ∷ rs) h =
    let (p, ps) = both (is_printable r) (all_printable rs) h in (value_small r p, data_small rs ps)

check_small : (n : ℕ) → n % 103 < 106
check_small n = omega arith

-- What is printed: the start, the data, the check and the stop.
abbrev printed_values : Text → List ℕ
printed_values text = start_b ∷ (data_of text ++ ((start_b + weighted 0 text) % 103 ∷ []))

modules-widths :
    (c : ℕ) (rest : Text)
    → all_printable (c ∷ rest) ≡ true
    → modules (c ∷ rest) ≡ some (widths (printed_values (c ∷ rest) ++ (stop ∷ [])))
unfolding modules
modules-widths c rest h =
    ap finished (symbols-some 0 (c ∷ rest) (start_b ∷ []) start_b h)
    ∙ ap (λ vs. some (widths (start_b ∷ vs)))
        (sym (append_assoc (data_of (c ∷ rest)) (_ ∷ []) (stop ∷ [])))

printed_small : (text : Text) → all_printable text ≡ true → All (λ v. v < 106) (printed_values text)
printed_small text h = (
  omega arith,
  All-append _ (data_of text) (_ ∷ []) (data_small text h)
      (check_small (start_b + weighted 0 text), tt),
)

read_code-widths :
    (text : Text)
    → all_printable text ≡ true
    → read_code (widths (printed_values text ++ (stop ∷ []))) ≡ some text
unfolding read_code
read_code-widths text h =
    ap read_start (read_values-widths (printed_values text) (printed_small text h))
    ∙ read_text-data start_b 0 text h

-- A text that is not empty is printed when it is printable ASCII, and a reader that checks the
-- checksum reads what is printed as that text; any other text is refused.
pub modules-read_code :
    (c : ℕ) (rest : Text)
    → (all_printable (c ∷ rest) ≡ true
        → (out : List ℕ) × (modules (c ∷ rest) ≡ some out) × (read_code out ≡ some (c ∷ rest)))
      × (all_printable (c ∷ rest) ≡ false → modules (c ∷ rest) ≡ none)
unfolding modules
modules-read_code c rest = (
  λ h. (_, modules-widths c rest h, read_code-widths (c ∷ rest) h),
  λ h. ap finished (symbols-none 0 (c ∷ rest) (made (start_b ∷ []) start_b) h),
)

abbrev pub total : List ℕ → ℕ
total [] = 0
total (w ∷ ws) = w + total ws

total-append : (xs ys : List ℕ) → total (xs ++ ys) ≡ total xs + total ys
total-append [] ys = omega arith
total-append (x ∷ xs) ys = omega (arith, total-append xs ys)

abbrev is_eleven : ℕ → Bool
is_eleven v = total (digits_of v) == 11

table_is_eleven : all_below 106 is_eleven ≡ true
unfolding pattern_of
table_is_eleven = refl

total-widths :
    (vs : List ℕ) → All (λ v. v < 106) vs → total (widths (vs ++ (stop ∷ []))) ≡ 11 * length vs + 13
unfolding widths pattern_of
total-widths [] h = refl
total-widths (v ∷ vs) (h, hs) = omega (
  arith,
  total-append (digits_of v) (widths (vs ++ (stop ∷ []))),
  (==_iff (total (digits_of v)) 11).0 (all_below-at 106 v is_eleven table_is_eleven h),
  total-widths vs hs,
)

length-data_of : (text : Text) → length (data_of text) ≡ length text
length-data_of [] = refl
length-data_of (r ∷ rs) = omega (arith, length-data_of rs)

some-is : {a b : List ℕ} → some a ≡ some b → a ≡ b
some-is e = cc

empty_refused : {out : List ℕ} → modules [] ≡ some out → ⊥
unfolding modules
empty_refused e = cc

none_refused : {A : Type 0} {a : A} {o : Option A} → o ≡ none → o ≡ some a → ⊥
none_refused h e = cc

total-printed :
    (text : Text)
    → all_printable text ≡ true
    → total (widths (printed_values text ++ (stop ∷ []))) ≡ 11 * (length text + 2) + 13
total-printed text h = omega (
  arith,
  total-widths (printed_values text) (printed_small text h),
  length-append (data_of text) ((start_b + weighted 0 text) % 103 ∷ []),
  length-data_of text,
)

-- A text that is printed takes eleven modules for each character, for the start and for the check,
-- and thirteen for the stop.
pub modules-total :
    (text : Text) (out : List ℕ) → modules text ≡ some out → total out ≡ 11 * (length text + 2) + 13
modules-total [] out e = absurd (empty_refused e)
modules-total (c ∷ rest) out e = elim (Bool-cases (all_printable (c ∷ rest))) [
  | inl h ↦
      subst (λ ws. total ws ≡ 11 * (length (c ∷ rest) + 2) + 13)
        (some-is (sym (modules-widths c rest h) ∙ e)) (total-printed (c ∷ rest) h)
  | inr h ↦ absurd (none_refused ((modules-read_code c rest).1 h) e)
]
