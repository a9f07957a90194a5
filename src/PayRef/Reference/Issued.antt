-- ===== src/PayRef/Reference/Issued.antt =====
-- A reference that the program issues is read as itself, however many leading zeros a bank drops
-- or adds.
use mathlib.Core.List.{reverse-append, reverse-reverse}
use free_sms.Common.{
  ℕ, zero, suc, ◌+◌, ◌-◌, ◌/◌, ◌%◌, ◌^◌, ◌≤◌, ◌<◌, ◌≡◌, refl, ◌∙◌, Bool, true, not, [], ◌∷◌, ◌++◌,
  append_assoc, reverse, arith, ◌==◌, length, replicate, All, All-reverse,
}
use free_sms.Common.Text.{Text, trim_left}
use free_sms.Common.Text.Laws.{IsDigit}
use free_sms.Money.Format.{fill}
use free_sms.Money.Format.Digits.{fill-digits, fill-Leads, fill-length_le, Leads}
use free_sms.PayRef.CheckDigit.{format_int, digit_value, doubled, luhn_sum, check_digit}
use free_sms.PayRef.CheckDigit.Errors.{luhn_sum-cons}
use free_sms.PayRef.Reference.{with_digits, check_matches, length_digit_fits}

pub format_int-suc : (n : ℕ) → format_int (suc n) ≡ fill 20 (suc n) []
unfolding format_int
format_int-suc n = ground arith

fill-digit : (d : ℕ) → suc d < 10 → fill 20 (suc d) [] ≡ (b'0' + suc d) ∷ []
unfolding fill
fill-digit d h =
    let over : suc d / 10 ≡ 0 = omega arith in
    let last : suc d % 10 ≡ suc d = omega arith in ground (arith, over, last)

pub format_int-digit : (d : ℕ) → d < 10 → format_int d ≡ (b'0' + d) ∷ []
unfolding format_int
format_int-digit zero h = refl
format_int-digit (suc d) h = format_int-suc d ∙ fill-digit d h

-- Every number that is written has digits only, and one other than 0 does not start with 0.
pub format_int-digits : (n : ℕ) → All IsDigit (format_int n)
unfolding format_int
format_int-digits zero = omega arith
format_int-digits (suc n) = ground (arith, fill-digits 20 (suc n) [] tt)

pub format_int-Leads : (n : ℕ) → 0 < n → n < 2 ^ 64 → Leads (format_int n)
unfolding format_int
format_int-Leads zero h k = absurd (omega arith)
format_int-Leads (suc n) h k = rw (format_int-suc n) (fill-Leads 20 (suc n) [] h (omega arith))

pub length-format_int : (n : ℕ) → n < 2 ^ 63 → length (format_int n) ≤ 19
unfolding format_int
length-format_int n h = ground (arith, fill-length_le 20 n 19 [])

luhn_sum-zeros : (b : Bool) (s : Text) → All (λ c. c ≡ b'0') s → luhn_sum b s ≡ 0
unfolding luhn_sum digit_value doubled
luhn_sum-zeros b [] _ = refl
luhn_sum-zeros b (c ∷ s) (h, hs) = ground (arith, luhn_sum-zeros (not b) s hs)

luhn_sum-append_zeros :
    (b : Bool) (s t : Text) → All (λ c. c ≡ b'0') t → luhn_sum b (s ++ t) ≡ luhn_sum b s
unfolding luhn_sum
luhn_sum-append_zeros b [] t h = luhn_sum-zeros b t h
luhn_sum-append_zeros b (c ∷ s) t h =
    rw (luhn_sum-cons b c (s ++ t), luhn_sum-cons b c s, luhn_sum-append_zeros (not b) s t h)

abbrev pub zeros : ℕ → Text
zeros k = replicate k b'0'

zeros-All : (k : ℕ) → All (λ c. c ≡ b'0') (zeros k)
zeros-All zero = tt
zeros-All (suc k) = (refl, zeros-All k)

-- The check digit does not see leading zeros.
pub check_digit-zeros : (k : ℕ) (s : Text) → check_digit (zeros k ++ s) ≡ check_digit s
unfolding check_digit
check_digit-zeros k s = rw (
  reverse-append (zeros k) s,
  luhn_sum-append_zeros true (reverse s) (reverse (zeros k))
      (All-reverse _ (zeros k) (zeros-All k)),
)

-- The two digits that end a reference.
abbrev pub length_digit : Text → ℕ
length_digit body = b'0' + (length body + 2) % 10

pub with_digits-eq :
    (body : Text)
    → let l = length_digit body in
      with_digits body ≡ body ++ (l ∷ check_digit (body ++ (l ∷ [])) ∷ [])
unfolding with_digits
with_digits-eq body =
    rw (format_int-digit ((length body + 2) % 10) (omega arith)) (append_assoc body _ _)

-- A text that ends in two characters, from its end.
pub reverse-two : (s : Text) (l c : ℕ) → reverse (s ++ (l ∷ c ∷ [])) ≡ c ∷ l ∷ reverse s
reverse-two s l c = reverse-append s (l ∷ c ∷ [])

pub check_matches-end :
    (s : Text) (l c : ℕ)
    → check_digit (s ++ (l ∷ [])) ≡ c
    → check_matches (reverse (s ++ (l ∷ c ∷ []))) ≡ true
unfolding check_matches
check_matches-end s l c h =
    rw (reverse-two s l c, reverse-append (l ∷ []) (reverse s), reverse-reverse s, h) (ground arith)

pub trim_left-zeros : (k : ℕ) (s : Text) → Leads s → trim_left (λ c. c == b'0') (zeros k ++ s) ≡ s
unfolding trim_left
trim_left-zeros zero [] h = absurd h
trim_left-zeros zero (c ∷ s) h = ground arith
trim_left-zeros (suc k) s h = trim_left-zeros k s h

-- The length digit fits just when it is that of the length.
pub length_digit_fits-end :
    (ref s : Text) (l c : ℕ)
    → 3 ≤ length ref
    → length ref ≤ 25
    → length_digit_fits ref (c ∷ l ∷ s) ≡ (l - b'0' == length ref % 10)
unfolding length_digit_fits
length_digit_fits-end ref s l c h k = ground arith
