-- ===== src/PayRef/Reference/RoundTrip.antt =====
-- A reference that the program issues is read as itself, however many leading zeros a bank drops
-- or adds: `OCR`, `OCRFor` and `CheckOCR` of internal/payref/payref.go.
use free_sms.Common.{
  ℕ, ◌+◌, ◌-◌, ◌%◌, ◌^◌, ◌≤◌, ◌<◌, ◌≡◌, inl, inr, refl, sym, ap, subst, ◌∙◌, true, false, [], ◌∷◌,
  ◌++◌, arith, ◌==◌, if◌then◌else◌, Bool-cases, length, length-append, All, All-append,
}
use free_sms.Common.Int.{ℤ, pos, pos_part}
use free_sms.Common.Text.{Text, text_eq, is_empty, is_digit, trim_left}
use free_sms.Common.Text.Laws.{IsDigit}
use free_sms.Money.Format.Digits.{Leads}
use free_sms.PayRef.CheckDigit.{format_int, check_digit}
use free_sms.PayRef.Reference.{
  ok, with_digits, ocr, ocr_for, encode_series, is_series, is_capital, default_series, clean,
  check_ocr,
}
use free_sms.PayRef.Reference.Issued.{
  format_int-digits, format_int-Leads, length-format_int, check_digit-zeros, with_digits-eq,
  trim_left-zeros, zeros, length_digit,
}
use free_sms.PayRef.Reference.Zeros.{check_ocr-zeros, choose-default, choose-other, Leads-append}

-- The reference of the default series.
ocr-eq : (n : ℕ) → 0 < n → n < 2 ^ 63 → ocr (pos n) ≡ ok (with_digits (format_int n))
unfolding ocr
ocr-eq n h k = ground (arith, length-format_int n k)

read-default :
    (n : ℕ) (typed : Text) (k : ℕ)
    → 0 < n
    → n < 2 ^ 63
    → clean typed ≡ zeros k ++ with_digits (format_int n)
    → k + length (with_digits (format_int n)) ≤ 25
    → check_ocr typed ≡ ok (with_digits (format_int n))
read-default n typed k h small e short =
    let x = format_int n in
    let l = length_digit x in
    let same = with_digits-eq x in
    let short' : k + length (x ++ (l ∷ check_digit (x ++ (l ∷ [])) ∷ [])) ≤ 25 =
      subst (λ s. k + length s ≤ 25) same short in
    rw same (
      check_ocr-zeros x l (format_int-digits n) (format_int-Leads n h (omega arith)) (omega arith)
        typed k (subst (λ s. clean typed ≡ zeros k ++ s) same e) short'
      ∙ choose-default x l (format_int-digits n) (format_int-Leads n h (omega arith)) (omega arith)
          refl (omega arith))

-- What stands behind the leading 0 of another series' reference.
abbrev pub other : Text → ℕ → Text
other series n = encode_series series ++ (b'0' ∷ format_int n)

encode_series-digits : (s : Text) → All IsDigit (encode_series s)
unfolding encode_series
encode_series-digits [] = tt
encode_series-digits (r ∷ s) =
    All-append _ (format_int _) (encode_series s) (format_int-digits _) (encode_series-digits s)

first_code :
    (r : ℕ) (s : Text)
    → is_series (r ∷ s) ≡ true
    → let code = if is_capital r then r - b'A' + 10 else r - b'0' + 36 in (10 ≤ code) × (code ≤ 45)
unfolding is_series is_capital is_digit
first_code r s h = ground arith

other-Leads : (s : Text) (n : ℕ) → is_empty s ≡ false → is_series s ≡ true → Leads (other s n)
unfolding encode_series
other-Leads [] n h k = cc
other-Leads (r ∷ s) n h k = Leads-append (format_int _ ++ encode_series s) (b'0' ∷ format_int n) (
    Leads-append (format_int _) (encode_series s)
      (let (lo, hi) = first_code r s k in format_int-Leads _ (omega arith) (omega arith)))

-- What `OCRFor` returned a reference for.
data Origin (series : Text) (number : ℤ) (ref : Text) : Type 0 where
  default :
      text_eq series default_series ≡ true
      → ref ≡ with_digits (format_int (pos_part number))
      → Origin series number ref
  named :
      text_eq series default_series ≡ false
      → is_empty series ≡ false
      → is_series series ≡ true
      → length (other series (pos_part number)) + 3 ≤ 25
      → ref ≡ with_digits (b'0' ∷ other series (pos_part number))
      → Origin series number ref

ocr_for-Origin :
    (series : Text) (number : ℤ) (ref : Text)
    → ocr_for series number ≡ ok ref
    → (0 < pos_part number) × Origin series number ref
unfolding ocr_for ocr
ocr_for-Origin series number ref e = elim (Bool-cases (text_eq series default_series)) [
  | inl d ↦
      let facts : (0 < pos_part number) × (ref ≡ with_digits (format_int (pos_part number))) =
        (ground arith, ground arith) in
      (facts.0, default d facts.1)
  | inr d ↦
      let sign : 0 < pos_part number = ground arith in
      let some_series : is_empty series ≡ false = ground arith in
      let good : is_series series ≡ true = ground arith in
      let short : length (other series (pos_part number)) + 3 ≤ 25 = ground arith in
      let value : ref ≡ with_digits (b'0' ∷ other series (pos_part number)) = ground arith in
      (sign, named d some_series good short value)
]

named-eq :
    (y : Text)
    → let l = b'0' + (length y + 3) % 10 in
      with_digits (b'0' ∷ y) ≡ b'0' ∷ (y ++ (l ∷ check_digit (y ++ (l ∷ [])) ∷ []))
named-eq y =
    let l = b'0' + (length y + 3) % 10 in
    let at : length_digit (b'0' ∷ y) ≡ l = omega arith in
    with_digits-eq (b'0' ∷ y)
    ∙ ap (λ d. b'0' ∷ (y ++ (d ∷ check_digit (b'0' ∷ (y ++ (d ∷ []))) ∷ []))) at
    ∙ ap (λ c. b'0' ∷ (y ++ (l ∷ c ∷ []))) (check_digit-zeros 1 (y ++ (l ∷ [])))

abbrev pub without_zeros : Text → Text
without_zeros = trim_left (λ c. c == b'0')

read-named :
    (y typed : Text) (k : ℕ)
    → All IsDigit y
    → Leads y
    → length y + 3 ≤ 25
    → clean typed ≡ zeros k ++ without_zeros (with_digits (b'0' ∷ y))
    → k + length (without_zeros (with_digits (b'0' ∷ y))) ≤ 25
    → check_ocr typed ≡ ok (with_digits (b'0' ∷ y))
read-named y typed k digits leads short e fits =
    let l = b'0' + (length y + 3) % 10 in
    let b = y ++ (l ∷ check_digit (y ++ (l ∷ [])) ∷ []) in
    let trimmed : without_zeros (with_digits (b'0' ∷ y)) ≡ b =
      ap without_zeros (named-eq y) ∙ trim_left-zeros 1 b (Leads-append y _ leads) in
    let size : length b ≡ length y + 2 = length-append y (l ∷ check_digit (y ++ (l ∷ [])) ∷ []) in
    check_ocr-zeros y l digits leads (omega arith) typed k
      (subst (λ s. clean typed ≡ zeros k ++ s) trimmed e)
      (subst (λ s. k + length s ≤ 25) trimmed fits)
    ∙ choose-other y l digits leads (omega arith) refl (omega arith)
    ∙ ap ok (sym (named-eq y))

plain :
    (n : ℕ)
    → 0 < n
    → n < 2 ^ 63
    → without_zeros (with_digits (format_int n)) ≡ with_digits (format_int n)
plain n h small =
    rw (with_digits-eq (format_int n))
      (trim_left-zeros 0 _ (Leads-append (format_int n) _ (format_int-Leads n h (omega arith))))

read-Origin :
    (series typed : Text) (number : ℤ) (k : ℕ) (ref : Text)
    → 0 < pos_part number
    → Origin series number ref
    → pos_part number < 2 ^ 63
    → clean typed ≡ zeros k ++ without_zeros ref
    → k + length (without_zeros ref) ≤ 25
    → check_ocr typed ≡ ok ref
read-Origin series typed number k ref sign (default _ value) small e short =
    let n = pos_part number in
    let same : without_zeros (with_digits (format_int n)) ≡ with_digits (format_int n) =
      plain n sign small in
    let e' = subst (λ s. clean typed ≡ zeros k ++ s) (ap without_zeros value ∙ same) e in
    rw value (
      read-default n typed k sign small e'
        (subst (λ s. k + length s ≤ 25) (ap without_zeros value ∙ same) short))
read-Origin series typed number k ref sign (named _ full good fits value) small e short =
    let y = other series (pos_part number) in
    rw value (
      read-named y typed k
        (All-append _ (encode_series series) _ (encode_series-digits series)
          (omega arith, format_int-digits (pos_part number)))
        (other-Leads series (pos_part number) full good) fits
        (subst (λ s. clean typed ≡ zeros k ++ without_zeros s) value e)
        (subst (λ s. k + length (without_zeros s) ≤ 25) value short))

-- A reference issued for an invoice of any series, with a number that an int64 holds, is read as
-- itself from anything that comes, once spaces and hyphens are dropped, to it with any number of
-- leading zeros, of at most 25 digits in all.
pub check_ocr-ocr_for :
    (series typed : Text) (number : ℤ) (k : ℕ) {ref : Text}
    → ocr_for series number ≡ ok ref
    → pos_part number < 2 ^ 63
    → clean typed ≡ zeros k ++ without_zeros ref
    → k + length (without_zeros ref) ≤ 25
    → check_ocr typed ≡ ok ref
check_ocr-ocr_for series typed number k {ref} issued small e short =
    let (sign, origin) = ocr_for-Origin series number ref issued in
    read-Origin series typed number k ref sign origin small e short
