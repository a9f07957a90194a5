-- ===== src/PayRef/Reference.antt =====
-- `OCR`, `OCRFor` and `CheckOCR` of internal/payref/payref.go: the reference of an invoice, and one
-- that somebody typed.
mod Examples
pub mod Issued
pub mod Zeros
pub mod RoundTrip
use free_sms.Common.{
  ℕ, zero, suc, ◌+◌, ◌-◌, ◌%◌, ◌≤◌, Bool, true, false, not, ◌&&◌, ◌||◌, List, [], ◌∷◌, ◌++◌,
  reverse, leb, ltb, ◌==◌, if◌then◌else◌, length,
}
use free_sms.Common.Int.{ℤ, pos, pos_part, leb_ℤ}
use free_sms.Common.Text.{
  Text, codes, text_eq, byte_len, is_empty, is_digit, trim_space, trim_left, without,
}
use free_sms.PayRef.CheckDigit.{format_int, check_digit}

abbrev pub max_reference : ℕ
max_reference = 25

-- What is wrong: `ErrNotAReference`, `ErrCheckDigit` and `ErrLengthDigit`, and the three messages
-- of `OCR` and `OCRFor` about their arguments.
pub data ReferenceError : Type 0 where
  not_a_reference wrong_check_digit wrong_length_digit : ReferenceError
  bad_number no_series bad_series : ReferenceError

pub data Reference : Type 0 where
  ok : Text → Reference
  err : ReferenceError → Reference

-- A body with its length digit and its check digit.
pub with_digits : Text → Text
with_digits body =
    let numbered = body ++ format_int ((length body + 2) % 10) in
    numbered ++ (check_digit numbered ∷ [])

pub ocr : ℤ → Reference
ocr number =
    let n = format_int (pos_part number) in
    if leb_ℤ number (pos 0)
    then err bad_number
    else if ltb max_reference (length n + 2)
    then err not_a_reference
    else ok (with_digits n)

abbrev pub default_series : Text
default_series = codes "A"

pub is_capital : ℕ → Bool
is_capital r = leb b'A' r && leb r b'Z'

-- The loop over the series: two digits for each character.
pub encode_series : Text → Text
encode_series [] = []
encode_series (r ∷ s) =
    format_int (if is_capital r then r - b'A' + 10 else r - b'0' + 36) ++ encode_series s

pub is_series : Text → Bool
is_series [] = true
is_series (r ∷ s) = (is_capital r || is_digit r) && is_series s

pub ocr_for : Text → ℤ → Reference
ocr_for series number =
    let body = b'0' ∷ (encode_series series ++ (b'0' ∷ format_int (pos_part number))) in
    if text_eq series default_series
    then ocr number
    else if leb_ℤ number (pos 0)
    then err bad_number
    else if is_empty series
    then err no_series
    else if not (is_series series)
    then err bad_series
    else if ltb max_reference (length body + 2)
    then err not_a_reference
    else ok (with_digits body)

-- The characters that `CheckOCR` drops.
pub is_separator : ℕ → Bool
is_separator r = (r == b' ') || (r == b'-')

pub clean : Text → Text
clean typed = without is_separator (trim_space typed)

pub all_digits : Text → Bool
all_digits [] = true
all_digits (c ∷ s) = is_digit c && all_digits s

-- A text of at least two characters, from its end: the last, the last but one, and the rest.
pub check_matches : Text → Bool
check_matches [] = false
check_matches (c ∷ s) = check_digit (reverse s) == c

-- The length digit is the last but one.
pub length_digit_fits : Text → Text → Bool
length_digit_fits ref (c ∷ l ∷ s) =
    leb 3 (length ref) && leb (length ref) max_reference && (l - b'0' == length ref % 10)
length_digit_fits ref s = false

pub choose_reference : Text → Reference
choose_reference bare =
    if length_digit_fits bare (reverse bare)
    then ok bare
    else if length_digit_fits (b'0' ∷ bare) (reverse (b'0' ∷ bare))
    then ok (b'0' ∷ bare)
    else err wrong_length_digit

pub check_ocr : Text → Reference
check_ocr typed =
    let s = clean typed in
    if ltb (byte_len s) 2 || ltb max_reference (byte_len s)
    then err not_a_reference
    else if not (all_digits s)
    then err not_a_reference
    else if not (check_matches (reverse s))
    then err wrong_check_digit
    else choose_reference (trim_left (λ c. c == b'0') s)
