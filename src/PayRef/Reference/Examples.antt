-- ===== src/PayRef/Reference/Examples.antt =====
-- References of internal/payref/payref.go that are issued and typed.
use free_sms.Common.{◌≡◌, refl, arith, ◌++◌}
use free_sms.Common.Int.{pos}
use free_sms.Common.Text.{codes, trim_space, trim, trim_left, is_space, without, is_digit}
use free_sms.Money.Format.{fill}
use free_sms.PayRef.CheckDigit.{format_int, check_digit, luhn_sum, digit_value, doubled}
use free_sms.PayRef.Reference.{
  ok, err, wrong_check_digit, ocr, ocr_for, with_digits, clean, is_separator, check_ocr, all_digits,
  check_matches, choose_reference, length_digit_fits,
}
use free_sms.PayRef.Reference.Issued.{zeros}
use free_sms.PayRef.Reference.RoundTrip.{without_zeros, check_ocr-ocr_for}

issued_1234 : ocr_for (codes "A") (pos 1234) ≡ ok (codes "123463")
unfolding ocr_for ocr with_digits format_int fill check_digit luhn_sum digit_value doubled
issued_1234 = refl

mistyped : check_ocr (codes "123 476") ≡ err wrong_check_digit
unfolding check_ocr clean is_separator trim_space trim trim_left is_space without all_digits
    is_digit check_matches choose_reference length_digit_fits check_digit luhn_sum digit_value
    doubled
mistyped = refl

typed_1234 : clean (codes " 00-12 3463") ≡ zeros 2 ++ without_zeros (codes "123463")
unfolding clean is_separator trim_space trim trim_left is_space without
typed_1234 = refl

check_ocr-ocr_for_example : check_ocr (codes " 00-12 3463") ≡ ok (codes "123463")
unfolding trim_left
check_ocr-ocr_for_example =
    check_ocr-ocr_for (codes "A") (codes " 00-12 3463") (pos 1234) 2 issued_1234 (omega arith)
      typed_1234 (omega arith)
