-- ===== src/PayRef/CheckDigit/Examples.antt =====
-- Check digits of internal/payref/payref.go at concrete references.
use free_sms.Common.{ℕ, ◌≡◌, refl, ◌⊎◌, arith, ◌∷◌, ◌++◌}
use free_sms.Common.Text.{codes}
use free_sms.PayRef.CheckDigit.{check_digit, luhn_sum, digit_value, doubled}
use free_sms.PayRef.CheckDigit.Errors.{check_digit-single, check_digit-swap}

known : check_digit (codes "7992739871") ≡ b'3'
unfolding check_digit luhn_sum digit_value doubled
known = refl

-- 09 and 90 have the same check digit.
unseen_swap :
    check_digit (codes "1" ++ (b'0' ∷ b'9' ∷ codes "2"))
    ≡ check_digit (codes "1" ++ (b'9' ∷ b'0' ∷ codes "2"))
unfolding check_digit luhn_sum digit_value doubled
unseen_swap = refl

-- Two digits.
abbrev seven : ℕ
seven = b'7'

abbrev nought : ℕ
nought = b'0'

abbrev nine : ℕ
nine = b'9'

check_digit-single_example : seven ≡ seven
check_digit-single_example =
    check_digit-single (codes "12") (codes "34") seven seven (omega arith) (omega arith) refl

check_digit-swap_example :
    (nought ≡ nine) ⊎ ((nought ≡ b'0') × (nine ≡ b'9')) ⊎ ((nought ≡ b'9') × (nine ≡ b'0'))
check_digit-swap_example =
    check_digit-swap (codes "1") (codes "2") nought nine (omega arith) (omega arith) unseen_swap
