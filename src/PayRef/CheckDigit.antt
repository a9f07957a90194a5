-- ===== src/PayRef/CheckDigit.antt =====
-- `CheckDigit` of internal/payref/payref.go, and decimal numbers as strconv writes them.
mod Examples
pub mod Errors
use free_sms.Common.{
  ℕ, zero, suc, ◌+◌, ◌-◌, ◌*◌, ◌%◌, Bool, true, false, not, List, [], ◌∷◌, ◌++◌, reverse, leb, ltb,
  ◌==◌, if◌then◌else◌,
}
use free_sms.Common.Text.{Text}
use free_sms.Money.Format.{fill}

-- `strconv.FormatInt(n, 10)` of a number that is not negative, and `strconv.Itoa`: below 10^20.
unfoldable pub format_int : ℕ → Text
format_int n = if n == 0 then b'0' ∷ [] else fill 20 n []

-- A digit's value, as the byte that it is.
unfoldable pub digit_value : ℕ → ℕ
digit_value c = (c + 256 - b'0') % 256

unfoldable pub doubled : ℕ → ℕ
doubled d = if ltb 9 (d * 2) then d * 2 - 9 else d * 2

-- The loop of `CheckDigit`, over the digits from the right: every other one is doubled.
unfoldable pub luhn_sum : Bool → Text → ℕ
luhn_sum twice [] = 0
luhn_sum twice (c ∷ s) =
    (if twice then doubled (digit_value c) else digit_value c) + luhn_sum (not twice) s

unfoldable pub check_digit : Text → ℕ
check_digit digits = b'0' + (10 - luhn_sum true (reverse digits) % 10) % 10
