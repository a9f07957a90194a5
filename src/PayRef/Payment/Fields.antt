-- ===== src/PayRef/Payment/Fields.antt =====
-- The parts of a code that `Swish` of internal/payref/payref.go makes.
use free_sms.Common.{◌≤◌, ◌≡◌, false, not, ◌∷◌, ◌++◌, ◌==◌, All, length, take, some, ◌<◌}
use free_sms.Common.Int.{ℤ, pos_part}
use free_sms.Common.Text.{Text, codes, is_digit, trim_space, without}
use free_sms.Common.Text.Laws.{IsDigit}
use free_sms.PayRef.Payment.Amount.{read_amount, IsTyped}
use free_sms.PayRef.Payment.{is_allowed}

-- A text that cannot end a field of the code.
abbrev pub IsField : Text → Type 0
IsField = All (λ c. (c == b';') ≡ false)

-- What the parts of a code are, of a number and a message as they were typed and an amount in ören.
pub record IsCode (typed written : Text) (minor : ℤ) (code : Text) : Type 0 where
  pub number : Text
  pub amount : Text
  pub message : Text
  pub whole : code ≡ b'C' ∷ (number ++ (b';' ∷ (amount ++ (b';' ∷ (message ++ codes ";0")))))
  pub number_typed : number ≡ without (λ c. not (is_digit c)) (trim_space typed)
  pub nothing_else : All IsTyped (trim_space typed)
  pub number_digits : All IsDigit number
  pub ten : length number ≡ 10
  pub amount_field : IsField amount
  pub amount_read : read_amount 0 amount ≡ some (pos_part minor)
  pub paid : 0 < pos_part minor
  pub message_kept : message ≡ trim_space (take 50 (without (λ c. not (is_allowed c)) written))
  pub message_field : IsField message
  pub short : length message ≤ 50
