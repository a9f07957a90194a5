-- ===== src/PayRef/Payment.antt =====
-- `SwishNumber`, `Swish` and `GiroOf` of internal/payref/payref.go: what an invoice's codes carry.
mod Examples
pub mod Amount
pub mod Fields
pub mod Account
use free_sms.Common.{
  ℕ, suc, ◌+◌, ◌/◌, ◌%◌, Bool, true, false, not, ◌&&◌, ◌||◌, List, [], ◌∷◌, ◌++◌, leb, ltb, ◌==◌,
  if◌then◌else◌,
}
use free_sms.Common.Int.{ℤ, pos, pos_part, leb_ℤ}
use free_sms.Common.Text.{
  Text, codes, text_eq, byte_len, is_empty, is_digit, trim_space, trim, without,
}
use free_sms.PayRef.CheckDigit.{format_int}

abbrev pub swish_message_max : ℕ
swish_message_max = 50

-- `strings.ContainsRune`.
abbrev pub contains_rune : Text → ℕ → Bool
contains_rune [] r = false
contains_rune (c ∷ s) r = (c == r) || contains_rune s r

unfoldable pub is_allowed : ℕ → Bool
unfolding is_digit
is_allowed r =
    (r == b' ')
    || is_digit r
    || (leb b'a' r && leb r b'z')
    || (leb b'A' r && leb r b'Z')
    || contains_rune (codes "åäöÅÄÖéÉüÜ:.,?!()-\"") r

-- The loop of `swishMessage`, with the characters written so far.
unfoldable pub keep_allowed : ℕ → Text → Text
unfolding is_allowed
keep_allowed n [] = []
keep_allowed n (r ∷ s) =
    let dropped = not (is_allowed r) || (n == swish_message_max) in
    let rest = keep_allowed (if dropped then n else suc n) s in if dropped then rest else r ∷ rest

unfoldable pub swish_message : Text → Text
unfolding keep_allowed trim_space
swish_message m = trim_space (keep_allowed 0 m)

-- What `strings.Map` makes of a typed number: an x for what a number cannot hold.
unfoldable pub swish_digits : Text → Text
unfolding is_digit
swish_digits [] = []
swish_digits (r ∷ s) =
    let rest = swish_digits s in
    if is_digit r then r ∷ rest else if (r == b' ') || (r == b'-') then rest else b'x' ∷ rest

unfoldable pub swish_number : Text → Text
unfolding swish_digits trim_space
swish_number typed =
    let s = swish_digits (trim_space typed) in
    if not (byte_len s == 10) || contains_rune s b'x' then [] else s

-- The code, or what is wrong: the number, or that nothing is to be paid.
pub data Swish : Type 0 where
  ok : Text → Swish
  not_a_number nothing_to_pay : Swish

-- `%02d` of a number below a hundred.
unfoldable pub two_digits : ℕ → Text
unfolding format_int
two_digits n = if ltb n 10 then b'0' ∷ format_int n else format_int n

unfoldable pub swish_amount : ℕ → Text
unfolding two_digits
swish_amount minor =
    format_int (minor / 100) ++ (if minor % 100 == 0 then [] else b',' ∷ two_digits (minor % 100))

unfoldable pub swish : Text → ℤ → Text → Swish
unfolding swish_number swish_amount swish_message
swish number amount_minor message =
    let n = swish_number number in
    if is_empty n
    then not_a_number
    else if leb_ℤ amount_minor (pos 0)
    then nothing_to_pay
    else ok (
        b'C'
        ∷ (n
            ++ (b';'
                ∷ (swish_amount (pos_part amount_minor)
                    ++ (b';' ∷ (swish_message message ++ codes ";0"))))))

-- A bankgiro or a plusgiro; both texts are empty for none.
pub record Giro : Type 0 where
  pub kind : Text
  pub account : Text

abbrev pub max_giro_digits : ℕ
max_giro_digits = 8

-- The loop of `GiroOf`, with what is written, the digits in it, and whether a hyphen and a space
-- were seen.
unfoldable pub read_giro : Text → ℕ → Bool → Bool → Text → Text
unfolding is_digit
read_giro b digits hyphen spaced [] = b
read_giro b digits hyphen spaced (r ∷ s) =
    let stop = spaced && (hyphen || leb max_giro_digits digits) in
    elim (is_digit r) [
      | true ↦ (elim stop [
        | true ↦ b
        | false ↦ read_giro (b ++ (r ∷ [])) (suc digits) hyphen false s
      ])
      | false ↦ (elim (is_empty b) [
        | true ↦ read_giro b digits hyphen spaced s
        | false ↦ (elim (r == b'-') [
          | true ↦ (elim hyphen [
            | true ↦ b
            | false ↦ read_giro (b ++ (r ∷ [])) digits true false s
          ])
          | false ↦ (elim (r == b' ') [ true ↦ read_giro b digits hyphen true s | false ↦ b ])
        ])
      ])
    ]

abbrev pub no_giro : Giro
no_giro = record { kind = []; account = [] }

unfoldable pub giro_with : Text → ℕ → Text → Giro
unfolding read_giro
giro_with kind least printed =
    let account = trim (λ c. c == b'-') (read_giro [] 0 false false printed) in
    let n = byte_len (without (λ c. c == b'-') account) in
    if ltb n least || ltb max_giro_digits n
    then no_giro
    else record { kind = kind; account = account }

unfoldable pub giro_of : Text → Text → Giro
unfolding giro_with
giro_of scheme printed =
    if text_eq scheme (codes "bankgiro")
    then giro_with (codes "BG") 7 printed
    else if text_eq scheme (codes "plusgiro")
    then giro_with (codes "PG") 2 printed
    else no_giro
