-- ===== src/Money/Format.antt =====
-- How internal/money/money.go writes an amount: `Format`, the machine's form, and `Display`.
pub mod Digits
use free_sms.Common.{
  ℕ, zero, suc, ◌+◌, ◌-◌, ◌/◌, ◌%◌, Bool, true, false, ◌||◌, List, [], ◌∷◌, ◌++◌, leb, ltb, ◌==◌,
  if◌then◌else◌, length, take, drop,
}
use free_sms.Common.Int.{ℤ, pos, pos_part, neg64, quot64, rem64, ltb_ℤ, eqb_ℤ}
use free_sms.Common.Text.{Text, codes, is_empty, trim_space, text_eq}

-- The loop of `itoa`: `room` is `i`, what is left of its 20 bytes. Ten to the twentieth is above
-- every int64, so it never runs out.
unfoldable pub fill : ℕ → ℕ → Text → Text
fill zero n b = b
fill (suc room) n b =
    let more = fill room (n / 10) ((b'0' + n % 10) ∷ b) in if n == 0 then b else more

-- A negative number other than 0 enters the loop not once.
unfoldable pub itoa : ℤ → Text
itoa n = if eqb_ℤ n (pos 0) then b'0' ∷ [] else fill 20 (pos_part n) []

unfoldable pub pad2 : ℤ → Text
pad2 n = if ltb_ℤ n (pos 10) then b'0' ∷ itoa n else itoa n

unfoldable pub sign_of : ℤ → Text
sign_of minor = if ltb_ℤ minor (pos 0) then b'-' ∷ [] else []

unfoldable pub magnitude : ℤ → ℤ
magnitude minor = if ltb_ℤ minor (pos 0) then neg64 minor else minor

unfoldable pub format : ℤ → Text
format minor =
    sign_of minor
    ++ (itoa (quot64 (magnitude minor) (pos 100))
        ++ (b'.' ∷ pad2 (rem64 (magnitude minor) (pos 100))))

pub record Display : Type 0 where
  pub group : Text
  pub point : Text
  pub currency : Text
  pub prefix : Bool

unfoldable pub display_for : Text → Text → Display
unfolding trim_space
display_for locale currency =
    let trimmed = trim_space currency in
    let symbol = if text_eq trimmed (codes "SEK") then codes "kr" else trimmed in
    if text_eq locale (codes "sv")
    then record { group = 0xa0 ∷ []; point = codes ","; currency = symbol; prefix = false }
    else record { group = codes ","; point = codes "."; currency = trimmed; prefix = true }

-- The loop of `group`: a separator and the next three digits, as long as there are any. The digits
-- left are a multiple of three.
unfoldable pub grouped : Text → Text → Text
grouped sep (a ∷ b ∷ c ∷ s) = sep ++ (a ∷ b ∷ c ∷ grouped sep s)
grouped sep s = []

unfoldable pub group : Text → Text → Text
group digits sep =
    let lead = if length digits % 3 == 0 then 3 else length digits % 3 in
    if leb (length digits) 3 || is_empty sep
    then digits
    else take lead digits ++ grouped sep (drop lead digits)

-- `Display.Amount`.
unfoldable pub amount : Display → ℤ → Text
amount d minor =
    let number =
      sign_of minor
      ++ (group (itoa (quot64 (magnitude minor) (pos 100))) d.group
          ++ (d.point ++ pad2 (rem64 (magnitude minor) (pos 100)))) in
    if is_empty d.currency
    then number
    else if d.prefix
    then d.currency ++ (codes " " ++ number)
    else number ++ (codes " " ++ d.currency)
