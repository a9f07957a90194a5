-- ===== src/Server/Amounts.antt =====
-- How a form's amounts are read: `parseScaled` and `parseMinorUnits` of
-- internal/server/handlers_state.go and `parseMinorSigned` of internal/server/handlers_day.go.
mod Examples
pub mod RoundTrip
use free_sms.Common.{
  ℕ, zero, suc, ◌+◌, ◌-◌, ◌^◌, Bool, true, false, ◌||◌, Option, none, some, [], ◌∷◌, ◌++◌, leb, ltb,
  ◌==◌, if◌then◌else◌, length, replicate,
}
use free_sms.Common.Int.{ℤ, pos, add64, mul64, neg64, ltb_ℤ}
use free_sms.Common.Text.{
  Text, byte_len, is_empty, trim_space, without, replace_first, cut, parse_int, has_prefix,
  trim_prefix,
}

pub data AmountError : Type 0 where
  not_a_number too_large too_many_decimals : AmountError

-- An amount, or the error that the reader is shown.
pub data Read : Type 0 where
  ok : ℤ → Read
  err : AmountError → Read

-- The loop that fills the decimals up.
pub pad : ℕ → Text → Text
pad decimals frac = frac ++ replicate (decimals - byte_len frac) b'0'

-- `scale`: the loop multiplies it by ten for each decimal.
pub scale_of : ℕ → ℤ
scale_of zero = pos 1
scale_of (suc n) = mul64 (scale_of n) (pos 10)

pub add_minor : ℤ → ℕ → Option ℤ → Read
add_minor major decimals none = err not_a_number
add_minor major decimals (some minor) = ok (add64 (mul64 major (scale_of decimals)) minor)

-- What follows the decimal point, once the whole part is read.
pub read_decimals : ℤ → ℕ → Text → Bool → Read
read_decimals major decimals frac false = ok (add64 (mul64 major (scale_of decimals)) (pos 0))
read_decimals major decimals frac true =
    if ltb decimals (byte_len frac)
    then err too_many_decimals
    else if is_empty (pad decimals frac)
    then ok (add64 (mul64 major (scale_of decimals)) (pos 0))
    else add_minor major decimals (parse_int (pad decimals frac))

pub read_whole : Option ℤ → ℕ → Text → Bool → Read
read_whole none decimals frac has_frac = err not_a_number
read_whole (some major) decimals frac has_frac =
    if ltb_ℤ major (pos 0)
    then err not_a_number
    else if ltb_ℤ (pos 999_999_999_999) major
    then err too_large
    else read_decimals major decimals frac has_frac

pub parse_scaled : Text → ℕ → Read
parse_scaled s decimals =
    let plain =
      replace_first b',' b'.'
        (without (λ c. c == 0xa0) (without (λ c. c == b' ') (trim_space s))) in
    let (whole, frac, has_frac) = cut b'.' plain in
    if is_empty (trim_space s)
    then ok (pos 0)
    else read_whole (parse_int (if is_empty whole then b'0' ∷ [] else whole)) decimals frac has_frac

pub parse_minor_units : Text → Read
parse_minor_units s = parse_scaled s 2

pub negate_if : Bool → Read → Read
negate_if negative (err e) = err e
negate_if false (ok n) = ok n
negate_if true (ok n) = ok (neg64 n)

pub parse_minor_signed : Text → Read
parse_minor_signed v =
    negate_if (has_prefix b'-' (trim_space v)) (parse_minor_units (trim_prefix b'-' (trim_space v)))
