-- ===== src/Server/Amounts/Examples.antt =====
-- Amounts that a form may hold, read by internal/server/handlers_state.go and handlers_day.go.
use free_sms.Common.{◌≡◌, refl, arith}
use free_sms.Common.Int.{pos, negsuc, add64, mul64, wrap, ◌+ℤ◌, ◌*ℤ◌}
use free_sms.Common.Text.{
  codes, trim_space, trim, trim_left, is_space, without, replace_first, cut, parse_int, scan,
  is_digit,
}
use free_sms.Money.Format.{format}
use free_sms.Server.Amounts.{
  ok, err, parse_minor_units, parse_minor_signed, parse_scaled, read_whole, read_decimals,
  add_minor, pad, scale_of, too_many_decimals,
}
use free_sms.Server.Amounts.RoundTrip.{parse_minor_signed-format}

comma : parse_minor_units (codes " 1 295,50") ≡ ok (pos 129550)
unfolding parse_minor_units parse_scaled read_whole read_decimals add_minor pad scale_of trim_space
    trim trim_left is_space without replace_first cut parse_int scan is_digit add64 mul64 wrap ◌+ℤ◌
    ◌*ℤ◌
comma = refl

three_decimals : parse_minor_units (codes "1.005") ≡ err too_many_decimals
unfolding parse_minor_units parse_scaled read_whole read_decimals add_minor pad scale_of trim_space
    trim trim_left is_space without replace_first cut parse_int scan is_digit add64 mul64 wrap ◌+ℤ◌
    ◌*ℤ◌
three_decimals = refl

-- The decimals are read by `strconv.ParseInt`, which takes a sign: the amount is negative.
signed_decimals : parse_minor_units (codes "0,-5") ≡ ok (negsuc 4)
unfolding parse_minor_units parse_scaled read_whole read_decimals add_minor pad scale_of trim_space
    trim trim_left is_space without replace_first cut parse_int scan is_digit add64 mul64 wrap ◌+ℤ◌
    ◌*ℤ◌
signed_decimals = refl

parse_minor_signed-format_example : parse_minor_signed (format (negsuc 129549)) ≡ ok (negsuc 129549)
parse_minor_signed-format_example = parse_minor_signed-format (negsuc 129549) (omega arith)
