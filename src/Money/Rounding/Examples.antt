-- ===== src/Money/Rounding/Examples.antt =====
-- The rounding of internal/money/money.go at concrete amounts.
use free_sms.Common.{◌≡◌, refl, ◌≤◌, ◌^◌, arith}
use free_sms.Common.Int.{
  pos, negsuc, neg_ℤ, abs, sub64, add64, mul64, quot64, neg64, wrap, ◌+ℤ◌, ◌*ℤ◌, ◌≤ℤ◌,
}
use free_sms.Money.Rounding.{
  div_round, line_within_limits, line_net, vat, vat_in_gross, MarginSchemeResult, margin_scheme, ok,
  cash_round,
}
use free_sms.Money.Rounding.Nearest.{IsRounded, div_round-IsRounded, div_round-neg_ℤ}
use free_sms.Money.Rounding.Amounts.{line_net-IsRounded, vat-vat_in_gross}
use free_sms.Money.Rounding.Margin.{IsMarginResult, margin_scheme-IsMarginResult}

-- A tie on each side of zero.
tie_up : div_round (pos 25) (pos 10) ≡ pos 3
unfolding div_round add64 mul64 quot64 neg64 wrap ◌+ℤ◌ ◌*ℤ◌
tie_up = refl

tie_down : div_round (negsuc 24) (pos 10) ≡ negsuc 2
unfolding div_round add64 mul64 quot64 neg64 wrap ◌+ℤ◌ ◌*ℤ◌
tie_down = refl

cash_up : cash_round (pos 1250) ≡ pos 1300
unfolding cash_round div_round add64 mul64 quot64 neg64 wrap ◌+ℤ◌ ◌*ℤ◌
cash_up = refl

-- Three hours of work at 895 kronor, and 25 per cent of it.
three_hours : line_net (pos 3000) (pos 89500) ≡ pos 268500
unfolding line_net div_round add64 mul64 quot64 neg64 wrap ◌+ℤ◌ ◌*ℤ◌
three_hours = refl

div_round-IsRounded_example : IsRounded (negsuc 24) (div_round (negsuc 24) (pos 10)) 10
div_round-IsRounded_example =
    div_round-IsRounded (negsuc 24) 10 (omega arith) (omega arith) (omega arith)

div_round-neg_ℤ_example : div_round (neg_ℤ (pos 25)) (pos 10) ≡ neg_ℤ (div_round (pos 25) (pos 10))
div_round-neg_ℤ_example = div_round-neg_ℤ (pos 25) 10 (omega arith) (omega arith) (omega arith)

line_net-IsRounded_example :
    IsRounded (negsuc 1499 *ℤ pos 33333) (line_net (negsuc 1499) (pos 33333)) 1000
    × (abs (line_net (negsuc 1499) (pos 33333)) ≤ 10 ^ 14)
unfolding line_within_limits
line_net-IsRounded_example = line_net-IsRounded (negsuc 1499) (pos 33333) refl

vat-vat_in_gross_example :
    let inside = vat_in_gross (pos 129900) (pos 2500) in
    let net = sub64 (pos 129900) inside in
    (net +ℤ inside ≡ pos 129900)
    × (vat net (pos 2500) ≤ℤ inside +ℤ pos 1)
    × (inside ≤ℤ vat net (pos 2500) +ℤ pos 1)
vat-vat_in_gross_example = vat-vat_in_gross 129900 2500 (omega arith) (omega arith)

margin_scheme-IsMarginResult_example :
    (m : MarginSchemeResult) × (margin_scheme (pos 12500000) (pos 10000000) (pos 2500) ≡ ok m)
    × IsMarginResult 12500000 10000000 2500 m
margin_scheme-IsMarginResult_example =
    margin_scheme-IsMarginResult 12500000 10000000 2500 (omega arith) (omega arith) (omega arith)
