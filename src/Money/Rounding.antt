-- ===== src/Money/Rounding.antt =====
-- The one rounding rule of internal/money/money.go, and the amounts made with it.
mod Examples
pub mod Nearest
pub mod Amounts
pub mod Margin
use free_sms.Common.{ℕ, ◌+◌, Bool, ◌&&◌, ◌||◌, ◌≡◌, if◌then◌else◌}
use free_sms.Common.Int.{ℤ, pos, negsuc, add64, sub64, mul64, neg64, quot64, ltb_ℤ, leb_ℤ, eqb_ℤ}

-- `divRound`: the quotient rounded half away from zero, and 0 over a denominator of 0.
unfoldable pub div_round : ℤ → ℤ → ℤ
div_round numerator denominator =
    if eqb_ℤ denominator (pos 0)
    then pos 0
    else if leb_ℤ (pos 0) numerator
    then quot64 (add64 numerator (quot64 denominator (pos 2))) denominator
    else neg64 (quot64 (add64 (neg64 numerator) (quot64 denominator (pos 2))) denominator)

abbrev pub max_unit_price_minor : ℤ
max_unit_price_minor = pos 1_000_000_000

abbrev pub max_quantity_milli : ℤ
max_quantity_milli = pos 100_000_000

unfoldable pub line_within_limits : ℤ → ℤ → Bool
line_within_limits quantity_milli unit_price_minor =
    leb_ℤ quantity_milli max_quantity_milli && leb_ℤ unit_price_minor max_unit_price_minor

unfoldable pub line_net : ℤ → ℤ → ℤ
line_net quantity_milli unit_price_minor =
    div_round (mul64 quantity_milli unit_price_minor) (pos 1000)

unfoldable pub vat : ℤ → ℤ → ℤ
vat net_minor rate_basis_points = div_round (mul64 net_minor rate_basis_points) (pos 10000)

unfoldable pub share : ℤ → ℤ → ℤ
share minor basis_points = div_round (mul64 minor basis_points) (pos 10000)

unfoldable pub scale : ℤ → ℤ → ℤ → ℤ
scale minor numerator denominator = div_round (mul64 minor numerator) denominator

unfoldable pub margin_scheme_vat : ℤ → ℤ → ℤ → ℤ
margin_scheme_vat sale_price_gross_minor tax_purchase_price_minor rate_basis_points =
    let margin = sub64 sale_price_gross_minor tax_purchase_price_minor in
    if leb_ℤ margin (pos 0) || leb_ℤ rate_basis_points (pos 0)
    then pos 0
    else div_round (mul64 margin rate_basis_points) (add64 (pos 10000) rate_basis_points)

unfoldable pub vat_in_gross : ℤ → ℤ → ℤ
vat_in_gross gross_minor rate_basis_points =
    div_round (mul64 gross_minor rate_basis_points) (add64 (pos 10000) rate_basis_points)

abbrev pub max_vehicle_minor : ℤ
max_vehicle_minor = pos 100_000_000_000

-- `MarginSchemeResult`.
pub record MarginSchemeResult : Type 0 where
  pub margin_minor : ℤ
  pub vat_minor : ℤ
  pub base_minor : ℤ

-- A result, or `ErrVehicleAmount`.
pub data MarginSchemeAnswer : Type 0 where
  ok : MarginSchemeResult → MarginSchemeAnswer
  err_vehicle_amount : MarginSchemeAnswer

unfoldable pub margin_scheme : ℤ → ℤ → ℤ → MarginSchemeAnswer
margin_scheme sale purchase rate =
    let margin = sub64 sale purchase in
    let vat_part = margin_scheme_vat sale purchase rate in
    if ltb_ℤ sale (pos 0)
      || ltb_ℤ max_vehicle_minor sale
      || ltb_ℤ purchase (pos 0)
      || ltb_ℤ max_vehicle_minor purchase
      || ltb_ℤ rate (pos 0)
      || ltb_ℤ (pos 10000) rate
    then err_vehicle_amount
    else ok (record {
      margin_minor = margin;
      vat_minor = vat_part;
      base_minor = if ltb_ℤ (pos 0) margin then sub64 margin vat_part else pos 0;
    })

unfoldable pub business_margin : ℤ → ℤ → ℤ → ℤ → ℤ
business_margin net_revenue_minor purchase_minor costs_minor other_income_minor =
    add64 (sub64 (sub64 net_revenue_minor purchase_minor) costs_minor) other_income_minor

unfoldable pub with_markup : ℤ → ℤ → ℤ
with_markup cost_minor basis_points =
    add64 cost_minor (div_round (mul64 cost_minor basis_points) (pos 10000))

-- A whole number of the currency's unit, for cash.
unfoldable pub cash_round : ℤ → ℤ
cash_round gross_minor = mul64 (div_round gross_minor (pos 100)) (pos 100)
