-- ===== src/Dealer/Calculation/Examples.antt =====
-- Calculations of internal/workshop/dealer_calculations.go at concrete cars.
use free_sms.Common.{◌≡◌, refl, [], ◌∷◌, none, some}
use free_sms.Common.Int.{pos, wrap, add64, sub64, mul64, quot64, neg64, ◌+ℤ◌, ◌-ℤ◌, ◌*ℤ◌}
use free_sms.Common.Text.{codes, trim_space, trim, trim_left, is_space}
use free_sms.Money.Rounding.{div_round, share, scale, margin_scheme_vat}
use free_sms.Dealer.{seller_private, company_charged_vat}
use free_sms.Dealer.Calculation.{
  CalculationInput, cost_parts, cost_transport, cost_unknown, check, result, calc_cost,
  margin_scheme_bid,
}
use free_sms.Dealer.Calculation.Result.{IsAnswer, result-IsAnswer}

-- To sell at a hundred thousand kronor, with five per cent of it as the margin.
abbrev car : CalculationInput
car = record {
  expected_sale_gross_minor = some (pos 10_000_000);
  costs =
      record { kind = cost_parts; net_minor = pos 350_000 }
      ∷ record { kind = cost_transport; net_minor = pos 90_001 }
      ∷ [];
  expected_stock_days = pos 60;
  holding_per_day_minor = pos 2_500;
  target_margin_minor = none;
  target_margin_basis = some (pos 500);
  seller_type = seller_private;
  note = codes "two sets of wheels";
}

car_passes : check car ≡ none
unfolding check trim_space trim trim_left is_space
car_passes = refl

car_bids :
    (result car).margin_bid
    ≡ some (record { max_bid_minor = pos 8_637_499; sale_vat_minor = pos 272_500 })
unfolding result div_round share scale margin_scheme_vat add64 sub64 mul64 quot64 neg64 wrap ◌+ℤ◌
    ◌-ℤ◌ ◌*ℤ◌
car_bids = refl

not_eligible : (result (record car { seller_type = company_charged_vat })).margin_bid ≡ none
unfolding result
not_eligible = refl

unknown_cost :
    check (record car { costs = record { kind = cost_unknown; net_minor = pos 1 } ∷ [] })
    ≡ some calc_cost
unfolding check trim_space
unknown_cost = refl

-- Two öre to keep: the price that the loops begin with is one too low.
raised_by_one : (margin_scheme_bid (pos 100) (pos 2)).max_bid_minor ≡ pos 98
unfolding margin_scheme_bid div_round scale margin_scheme_vat add64 sub64 mul64 quot64 neg64 wrap
    ◌+ℤ◌ ◌-ℤ◌ ◌*ℤ◌
raised_by_one = refl

result-IsAnswer_example : IsAnswer car 10_000_000 (result car)
result-IsAnswer_example = result-IsAnswer car 10_000_000 car_passes refl
