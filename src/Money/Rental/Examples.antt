-- ===== src/Money/Rental/Examples.antt =====
-- Rentals of internal/money/rental.go that are billed.
use free_sms.Common.{
  ℕ, ◌≤◌, ◌<◌, ◌+◌, ◌-◌, length, ◌*◌, ◌≡◌, refl, true, none, some, List, [], ◌∷◌, arith,
}
use free_sms.Common.Int.{pos, add64, mul64, quot64, wrap, ◌+ℤ◌, ◌*ℤ◌}
use free_sms.Common.Calendar.{
  hour, day, month_start, month_of, add_months, weekday, hour_of, add_months-ge,
}
use free_sms.Money.Rounding.{line_net, div_round}
use free_sms.Money.Rental.{
  unit_price, RateTerms, RentalLine, unit_day, unit_weekend, ok, price_wall, needed, max_months,
}
use free_sms.Money.Rental.Months.{max_months-end}
use free_sms.Money.Rental.Net.{ArePrices}
use free_sms.Money.Rental.Cheapest.{IsCheapest}
use free_sms.Money.Rental.Seasons.{Zone, Season, wall_end, price_rental, price_rental_seasons}
use free_sms.Money.Rental.Seasons.Counts.{IsInForce, IsWhole, price_rental_seasons-IsWhole}
use free_sms.Money.Rental.Seasons.Bill.{price_rental-IsCheapest}

-- The month of March 2024 begins on a Friday; a month after the end of January is in March.
march : month_start (2023 * 12 + 2) ≡ 738945
unfolding month_start
march = refl

overflow : add_months ((738945 - 30) * day) 1 ≡ (738945 + 1) * day
unfolding add_months month_start month_of
overflow = refl

abbrev friday_at : ℕ → ℕ
friday_at h = 738945 * day + h * hour

friday : weekday (friday_at 12) ≡ 5
unfolding weekday
friday = refl

abbrev plan : RateTerms
plan = record {
  prices = record {
    hourly = some (pos 8000);
    daily = some (pos 50000);
    weekend = some (pos 90000);
    weekly = some (pos 250000);
    monthly = none;
  };
  minimum = 0;
  grace = 30 * 60 * 1_000_000_000;
}

-- From Friday at noon to Sunday at ten is a weekend; from ten o'clock it is two days.
weekend :
    price_wall (friday_at 12) (friday_at (48 + 10)) plan true
    ≡ ok (record { unit = unit_weekend; count = 1; unit_price = pos 90000; season = 0 } ∷ [])
unfolding price_wall line_net div_round add64 mul64 quot64 wrap ◌+ℤ◌ ◌*ℤ◌ weekday hour_of add_months
    month_start month_of
weekend = refl

two_days :
    price_wall (friday_at 10) (friday_at (48 + 10)) plan true
    ≡ ok (record { unit = unit_day; count = 2; unit_price = pos 50000; season = 0 } ∷ [])
unfolding price_wall line_net div_round add64 mul64 quot64 wrap ◌+ℤ◌ ◌*ℤ◌ weekday hour_of add_months
    month_start month_of
two_days = refl

plan-ArePrices : ArePrices plan.prices
plan-ArePrices = record {
  hourly = omega arith;
  daily = omega arith;
  weekend = omega arith;
  weekly = omega arith;
  monthly = omega arith;
}

-- A zone an hour ahead of the instants.
abbrev ahead : Zone
ahead t = t + hour

price_rental-IsCheapest_example :
    IsCheapest plan.prices true
      (friday_at 9 + hour)
      (needed (friday_at 9 + hour) (wall_end ahead (friday_at 9) (friday_at 60)) plan)
      (price_rental ahead (friday_at 9) (friday_at 60) plan)
unfolding wall_end
price_rental-IsCheapest_example =
    price_rental-IsCheapest ahead (friday_at 9) (friday_at 60) plan (omega arith)
      (omega (arith, add_months-ge (friday_at 9 + hour) 60)) (omega arith) plan-ArePrices

-- A dearer season begins on the Saturday at nine.
abbrev dearer : RateTerms
dearer = record plan { prices = record plan.prices { daily = some (pos 60000) } }

abbrev two_seasons : List Season
two_seasons =
    record { starts = friday_at 0; terms = plan }
    ∷ record { starts = friday_at (24 + 9); terms = dearer }
    ∷ []

abbrev split_bill : List RentalLine
split_bill =
    record { unit = unit_day; count = 1; unit_price = pos 50000; season = 0 }
    ∷ record { unit = unit_day; count = 1; unit_price = pos 60000; season = 1 }
    ∷ []

split_at_nine :
    price_rental_seasons ahead (friday_at 9) (friday_at (48 + 9)) two_seasons true ≡ ok split_bill
unfolding price_rental_seasons unit_price line_net div_round add64 mul64 quot64 wrap ◌+ℤ◌ ◌*ℤ◌
    add_months month_start month_of
split_at_nine = refl

price_rental_seasons-IsWhole_example :
    (earlier : List Season) × (s : Season) × (later : List Season) × IsInForce
      (friday_at 9)
      two_seasons
      earlier
      s
      later
    × IsWhole ahead (friday_at 9) (friday_at (48 + 9)) true (length earlier) s later split_bill
price_rental_seasons-IsWhole_example =
    price_rental_seasons-IsWhole ahead (friday_at 9) (friday_at (48 + 9)) two_seasons true
      split_bill split_at_nine

max_months-end_example :
    (friday_at 10 + 40 * day
      ≤ add_months
          (friday_at 10)
          (max_months (some (pos 900_000)) (friday_at 10) (friday_at 10 + 40 * day)))
    × ((k : ℕ)
        → k < max_months (some (pos 900_000)) (friday_at 10) (friday_at 10 + 40 * day)
        → add_months (friday_at 10) k < friday_at 10 + 40 * day)
max_months-end_example =
    max_months-end (some (pos 900_000)) (friday_at 10) (friday_at 10 + 40 * day) refl
