-- ===== src/Money/Rental/Seasons/Bill.antt =====
-- `PriceRental` of internal/money/rental.go: a rental of instants is billed as its reading on the
-- wall clock, also where the clocks are changed under way.
use free_sms.Common.{ℕ, ◌≤◌, ◌<◌, ◌≡◌, true, false, leb, arith}
use free_sms.Common.Calendar.{add_months}
use free_sms.Money.Rental.{RateTerms, needed}
use free_sms.Money.Rental.Net.{ArePrices}
use free_sms.Money.Rental.Units.{span}
use free_sms.Money.Rental.Cheapest.{IsCheapest, price_wall-IsCheapest}
use free_sms.Money.Rental.Seasons.{Zone, wall, wall_end, price_rental}

-- The end comes after the start on the wall clock, in the hour that is lived twice too.
pub wall_end_after :
    (zone : Zone) (from to : ℕ) → from < to → wall zone from < wall_end zone from to
unfolding wall_end
wall_end_after zone from to h = ground arith

-- In any time zone a rental that ends after it starts, of up to five years on the wall clock, is
-- billed: with a minimum of up to ten years and prices from nothing to a hundred million kronor the
-- bill covers the time that is needed with units that the plan prices, or one weekend where that is
-- one, and no such bill is cheaper; there is no price only where nothing covers the time.
pub price_rental-IsCheapest :
    (zone : Zone) (from to : ℕ) (t : RateTerms)
    → from < to
    → wall_end zone from to ≤ add_months (wall zone from) 60
    → t.minimum ≤ span
    → ArePrices t.prices
    → IsCheapest t.prices true
        (wall zone from)
        (needed (wall zone from) (wall_end zone from to) t)
        (price_rental zone from to t)
unfolding price_rental
price_rental-IsCheapest zone from to t h k m v =
    let starts : leb to from ≡ false = ground arith in
    rw starts (
      price_wall-IsCheapest (wall zone from) (wall_end zone from to) t true
        (wall_end_after zone from to h) k m v)
