-- ===== src/Money/Rental/Seasons.antt =====
-- `PriceRental`, `PriceRentalSeasons` and `PriceExtension` of internal/money/rental.go. A zone is what
-- the time zone database says: the wall clock's reading at an instant.
pub mod Counts
pub mod Bill
use free_sms.Common.{
  ℕ, zero, suc, ◌+◌, ◌-◌, Bool, true, false, not, ◌&&◌, ◌||◌, List, [], ◌∷◌, ◌++◌, Option, none,
  some, reverse, map, leb, ltb, ◌==◌, if◌then◌else◌, length, drop,
}
use free_sms.Common.Int.{ℤ, pos, eqb_ℤ}
use free_sms.Common.Calendar.{add_months}
use free_sms.Money.Rental.{
  RatePrices, RateTerms, RentalLine, RentalUnit, unit_hour, unit_day, unit_weekend, unit_week,
  unit_month, RentalPrice, ok, err, ends_before_start, no_price_for, extends_nothing, unit_price,
  advance, for_range, price_wall,
}

abbrev pub Zone : Type 0
Zone = ℕ → ℕ

-- `wall`.
abbrev pub wall : Zone → ℕ → ℕ
wall zone t = zone t

unfoldable pub wall_end : Zone → ℕ → ℕ → ℕ
wall_end zone from to =
    let wf = wall zone from in let wt = wall zone to in if leb wt wf then wf + (to - from) else wt

unfoldable pub wall_duration : Zone → ℕ → ℕ → ℕ
unfolding wall_end
wall_duration zone from to = wall_end zone from to - wall zone from

unfoldable pub price_rental : Zone → ℕ → ℕ → RateTerms → RentalPrice
unfolding wall_end price_wall
price_rental zone from to terms =
    if leb to from
    then err ends_before_start
    else price_wall (wall zone from) (wall_end zone from to) terms true

pub record Season : Type 0 where
  pub starts : ℕ
  pub terms : RateTerms

-- The loop for the last season that has started: its index, and the one found so far.
unfoldable pub last_started : ℕ → List ℕ → ℕ → ℕ → ℕ
last_started t [] i found = found
last_started t (s ∷ ss) i found = last_started t ss (suc i) (if leb s t then i else found)

-- The seasons that start inside the rental: the first, and those up to one that starts later.
unfoldable pub before : ℕ → List Season → List Season
before to [] = []
before to (s ∷ ss) = if ltb s.starts to then s ∷ before to ss else []

unfoldable pub inside_of : ℕ → List Season → List Season
unfolding before
inside_of to [] = []
inside_of to (s ∷ ss) = s ∷ before to ss

abbrev pub starts_of : List Season → List ℕ
starts_of [] = []
starts_of (s ∷ ss) = s.starts ∷ starts_of ss

abbrev pub set_season : ℕ → List RentalLine → List RentalLine
set_season k [] = []
set_season k (l ∷ ls) = record l { season = k } ∷ set_season k ls

abbrev pub same_unit : RentalUnit → RentalUnit → Bool
same_unit unit_hour unit_hour = true
same_unit unit_day unit_day = true
same_unit unit_weekend unit_weekend = true
same_unit unit_week unit_week = true
same_unit unit_month unit_month = true
same_unit u v = false

-- The variables of the loop over the units; the lines are held from the last to the first.
pub record Split : Type 0 where
  pub out : List RentalLine
  pub months : ℕ
  pub after : ℕ

-- `unitStart`.
unfoldable pub unit_start : ℕ → RentalUnit → Split → ℕ
unit_start start u s =
    if same_unit u unit_month
    then add_months start s.months
    else add_months start s.months + s.after

abbrev pub price_in : List Season → ℕ → RentalUnit → ℤ → ℤ
price_in [] i u price = price
price_in (s ∷ ss) zero u price = elim (unit_price s.terms.prices u) [ none ↦ price | some p ↦ p ]
price_in (s ∷ ss) (suc i) u price = price_in ss i u price

-- One more unit, on the last line where that is for the same.
unfoldable pub add_unit : RentalUnit → ℕ → ℤ → List RentalLine → List RentalLine
add_unit u season price [] =
    record { unit = u; count = 1; unit_price = price; season = season } ∷ []
add_unit u season price (l ∷ ls) =
    if same_unit l.unit u && (l.season == season) && eqb_ℤ l.unit_price price
    then record l { count = l.count + 1 } ∷ ls
    else record { unit = u; count = 1; unit_price = price; season = season } ∷ l ∷ ls

unfoldable pub bill_one : ℕ → List Season → List ℕ → ℕ → RentalLine → Split → Split
unfolding unit_start last_started add_unit advance
bill_one start inside starts first u s =
    let i = last_started (unit_start start u.unit s) starts 0 0 in
    record {
      out = add_unit u.unit (first + i) (price_in inside i u.unit u.unit_price) s.out;
      months = if same_unit u.unit unit_month then s.months + 1 else s.months;
      after = if same_unit u.unit unit_month then s.after else s.after + advance 0 u.unit;
    }

unfoldable pub bill_units : ℕ → List Season → List ℕ → ℕ → List RentalLine → Split → Split
unfolding bill_one for_range
bill_units start inside starts first [] s = s
bill_units start inside starts first (u ∷ us) s =
    bill_units start inside starts first us
      (for_range u.count 0 (λ _ t. bill_one start inside starts first u t) s)

abbrev pub split_lines : ℕ → List Season → List ℕ → ℕ → RentalPrice → RentalPrice
split_lines start inside starts first (err e) = err e
split_lines start inside starts first (ok units) = ok (
    reverse
      (bill_units start inside starts first units (record { out = []; months = 0; after = 0 })).out)

abbrev pub in_season : ℕ → RentalPrice → RentalPrice
in_season k (err e) = err e
in_season k (ok lines) = ok (set_season k lines)

-- The starts of the seasons inside, on the wall clock; the first one's is the rental's.
abbrev pub wall_starts : Zone → ℕ → List Season → List ℕ
wall_starts zone start [] = []
wall_starts zone start (s ∷ ss) = start ∷ map (wall zone) (starts_of ss)

abbrev pub price_inside : Zone → ℕ → ℕ → Bool → ℕ → List Season → RentalPrice
price_inside zone from to split first [] = err no_price_for
price_inside zone from to split first (s ∷ ss) =
    let start = wall zone from in
    if not split || (length ss == 0)
    then in_season first (price_rental zone from to s.terms)
    else split_lines start (s ∷ ss) (wall_starts zone start (s ∷ ss)) first
        (price_wall start (wall_end zone from to) s.terms false)

abbrev pub none_started : ℕ → List Season → Bool
none_started from [] = true
none_started from (s ∷ ss) = ltb from s.starts

unfoldable pub price_rental_seasons : Zone → ℕ → ℕ → List Season → Bool → RentalPrice
unfolding last_started inside_of bill_units price_rental
price_rental_seasons zone from to seasons split =
    let first = last_started from (starts_of seasons) 0 0 in
    if none_started from seasons
    then err no_price_for
    else if leb to from
    then err ends_before_start
    else price_inside zone from to split first (inside_of to (drop first seasons))

abbrev pub without_minimum : List Season → List Season
without_minimum [] = []
without_minimum (s ∷ ss) = record s { terms = record s.terms { minimum = 0 } } ∷ without_minimum ss

-- The terms of the last season that has started, if there is one: the loop with `first` at -1.
unfoldable pub terms_at : ℕ → List Season → Option RateTerms → Option RateTerms
terms_at t [] found = found
terms_at t (s ∷ ss) found = terms_at t ss (if leb s.starts t then some s.terms else found)

abbrev pub extend : Zone → ℕ → ℕ → ℕ → List Season → Bool → Option RateTerms → RentalPrice
extend zone start end to seasons split none = err no_price_for
extend zone start end to seasons split (some terms) =
    let from = if ltb end (start + terms.minimum) then start + terms.minimum else end in
    if leb (to - terms.grace) from
    then ok []
    else price_rental_seasons zone from to (without_minimum seasons) split

unfoldable pub price_extension : Zone → ℕ → ℕ → ℕ → List Season → Bool → RentalPrice
unfolding terms_at price_rental_seasons
price_extension zone start end to seasons split =
    if leb to end || ltb end start
    then err extends_nothing
    else extend zone start end to seasons split (terms_at start seasons none)
