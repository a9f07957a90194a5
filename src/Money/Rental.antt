-- ===== src/Money/Rental.antt =====
-- Rental periods into billed units, internal/money/rental.go. A moment is a number of nanoseconds:
-- an instant since the year 1, or a wall clock's reading. A duration is one that is not negative, as
-- a shop sets it.
mod Examples
pub mod Net
pub mod Units
pub mod Loops
pub mod Offers
pub mod Months
pub mod Cheapest
pub mod Seasons
use free_sms.Common.{
  ℕ, zero, suc, ◌+◌, ◌-◌, ◌*◌, ◌/◌, ◌%◌, Bool, true, false, not, ◌&&◌, ◌||◌, List, [], ◌∷◌, ◌++◌,
  Option, none, some, leb, ltb, ◌==◌, if◌then◌else◌,
}
use free_sms.Common.Int.{ℤ, pos, negsuc, add64, mul64, ltb_ℤ, eqb_ℤ}
use free_sms.Common.Calendar.{hour, day, week, add_months, weekday, hour_of}
use free_sms.Money.Rounding.{line_net}

-- A plan's prices; `none` for a unit that it does not price.
pub record RatePrices : Type 0 where
  pub hourly : Option ℤ
  pub daily : Option ℤ
  pub weekend : Option ℤ
  pub weekly : Option ℤ
  pub monthly : Option ℤ

pub record RateTerms : Type 0 where
  pub prices : RatePrices
  pub minimum : ℕ
  pub grace : ℕ

pub data RentalUnit : Type 0 where
  unit_hour unit_day unit_weekend unit_week unit_month : RentalUnit

pub record RentalLine : Type 0 where
  pub unit : RentalUnit
  pub count : ℕ
  pub unit_price : ℤ
  pub season : ℕ

unfoldable pub net : RentalLine → ℤ
net l = line_net (mul64 (pos l.count) (pos 1000)) l.unit_price

pub data RentalError : Type 0 where
  ends_before_start too_long no_price_for extends_nothing : RentalError

pub data RentalPrice : Type 0 where
  ok : List RentalLine → RentalPrice
  err : RentalError → RentalPrice

unfoldable pub unit_price : RatePrices → RentalUnit → Option ℤ
unit_price p unit_hour = p.hourly
unit_price p unit_day = p.daily
unit_price p unit_weekend = p.weekend
unit_price p unit_week = p.weekly
unit_price p unit_month = p.monthly

-- A moment one unit later.
unfoldable pub advance : ℕ → RentalUnit → ℕ
advance t unit_month = add_months t 1
advance t unit_week = t + week
advance t unit_day = t + day
advance t u = t + hour

unfoldable pub ceil_div : ℕ → ℕ → ℕ
ceil_div d unit = (d + unit - 1) / unit

-- The Friday that a rental's weekend begins with, and the Monday after it at noon.
unfoldable pub in_one_weekend : ℕ → ℕ → Bool
in_one_weekend from to =
    let monday = λ (friday : ℕ). (friday / day + 3) * day + 12 * hour in
    let w = weekday from in
    if w == 5
    then (if ltb (hour_of from) 12 then false else leb to (monday from))
    else if w == 6
    then leb to (monday (from - day))
    else if w == 0
    then leb to (monday (from - 2 * day))
    else false

-- The variables `best` and `bestNet`.
pub record Best : Type 0 where
  pub lines : List RentalLine
  pub net : ℤ

abbrev pub nothing_yet : Best
nothing_yet = record { lines = []; net = negsuc 0 }

-- The loop of `consider` over the lines, with the sum so far.
unfoldable pub net_sum : ℤ → List RentalLine → ℤ
unfolding net
net_sum n [] = n
net_sum n (l ∷ ls) = net_sum (add64 n (net l)) ls

unfoldable pub consider : List RentalLine → Best → Best
unfolding net_sum
consider ls b =
    let n = net_sum (pos 0) ls in
    if ltb_ℤ b.net (pos 0) || ltb_ℤ n b.net then record { lines = ls; net = n } else b

-- A line for a count of units, where it is not zero; the count of a unit with no price is zero.
unfoldable pub line_for : RentalUnit → ℕ → Option ℤ → List RentalLine
line_for u zero p = []
line_for u (suc n) none = []
line_for u (suc n) (some p) = record { unit = u; count = suc n; unit_price = p; season = 0 } ∷ []

unfoldable pub lines_of : RatePrices → ℕ → ℕ → ℕ → ℕ → List RentalLine
unfolding line_for
lines_of p m w d h =
    line_for unit_month m p.monthly
    ++ (line_for unit_week w p.weekly
        ++ (line_for unit_day d p.daily ++ line_for unit_hour h p.hourly))

-- `for k := i; k < i+n; k++`.
unfoldable pub for_range {ℓ} : {S : Type ℓ} → ℕ → ℕ → (ℕ → S → S) → S → S
for_range zero i body s = s
for_range (suc n) i body s = for_range n (suc i) body (body i s)

abbrev pub is_priced : Option ℤ → Bool
is_priced none = false
is_priced (some p) = true

-- How many units of a length the rest takes, where they have a price.
unfoldable pub most : Option ℤ → ℕ → ℕ → ℕ
unfolding ceil_div
most p need unit = if is_priced p && ltb 0 need then ceil_div need unit else 0

abbrev pub no_lines : List RentalLine → Bool
no_lines [] = true
no_lines (l ∷ ls) = false

-- The bodies of the loops over days, weeks and months. `need - t` is 0 where the need is met.
unfoldable pub try_days : RatePrices → ℕ → ℕ → ℕ → ℕ → ℕ → Best → Best
unfolding lines_of consider ceil_div
try_days p need after_w m w d b =
    let rest = need - (after_w + d * day) in
    let h = if ltb 0 rest then ceil_div rest hour else 0 in
    let lines = lines_of p m w d h in
    if ltb 0 rest && not (is_priced p.hourly)
    then b
    else if no_lines lines
    then b
    else consider lines b

unfoldable pub try_weeks : RatePrices → ℕ → ℕ → ℕ → ℕ → Best → Best
unfolding try_days most for_range
try_weeks p need after_m m w b =
    let after_w = after_m + w * week in
    for_range (suc (most p.daily (need - after_w) day)) 0 (try_days p need after_w m w) b

unfoldable pub try_months : RatePrices → ℕ → ℕ → ℕ → Best → Best
unfolding try_weeks most for_range
try_months p from need m b =
    let after_m = add_months from m in
    for_range (suc (most p.weekly (need - after_m) week)) 0 (try_weeks p need after_m m) b

-- The loop that counts the months; a month has twenty-eight days at least, so the fuel of
-- `max_months` is enough.
unfoldable pub count_months : ℕ → ℕ → ℕ → ℕ → ℕ
count_months zero from need k = k
count_months (suc fuel) from need k =
    let more = count_months fuel from need (suc k) in
    if ltb (add_months from k) need then more else k

unfoldable pub max_months : Option ℤ → ℕ → ℕ → ℕ
unfolding count_months
max_months p from need =
    if is_priced p then count_months ((need - from) / (28 * day) + 1) from need 0 else 0

-- Grace first, then the minimum, and no less than the start and a moment.
unfoldable pub needed : ℕ → ℕ → RateTerms → ℕ
needed from to t =
    let less = to - t.grace in
    let least = if ltb less (from + t.minimum) then from + t.minimum else less in
    if ltb from least then least else from + 1

unfoldable pub consider_weekend : Bool → Option ℤ → ℕ → ℕ → Best → Best
unfolding in_one_weekend consider
consider_weekend weekend none from need b = b
consider_weekend weekend (some p) from need b =
    if weekend && in_one_weekend from need
    then consider (record { unit = unit_weekend; count = 1; unit_price = p; season = 0 } ∷ []) b
    else b

unfoldable pub search_units : RatePrices → Bool → ℕ → ℕ → Best
unfolding consider_weekend try_months max_months for_range
search_units p weekend from need =
    for_range (suc (max_months p.monthly from need)) 0 (try_months p from need)
      (consider_weekend weekend p.weekend from need nothing_yet)

abbrev pub answer : Best → RentalPrice
answer b = if no_lines b.lines then err no_price_for else ok b.lines

unfoldable pub price_wall : ℕ → ℕ → RateTerms → Bool → RentalPrice
unfolding needed search_units
price_wall from to t weekend =
    if leb to from
    then err ends_before_start
    else if ltb (add_months from 60) to
    then err too_long
    else answer (search_units t.prices weekend from (needed from to t))
