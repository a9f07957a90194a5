-- ===== src/Common/Calendar.antt =====
-- What the code uses of Go's package time: a wall clock without zones, as nanoseconds since the
-- beginning of the year 1, a Monday.
use mathlib.Core.Logic.{inl, inr}
use free_sms.Common.Tests.{Bool-cases, ltb, leb, if◌then◌else◌}
use Prim.Native.Nat.{ℕ, zero, suc, ◌+◌, ◌-◌, ◌*◌, ◌/◌, ◌%◌, ◌≤◌, ◌<◌}
use mathlib.Core.Path.{◌≡◌, refl, subst}
use native.Mathlib.Decide.{dec_lt}
use native.Mathlib.Omega.{arith}

abbrev pub second : ℕ
second = 1_000_000_000

abbrev pub hour : ℕ
hour = 3600 * second

abbrev pub day : ℕ
day = 24 * hour

abbrev pub week : ℕ
week = 7 * day

-- The leap days of the years up to this one.
unfoldable pub leap_days : ℕ → ℕ
leap_days y = y / 4 - y / 100 + y / 400

-- The day on which a month begins. Months are counted from January of the year 1, and so are days.
unfoldable pub month_start : ℕ → ℕ
unfolding leap_days
month_start m =
    let y = m / 12 in
    let february = if ltb (m % 12) 2 then 0 else 2 - (leap_days (y + 1) - leap_days y) in
    365 * y + leap_days y + ((367 * (m % 12) + 5) / 12 - february)

-- The month of a day: the average length of a month is off by one at most.
unfoldable pub month_of : ℕ → ℕ
month_of d =
    let m = d * 4800 / 146097 in
    if leb (month_start (m + 1)) d then m + 1 else if leb (month_start m) d then m else m - 1

-- `AddDate(0, k, 0)`: the same day of the month, counted on into the next where the month is too
-- short.
unfoldable pub add_months : ℕ → ℕ → ℕ
add_months t k =
    let d = t / day in
    let m = month_of d in (month_start (m + k) + (d - month_start m)) * day + t % day

-- `Weekday`, Sunday being 0, and `Hour`.
unfoldable pub weekday : ℕ → ℕ
weekday t = (t / day + 1) % 7

unfoldable pub hour_of : ℕ → ℕ
hour_of t = t / hour % 24

leap_days-suc : (y : ℕ) → (leap_days y ≤ leap_days (y + 1)) × (leap_days (y + 1) ≤ leap_days y + 1)
unfolding leap_days
leap_days-suc y = omega arith

-- The day of the year on which a month begins, in a year with or without a leap day.
abbrev in_year : ℕ → ℕ → ℕ
in_year r leap = (367 * r + 5) / 12 - (if ltb r 2 then 0 else 2 - leap)

in_year-suc :
    (r leap : ℕ)
    → leap ≤ 1
    → (in_year r leap + 28 ≤ in_year (suc r) leap) × (in_year (suc r) leap ≤ in_year r leap + 31)
in_year-suc r leap h = ground arith

in_year_end :
    (leap : ℕ)
    → leap ≤ 1
    → (in_year 11 leap + 28 ≤ 365 + leap) × (365 + leap ≤ in_year 11 leap + 31)
in_year_end leap h = ground arith

abbrev leap_of : ℕ → ℕ
leap_of y = leap_days (y + 1) - leap_days y

month_start_at :
    (y r : ℕ) → r < 12 → month_start (12 * y + r) ≡ 365 * y + leap_days y + in_year r (leap_of y)
unfolding month_start
month_start_at y r h =
    let year : (12 * y + r) / 12 ≡ y = omega arith in
    let rest : (12 * y + r) % 12 ≡ r = omega arith in rw (year, rest)

month_start-suc_at :
    (y r : ℕ)
    → r < 12
    → (month_start (12 * y + r) + 28 ≤ month_start (suc (12 * y + r)))
      × (month_start (suc (12 * y + r)) ≤ month_start (12 * y + r) + 31)
month_start-suc_at y r h = elim (dec_lt r 11) [
  | yes p ↦
      let next : suc (12 * y + r) ≡ 12 * y + suc r = omega arith in
      rw (next, month_start_at y r h, month_start_at y (suc r) (omega arith))
        (omega (arith, in_year-suc r (leap_of y) (omega (arith, leap_days-suc y))))
  | no p ↦
      let last : r ≡ 11 = omega arith in
      let next : suc (12 * y + 11) ≡ 12 * (y + 1) + 0 = omega arith in
      rw (last, next, month_start_at y 11 (omega arith), month_start_at (y + 1) 0 (omega arith))
        (omega (arith, in_year_end (leap_of y) (omega (arith, leap_days-suc y)), leap_days-suc y))
]

in_parts : (m : ℕ) → 12 * (m / 12) + m % 12 ≡ m
in_parts m = omega arith

-- A month has twenty-eight to thirty-one days.
pub month_start-suc :
    (m : ℕ)
    → (month_start m + 28 ≤ month_start (suc m)) × (month_start (suc m) ≤ month_start m + 31)
month_start-suc m =
    subst
      (λ k. (month_start k + 28 ≤ month_start (suc k)) × (month_start (suc k) ≤ month_start k + 31))
      (in_parts m) (month_start-suc_at (m / 12) (m % 12) (omega arith))

leap_days_mean : (y : ℕ) → (97 * y ≤ 400 * leap_days y + 699) × (400 * leap_days y ≤ 97 * y + 396)
unfolding leap_days
leap_days_mean y = omega arith

in_year_mean :
    (r leap : ℕ)
    → r < 12
    → leap ≤ 1
    → (146097 * r ≤ 4800 * in_year r leap + 10000) × (4800 * in_year r leap ≤ 146097 * r + 10000)
in_year_mean r leap h k = ground arith

mean_at :
    (y r : ℕ)
    → r < 12
    → (146097 * (12 * y + r) ≤ 4800 * month_start (12 * y + r) + 4 * 4800)
      × (4800 * month_start (12 * y + r) ≤ 146097 * (12 * y + r) + 4 * 4800)
mean_at y r h =
    rw (month_start_at y r h) (
      omega
        (arith, leap_days_mean y, in_year_mean r (leap_of y) h (omega (arith, leap_days-suc y))))

month_start_mean :
    (m : ℕ)
    → (146097 * m ≤ 4800 * month_start m + 4 * 4800)
      × (4800 * month_start m ≤ 146097 * m + 4 * 4800)
month_start_mean m =
    subst
      (λ k.
        (146097 * k ≤ 4800 * month_start k + 4 * 4800)
        × (4800 * month_start k ≤ 146097 * k + 4 * 4800))
      (in_parts m) (mean_at (m / 12) (m % 12) (omega arith))

month_start-zero : month_start 0 ≡ 0
unfolding month_start
month_start-zero = refl

-- One of three months holds a day that lies between the first and the end of the last.
pick :
    (m d : ℕ)
    → (m ≡ 0 → month_start m ≤ d)
    → (0 < m → month_start (m - 1) ≤ d)
    → d < month_start (suc (m + 1))
    → let k =
        if leb (month_start (m + 1)) d then m + 1 else if leb (month_start m) d then m else m - 1 in
      (month_start k ≤ d) × (d < month_start (suc k))
pick zero d h lo hi = elim (Bool-cases (leb (month_start (0 + 1)) d)) [
  | inl e ↦ rw e (ground arith)
  | inr e ↦ rw e (let low : month_start 0 ≤ d = h refl in ground arith)
]
pick (suc m) d h lo hi = elim (Bool-cases (leb (month_start (suc m + 1)) d)) [
  | inl e ↦ rw e (ground arith)
  | inr e ↦
      let back : suc m - 1 ≡ m = omega arith in
      let low : month_start m ≤ d = rw back at (lo (omega arith)) in
      elim (Bool-cases (leb (month_start (suc m)) d)) [
        | inl f ↦ rw (e, f) (ground arith)
        | inr f ↦ rw (e, f, back) (ground arith)
      ]
]

-- Every day stands in its month.
pub month_of-contains :
    (d : ℕ) → (month_start (month_of d) ≤ d) × (d < month_start (suc (month_of d)))
unfolding month_of
month_of-contains d =
    let m : ℕ = d * 4800 / 146097 in
    pick m d (λ e. rw (e, month_start-zero) (omega arith))
      (λ pos. omega (arith, month_start_mean (m - 1)))
      (omega (arith, month_start_mean (suc (m + 1))))

month_start-add :
    (k m : ℕ)
    → (month_start m + 28 * k ≤ month_start (m + k))
      × (month_start (m + k) ≤ month_start m + 31 * k)
month_start-add zero m = let same : m + 0 ≡ m = omega arith in rw same (omega arith)
month_start-add (suc k) m =
    let next : m + suc k ≡ suc (m + k) = omega arith in
    rw next (omega (arith, month_start-add k m, month_start-suc (m + k)))

-- Each month is twenty-eight to thirty-one days on; and none on is the same moment.
pub add_months-ge : (t k : ℕ) → t + 28 * day * k ≤ add_months t k
unfolding add_months
add_months-ge t k =
    let c = month_of-contains (t / day) in omega (arith, month_start-add k (month_of (t / day)))

pub add_months_zero : (t : ℕ) → add_months t 0 ≡ t
unfolding add_months
add_months_zero t =
    let c = month_of-contains (t / day) in
    let same : month_of (t / day) + 0 ≡ month_of (t / day) = omega arith in rw same (omega arith)

pub add_months-le : (t k : ℕ) → add_months t k ≤ t + 31 * day * k
unfolding add_months
add_months-le t k =
    let c = month_of-contains (t / day) in omega (arith, month_start-add k (month_of (t / day)))
