-- ===== src/Money/Rental/Units.antt =====
-- How many units of internal/money/rental.go cover a time, and the lines that they are billed on.
use free_sms.Common.{
  ℕ, zero, suc, ◌*◌, ◌^◌, ◌≤◌, ◌<◌, ◌≡◌, refl, true, false, List, [], ◌∷◌, ◌++◌, Option, none, some,
  arith,
}
use free_sms.Common.Int.{ℤ}
use free_sms.Common.Calendar.{hour, day, week}
use free_sms.Money.Rental.{
  RentalUnit, RentalLine, unit_month, unit_week, unit_day, unit_hour, RatePrices, lines_of,
  line_for, is_priced, no_lines, ceil_div, most,
}

-- A unit that is used has a price.
pub record ArePriced (p : RatePrices) (m w d h : ℕ) : Type 0 where
  pub months : 0 < m → is_priced p.monthly ≡ true
  pub weeks : 0 < w → is_priced p.weekly ≡ true
  pub days : 0 < d → is_priced p.daily ≡ true
  pub hours : 0 < h → is_priced p.hourly ≡ true

not_true : false ≡ true → ⊥
not_true x = cc

line_for-priced :
    (u : RentalUnit) (c : ℕ) (p : Option ℤ)
    → (0 < c → is_priced p ≡ true)
    → no_lines (line_for u c p) ≡ true
    → c ≡ 0
unfolding line_for
line_for-priced u zero p h e = refl
line_for-priced u (suc c) none h e = absurd (not_true (h (omega arith)))
line_for-priced u (suc c) (some p) h e = cc

no_lines-append :
    (xs ys : List RentalLine)
    → no_lines (xs ++ ys) ≡ true
    → (no_lines xs ≡ true) × (no_lines ys ≡ true)
no_lines-append [] ys h = (refl, h)
no_lines-append (x ∷ xs) ys h = cc

pub no_lines-lines_of :
    (p : RatePrices) (m w d h : ℕ)
    → ArePriced p m w d h
    → no_lines (lines_of p m w d h) ≡ true
    → (m ≡ 0) × (w ≡ 0) × (d ≡ 0) × (h ≡ 0)
unfolding lines_of
no_lines-lines_of p m w d h v e =
    let (em, e1) = no_lines-append (line_for unit_month m p.monthly) _ e in
    let (ew, e2) = no_lines-append (line_for unit_week w p.weekly) _ e1 in
    let (ed, eh) = no_lines-append (line_for unit_day d p.daily) _ e2 in
    (
      line_for-priced unit_month m p.monthly v.months em,
      line_for-priced unit_week w p.weekly v.weeks ew,
      line_for-priced unit_day d p.daily v.days ed,
      line_for-priced unit_hour h p.hourly v.hours eh,
    )

-- Ten years, in hours: no count is larger.
abbrev pub span : ℕ
span = 10 * 366 * 24 * hour

pub ceil_hours : (r : ℕ) → r ≤ span → ceil_div r hour ≤ 10 ^ 5
unfolding ceil_div
ceil_hours r h = omega arith

pub ceil_hours-covers : (r : ℕ) → r ≤ ceil_div r hour * hour
unfolding ceil_div
ceil_hours-covers r = omega arith

pub ceil_hours_least : (r h : ℕ) → r ≤ h * hour → ceil_div r hour ≤ h
unfolding ceil_div
ceil_hours_least r h e = omega arith

pub most_days : (p : Option ℤ) (r : ℕ) → r ≤ span → most p r day ≤ 10 ^ 4
unfolding most ceil_div
most_days p r h = ground arith

pub most_weeks : (p : Option ℤ) (r : ℕ) → r ≤ span → most p r week ≤ 10 ^ 4
unfolding most ceil_div
most_weeks p r h = ground arith

pub most_days-covers : (p : Option ℤ) (r : ℕ) → is_priced p ≡ true → r ≤ most p r day * day
unfolding most ceil_div
most_days-covers p r h = ground arith

pub most_weeks-covers : (p : Option ℤ) (r : ℕ) → is_priced p ≡ true → r ≤ most p r week * week
unfolding most ceil_div
most_weeks-covers p r h = ground arith

pub most_unpriced : (p : Option ℤ) (r u : ℕ) → 0 < most p r u → is_priced p ≡ true
unfolding most
most_unpriced none r u h = absurd (omega arith)
most_unpriced (some p) r u h = refl
