-- ===== src/Schedule/Warnings.antt =====
-- That `RestWarnings` of internal/workshop/schedule.go is silent just when the law is kept.
use free_sms.Common.{
  ℕ, ◌+◌, ◌-◌, ◌%◌, ◌≤◌, ◌≡◌, refl, ◌↔◌, not, ◌||◌, List, [], ◌∷◌, ◌++◌, length, ltb, ◌==◌,
  Bool-cases, inl, inr, arith,
}
use free_sms.Schedule.{
  ScheduledDay, RestWarning, shifts_of, daily_warnings, from_first, longest_rest, week_warning,
  weekly_warnings, rest_warnings, daily_rest, weekly_rest,
}
use free_sms.Schedule.Stretch.{IsFree, IsSorted, longest_rest-max, longest_rest-IsFree}

-- Between two shifts, one after the other, lie at least 11 hours.
abbrev pub IsRested : List ScheduledDay → Type 0
IsRested [] = Unit
IsRested (s ∷ []) = Unit
IsRested (s ∷ t ∷ ss) = (s.ends + daily_rest ≤ t.starts) × IsRested (t ∷ ss)

module _ (midnight : ℕ → ℕ) where
  -- A stretch of 36 hours without a shift, in the week from a day.
  abbrev pub HasStretch : List ScheduledDay → ScheduledDay → Type 0
  HasStretch shifts d =
      (a : ℕ) × (b : ℕ) × IsFree (midnight d.day) (midnight (d.day + 7)) shifts a b
      × (a + weekly_rest ≤ b)

  -- One in every week from Monday to Sunday that the days hold all of.
  abbrev pub HasStretches : List ScheduledDay → List ScheduledDay → Type 0
  HasStretches shifts [] = Unit
  HasStretches shifts (d ∷ ds) =
      (d.day % 7 ≡ 0 → 7 ≤ length (d ∷ ds) → HasStretch shifts d) × HasStretches shifts ds

nil-append : (xs ys : List RestWarning) → (xs ++ ys ≡ []) ↔ ((xs ≡ []) × (ys ≡ []))
nil-append [] ys = (λ e. (refl, e), λ p. p.1)
nil-append (x ∷ xs) ys = (λ e. absurd cc, λ p. absurd cc)

daily_warnings-IsRested :
    (s : ScheduledDay) (ss : List ScheduledDay) → (daily_warnings s ss ≡ []) ↔ IsRested (s ∷ ss)
unfolding daily_warnings
daily_warnings-IsRested s [] = (λ _. tt, λ _. refl)
daily_warnings-IsRested s (t ∷ ss) = elim (Bool-cases (ltb (t.starts - s.ends) daily_rest)) [
  | inl e ↦ rw e (λ h. absurd cc, λ h. absurd (ground (arith, e, h.0)))
  | inr e ↦ rw e (
    λ h. (ground (arith, e), (daily_warnings-IsRested t ss).0 h),
    λ h. (daily_warnings-IsRested t ss).1 h.1,
  )
]

from_first-IsRested : (ss : List ScheduledDay) → (from_first ss ≡ []) ↔ IsRested ss
from_first-IsRested [] = (λ _. tt, λ _. refl)
from_first-IsRested (s ∷ ss) = daily_warnings-IsRested s ss

module _ (midnight : ℕ → ℕ) (shifts : List ScheduledDay) where
  week_warning-HasStretch :
      (d : ScheduledDay)
      → IsSorted shifts
      → (week_warning midnight shifts d ≡ []) ↔ HasStretch midnight shifts d
  unfolding week_warning
  week_warning-HasStretch d sorted =
      let start = midnight d.day in
      let end = midnight (d.day + 7) in
      elim (Bool-cases (ltb (longest_rest start end shifts) weekly_rest)) [
        | inl e ↦ rw e (
          λ h. absurd cc,
          λ h.
              (let (a, b, free, long) = h in
                absurd (ground (arith, e, long, longest_rest-max start end shifts a b free))),
        )
        | inr e ↦ rw e (
          λ _.
              (let (a, b, free, long) =
                  longest_rest-IsFree start end shifts sorted (ground (arith, e)) in
                (a, b, free, ground (arith, e, long, free.in_order))),
          λ _. refl,
        )
      ]

  weekly_warnings-HasStretches :
      (ds : List ScheduledDay)
      → IsSorted shifts
      → (weekly_warnings midnight shifts ds ≡ []) ↔ HasStretches midnight shifts ds
  unfolding weekly_warnings
  weekly_warnings-HasStretches [] sorted = (λ _. tt, λ _. refl)
  weekly_warnings-HasStretches (d ∷ ds) sorted =
      let rest = weekly_warnings-HasStretches ds sorted in
      let week = week_warning-HasStretch d sorted in
      elim (Bool-cases (not (d.day % 7 == 0) || ltb (length (d ∷ ds)) 7)) [
        | inl e ↦ rw e (
          λ h. (λ monday full. absurd (ground (arith, e, monday, full)), rest.0 h),
          λ h. rest.1 h.1,
        )
        | inr e ↦ rw e (
          λ h.
              (let both =
                  (nil-append (week_warning midnight shifts d)
                      (weekly_warnings midnight shifts ds)).0
                    h in
                (λ _ _. week.0 both.0, rest.0 both.1)),
          λ h.
              (nil-append (week_warning midnight shifts d) (weekly_warnings midnight shifts ds)).1
                (week.1 (h.0 (ground (arith, e)) (ground (arith, e))), rest.1 h.1),
        )
      ]

-- For days whose shifts come in the order they start, in any zone: there is no warning just when at
-- least 11 hours lie between each shift and the next, and in every week from Monday to Sunday that
-- the days hold all of there is a stretch of 36 hours, within that week, that no shift reaches into.
pub rest_warnings_iff :
    (midnight : ℕ → ℕ) (days : List ScheduledDay)
    → IsSorted (shifts_of days)
    → (rest_warnings midnight days ≡ [])
      ↔ (IsRested (shifts_of days) × HasStretches midnight (shifts_of days) days)
unfolding rest_warnings
rest_warnings_iff midnight days sorted =
    let shifts = shifts_of days in
    let parts = nil-append (from_first shifts) (weekly_warnings midnight shifts days) in
    let rested = from_first-IsRested shifts in
    let weeks = weekly_warnings-HasStretches midnight shifts days sorted in
    (
      λ h. (let both = parts.0 h in (rested.0 both.0, weeks.0 both.1)),
      λ h. parts.1 (rested.1 h.0, weeks.1 h.1),
    )
