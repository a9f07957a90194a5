-- ===== src/Schedule/Order.antt =====
-- That the days which `BuildSchedule` lays out come in the order that their warnings need.
use free_sms.Common.{
  ℕ, zero, suc, ◌+◌, ◌≤◌, ◌<◌, ◌≡◌, refl, sym, subst, ◌-◌, ◌↔◌, ◌||◌, Bool, true, List, [], Option,
  none, some, All, Bool-cases, inl, inr, arith,
}
use free_sms.Common.Int.{ℤ, pos, negsuc}
use free_sms.Common.Text.{Text, is_empty, cut, parse_int}
use free_sms.Schedule.{ScheduledDay, shifts_of, rest_warnings}
use free_sms.Schedule.Stretch.{StartsFrom, IsSorted}
use free_sms.Schedule.Warnings.{IsRested, HasStretches, rest_warnings_iff}
use free_sms.Schedule.Build.{
  Rota, ShiftChange, clock_minutes, in_range, of_parts, planned, latest_at, with_times, shift_on,
  scheduled, scheduled_days, sorted_rotas, build_schedule,
}

in_range-lt : (top : ℕ) (z : Option ℤ) (n : ℕ) → in_range top z ≡ some n → n ≤ top
in_range-lt top none n h = absurd cc
in_range-lt top (some (negsuc z)) n h = absurd cc
in_range-lt top (some (pos z)) n h = ground (arith, h)

of_parts-lt :
    (h m : Option ℕ) (n : ℕ)
    → ((a : ℕ) → h ≡ some a → a ≤ 23)
    → ((b : ℕ) → m ≡ some b → b ≤ 59)
    → of_parts h m ≡ some n
    → n < 1440
of_parts-lt none m n hh hm e = absurd cc
of_parts-lt (some a) none n hh hm e = absurd cc
of_parts-lt (some a) (some b) n hh hm e =
    let ha = hh a refl in let hb = hm b refl in ground (arith, e, ha, hb)

-- A time that is read is a minute of the day.
clock_minutes-lt : (s : Text) (n : ℕ) → clock_minutes s ≡ some n → n < 1440
unfolding clock_minutes
clock_minutes-lt s n h =
    let (hours, rest, found) = cut b':' s in
    let (minutes, _, _) = cut b':' rest in
    elim (Bool-cases found) [
      | inl e ↦
          of_parts-lt (in_range 23 (parse_int hours)) (in_range 59 (parse_int minutes)) n
            (in_range-lt 23 (parse_int hours)) (in_range-lt 59 (parse_int minutes)) (rw e at h)
      | inr e ↦ absurd cc
    ]

-- Documented of `time.Date`, for the dates and zones of a shop: a moment of a day comes before every
-- moment of the next.
abbrev pub KeepsDays : (ℕ → ℕ → ℕ) → Type 0
KeepsDays moment = (k a b : ℕ) → a < 1440 → b < 1440 → moment k a ≤ moment (suc k) b

module _ (moment : ℕ → ℕ → ℕ) (law : KeepsDays moment) where
  later_day : (n j k a b : ℕ) → k ≡ suc j + n → a < 1440 → b < 1440 → moment j a ≤ moment k b
  later_day zero j k a b e ha hb =
      let next : suc j ≡ k = omega (arith, e) in
      subst (λ d. moment j a ≤ moment d b) next (law j a b ha hb)
  later_day (suc n) j k a b e ha hb =
      let next : suc (suc j + n) ≡ k = omega (arith, e) in
      subst (λ d. moment j a ≤ moment d b) next
        (omega (
          arith,
          later_day n j (suc j + n) a 0 refl ha (omega arith),
          law (suc j + n) 0 b (omega arith) hb,
        ))

  -- A day with a shift has one that starts at a minute of that day.
  abbrev StartsOn : ℕ → ScheduledDay → Type 0
  StartsOn k d = d.working ≡ true → (a : ℕ) × (a < 1440) × (d.starts ≡ moment k a)

  with_times-StartsOn :
      (k : ℕ) (a b : Option ℕ)
      → ((n : ℕ) → a ≡ some n → n < 1440)
      → StartsOn k (with_times moment k a b)
  unfolding with_times
  with_times-StartsOn k none b h = λ e. absurd cc
  with_times-StartsOn k (some a) none h = λ e. absurd cc
  with_times-StartsOn k (some a) (some b) h = λ _. (a, h a refl, refl)

  scheduled-StartsOn :
      (sorted : List Rota) (changes : List ShiftChange) (away : ℕ → Bool) (k : ℕ)
      → StartsOn k (scheduled moment sorted changes away k)
  unfolding scheduled shift_on
  scheduled-StartsOn sorted changes away k =
      let h = planned sorted (latest_at k none changes) k in
      elim (Bool-cases (is_empty h.starts || away k)) [
        | inl e ↦ rw e (λ w. absurd cc)
        | inr e ↦ rw e (
            with_times-StartsOn k (clock_minutes h.starts) (clock_minutes h.ends)
              (clock_minutes-lt h.starts))
      ]

  module _ (sorted : List Rota) (changes : List ShiftChange) (away : ℕ → Bool) where
    abbrev days_from : ℕ → ℕ → List ScheduledDay
    days_from first n = scheduled_days moment sorted changes away first n

    later_shifts :
        (n j a first : ℕ)
        → a < 1440
        → j < first
        → All (StartsFrom (moment j a)) (shifts_of (days_from first n))
    unfolding scheduled_days shifts_of
    later_shifts zero j a first ha lt = tt
    later_shifts (suc n) j a first ha lt =
        let d = scheduled moment sorted changes away first in
        let rest = later_shifts n j a (suc first) ha (omega (arith, lt)) in
        elim (Bool-cases d.working) [
          | inl w ↦
              (let (b, hb, at_b) = scheduled-StartsOn sorted changes away first w in
                rw w (
                  subst (λ t. moment j a ≤ t) (sym at_b)
                      (later_day (first - suc j) j first a b (omega (arith, lt)) ha hb),
                  rest,
                ))
          | inr w ↦ rw w rest
        ]

    scheduled_days-IsSorted : (n first : ℕ) → IsSorted (shifts_of (days_from first n))
    unfolding scheduled_days shifts_of
    scheduled_days-IsSorted zero first = tt
    scheduled_days-IsSorted (suc n) first =
        let d = scheduled moment sorted changes away first in
        let rest = scheduled_days-IsSorted n (suc first) in
        elim (Bool-cases d.working) [
          | inl w ↦
              (let (a, ha, at_a) = scheduled-StartsOn sorted changes away first w in
                rw w (
                  subst (λ t. All (StartsFrom t) (shifts_of (days_from (suc first) n))) (sym at_a)
                      (later_shifts n first a (suc first) ha (omega arith)),
                  rest,
                ))
          | inr w ↦ rw w rest
        ]

-- Of the days that are laid out from any rotas, changes and absences, in a zone where a moment of a
-- day comes before every moment of the next: there is no warning just when at least 11 hours lie
-- between each shift and the next, and in every week from Monday to Sunday that the days hold all
-- of there is a stretch of 36 hours, within that week, that no shift reaches into.
pub rest_warnings-build_schedule :
    (moment : ℕ → ℕ → ℕ) (rotas : List Rota) (changes : List ShiftChange) (away : ℕ → Bool)
    (first n : ℕ)
    → KeepsDays moment
    → let days = build_schedule moment rotas changes away first n in
      (rest_warnings (λ k. moment k 0) days ≡ [])
      ↔ (IsRested (shifts_of days) × HasStretches (λ k. moment k 0) (shifts_of days) days)
unfolding build_schedule
rest_warnings-build_schedule moment rotas changes away first n law =
    rest_warnings_iff (λ k. moment k 0) (build_schedule moment rotas changes away first n)
      (scheduled_days-IsSorted moment law (sorted_rotas [] rotas) changes away n first)
