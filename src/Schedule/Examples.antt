-- ===== src/Schedule/Examples.antt =====
-- A week of the rota.
use free_sms.Common.{ℕ, ◌+◌, ◌-◌, ◌*◌, ◌≤◌, ◌<◌, ◌≡◌, refl, true, false, List, [], ◌∷◌, arith}
use free_sms.Schedule.{
  ScheduledDay, daily, weekly, minute, shifts_of, daily_warnings, rest_step, rest_loop,
  longest_rest, week_warning, weekly_warnings, rest_warnings,
}
use free_sms.Schedule.Stretch.{IsFree, IsSorted, longest_rest-IsLongest}

-- Days of 24 hours.
abbrev midnight : ℕ → ℕ
midnight d = d * (1440 * minute)

-- A shift of a day, from one hour to another.
abbrev shift : ℕ → ℕ → ℕ → ScheduledDay
shift d from to = record {
  day = d;
  working = true;
  starts = midnight d + from * (60 * minute);
  ends = midnight d + to * (60 * minute);
}

abbrev free : ℕ → ScheduledDay
free d = record { day = d; working = false; starts = 0; ends = 0 }

-- Five days from a Monday, the Tuesday early, and the weekend free.
abbrev week : List ScheduledDay
week =
    shift 7 8 22
    ∷ shift 8 7 16
    ∷ shift 9 8 16
    ∷ shift 10 8 16
    ∷ shift 11 8 16
    ∷ free 12
    ∷ free 13
    ∷ []

-- Nine hours before the second shift.
short_night : rest_warnings midnight week ≡ record { kind = daily; day = 8; minutes = 540 } ∷ []
unfolding rest_warnings shifts_of daily_warnings weekly_warnings week_warning longest_rest rest_loop
    rest_step
short_night = refl

-- A shift on every day, with a night of 16 hours before each.
abbrev no_day_off : List ScheduledDay
no_day_off =
    shift 7 8 16
    ∷ shift 8 8 16
    ∷ shift 9 8 16
    ∷ shift 10 8 16
    ∷ shift 11 8 16
    ∷ shift 12 8 16
    ∷ shift 13 8 16
    ∷ []

no_stretch :
    rest_warnings midnight no_day_off ≡ record { kind = weekly; day = 7; minutes = 960 } ∷ []
unfolding rest_warnings shifts_of daily_warnings weekly_warnings week_warning longest_rest rest_loop
    rest_step
no_stretch = refl

week-IsSorted : IsSorted (shifts_of week)
unfolding shifts_of
week-IsSorted = omega arith

longest_rest-IsLongest_example :
    ((a b : ℕ)
      → IsFree (midnight 7) (midnight 14) (shifts_of week) a b
      → b - a ≤ longest_rest (midnight 7) (midnight 14) (shifts_of week))
    × (0 < longest_rest (midnight 7) (midnight 14) (shifts_of week)
        → (a : ℕ) × (b : ℕ) × IsFree (midnight 7) (midnight 14) (shifts_of week) a b
          × (b - a ≡ longest_rest (midnight 7) (midnight 14) (shifts_of week)))
longest_rest-IsLongest_example =
    longest_rest-IsLongest (midnight 7) (midnight 14) (shifts_of week) week-IsSorted
