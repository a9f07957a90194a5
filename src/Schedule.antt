-- ===== src/Schedule.antt =====
-- internal/workshop/schedule.go: the schedule of a person, and `RestWarnings`, which says where it has
-- less rest than the law asks for. A moment is a number of nanoseconds; a day is its number, counted
-- from 1 January of the year 1, a Monday.
mod Examples
pub mod Stretch
pub mod Warnings
pub mod Build
pub mod Order
mod BuildExamples
use free_sms.Common.{
  ℕ, zero, suc, ◌+◌, ◌-◌, ◌*◌, ◌/◌, ◌%◌, max, Bool, true, false, ◌&&◌, ◌||◌, not, List, [], ◌∷◌,
  ◌++◌, length, ltb, leb, ◌==◌, if◌then◌else◌,
}

abbrev pub minute : ℕ
minute = 60000000000

abbrev pub daily_rest : ℕ
daily_rest = 11 * 60 * minute

abbrev pub weekly_rest : ℕ
weekly_rest = 36 * 60 * minute

-- What the warnings read of a day.
pub record ScheduledDay : Type 0 where
  pub day : ℕ
  pub working : Bool
  pub starts : ℕ
  pub ends : ℕ

pub data WarningKind : Type 0 where
  daily weekly : WarningKind

pub record RestWarning : Type 0 where
  pub kind : WarningKind
  pub day : ℕ
  pub minutes : ℕ

unfoldable pub shifts_of : List ScheduledDay → List ScheduledDay
shifts_of [] = []
shifts_of (d ∷ ds) = if d.working then d ∷ shifts_of ds else shifts_of ds

-- The first loop, after a shift. A gap below nothing is below the rest, and comes to 0 minutes.
unfoldable pub daily_warnings : ScheduledDay → List ScheduledDay → List RestWarning
daily_warnings before [] = []
daily_warnings before (s ∷ ss) =
    let gap = s.starts - before.ends in
    let rest = daily_warnings s ss in
    if ltb gap daily_rest
    then record { kind = daily; day = s.day; minutes = gap / minute } ∷ rest
    else rest

abbrev pub from_first : List ScheduledDay → List RestWarning
from_first [] = []
from_first (s ∷ ss) = daily_warnings s ss

-- The variables of the loop over the shifts of a week.
pub record Rest : Type 0 where
  pub longest : ℕ
  pub cursor : ℕ

unfoldable pub rest_step : ℕ → ℕ → Rest → ScheduledDay → Rest
rest_step start end r s = if not (ltb start s.ends) || not (ltb s.starts end) then r else record {
  longest = if ltb r.cursor s.starts then max r.longest (s.starts - r.cursor) else r.longest;
  cursor = if ltb r.cursor s.ends then s.ends else r.cursor;
}

unfoldable pub rest_loop : ℕ → ℕ → Rest → List ScheduledDay → Rest
rest_loop start end r [] = r
rest_loop start end r (s ∷ ss) = rest_loop start end (rest_step start end r s) ss

unfoldable pub longest_rest : ℕ → ℕ → List ScheduledDay → ℕ
longest_rest start end shifts =
    let r = rest_loop start end (record { longest = 0; cursor = start }) shifts in
    if ltb r.cursor end then max r.longest (end - r.cursor) else r.longest

-- The zone gives the moment that a day begins: `time.Date` at midnight.
module _ (midnight : ℕ → ℕ) where
  unfoldable pub week_warning : List ScheduledDay → ScheduledDay → List RestWarning
  week_warning shifts d =
      let longest = longest_rest (midnight d.day) (midnight (d.day + 7)) shifts in
      if ltb longest weekly_rest
      then record { kind = weekly; day = d.day; minutes = longest / minute } ∷ []
      else []

  -- The second loop, at the days from `i` on: a Monday with the six days after it.
  unfoldable pub weekly_warnings : List ScheduledDay → List ScheduledDay → List RestWarning
  weekly_warnings shifts [] = []
  weekly_warnings shifts (d ∷ ds) =
      (if not (d.day % 7 == 0) || ltb (length (d ∷ ds)) 7 then [] else week_warning shifts d)
      ++ weekly_warnings shifts ds

  unfoldable pub rest_warnings : List ScheduledDay → List RestWarning
  rest_warnings days = from_first (shifts_of days) ++ weekly_warnings (shifts_of days) days
