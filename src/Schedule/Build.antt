-- ===== src/Schedule/Build.antt =====
-- `BuildSchedule` of internal/workshop/schedule.go: a person's days from the rotas, the changes and
-- the absences. A date is the number of its day, as in the parent.
use free_sms.Common.{
  ℕ, zero, suc, ◌+◌, ◌-◌, ◌*◌, ◌/◌, ◌%◌, Bool, true, false, ◌&&◌, ◌||◌, List, [], ◌∷◌, Option, none,
  some, ltb, leb, ◌==◌, if◌then◌else◌,
}
use free_sms.Common.Int.{ℤ, pos, negsuc}
use free_sms.Common.Text.{Text, is_empty, cut, parse_int}
use free_sms.Schedule.{ScheduledDay}

pub record RotaHours : Type 0 where
  pub week : ℕ
  pub weekday : ℕ
  pub starts : Text
  pub ends : Text

pub record Rota : Type 0 where
  pub valid_from : ℕ
  pub created_at : ℕ
  pub weeks : ℕ
  pub hours : List RotaHours

-- A change without hours has empty texts.
pub record ShiftChange : Type 0 where
  pub day : ℕ
  pub starts : Text
  pub ends : Text
  pub created_at : ℕ

-- A number of a clock, from 0 to a bound.
abbrev pub in_range : ℕ → Option ℤ → Option ℕ
in_range top none = none
in_range top (some (negsuc n)) = none
in_range top (some (pos n)) = if ltb top n then none else some n

abbrev pub of_parts : Option ℕ → Option ℕ → Option ℕ
of_parts none m = none
of_parts (some h) none = none
of_parts (some h) (some m) = some (h * 60 + m)

-- The first two parts between colons; what follows a second colon is not read. `none` is the error.
unfoldable pub clock_minutes : Text → Option ℕ
clock_minutes s =
    let (hours, rest, found) = cut b':' s in
    let (minutes, _, _) = cut b':' rest in
    if found
    then of_parts (in_range 23 (parse_int hours)) (in_range 59 (parse_int minutes))
    else none

-- The order of the rotas: by the day that they begin, then by when they were made.
unfoldable pub is_before : Rota → Rota → Bool
is_before a b =
    if a.valid_from == b.valid_from
    then ltb a.created_at b.created_at
    else ltb a.valid_from b.valid_from

-- A stable sort: a rota goes in front of the first that it is before.
unfoldable pub insert_rota : Rota → List Rota → List Rota
insert_rota r [] = r ∷ []
insert_rota r (q ∷ qs) = if is_before r q then r ∷ q ∷ qs else q ∷ insert_rota r qs

unfoldable pub sorted_rotas : List Rota → List Rota → List Rota
sorted_rotas done [] = done
sorted_rotas done (r ∷ rs) = sorted_rotas (insert_rota r done) rs

-- `latest[k]`, as the loop over the changes leaves it.
unfoldable pub latest_at : ℕ → Option ShiftChange → List ShiftChange → Option ShiftChange
latest_at k was [] = was
latest_at k none (c ∷ cs) = latest_at k (if c.day == k then some c else none) cs
latest_at k (some w) (c ∷ cs) =
    latest_at k (if (c.day == k) && ltb w.created_at c.created_at then some c else some w) cs

-- The last of the rotas that has started by a day.
unfoldable pub rota_on : ℕ → Option Rota → List Rota → Option Rota
rota_on k was [] = was
rota_on k was (r ∷ rs) = rota_on k (if leb r.valid_from k then some r else was) rs

-- The hours of a shift as they are written.
pub record Hours : Type 0 where
  pub starts : Text
  pub ends : Text

abbrev no_hours : Hours
no_hours = record { starts = []; ends = [] }

unfoldable pub hours_on : ℕ → ℕ → Hours → List RotaHours → Hours
hours_on week weekday was [] = was
hours_on week weekday was (h ∷ hs) =
    hours_on week weekday
      (if (h.week == week) && (h.weekday == weekday)
        then record { starts = h.starts; ends = h.ends }
        else was)
      hs

-- The week of the rota that a day lies in, counted from the Monday of the day that the rota begins.
-- A rota has at least one week, and begins by the day.
unfoldable pub rota_hours : ℕ → Option Rota → Hours
rota_hours k none = no_hours
rota_hours k (some r) =
    let anchor = r.valid_from - r.valid_from % 7 in
    hours_on ((k - k % 7 - anchor) / 7 % r.weeks) (k % 7 + 1) no_hours r.hours

unfoldable pub planned : List Rota → Option ShiftChange → ℕ → Hours
planned rotas none k = rota_hours k (rota_on k none rotas)
planned rotas (some c) k =
    if is_empty c.starts
    then rota_hours k (rota_on k none rotas)
    else record { starts = c.starts; ends = c.ends }

-- `time.Date` in the zone: the moment of a minute of a day.
module _ (moment : ℕ → ℕ → ℕ) where
  abbrev pub day_off : ℕ → ScheduledDay
  day_off k = record { day = k; working = false; starts = 0; ends = 0 }

  unfoldable pub with_times : ℕ → Option ℕ → Option ℕ → ScheduledDay
  with_times k none b = day_off k
  with_times k (some a) none = day_off k
  with_times k (some a) (some b) = record {
    day = k;
    working = true;
    starts = moment k a;
    ends = if leb b a then moment (k + 1) b else moment k b;
  }

  -- `shiftOn` and the fields that it fills; a time that cannot be read leaves the day without a shift.
  unfoldable pub shift_on : ℕ → Hours → ScheduledDay
  shift_on k h = with_times k (clock_minutes h.starts) (clock_minutes h.ends)

  -- One day: `away` says whether the absences have a reason for it.
  unfoldable pub scheduled : List Rota → List ShiftChange → (ℕ → Bool) → ℕ → ScheduledDay
  scheduled sorted changes away k =
      let h = planned sorted (latest_at k none changes) k in
      if is_empty h.starts || away k then day_off k else shift_on k h

  unfoldable pub scheduled_days :
      List Rota → List ShiftChange → (ℕ → Bool) → ℕ → ℕ → List ScheduledDay
  scheduled_days sorted changes away first zero = []
  scheduled_days sorted changes away first (suc n) =
      scheduled sorted changes away first ∷ scheduled_days sorted changes away (suc first) n

  unfoldable pub build_schedule :
      List Rota → List ShiftChange → (ℕ → Bool) → ℕ → ℕ → List ScheduledDay
  build_schedule rotas changes away first n =
      scheduled_days (sorted_rotas [] rotas) changes away first n
