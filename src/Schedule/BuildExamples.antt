-- ===== src/Schedule/BuildExamples.antt =====
-- A rota laid out.
use free_sms.Common.{ℕ, ◌+◌, ◌*◌, ◌≡◌, refl, ◌↔◌, true, false, [], ◌∷◌, arith}
use free_sms.Common.Text.{codes, cut, parse_int, scan}
use free_sms.Schedule.{minute, shifts_of, rest_warnings}
use free_sms.Schedule.Warnings.{IsRested, HasStretches}
use free_sms.Schedule.Build.{
  RotaHours, Rota, ShiftChange, clock_minutes, insert_rota, is_before, sorted_rotas, latest_at,
  rota_on, hours_on, rota_hours, planned, with_times, shift_on, scheduled, scheduled_days,
  build_schedule,
}
use free_sms.Schedule.Order.{KeepsDays, rest_warnings-build_schedule}

-- Days of 24 hours.
abbrev moment : ℕ → ℕ → ℕ
moment k a = k * (1440 * minute) + a * minute

moment-KeepsDays : KeepsDays moment
moment-KeepsDays k a b ha hb = grind arith

abbrev hours : ℕ → RotaHours
hours weekday = record { week = 0; weekday = weekday; starts = codes "08:00"; ends = codes "17:00" }

-- Mondays and Tuesdays, from Monday 7.
abbrev rota : Rota
rota = record { valid_from = 7; created_at = 1; weeks = 1; hours = hours 1 ∷ hours 2 ∷ [] }

-- The Tuesday moved to a night.
abbrev change : ShiftChange
change = record { day = 8; starts = codes "22:00:00"; ends = codes "06:00:00"; created_at = 2 }

laid_out :
    build_schedule moment (rota ∷ []) (change ∷ []) (λ k. false) 7 3
    ≡ record { day = 7; working = true; starts = moment 7 480; ends = moment 7 1020 }
      ∷ record { day = 8; working = true; starts = moment 8 1320; ends = moment 9 360 }
      ∷ record { day = 9; working = false; starts = 0; ends = 0 }
      ∷ []
unfolding build_schedule sorted_rotas insert_rota is_before scheduled_days scheduled latest_at
    planned rota_on rota_hours hours_on shift_on with_times clock_minutes cut parse_int scan
laid_out = refl

rest_warnings-build_schedule_example :
    (rest_warnings
        (λ k. moment k 0)
        (build_schedule moment (rota ∷ []) (change ∷ []) (λ k. false) 7 14)
      ≡ [])
    ↔ (IsRested (shifts_of (build_schedule moment (rota ∷ []) (change ∷ []) (λ k. false) 7 14))
        × HasStretches
            (λ k. moment k 0)
            (shifts_of (build_schedule moment (rota ∷ []) (change ∷ []) (λ k. false) 7 14))
            (build_schedule moment (rota ∷ []) (change ∷ []) (λ k. false) 7 14))
rest_warnings-build_schedule_example =
    rest_warnings-build_schedule moment (rota ∷ []) (change ∷ []) (λ k. false) 7 14 moment-KeepsDays
