-- ===== src/Money/Rental/Loops.antt =====
-- The loops over months, weeks, days and hours of internal/money/rental.go: they try, for every
-- combination of units that covers a rental, one that covers it and is no dearer.
use free_sms.Common.{
  ℕ, zero, suc, ◌+◌, ◌-◌, ◌*◌, ◌^◌, ◌≤◌, ◌<◌, ◌≡◌, Bool, true, false, not, ◌&&◌, ltb, if◌then◌else◌,
  arith, Bool-cases, inl, inr,
}
use native.Mathlib.Nat.{mul-le-mul}
use native.Mathlib.Decide.{dec_lt}
use free_sms.Common.Calendar.{hour, day, week, add_months, add_months-ge}
use free_sms.Money.Rental.{
  RatePrices, Best, consider, lines_of, for_range, is_priced, no_lines, ceil_div, most, try_days,
  try_weeks, try_months,
}
use free_sms.Money.Rental.Net.{
  amount_of, ArePrices, cost, net_sum-lines_of, AtMost, consider-AtMost, consider-AtMost_self,
  for_range_keep, for_range_reach,
}
use free_sms.Money.Rental.Units.{
  no_lines-lines_of, span, ceil_hours, ceil_hours-covers, ceil_hours_least, most_days, most_weeks,
  most_days-covers, most_weeks-covers, ArePriced,
}

-- One round over the days: it keeps what was found, and tries its own combination.
unfoldable pub round_hours : RatePrices → ℕ → ℕ → ℕ → ℕ
round_hours p need after_w d =
    let rest = need - (after_w + d * day) in if ltb 0 rest then ceil_div rest hour else 0

-- Where a round stops short of `consider` it leaves what there was.
round_cases {ℓ} :
    (P : Best → Type ℓ) (skip none_yet : Bool) (b c : Best)
    → P b
    → P c
    → P (if skip then b else if none_yet then b else c)
round_cases P true n b c pb pc = pb
round_cases P false true b c pb pc = pb
round_cases P false false b c pb pc = pc

pub round_small :
    (p : RatePrices) (need after_w d : ℕ)
    → need ≤ after_w + span
    → round_hours p need after_w d ≤ 10 ^ 5
unfolding round_hours
round_small p need after_w d h =
    let rest : need - (after_w + d * day) ≤ span = omega arith in
    ground (arith, ceil_hours (need - (after_w + d * day)) rest)

round_least :
    (p : RatePrices) (need after_w d h : ℕ)
    → need ≤ after_w + d * day + h * hour
    → round_hours p need after_w d ≤ h
unfolding round_hours
round_least p need after_w d h e = ground (arith, ceil_hours_least (need - (after_w + d * day)) h)

round_none :
    (p : RatePrices) (need after_w d : ℕ)
    → round_hours p need after_w d ≡ 0
    → need ≤ after_w + d * day
unfolding round_hours
round_none p need after_w d e = ground (arith, ceil_hours-covers (need - (after_w + d * day)))

not_skipped :
    (r h : ℕ) (priced : Bool)
    → r ≤ h * hour
    → (0 < h → priced ≡ true)
    → (ltb 0 r && not priced) ≡ false
not_skipped r zero q e f = ground arith
not_skipped r (suc h) q e f = rw (f (omega arith)) (ground arith)

pub cost_mono :
    (p : RatePrices) (m w d h m' w' d' h' : ℕ)
    → m ≤ m'
    → w ≤ w'
    → d ≤ d'
    → h ≤ h'
    → cost p m w d h ≤ cost p m' w' d' h'
cost_mono p m w d h m' w' d' h' hm hw hd hh = omega (
  arith,
  mul-le-mul {m₁ = amount_of p.monthly} {m₂ = amount_of p.monthly} hm (omega arith),
  mul-le-mul {m₁ = amount_of p.weekly} {m₂ = amount_of p.weekly} hw (omega arith),
  mul-le-mul {m₁ = amount_of p.daily} {m₂ = amount_of p.daily} hd (omega arith),
  mul-le-mul {m₁ = amount_of p.hourly} {m₂ = amount_of p.hourly} hh (omega arith),
)

pub AtMost-mono : (n k : ℕ) (b : Best) → n ≤ k → AtMost n b → AtMost k b
AtMost-mono n k b h (c, e, l) = (c, e, omega arith)

module _ (p : RatePrices) (v : ArePrices p) (need : ℕ) where
  try_days-keep :
      (n after_w m w d : ℕ) (b : Best)
      → need ≤ after_w + span
      → m ≤ 10 ^ 5
      → w ≤ 10 ^ 5
      → d ≤ 10 ^ 5
      → AtMost n b
      → AtMost n (try_days p need after_w m w d b)
  unfolding try_days round_hours
  try_days-keep n after_w m w d b near hm hw hd a =
      let lines = lines_of p m w d (round_hours p need after_w d) in
      round_cases (AtMost n) (ltb 0 (need - (after_w + d * day)) && not (is_priced p.hourly))
        (no_lines lines) b (consider lines b) a
        (consider-AtMost_self lines (cost p m w d (round_hours p need after_w d)) n b
          (net_sum-lines_of p m w d (round_hours p need after_w d) v
            (hm, hw, hd, round_small p need after_w d near))
          a)

  try_days-reach :
      (after_w m w d : ℕ) (b : Best)
      → need ≤ after_w + span
      → m ≤ 10 ^ 5
      → w ≤ 10 ^ 5
      → d ≤ 10 ^ 5
      → (ltb 0 (need - (after_w + d * day)) && not (is_priced p.hourly)) ≡ false
      → no_lines (lines_of p m w d (round_hours p need after_w d)) ≡ false
      → AtMost (cost p m w d (round_hours p need after_w d)) (try_days p need after_w m w d b)
  unfolding try_days round_hours
  try_days-reach after_w m w d b near hm hw hd e f =
      rw (e, f)
        (consider-AtMost (lines_of p m w d (round_hours p need after_w d))
          (cost p m w d (round_hours p need after_w d)) b
          (net_sum-lines_of p m w d (round_hours p need after_w d) v
            (hm, hw, hd, round_small p need after_w d near)))

  try_weeks-keep :
      (n after_m m w : ℕ) (b : Best)
      → need ≤ after_m + span
      → m ≤ 10 ^ 5
      → w ≤ 10 ^ 5
      → AtMost n b
      → AtMost n (try_weeks p need after_m m w b)
  unfolding try_weeks
  try_weeks-keep n after_m m w b near hm hw a =
      let after_w : ℕ = after_m + w * week in
      let bound = most_days p.daily (need - after_w) (omega arith) in
      for_range_keep (AtMost n) (try_days p need after_w m w)
        (suc (most p.daily (need - after_w) day)) (suc (most p.daily (need - after_w) day)) 0 b
        (λ d c lt. try_days-keep n after_w m w d c (omega arith) hm hw (omega arith)) (omega arith)
        a

  pub try_months-keep :
      (n from m : ℕ) (b : Best)
      → need ≤ from + span
      → m ≤ 10 ^ 5
      → AtMost n b
      → AtMost n (try_months p from need m b)
  unfolding try_months
  try_months-keep n from m b near hm a =
      let after_m : ℕ = add_months from m in
      let later = add_months-ge from m in
      let bound = most_weeks p.weekly (need - after_m) (omega arith) in
      for_range_keep (AtMost n) (try_weeks p need after_m m)
        (suc (most p.weekly (need - after_m) week)) (suc (most p.weekly (need - after_m) week)) 0 b
        (λ w c lt. try_weeks-keep n after_m m w c (omega arith) hm (omega arith)) (omega arith) a

  some_lines :
      (after_w m w d : ℕ)
      → ArePriced p m w d (round_hours p need after_w d)
      → (m ≡ 0 → w ≡ 0 → after_w < need)
      → no_lines (lines_of p m w d (round_hours p need after_w d)) ≡ false
  some_lines after_w m w d v' some_time =
      elim (Bool-cases (no_lines (lines_of p m w d (round_hours p need after_w d)))) [
        | inr e ↦ e
        | inl e ↦
            let (em, ew, ed, eh) = no_lines-lines_of p m w d (round_hours p need after_w d) v' e in
            let started = some_time em ew in
            let met = round_none p need after_w d eh in absurd (omega arith)
      ]

  -- A combination as it is tried: the hours are those that are left.
  tried_days :
      (after_w m w d h : ℕ) (b : Best)
      → need ≤ after_w + span
      → m ≤ 10 ^ 5
      → w ≤ 10 ^ 5
      → d ≤ most p.daily (need - after_w) day
      → ArePriced p m w d h
      → (m ≡ 0 → w ≡ 0 → after_w < need)
      → need ≤ after_w + d * day + h * hour
      → AtMost
          (cost p m w d h)
          (for_range (suc (most p.daily (need - after_w) day)) 0 (try_days p need after_w m w) b)
  tried_days after_w m w d h b near hm hw hd v' some_time covers =
      let h₀ : ℕ = round_hours p need after_w d in
      let fewer : h₀ ≤ h = round_least p need after_w d h covers in
      let left : need - (after_w + d * day) ≤ h * hour = omega arith in
      let bound = most_days p.daily (need - after_w) (omega arith) in
      let priced : ArePriced p m w d h₀ = record {
        months = v'.months;
        weeks = v'.weeks;
        days = v'.days;
        hours = λ l. v'.hours (omega arith);
      } in
      AtMost-mono (cost p m w d h₀) (cost p m w d h)
        (for_range (suc (most p.daily (need - after_w) day)) 0 (try_days p need after_w m w) b)
        (cost_mono p m w d h₀ m w d h (omega arith) (omega arith) (omega arith) fewer)
        (for_range_reach (AtMost (cost p m w d h₀)) (try_days p need after_w m w)
          (suc (most p.daily (need - after_w) day)) (suc (most p.daily (need - after_w) day)) 0 d b
          (λ k c lt. try_days-keep _ after_w m w k c near hm hw (omega arith))
          (λ c.
            try_days-reach after_w m w d c near hm hw (omega arith)
              (not_skipped (need - (after_w + d * day)) h (is_priced p.hourly) left v'.hours)
              (some_lines after_w m w d priced some_time))
          (omega arith) (omega arith) (omega arith))

  -- Any number of days and hours: more days than cover the rest are no better than those that do.
  reach_days :
      (after_w m w d h : ℕ) (b : Best)
      → need ≤ after_w + span
      → m ≤ 10 ^ 5
      → w ≤ 10 ^ 5
      → ArePriced p m w d h
      → (m ≡ 0 → w ≡ 0 → after_w < need)
      → need ≤ after_w + d * day + h * hour
      → AtMost
          (cost p m w d h)
          (for_range (suc (most p.daily (need - after_w) day)) 0 (try_days p need after_w m w) b)
  reach_days after_w m w d h b near hm hw v' some_time covers =
      let top : ℕ = most p.daily (need - after_w) day in
      elim (dec_lt top d) [
        | no le ↦ tried_days after_w m w d h b near hm hw (omega arith) v' some_time covers
        | yes lt ↦
            let enough : need - after_w ≤ top * day =
              most_days-covers p.daily (need - after_w) (v'.days (omega arith)) in
            AtMost-mono (cost p m w top 0) (cost p m w d h)
              (for_range (suc top) 0 (try_days p need after_w m w) b)
              (cost_mono p m w top 0 m w d h (omega arith) (omega arith) (omega arith)
                (omega arith))
              (tried_days after_w m w top 0 b near hm hw (omega arith)
                (record {
                  months = v'.months;
                  weeks = v'.weeks;
                  days = λ _. v'.days (omega arith);
                  hours = λ l. absurd (omega arith);
                })
                some_time (omega arith))
      ]

  tried_weeks :
      (after_m m w d h : ℕ) (b : Best)
      → need ≤ after_m + span
      → m ≤ 10 ^ 5
      → w ≤ most p.weekly (need - after_m) week
      → ArePriced p m w d h
      → (m ≡ 0 → after_m < need)
      → need ≤ after_m + w * week + d * day + h * hour
      → AtMost
          (cost p m w d h)
          (for_range (suc (most p.weekly (need - after_m) week)) 0 (try_weeks p need after_m m) b)
  unfolding try_weeks
  tried_weeks after_m m w d h b near hm hw v' some_time covers =
      let bound = most_weeks p.weekly (need - after_m) (omega arith) in
      for_range_reach (AtMost (cost p m w d h)) (try_weeks p need after_m m)
        (suc (most p.weekly (need - after_m) week)) (suc (most p.weekly (need - after_m) week)) 0 w
        b (λ k c lt. try_weeks-keep _ after_m m k c near hm (omega arith))
        (λ c.
          reach_days (after_m + w * week) m w d h c (omega arith) hm (omega arith) v'
            (λ em ew.
              let start = some_time em in
              let none_yet : w * week ≡ 0 = (rw ew (omega arith)) in omega arith)
            covers)
        (omega arith) (omega arith) (omega arith)

  pub reach_weeks :
      (after_m m w d h : ℕ) (b : Best)
      → need ≤ after_m + span
      → m ≤ 10 ^ 5
      → ArePriced p m w d h
      → (m ≡ 0 → after_m < need)
      → need ≤ after_m + w * week + d * day + h * hour
      → AtMost
          (cost p m w d h)
          (for_range (suc (most p.weekly (need - after_m) week)) 0 (try_weeks p need after_m m) b)
  reach_weeks after_m m w d h b near hm v' some_time covers =
      let top : ℕ = most p.weekly (need - after_m) week in
      elim (dec_lt top w) [
        | no le ↦ tried_weeks after_m m w d h b near hm (omega arith) v' some_time covers
        | yes lt ↦
            let enough : need - after_m ≤ top * week =
              most_weeks-covers p.weekly (need - after_m) (v'.weeks (omega arith)) in
            AtMost-mono (cost p m top 0 0) (cost p m w d h)
              (for_range (suc top) 0 (try_weeks p need after_m m) b)
              (cost_mono p m top 0 0 m w d h (omega arith) (omega arith) (omega arith)
                (omega arith))
              (tried_weeks after_m m top 0 0 b near hm (omega arith)
                (record {
                  months = v'.months;
                  weeks = λ _. v'.weeks (omega arith);
                  days = λ l. absurd (omega arith);
                  hours = λ l. absurd (omega arith);
                })
                some_time (omega arith))
      ]
