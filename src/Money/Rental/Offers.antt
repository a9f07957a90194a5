-- ===== src/Money/Rental/Offers.antt =====
-- What `priceWall` of internal/money/rental.go may bill a rental as, and that it bills such a thing.
use free_sms.Common.{
  ℕ, suc, ◌+◌, ◌-◌, ◌*◌, ◌^◌, ◌≤◌, ◌<◌, ◌≡◌, refl, ap, ◌∙◌, Bool, true, false, not, ◌&&◌, ◌||◌,
  List, [], ◌∷◌, Option, none, some, ltb, arith, Bool-cases, inl, inr, ◌⊎◌,
}
use free_sms.Common.Int.{add64, add64-pos, ℤ, pos, negsuc, ltb_ℤ}
use free_sms.Common.Calendar.{hour, day, week, add_months, add_months-ge}
use free_sms.Money.Rental.{
  RatePrices, RentalLine, unit_weekend, Best, nothing_yet, consider, net_sum, lines_of, is_priced,
  no_lines, most, try_days, try_weeks, try_months, in_one_weekend, consider_weekend,
}
use free_sms.Money.Rental.Net.{IsPrice, ArePrices, cost, net_sum-lines_of, net-pos, for_range_keep}
use free_sms.Money.Rental.Loops.{round_hours, round_small}
use free_sms.Money.Rental.Units.{
  ArePriced, span, most_unpriced, most_days, most_weeks, ceil_hours-covers,
}

-- Units that a plan prices and that cover the time from `from` to `need`, or one weekend, and what
-- they cost.
pub data Offer (p : RatePrices) (weekend : Bool) (from need : ℕ)
    : List RentalLine → ℕ → Type 0 where
  units :
      (m w d h : ℕ)
      → ArePriced p m w d h
      → need ≤ add_months from m + w * week + d * day + h * hour
      → Offer p weekend from need (lines_of p m w d h) (cost p m w d h)
  one_weekend :
      (c : ℕ)
      → p.weekend ≡ some (pos c)
      → weekend && in_one_weekend from need ≡ true
      → Offer p weekend from need
          (record { unit = unit_weekend; count = 1; unit_price = pos c; season = 0 } ∷ [])
          c

pub weekend_net :
    (c : ℕ)
    → c ≤ 10 ^ 9
    → net_sum
        (pos 0)
        (record { unit = unit_weekend; count = 1; unit_price = pos c; season = 0 } ∷ [])
      ≡ pos c
unfolding net_sum
weekend_net c h =
    ap (add64 (pos 0)) (net-pos unit_weekend 1 c 0 (omega arith) h)
    ∙ add64-pos 0 (1 * c) (omega arith)
    ∙ ap pos (omega arith)

module _ (p : RatePrices) (v : ArePrices p) (weekend : Bool) (from need : ℕ)
    (near : need ≤ from + span) where
  -- Nothing was found yet, or an offer.
  abbrev pub IsSound : Best → Type 0
  IsSound b =
      (b.net ≡ negsuc 0) × (b.lines ≡ [])
      ⊎ ((n : ℕ) × (b.net ≡ pos n)
          × Offer p weekend from need b.lines n
          × (no_lines b.lines ≡ false))

  consider-IsSound :
      (ls : List RentalLine) (n : ℕ) (b : Best)
      → net_sum (pos 0) ls ≡ pos n
      → Offer p weekend from need ls n
      → no_lines ls ≡ false
      → IsSound b
      → IsSound (consider ls b)
  unfolding consider
  consider-IsSound ls n b e o f a =
      elim (Bool-cases (ltb_ℤ b.net (pos 0) || ltb_ℤ (net_sum (pos 0) ls) b.net)) [
        | inl t ↦ rw t (inr (n, e, o, f))
        | inr t ↦ rw t a
      ]

  hours_priced :
      (after_w d : ℕ)
      → (ltb 0 (need - (after_w + d * day)) && not (is_priced p.hourly)) ≡ false
      → 0 < round_hours p need after_w d
      → is_priced p.hourly ≡ true
  unfolding round_hours
  hours_priced after_w d e h = ground arith

  hours_cover : (after_w d : ℕ) → need ≤ after_w + d * day + round_hours p need after_w d * hour
  unfolding round_hours
  hours_cover after_w d = ground (arith, ceil_hours-covers (need - (after_w + d * day)))

  try_days-IsSound :
      (m w d : ℕ) (b : Best)
      → m ≤ 10 ^ 5
      → w ≤ 10 ^ 5
      → d ≤ 10 ^ 5
      → ArePriced p m w d 0
      → IsSound b
      → IsSound (try_days p need (add_months from m + w * week) m w d b)
  unfolding try_days round_hours
  try_days-IsSound m w d b hm hw hd q a =
      let after_w : ℕ = add_months from m + w * week in
      let later = add_months-ge from m in
      let h : ℕ = round_hours p need after_w d in
      elim (Bool-cases (ltb 0 (need - (after_w + d * day)) && not (is_priced p.hourly))) [
        | inl e ↦ rw e a
        | inr e ↦ elim (Bool-cases (no_lines (lines_of p m w d h))) [
          | inl f ↦ rw (e, f) a
          | inr f ↦
              rw (e, f)
                (consider-IsSound (lines_of p m w d h) (cost p m w d h) b
                  (net_sum-lines_of p m w d h v
                    (hm, hw, hd, round_small p need after_w d (omega arith)))
                  (units m w d h
                    (record {
                      months = q.months;
                      weeks = q.weeks;
                      days = q.days;
                      hours = hours_priced after_w d e;
                    })
                    (hours_cover after_w d))
                  f a)
        ]
      ]

  try_weeks-IsSound :
      (m w : ℕ) (b : Best)
      → m ≤ 10 ^ 5
      → w ≤ 10 ^ 5
      → ArePriced p m w 0 0
      → IsSound b
      → IsSound (try_weeks p need (add_months from m) m w b)
  unfolding try_weeks
  try_weeks-IsSound m w b hm hw q a =
      let after_w : ℕ = add_months from m + w * week in
      let later = add_months-ge from m in
      let top : ℕ = most p.daily (need - after_w) day in
      let bound = most_days p.daily (need - after_w) (omega arith) in
      for_range_keep IsSound (try_days p need after_w m w) (suc top) (suc top) 0 b
        (λ d c lt. try_days-IsSound m w d c hm hw (omega arith) (record {
          months = q.months;
          weeks = q.weeks;
          days = λ l. most_unpriced p.daily (need - after_w) day (omega arith);
          hours = q.hours;
        }))
        (omega arith) a

  pub try_months-IsSound :
      (m : ℕ) (b : Best)
      → m ≤ 10 ^ 5
      → (0 < m → is_priced p.monthly ≡ true)
      → IsSound b
      → IsSound (try_months p from need m b)
  unfolding try_months
  try_months-IsSound m b hm q a =
      let after_m : ℕ = add_months from m in
      let later = add_months-ge from m in
      let top : ℕ = most p.weekly (need - after_m) week in
      let bound = most_weeks p.weekly (need - after_m) (omega arith) in
      for_range_keep IsSound (try_weeks p need after_m m) (suc top) (suc top) 0 b
        (λ w c lt. try_weeks-IsSound m w c hm (omega arith) (record {
          months = q;
          weeks = λ l. most_unpriced p.weekly (need - after_m) week (omega arith);
          days = λ l. absurd (omega arith);
          hours = λ l. absurd (omega arith);
        }))
        (omega arith) a

  pub nothing-IsSound : IsSound nothing_yet
  nothing-IsSound = inl (refl, refl)

  pub weekend_price :
      (q : Option ℤ)
      → p.weekend ≡ q
      → IsPrice q
      → (b : Best) → IsSound b
      → IsSound (consider_weekend weekend q from need b)
  unfolding consider_weekend net_sum
  weekend_price none e h b a = a
  weekend_price (some (negsuc c)) e h b a = absurd h
  weekend_price (some (pos c)) e h b a = elim (Bool-cases (weekend && in_one_weekend from need)) [
    | inr f ↦ rw f a
    | inl f ↦ rw f (
        consider-IsSound
          (record { unit = unit_weekend; count = 1; unit_price = pos c; season = 0 } ∷ []) c b
          (weekend_net c h) (one_weekend c e f) refl a)
  ]
