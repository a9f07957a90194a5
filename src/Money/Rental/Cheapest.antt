-- ===== src/Money/Rental/Cheapest.antt =====
-- `priceWall` of internal/money/rental.go bills the cheapest units that cover a rental.
use free_sms.Common.{
  ℕ, suc, ◌+◌, ◌-◌, ◌*◌, ◌/◌, ◌^◌, ◌≤◌, ◌<◌, ◌≡◌, refl, subst, Bool, true, false, ◌&&◌, List, [],
  ◌∷◌, Option, none, some, leb, ltb, arith, inl, inr,
}
use native.Mathlib.Decide.{dec_lt}
use free_sms.Common.Int.{ℤ, pos}
use free_sms.Common.Calendar.{
  hour, day, week, add_months, add_months-ge, add_months-le, add_months_zero,
}
use free_sms.Money.Rental.{
  RatePrices, RateTerms, RentalLine, unit_weekend, in_one_weekend, RentalPrice, ok, err,
  no_price_for, Best, nothing_yet, is_priced, try_months, max_months, consider_weekend,
  search_units, needed, answer, price_wall,
}
use free_sms.Money.Rental.Months.{count_months-le, max_months-covers}
use free_sms.Money.Rental.Net.{
  IsPrice, consider-AtMost, ArePrices, cost, AtMost, for_range_keep, for_range_reach,
}
use free_sms.Money.Rental.Loops.{try_months-keep, reach_weeks, AtMost-mono, cost_mono}
use free_sms.Money.Rental.Units.{ArePriced, span}
use free_sms.Money.Rental.Offers.{
  Offer, units, one_weekend, IsSound, try_months-IsSound, nothing-IsSound, weekend_price,
  weekend_net,
}

max_months_small :
    (p : Option ℤ) (from need : ℕ) → need ≤ from + span → max_months p from need ≤ 10 ^ 4
unfolding max_months
max_months_small p from need h =
    ground (arith, count_months-le ((need - from) / (28 * day) + 1) from need 0)

max_months_unpriced :
    (p : Option ℤ) (from need : ℕ) → 0 < max_months p from need → is_priced p ≡ true
unfolding max_months
max_months_unpriced none from need h = absurd (omega arith)
max_months_unpriced (some p) from need h = refl

consider_weekend-AtMost :
    (p : RatePrices) (weekend : Bool) (from need c : ℕ)
    → c ≤ 10 ^ 9
    → p.weekend ≡ some (pos c)
    → weekend && in_one_weekend from need ≡ true
    → AtMost c (consider_weekend weekend p.weekend from need nothing_yet)
unfolding consider_weekend
consider_weekend-AtMost p weekend from need c h e f =
    rw (e, f)
      (consider-AtMost
        (record { unit = unit_weekend; count = 1; unit_price = pos c; season = 0 } ∷ []) c
        nothing_yet (weekend_net c h))

module _ (p : RatePrices) (v : ArePrices p) (weekend : Bool) (from need : ℕ)
    (near : need ≤ from + span) where
  search_units-IsSound : IsSound p v weekend from need near (search_units p weekend from need)
  unfolding search_units
  search_units-IsSound =
      let top : ℕ = max_months p.monthly from need in
      let bound = max_months_small p.monthly from need near in
      for_range_keep (IsSound p v weekend from need near) (try_months p from need) (suc top)
        (suc top) 0 (consider_weekend weekend p.weekend from need nothing_yet)
        (λ m c lt.
          try_months-IsSound p v weekend from need near m c (omega arith)
            (λ l. max_months_unpriced p.monthly from need (omega arith)))
        (omega arith)
        (weekend_price p v weekend from need near p.weekend refl v.weekend nothing_yet
          (nothing-IsSound p v weekend from need near))

  -- The months that are tried, and any number of them.
  tried_months :
      (m w d h : ℕ)
      → from < need
      → m ≤ max_months p.monthly from need
      → ArePriced p m w d h
      → need ≤ add_months from m + w * week + d * day + h * hour
      → AtMost (cost p m w d h) (search_units p weekend from need)
  unfolding search_units try_months
  tried_months m w d h lt hm q covers =
      let top : ℕ = max_months p.monthly from need in
      let bound = max_months_small p.monthly from need near in
      let later = add_months-ge from m in
      for_range_reach (AtMost (cost p m w d h)) (try_months p from need) (suc top) (suc top) 0 m
        (consider_weekend weekend p.weekend from need nothing_yet)
        (λ k c l. try_months-keep p v need _ from k c near (omega arith))
        (λ c.
          reach_weeks p v need (add_months from m) m w d h c (omega arith) (omega arith) q
            (λ e. rw (e, add_months_zero from) lt) covers)
        (omega arith) (omega arith) (omega arith)

  reach_months :
      (m w d h : ℕ)
      → from < need
      → ArePriced p m w d h
      → need ≤ add_months from m + w * week + d * day + h * hour
      → AtMost (cost p m w d h) (search_units p weekend from need)
  reach_months m w d h lt q covers =
      let top : ℕ = max_months p.monthly from need in
      elim (dec_lt top m) [
        | no le ↦ tried_months m w d h lt (omega arith) q covers
        | yes more ↦
            let enough = max_months-covers p.monthly from need (q.months (omega arith)) in
            AtMost-mono (cost p top 0 0 0) (cost p m w d h) (search_units p weekend from need)
              (cost_mono p top 0 0 0 m w d h (omega arith) (omega arith) (omega arith)
                (omega arith))
              (tried_months top 0 0 0 lt (omega arith)
                (record {
                  months = λ _. q.months (omega arith);
                  weeks = λ l. absurd (omega arith);
                  days = λ l. absurd (omega arith);
                  hours = λ l. absurd (omega arith);
                })
                (omega arith))
      ]

  -- Every offer is among what is tried, or no better than what is.
  reach-Offer :
      (ls : List RentalLine) (n : ℕ)
      → from < need
      → Offer p weekend from need ls n
      → AtMost n (search_units p weekend from need)
  unfolding search_units
  reach-Offer ls n lt (units m w d h q covers) = reach_months m w d h lt q covers
  reach-Offer ls n lt (one_weekend c e f) =
      let top : ℕ = max_months p.monthly from need in
      let bound = max_months_small p.monthly from need near in
      for_range_keep (AtMost c) (try_months p from need) (suc top) (suc top) 0
        (consider_weekend weekend p.weekend from need nothing_yet)
        (λ m b l. try_months-keep p v need c from m b near (omega arith)) (omega arith)
        (consider_weekend-AtMost p weekend from need c (subst IsPrice e v.weekend) e f)

-- What a bill may be: the cheapest of the offers, or nothing, where there is no offer.
abbrev pub IsCheapest : RatePrices → Bool → ℕ → ℕ → RentalPrice → Type 0
IsCheapest p weekend from need (ok lines) =
    (n : ℕ) × Offer p weekend from need lines n
    × ((ls : List RentalLine) (k : ℕ) → Offer p weekend from need ls k → n ≤ k)
IsCheapest p weekend from need (err e) =
    (e ≡ no_price_for) × ((ls : List RentalLine) (k : ℕ) → ¬ Offer p weekend from need ls k)

needed_range :
    (from to : ℕ) (t : RateTerms)
    → from < to
    → to ≤ add_months from 60
    → t.minimum ≤ span
    → (from < needed from to t) × (needed from to t ≤ from + span)
unfolding needed
needed_range from to t h k m = ground (arith, add_months-le from 60)

answer-IsCheapest :
    (p : RatePrices) (v : ArePrices p) (weekend : Bool) (from need : ℕ) (near : need ≤ from + span)
    (b : Best)
    → IsSound p v weekend from need near b
    → ((ls : List RentalLine) (k : ℕ) → Offer p weekend from need ls k → AtMost k b)
    → IsCheapest p weekend from need (answer b)
answer-IsCheapest p v weekend from need near b (inl (e, f)) reach =
    rw f (refl, λ ls k o. let (c, g, l) = reach ls k o in cc)
answer-IsCheapest p v weekend from need near b (inr (n, e, o, f)) reach =
    rw f (n, o, λ ls k q. let (c, g, l) = reach ls k q in ground arith)

-- For a rental of up to five years, a minimum of up to ten and prices from nothing to a hundred
-- million kronor, `priceWall` bills what covers the time that is needed with units that the plan
-- prices, or one weekend where that is one, and no such bill is cheaper; and it says that there is
-- no price only where nothing covers the time.
pub price_wall-IsCheapest :
    (from to : ℕ) (t : RateTerms) (weekend : Bool)
    → from < to
    → to ≤ add_months from 60
    → t.minimum ≤ span
    → ArePrices t.prices
    → IsCheapest t.prices weekend from (needed from to t) (price_wall from to t weekend)
unfolding price_wall
price_wall-IsCheapest from to t weekend h k m v =
    let (lt, near) = needed_range from to t h k m in
    let starts : leb to from ≡ false = ground arith in
    let short : ltb (add_months from 60) to ≡ false = ground arith in
    rw (starts, short)
      (answer-IsCheapest t.prices v weekend from (needed from to t) near
        (search_units t.prices weekend from (needed from to t))
        (search_units-IsSound t.prices v weekend from (needed from to t) near)
        (λ ls k o. reach-Offer t.prices v weekend from (needed from to t) near ls k lt o))
