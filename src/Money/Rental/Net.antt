-- ===== src/Money/Rental/Net.antt =====
-- What the lines of a rental come to, and the cheapest list so far, of internal/money/rental.go.
use free_sms.Common.{
  ℕ, zero, suc, ◌+◌, ◌*◌, ◌/◌, ◌^◌, ◌≤◌, ◌<◌, ◌≡◌, refl, sym, ap, ◌∙◌, true, false, ◌||◌, List, [],
  ◌++◌, Option, none, some, ◌==◌, arith, Bool-cases, inl, inr,
}
use native.Mathlib.Nat.{mul-le-mul}
use mathlib.Core.List.{append-nil}
use free_sms.Common.Int.{ℤ, pos, negsuc, pos_part, ltb_ℤ, add64-pos, mul64-pos}
use free_sms.Money.Rounding.{line_net}
use free_sms.Money.Rounding.Nearest.{div_round-pos}
use free_sms.Money.Rental.{
  RatePrices, RentalLine, RentalUnit, unit_month, unit_week, unit_day, unit_hour, Best, net,
  net_sum, consider, line_for, lines_of, for_range,
}

-- A price to a hundred million kronor, or none.
abbrev pub IsPrice : Option ℤ → Type 0
IsPrice none = Unit
IsPrice (some (pos p)) = p ≤ 10 ^ 9
IsPrice (some (negsuc p)) = ⊥

abbrev pub amount_of : Option ℤ → ℕ
amount_of none = 0
amount_of (some p) = pos_part p

pub IsPrice-amount_of : (p : Option ℤ) → IsPrice p → amount_of p ≤ 10 ^ 9
IsPrice-amount_of none h = omega arith
IsPrice-amount_of (some (pos p)) h = h
IsPrice-amount_of (some (negsuc p)) h = absurd h

-- Prices that the code's sums are exact for.
pub record ArePrices (p : RatePrices) : Type 0 where
  pub hourly : IsPrice p.hourly
  pub daily : IsPrice p.daily
  pub weekend : IsPrice p.weekend
  pub weekly : IsPrice p.weekly
  pub monthly : IsPrice p.monthly

-- What a combination of months, weeks, days and hours costs.
abbrev pub cost : RatePrices → ℕ → ℕ → ℕ → ℕ → ℕ
cost p m w d h =
    m * amount_of p.monthly
    + w * amount_of p.weekly
    + d * amount_of p.daily
    + h * amount_of p.hourly

thousandth : (x : ℕ) → (x * 1000 + 500) / 1000 ≡ x
thousandth x = omega arith

regroup : (c p : ℕ) → c * 1000 * p ≡ c * p * 1000
regroup c p = grind arith

pub net-pos :
    (u : RentalUnit) (c p s : ℕ)
    → c ≤ 10 ^ 5
    → p ≤ 10 ^ 9
    → net (record { unit = u; count = c; unit_price = pos p; season = s }) ≡ pos (c * p)
unfolding net line_net
net-pos u c p s hc hp =
    let small : c * p ≤ 10 ^ 5 * 10 ^ 9 = mul-le-mul hc hp in
    rw
      (
        mul64-pos c 1000 (omega arith),
        mul64-pos (c * 1000) p (rw (regroup c p) (omega arith)),
        regroup c p,
        div_round-pos (c * p * 1000) 1000 (omega arith) (omega arith) (omega arith),
      )
      (ap pos (thousandth (c * p)))

net_sum-line_for :
    (a : ℕ) (u : RentalUnit) (c : ℕ) (p : Option ℤ) (ls : List RentalLine)
    → IsPrice p
    → c ≤ 10 ^ 5
    → a ≤ 10 ^ 16
    → net_sum (pos a) (line_for u c p ++ ls) ≡ net_sum (pos (a + c * amount_of p)) ls
unfolding net_sum line_for
net_sum-line_for a u zero p ls hp hc ha = ap (λ k. net_sum (pos k) ls) (omega arith)
net_sum-line_for a u (suc c) none ls hp hc ha = ap (λ k. net_sum (pos k) ls) (omega arith)
net_sum-line_for a u (suc c) (some (negsuc p)) ls hp hc ha = absurd hp
net_sum-line_for a u (suc c) (some (pos p)) ls hp hc ha =
    let small : suc c * p ≤ 10 ^ 5 * 10 ^ 9 = mul-le-mul hc hp in
    rw (net-pos u (suc c) p 0 hc hp, add64-pos a (suc c * p) (omega arith))

-- The counts that the loops go through.
abbrev pub AreSmall : ℕ → ℕ → ℕ → ℕ → Type 0
AreSmall m w d h = (m ≤ 10 ^ 5) × (w ≤ 10 ^ 5) × (d ≤ 10 ^ 5) × (h ≤ 10 ^ 5)

product_small : (c : ℕ) (p : Option ℤ) → IsPrice p → c ≤ 10 ^ 5 → c * amount_of p ≤ 10 ^ 14
product_small c p hp hc =
    let bound : c * amount_of p ≤ 10 ^ 5 * 10 ^ 9 = mul-le-mul hc (IsPrice-amount_of p hp) in
    omega arith

pub net_sum-lines_of :
    (p : RatePrices) (m w d h : ℕ)
    → ArePrices p
    → AreSmall m w d h
    → net_sum (pos 0) (lines_of p m w d h) ≡ pos (cost p m w d h)
unfolding lines_of net_sum
net_sum-lines_of p m w d h v (hm, hw, hd, hh) =
    let bm = product_small m p.monthly v.monthly hm in
    let bw = product_small w p.weekly v.weekly hw in
    let bd = product_small d p.daily v.daily hd in
    net_sum-line_for 0 unit_month m p.monthly _ v.monthly hm (omega arith)
    ∙ net_sum-line_for _ unit_week w p.weekly _ v.weekly hw (omega arith)
    ∙ net_sum-line_for _ unit_day d p.daily _ v.daily hd (omega arith)
    ∙ ap
        (net_sum
          (pos (0 + m * amount_of p.monthly + w * amount_of p.weekly + d * amount_of p.daily)))
        (sym (append-nil (line_for unit_hour h p.hourly)))
    ∙ net_sum-line_for _ unit_hour h p.hourly [] v.hourly hh (omega arith)
    ∙ ap pos (omega arith)

-- A list was found that costs no more than this.
abbrev pub AtMost : ℕ → Best → Type 0
AtMost n b = (k : ℕ) × (b.net ≡ pos k) × (k ≤ n)

not_better :
    (z n : ℤ) (c : ℕ)
    → n ≡ pos c
    → ltb_ℤ z (pos 0) || ltb_ℤ n z ≡ false
    → (k : ℕ) × (z ≡ pos k) × (k ≤ c)
not_better (pos z) n c e h = (z, refl, ground arith)
not_better (negsuc z) n c e h = (0, ground arith, omega arith)

better : (z n : ℤ) (c k : ℕ) → n ≡ pos c → z ≡ pos k → ltb_ℤ z (pos 0) || ltb_ℤ n z ≡ true → c < k
better z n c k e f h = ground arith

pub consider-AtMost :
    (ls : List RentalLine) (c : ℕ) (b : Best)
    → net_sum (pos 0) ls ≡ pos c
    → AtMost c (consider ls b)
unfolding consider
consider-AtMost ls c b e =
    elim (Bool-cases (ltb_ℤ b.net (pos 0) || ltb_ℤ (net_sum (pos 0) ls) b.net)) [
      | inl t ↦ rw t (c, e, omega arith)
      | inr t ↦ rw t (not_better b.net (net_sum (pos 0) ls) c e t)
    ]

pub consider-AtMost_self :
    (ls : List RentalLine) (c n : ℕ) (b : Best)
    → net_sum (pos 0) ls ≡ pos c
    → AtMost n b
    → AtMost n (consider ls b)
unfolding consider
consider-AtMost_self ls c n b e (k, f, h) =
    elim (Bool-cases (ltb_ℤ b.net (pos 0) || ltb_ℤ (net_sum (pos 0) ls) b.net)) [
      | inl t ↦ rw t (c, e, let less = better b.net (net_sum (pos 0) ls) c k e f t in omega arith)
      | inr t ↦ rw t (k, f, h)
    ]

module _ {ℓ κ} {S : Type ℓ} (P : S → Type κ) (body : ℕ → S → S) where
  -- What every round keeps, the loop keeps.
  pub for_range_keep :
      (end n i : ℕ) (s : S)
      → ((k : ℕ) (t : S) → k < end → P t → P (body k t))
      → i + n ≤ end
      → P s
      → P (for_range n i body s)
  unfolding for_range
  for_range_keep end zero i s keep h p = p
  for_range_keep end (suc n) i s keep h p =
      for_range_keep end n (suc i) (body i s) keep (omega arith) (keep i s (omega arith) p)

  -- What one round makes, and every round keeps, holds in the end.
  pub for_range_reach :
      (end n i k : ℕ) (s : S)
      → ((j : ℕ) (t : S) → j < end → P t → P (body j t))
      → ((t : S) → P (body k t))
      → i + n ≤ end
      → i ≤ k
      → k < i + n
      → P (for_range n i body s)
  unfolding for_range
  for_range_reach end zero i k s keep make h lo hi = absurd (omega arith)
  for_range_reach end (suc n) i k s keep make h lo hi = elim (Bool-cases (i == k)) [
    | inl e ↦
        let here : i ≡ k = ground arith in
        for_range_keep end n (suc i) (body i s) keep (omega arith) (rw here (make s))
    | inr e ↦
        for_range_reach end n (suc i) k (body i s) keep make (omega arith) (ground arith)
          (omega arith)
  ]
