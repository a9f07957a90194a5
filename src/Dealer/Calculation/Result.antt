-- ===== src/Dealer/Calculation/Result.antt =====
-- What `Result` of internal/workshop/dealer_calculations.go answers for an input that `check` passes.
use free_sms.Common.{
  ℕ, ◌+◌, ◌*◌, ◌^◌, ◌≤◌, ◌≡◌, ◌↔◌, refl, ◌∙◌, ap, subst, Bool, true, false, ◌||◌, if◌then◌else◌,
  List, [], ◌∷◌, Option, none, some, length, ltb, arith,
}
use free_sms.Common.Int.{
  ℤ, pos, negsuc, abs, ◌+ℤ◌, ◌-ℤ◌, ◌*ℤ◌, ◌≤ℤ◌, ltb_ℤ, add64, sub64, mul64, mul64-pos, mul64_exact,
  add64-pos, int_laws,
}
use free_sms.Money.Rounding.{div_round, scale, share}
use free_sms.Money.Rounding.Nearest.{IsRounded, div_round-IsRounded}
use native.Mathlib.Nat.{mul-le-mul}
use free_sms.Money.Rounding.Amounts.{abs-*ℤ, Fits-of_abs}
use free_sms.Dealer.{from_purchase, eligible_for}
use free_sms.Dealer.Calculation.{
  CalculationCost, CalculationInput, CalculationResult, CalculationError, Bid, calc_sale, calc_cost,
  calc_costs, calc_days, calc_margin, given_outside, both_given, bad_cost, some_bad_cost,
  max_purchase_minor, check, sum_costs, target, result, result_at, margin_scheme_bid,
}
use free_sms.Dealer.Calculation.Bids.{IsHighestBid, margin_scheme_bid-IsHighestBid}
use free_sms.Dealer.Calculation.Margins.{small_sub, small_add, abs-add, abs-sub}

refused : {e : CalculationError} → some e ≡ none → ⊥
refused x = cc

passed :
    (b : Bool) (e : CalculationError) (rest : Option CalculationError)
    → (if b then some e else rest) ≡ none
    → (b ≡ false) × (rest ≡ none)
passed true e rest h = absurd (refused h)
passed false e rest h = (refl, h)

-- What an input that passed keeps to.
record IsChecked (x : CalculationInput) : Type 0 where
  sale : given_outside (pos 0) max_purchase_minor x.expected_sale_gross_minor ≡ false
  count : ltb 50 (length x.costs) ≡ false
  costs : some_bad_cost x.costs ≡ false
  days :
      ltb_ℤ x.expected_stock_days (pos 0)
        || ltb_ℤ (pos 3650) x.expected_stock_days
        || ltb_ℤ x.holding_per_day_minor (pos 0)
        || ltb_ℤ (pos 100_000_000) x.holding_per_day_minor
      ≡ false
  margin :
      both_given x.target_margin_minor x.target_margin_basis
        || given_outside (negsuc 99_999_999_999) max_purchase_minor x.target_margin_minor
        || given_outside (negsuc 9999) (pos 10000) x.target_margin_basis
      ≡ false

check-IsChecked : (x : CalculationInput) → check x ≡ none → IsChecked x
unfolding check
check-IsChecked x h =
    let (a, h1) = passed _ calc_sale _ h in
    let (b, h2) = passed _ calc_costs _ h1 in
    let (c, h3) = passed _ calc_cost _ h2 in
    let (d, h4) = passed _ calc_days _ h3 in
    let (e, _) = passed _ calc_margin _ h4 in
    record { sale = a; count = b; costs = c; days = d; margin = e }

-- What the costs come to.
abbrev pub total : List CalculationCost → ℕ
total [] = 0
total (c ∷ cs) = abs c.net_minor + total cs

neither : (a b : Bool) → a || b ≡ false → (a ≡ false) × (b ≡ false)
neither a b h = ground arith

days_small :
    (a b : ℕ)
    → (ltb_ℤ (pos a) (pos 0)
        || ltb_ℤ (pos 3650) (pos a)
        || ltb_ℤ (pos b) (pos 0)
        || ltb_ℤ (pos 100_000_000) (pos b))
      ≡ false
    → (a ≤ 3650) × (b ≤ 10 ^ 8)
days_small a b h = ground arith

cost-pos :
    (c : CalculationCost)
    → bad_cost c ≡ false
    → (c.net_minor ≡ pos (abs c.net_minor)) × (abs c.net_minor ≤ 10 ^ 10)
cost-pos c h = ground arith

sum_costs-total :
    (cs : List CalculationCost) (n : ℕ)
    → some_bad_cost cs ≡ false
    → n + 10 ^ 10 * length cs ≤ 10 ^ 15
    → (sum_costs cs (pos n) ≡ pos (n + total cs)) × (total cs ≤ 10 ^ 10 * length cs)
unfolding sum_costs some_bad_cost
sum_costs-total [] n h b = (ap pos (omega arith), omega arith)
sum_costs-total (c ∷ cs) n h b =
    let (good, rest) = neither (bad_cost c) (some_bad_cost cs) h in
    let (is, le) = cost-pos c good in
    let (e, lim) = sum_costs-total cs (n + abs c.net_minor) rest (omega arith) in
    (
      ap (λ z. sum_costs cs (add64 (pos n) z)) is
          ∙ ap (sum_costs cs) (add64-pos n (abs c.net_minor) (omega arith))
          ∙ e
          ∙ ap pos (omega arith),
      omega arith,
    )

within : (low high n : ℤ) → (ltb_ℤ n low || ltb_ℤ high n) ≡ false → (low ≤ℤ n) × (n ≤ℤ high)
within low high n h = ground arith

-- Of days and the cost of one.
holding-exact :
    (a b : ℤ)
    → (ltb_ℤ a (pos 0) || ltb_ℤ (pos 3650) a || ltb_ℤ b (pos 0) || ltb_ℤ (pos 100_000_000) b)
      ≡ false
    → (mul64 a b ≡ a *ℤ b) × (abs (a *ℤ b) ≤ 10 ^ 12)
unfolding ◌*ℤ◌
holding-exact (pos a) (pos b) h =
    let (ha, hb) = days_small a b h in
    let small : a * b ≤ 3650 * 10 ^ 8 = mul-le-mul ha hb in
    (mul64-pos a b (omega arith), omega arith)
holding-exact (pos a) (negsuc b) h = absurd (ground arith)
holding-exact (negsuc a) b h = absurd (ground arith)

share-IsRounded :
    (s : ℕ) (b : ℤ)
    → s ≤ 10 ^ 11
    → abs b ≤ 10 ^ 4
    → IsRounded (pos s *ℤ b) (share (pos s) b) 10000 × (abs (share (pos s) b) ≤ 10 ^ 11)
unfolding share
share-IsRounded s b hs hb =
    let small : s * abs b ≤ 10 ^ 11 * 10 ^ 4 = mul-le-mul hs hb in
    let size : abs (pos s *ℤ b) ≡ s * abs b = abs-*ℤ (pos s) b in
    let exact : mul64 (pos s) b ≡ pos s *ℤ b =
      mul64_exact (pos s) b (Fits-of_abs (pos s *ℤ b) (omega arith)) in
    let r : IsRounded (pos s *ℤ b) (div_round (pos s *ℤ b) (pos 10000)) 10000 =
      div_round-IsRounded (pos s *ℤ b) 10000 (omega arith) (omega arith) (omega arith) in
    rw exact (r, omega (arith, r.not_above))

-- The margin wanted: the amount that is given, or the share of the sale, rounded to the nearest.
pub data IsTarget (s : ℕ) : Option ℤ → Option ℤ → ℤ → Type 0 where
  amount : (n : ℤ) (b : Option ℤ) → IsTarget s (some n) b n
  part : (b n : ℤ) → IsRounded (pos s *ℤ b) n 10000 → IsTarget s none (some b) n
  neither_given : IsTarget s none none (pos 0)

target-IsTarget :
    (s : ℕ) (a b : Option ℤ)
    → s ≤ 10 ^ 11
    → (both_given a b
        || given_outside (negsuc 99_999_999_999) max_purchase_minor a
        || given_outside (negsuc 9999) (pos 10000) b)
      ≡ false
    → IsTarget s a b (target (pos s) a b) × (abs (target (pos s) a b) ≤ 10 ^ 11)
target-IsTarget s (some n) b hs h = (amount n b, ground arith)
target-IsTarget s none (some b) hs h =
    let (r, le) = share-IsRounded s b hs (ground arith) in (part b (share (pos s) b) r, le)
target-IsTarget s none none hs h = (neither_given, omega arith)

-- The answer for a car to sell at `s`: the costs and the cost of keeping it are exact; under ordinary
-- VAT the bid leaves exactly what is to be kept and the VAT, rounded to the nearest; under the margin
-- scheme there is a bid just when the seller makes the car eligible, and it is the highest price.
pub record IsAnswer (x : CalculationInput) (s : ℕ) (r : CalculationResult) : Type 0 where
  pub costs : r.costs_minor ≡ pos (total x.costs)
  pub holding : r.holding_minor ≡ x.expected_stock_days *ℤ x.holding_per_day_minor
  pub target : IsTarget s x.target_margin_minor x.target_margin_basis r.target_minor
  pub ordinary_vat : IsRounded (pos (s * 2500)) r.ordinary.sale_vat_minor 12500
  pub ordinary :
      r.ordinary.max_bid_minor
        +ℤ (r.costs_minor +ℤ r.holding_minor +ℤ r.target_minor)
        +ℤ r.ordinary.sale_vat_minor
      ≡ pos s
  pub eligible :
      ((eligible_for x.seller_type from_purchase 1).0 ≡ true)
      ↔ ((b : Bid) × (r.margin_bid ≡ some b))
  pub highest :
      (b : Bid)
      → r.margin_bid ≡ some b
      → IsHighestBid s (r.costs_minor +ℤ r.holding_minor +ℤ r.target_minor) b.max_bid_minor

offer_iff :
    (c : Bool) (b : Bid) → (c ≡ true) ↔ ((d : Bid) × ((if c then some b else none) ≡ some d))
offer_iff true b = (λ _. (b, refl), λ _. refl)
offer_iff false b = (λ e. absurd (cc), λ (d, e). absurd cc)

offer_is : (c : Bool) (b d : Bid) → (if c then some b else none) ≡ some d → b ≡ d
offer_is true b d e = cc
offer_is false b d e = absurd cc

ordinary_vat :
    (s : ℕ)
    → s ≤ 10 ^ 11
    → let v = scale (pos s) (pos 2500) (add64 (pos 10000) (pos 2500)) in
      IsRounded (pos (s * 2500)) v 12500 × (abs v ≤ 10 ^ 12)
unfolding scale
ordinary_vat s hs =
    let r : IsRounded (pos (s * 2500)) (div_round (pos (s * 2500)) (pos 12500)) 12500 =
      div_round-IsRounded (pos (s * 2500)) 12500 (omega arith) (omega arith) (omega arith) in
    rw (mul64-pos s 2500 (omega arith), add64-pos 10000 2500 (omega arith))
      (r, omega (arith, r.not_above))

left_of : (a v k : ℤ) → a -ℤ v -ℤ k +ℤ k +ℤ v ≡ a
left_of a v k = grind int_laws

-- Costs of up to fifty hundred millions and so on: everything that is kept is small.
keep_exact :
    (costs : ℕ) (h t : ℤ)
    → costs ≤ 10 ^ 12
    → abs h ≤ 10 ^ 12
    → abs t ≤ 10 ^ 11
    → (add64 (add64 (pos costs) h) t ≡ pos costs +ℤ h +ℤ t) × (abs (pos costs +ℤ h +ℤ t) ≤ 10 ^ 13)
keep_exact c h t hc hh ht =
    let b1 = abs-add (pos c) h in
    let b2 = abs-add (pos c +ℤ h) t in
    (
      rw (
        small_add (pos c) h (omega arith) (omega arith),
        small_add (pos c +ℤ h) t (omega arith) (omega arith),
      ),
      omega arith,
    )

sale_below : (s : ℕ) → given_outside (pos 0) max_purchase_minor (some (pos s)) ≡ false → s ≤ 10 ^ 11
sale_below s h = ground arith

sale_small :
    (s : ℕ) (o : Option ℤ)
    → o ≡ some (pos s)
    → given_outside (pos 0) max_purchase_minor o ≡ false
    → s ≤ 10 ^ 11
sale_small s o e h =
    sale_below s (subst (λ z. given_outside (pos 0) max_purchase_minor z ≡ false) e h)

result_at-IsAnswer :
    (x : CalculationInput) (s total_costs : ℕ) (h : ℤ)
    → s ≤ 10 ^ 11
    → IsChecked x
    → total_costs ≡ total x.costs
    → total_costs ≤ 10 ^ 12
    → h ≡ x.expected_stock_days *ℤ x.holding_per_day_minor
    → abs h ≤ 10 ^ 12
    → IsAnswer x s (result_at x (pos total_costs) h (some (pos s)))
result_at-IsAnswer x s c h hs ok ec hc eh hh =
    let t = target (pos s) x.target_margin_minor x.target_margin_basis in
    let (is_target, ht) =
      target-IsTarget s x.target_margin_minor x.target_margin_basis hs ok.margin in
    let (exact, hk) = keep_exact c h t hc hh ht in
    let (vat_rounded, hv) = ordinary_vat s hs in
    let v = scale (pos s) (pos 2500) (add64 (pos 10000) (pos 2500)) in
    let k = pos c +ℤ h +ℤ t in
    let may = (eligible_for x.seller_type from_purchase 1).0 in
    let bid : sub64 (sub64 (pos s) v) k ≡ pos s -ℤ v -ℤ k = rw (
      small_sub (pos s) v (omega arith) (omega arith),
      small_sub (pos s -ℤ v) k (omega (arith, abs-sub (pos s) v)) (omega arith),
    ) in
    record {
      costs = ap pos ec;
      holding = eh;
      target = is_target;
      ordinary_vat = vat_rounded;
      ordinary = rw (exact, bid) (left_of (pos s) v k);
      eligible = offer_iff may (margin_scheme_bid (pos s) (add64 (add64 (pos c) h) t));
      highest = λ b e.
          subst (λ d. IsHighestBid s k d.max_bid_minor)
            (offer_is may (margin_scheme_bid (pos s) (add64 (add64 (pos c) h) t)) b e)
            (rw exact (margin_scheme_bid-IsHighestBid s k hs hk));
    }

count_few : (n : ℕ) → ltb 50 n ≡ false → n ≤ 50
count_few n h = ground arith

-- For an input that passes the checks, of a car to sell at `s`: the costs and the cost of keeping it
-- are summed exactly, the margin wanted is the amount given or the nearest to the share of the sale;
-- the bid under ordinary VAT, what is kept and the sale's VAT make up the sale; and under the margin
-- scheme there is a bid just when the seller makes the car eligible, and it is the highest price that
-- leaves what is to be kept.
pub result-IsAnswer :
    (x : CalculationInput) (s : ℕ)
    → check x ≡ none
    → x.expected_sale_gross_minor ≡ some (pos s)
    → IsAnswer x s (result x)
unfolding result
result-IsAnswer x s h e =
    let ok = check-IsChecked x h in
    let (exact, small) = holding-exact x.expected_stock_days x.holding_per_day_minor ok.days in
    let (sum, le) =
      sum_costs-total x.costs 0 ok.costs (omega (arith, count_few (length x.costs) ok.count)) in
    let few = count_few (length x.costs) ok.count in
    simp (sum, exact, e)
      (result_at-IsAnswer x s (0 + total x.costs) (x.expected_stock_days *ℤ x.holding_per_day_minor)
        (sale_small s x.expected_sale_gross_minor e ok.sale) ok (omega arith) (omega arith) refl
        small)
