-- ===== src/Dealer/Calculation/Bids.antt =====
-- `marginSchemeBid` of internal/workshop/dealer_calculations.go finds the highest price that leaves
-- the margin wanted.
use free_sms.Common.{
  ℕ, zero, suc, ◌+◌, ◌*◌, ◌/◌, ◌^◌, ◌≤◌, ◌≡◌, refl, subst, true, false, Bool-cases, inl, inr, arith,
}
use free_sms.Common.Int.{
  ℤ, pos, negsuc, abs, ◌+ℤ◌, ◌-ℤ◌, ◌≤ℤ◌, leb_ℤ, mul64-pos, add64-pos, int_laws,
}
use free_sms.Money.Rounding.{margin_scheme_vat, scale}
use free_sms.Money.Rounding.Nearest.{div_round-pos}
use free_sms.Dealer.Calculation.{lower, raise, first_price, margin_scheme_bid}
use free_sms.Dealer.Calculation.Margins.{
  due, kept, small_sub, abs-sub, margin_scheme_vat-due, swap_sub, widen, narrow, sub_twice,
  lower-widen, raise-narrow,
}

-- A margin that is enough, where one less is not.
pub record IsTight (keep z : ℤ) : Type 0 where
  pub enough : keep ≤ℤ kept z
  pub tight : kept (z -ℤ pos 1) +ℤ pos 1 ≤ℤ keep
  pub near : abs z ≤ abs keep + abs keep + 10

widen_enough : (n : ℕ) (keep z : ℤ) → keep ≤ℤ kept z → widen n keep z ≡ z
unfolding widen
widen_enough zero keep z h = refl
widen_enough (suc n) keep z h = ground arith

less_tests : (keep k : ℤ) → k +ℤ pos 1 ≤ℤ keep → leb_ℤ keep k ≡ false
unfolding ◌+ℤ◌
less_tests keep k h = ground arith

narrow_stop : (n : ℕ) (keep z : ℤ) → kept (z -ℤ pos 1) +ℤ pos 1 ≤ℤ keep → narrow n keep z ≡ z
unfolding narrow
narrow_stop zero keep z h = refl
narrow_stop (suc n) keep z h = rw (less_tests keep (kept (z -ℤ pos 1)) h)

above_le : (keep k : ℤ) → leb_ℤ keep k ≡ true → keep ≤ℤ k
above_le keep k e = ground arith

below_le : (keep k : ℤ) → leb_ℤ keep k ≡ false → k +ℤ pos 1 ≤ℤ keep
unfolding ◌+ℤ◌
below_le keep k e = ground arith

narrow-IsTight :
    (n : ℕ) (keep z : ℤ)
    → keep ≤ℤ kept z
    → kept (z -ℤ pos 1 -ℤ pos 1) +ℤ pos 1 ≤ℤ keep
    → abs z ≤ abs keep + abs keep + 8
    → IsTight keep (narrow (suc n) keep z)
unfolding narrow
narrow-IsTight n keep z h k b = elim (Bool-cases (leb_ℤ keep (kept (z -ℤ pos 1)))) [
  | inl e ↦
      rw (e, narrow_stop n keep (z -ℤ pos 1) k)
        (record {
          enough = above_le keep (kept (z -ℤ pos 1)) e;
          tight = k;
          near = omega (arith, abs-sub z (pos 1));
        })
  | inr e ↦
      rw e (record { enough = h; tight = below_le keep (kept (z -ℤ pos 1)) e; near = omega arith })
]

-- The margin that the loops begin with.
abbrev first_margin : ℤ → ℤ
first_margin (pos k) = pos ((k * 12500 + 5000) / 10000)
first_margin (negsuc k) = negsuc k

first_enough : (keep : ℤ) → keep ≤ℤ kept (first_margin keep)
unfolding ◌-ℤ◌
first_enough (pos k) = ground arith
first_enough (negsuc k) = ground arith

first_near : (keep : ℤ) → kept (first_margin keep -ℤ pos 1 -ℤ pos 1) +ℤ pos 1 ≤ℤ keep
unfolding ◌-ℤ◌ ◌+ℤ◌
first_near (pos k) = ground arith
first_near (negsuc k) = ground arith

first_small : (keep : ℤ) → abs (first_margin keep) ≤ abs keep + abs keep + 8
first_small (pos k) = omega arith
first_small (negsuc k) = omega arith

first_price-margin :
    (s : ℕ) (keep : ℤ)
    → s ≤ 10 ^ 11
    → abs keep ≤ 10 ^ 13
    → first_price (pos s) keep ≡ pos s -ℤ first_margin keep
unfolding first_price scale
first_price-margin s (pos k) hs hk =
    rw
      (
        add64-pos 10000 2500 (omega arith),
        mul64-pos k 12500 (omega arith),
        div_round-pos (k * 12500) 10000 (omega arith) (omega arith) (omega arith),
        small_sub (pos s) (pos ((k * 12500 + 5000) / 10000)) (omega arith) (omega arith),
      )
      (ground arith)
first_price-margin s (negsuc k) hs hk =
    rw (small_sub (pos s) (negsuc k) (omega arith) (omega arith)) (ground arith)

-- What is left of a sale at a price, after the VAT that the margin scheme takes.
abbrev pub left_over : ℕ → ℤ → ℤ
left_over sale p = pos sale -ℤ margin_scheme_vat (pos sale) p (pos 2500) -ℤ p

-- A price that leaves `keep`, where every higher price (within 10^14) leaves less.
pub record IsHighestBid (sale : ℕ) (keep p : ℤ) : Type 0 where
  pub enough : keep ≤ℤ left_over sale p
  pub highest : (q : ℤ) → p +ℤ pos 1 ≤ℤ q → abs q ≤ 10 ^ 14 → left_over sale q +ℤ pos 1 ≤ℤ keep

left_over-kept : (s : ℕ) (p : ℤ) → s ≤ 10 ^ 11 → abs p ≤ 10 ^ 14 → left_over s p ≡ kept (pos s -ℤ p)
left_over-kept s p hs hp =
    rw (margin_scheme_vat-due s p hs hp) (swap_sub (pos s) (pos (due (pos s -ℤ p))) p)

kept_mono : (a b : ℤ) → a ≤ℤ b → kept a ≤ℤ kept b
unfolding ◌-ℤ◌
kept_mono a b h = ground arith

lower_price : (s : ℕ) (p q : ℤ) → p +ℤ pos 1 ≤ℤ q → pos s -ℤ q ≤ℤ pos s -ℤ p -ℤ pos 1
lower_price s p q h = grind int_laws

step_le : (a b keep : ℤ) → a ≤ℤ b → b +ℤ pos 1 ≤ℤ keep → a +ℤ pos 1 ≤ℤ keep
step_le a b keep h k = grind int_laws

abs_ends : (s : ℕ) (p : ℤ) → abs p ≤ s + abs (pos s -ℤ p)
unfolding ◌-ℤ◌
abs_ends s p = ground arith

tight-IsHighestBid :
    (s : ℕ) (keep p : ℤ)
    → s ≤ 10 ^ 11
    → abs keep ≤ 10 ^ 13
    → IsTight keep (pos s -ℤ p)
    → IsHighestBid s keep p
tight-IsHighestBid s keep p hs hk t =
    let small : abs p ≤ 10 ^ 14 =
      omega (arith, t.near, abs-sub (pos s) (pos s -ℤ p), abs_ends s p) in
    record {
      enough = rw (left_over-kept s p hs small) t.enough;
      highest = λ q lt small_q.
          rw (left_over-kept s q hs small_q)
            (step_le _ _ _ (kept_mono _ _ (lower_price s p q lt)) t.tight);
    }

-- What the code's two loops end with.
abbrev bid_price : ℕ → ℤ → ℤ
bid_price s keep = raise 4 (pos s) keep (lower 4 (pos s) keep (first_price (pos s) keep))

lower-margin :
    (s : ℕ) (keep : ℤ)
    → s ≤ 10 ^ 11
    → abs keep ≤ 10 ^ 13
    → pos s -ℤ lower 4 (pos s) keep (first_price (pos s) keep) ≡ first_margin keep
lower-margin s keep hs hk =
    let m = first_margin keep in
    rw
      (
        first_price-margin s keep hs hk,
        lower-widen 4 s keep (pos s -ℤ m) hs (omega (arith, abs-sub (pos s) m, first_small keep)),
        sub_twice s m,
      )
      (widen_enough 4 keep m (first_enough keep))

bid_price-IsTight :
    (s : ℕ) (keep : ℤ) → s ≤ 10 ^ 11 → abs keep ≤ 10 ^ 13 → IsTight keep (pos s -ℤ bid_price s keep)
bid_price-IsTight s keep hs hk =
    let l = lower 4 (pos s) keep (first_price (pos s) keep) in
    let at : pos s -ℤ l ≡ first_margin keep = lower-margin s keep hs hk in
    let near : abs l ≤ s + abs (first_margin keep) =
      subst (λ x. abs l ≤ s + abs x) at (abs_ends s l) in
    rw (raise-narrow 4 s keep l hs (omega (arith, near, first_small keep)), at)
      (narrow-IsTight 3 keep (first_margin keep) (first_enough keep) (first_near keep)
        (first_small keep))

-- The bid of the margin scheme is the highest price that leaves what is to be kept.
pub margin_scheme_bid-IsHighestBid :
    (s : ℕ) (keep : ℤ)
    → s ≤ 10 ^ 11
    → abs keep ≤ 10 ^ 13
    → IsHighestBid s keep (margin_scheme_bid (pos s) keep).max_bid_minor
unfolding margin_scheme_bid
margin_scheme_bid-IsHighestBid s keep hs hk =
    tight-IsHighestBid s keep (bid_price s keep) hs hk (bid_price-IsTight s keep hs hk)
