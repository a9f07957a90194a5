-- ===== src/Money/Rounding/Amounts.antt =====
-- What the amounts of internal/money/money.go are, and that within the limits nothing wraps.
use free_sms.Common.{ℕ, ◌+◌, ◌-◌, ◌*◌, ◌/◌, ◌^◌, ◌≤◌, ◌<◌, ◌≡◌, true, sym, ap, ◌∙◌, arith}
use free_sms.Common.Int.{
  ℤ, pos, abs, Fits, ◌+ℤ◌, ◌*ℤ◌, ◌≤ℤ◌, mul64, add64, pos-sub, mul64_exact, mul64-pos, sub64-pos,
  add64-pos, sub64, int_laws,
}
use free_sms.Money.Rounding.{div_round, line_within_limits, line_net, vat, vat_in_gross}
use native.Mathlib.Nat.{mul-le-mul, add-mul, sub-add_cancel}
use free_sms.Money.Rounding.Nearest.{IsRounded, div_round-pos, div_round-IsRounded}

pub abs-*ℤ : (a b : ℤ) → abs (a *ℤ b) ≡ abs a * abs b
unfolding ◌*ℤ◌
abs-*ℤ a b = ground arith

pub Fits-of_abs : (a : ℤ) → abs a < 2 ^ 63 → Fits a
Fits-of_abs a h = ground arith

le_of_limits :
    (q p : ℤ)
    → line_within_limits (pos (abs q)) (pos (abs p)) ≡ true
    → (abs q ≤ 10 ^ 8) × (abs p ≤ 10 ^ 9)
unfolding line_within_limits
le_of_limits q p h = ground arith

product_small :
    (q p : ℤ) → line_within_limits (pos (abs q)) (pos (abs p)) ≡ true → abs (q *ℤ p) ≤ 10 ^ 17
product_small q p h = let (hq, hp) = le_of_limits q p h in rw (abs-*ℤ q p) (mul-le-mul hq hp)

-- A line whose quantity and price have magnitudes within the limits is charged the true product of
-- the two, rounded to the nearest minor unit, and at most 10^14 of them.
pub line_net-IsRounded :
    (quantity price : ℤ)
    → line_within_limits (pos (abs quantity)) (pos (abs price)) ≡ true
    → IsRounded (quantity *ℤ price) (line_net quantity price) 1000
      × (abs (line_net quantity price) ≤ 10 ^ 14)
unfolding line_net
line_net-IsRounded q p h =
    let small : abs (q *ℤ p) ≤ 10 ^ 17 = product_small q p h in
    let r : IsRounded (q *ℤ p) (div_round (q *ℤ p) (pos 1000)) 1000 =
      div_round-IsRounded (q *ℤ p) 1000 (omega arith) (omega arith) (omega arith) in
    let exact : mul64 q p ≡ q *ℤ p = mul64_exact q p (Fits-of_abs (q *ℤ p) (omega arith)) in
    rw exact (r, omega (arith, r.not_above))

-- The amounts at numbers that are not negative.
vat-pos : (n r : ℕ) → n ≤ 10 ^ 12 → r ≤ 10000 → vat (pos n) (pos r) ≡ pos ((n * r + 5000) / 10000)
unfolding vat
vat-pos n r hn hr =
    let small : n * r ≤ 10 ^ 16 = mul-le-mul hn hr in
    rw (mul64-pos n r (omega arith))
      (div_round-pos (n * r) 10000 (omega arith) (omega arith) (omega arith))

pub part-pos :
    (n r : ℕ)
    → n ≤ 10 ^ 12
    → r ≤ 10000
    → div_round (mul64 (pos n) (pos r)) (add64 (pos 10000) (pos r))
      ≡ pos ((n * r + (10000 + r) / 2) / (10000 + r))
part-pos n r hn hr =
    let small : n * r ≤ 10 ^ 16 = mul-le-mul hn hr in
    rw (mul64-pos n r (omega arith), add64-pos 10000 r (omega arith))
      (div_round-pos (n * r) (10000 + r) (omega arith) (omega arith) (omega arith))

div-le_of : (a d n : ℕ) → 0 < d → a < (n + 1) * d → a / d ≤ n
div-le_of a d n h lt = grind arith

div_near : (a d : ℕ) → 0 < d → (a / d * d ≤ a) × (a < (a / d + 1) * d)
div_near a d h = grind arith

pub part-le : (n r : ℕ) → (n * r + (10000 + r) / 2) / (10000 + r) ≤ n
part-le n r = div-le_of (n * r + (10000 + r) / 2) (10000 + r) n (omega arith) (omega arith)

-- With v the VAT inside and w the VAT on the rest, both rounded.
parts_near :
    (g r v : ℕ)
    → v ≤ g
    → v * (10000 + r) ≤ g * r + (10000 + r) / 2
    → g * r + (10000 + r) / 2 < (v + 1) * (10000 + r)
    → r ≤ 10000
    → (((g - v) * r + 5000) / 10000 ≤ v + 1) × (v ≤ ((g - v) * r + 5000) / 10000 + 1)
parts_near g r v le lo hi hr =
    let split : (g - v) * r + v * r ≡ g * r =
      sym (add-mul (g - v) v r) ∙ ap (λ (t : ℕ). t * r) (sub-add_cancel le) in
    omega arith

-- The VAT taken out of a price that includes it agrees, to within one minor unit, with the VAT
-- that is put on what is left, for rates to 100 per cent and prices to a billion kronor.
pub vat-vat_in_gross :
    (gross rate : ℕ)
    → gross ≤ 10 ^ 11
    → rate ≤ 10000
    → let inside = vat_in_gross (pos gross) (pos rate) in
      let net = sub64 (pos gross) inside in
      (net +ℤ inside ≡ pos gross)
      × (vat net (pos rate) ≤ℤ inside +ℤ pos 1)
      × (inside ≤ℤ vat net (pos rate) +ℤ pos 1)
unfolding vat_in_gross
vat-vat_in_gross g r hg hr =
    let v = (g * r + (10000 + r) / 2) / (10000 + r) in
    rw
      (
        part-pos g r (omega arith) hr,
        sub64-pos g v (omega arith) (omega (arith, part-le g r)),
        pos-sub g v (part-le g r),
        vat-pos (g - v) r (omega arith) hr,
      )
      (let (lo, hi) = div_near (g * r + (10000 + r) / 2) (10000 + r) (omega arith) in
        let (up, down) = parts_near g r v (part-le g r) lo hi hr in
        (omega (int_laws, part-le g r), omega (int_laws, up), omega (int_laws, down)))
