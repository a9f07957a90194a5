-- ===== src/Money/Rounding/Nearest.antt =====
-- `divRound` gives the nearest whole amount.
use free_sms.Common.{zero, ap, sym, ◌∙◌, ℕ, suc, ◌+◌, ◌*◌, ◌/◌, ◌^◌, ◌≤◌, ◌<◌, ◌≡◌, arith}
use free_sms.Common.Int.{
  ℤ, pos, negsuc, abs, neg_ℤ, of_neg, ◌≤ℤ◌, neg_ℤ-of_neg, quot64-pos, add64-pos, neg64-negsuc,
  of_neg-suc, neg64-pos,
}
use free_sms.Money.Rounding.{div_round}

div-le : (n d : ℕ) → n / d ≤ n
div-le n d = grind arith

half_lt : (d : ℕ) → 0 < d → (0 + d / 2) / d ≡ 0
half_lt d h = grind arith

-- What `div_round` computes on each sign when nothing wraps.
pub div_round-pos :
    (n d : ℕ)
    → 0 < d
    → n + d / 2 < 2 ^ 63
    → d < 2 ^ 63
    → div_round (pos n) (pos d) ≡ pos ((n + d / 2) / d)
unfolding div_round
div_round-pos n d hd h k =
    ground
      (arith, quot64-pos d 2, add64-pos n (d / 2), quot64-pos (n + d / 2) d, div-le (n + d / 2) d)

pub div_round-negsuc :
    (n d : ℕ)
    → 0 < d
    → suc n + d / 2 < 2 ^ 63
    → d < 2 ^ 63
    → div_round (negsuc n) (pos d) ≡ of_neg ((suc n + d / 2) / d)
unfolding div_round
div_round-negsuc n (suc d) hd h k =
    rw
      (
        neg64-negsuc n (omega arith),
        quot64-pos (suc d) 2 (omega arith),
        add64-pos (suc n) (suc d / 2) h,
        quot64-pos (suc n + suc d / 2) (suc d) (omega (arith, div-le (suc n + suc d / 2) (suc d))),
      )
      (ground (arith, neg64-pos ((suc n + suc d / 2) / suc d), div-le (suc n + suc d / 2) (suc d)))
div_round-negsuc n zero hd h k = absurd (omega arith)

-- `r` is `n / d` rounded to the nearest integer, and away from zero where two are as near.
pub record IsRounded (n r : ℤ) (d : ℕ) : Type 0 where
  pub not_above : 2 * (abs r * d) ≤ 2 * abs n + d
  pub not_below : 2 * abs n < 2 * (abs r * d) + d
  pub sign_pos : pos 0 ≤ℤ n → pos 0 ≤ℤ r
  pub sign_neg : n ≤ℤ pos 0 → r ≤ℤ pos 0

quotient_near :
    (n d : ℕ)
    → 0 < d
    → let k = (n + d / 2) / d in (2 * (k * d) ≤ 2 * n + d) × (2 * n < 2 * (k * d) + d)
quotient_near n d h = grind arith

pos-IsRounded : (n d : ℕ) → 0 < d → IsRounded (pos n) (pos ((n + d / 2) / d)) d
pos-IsRounded zero d h = ground (arith, half_lt d h)
pos-IsRounded (suc n) d h = ground (arith, quotient_near (suc n) d h)

-- Where the sum of numerator and half the denominator is an int64, the quotient is the nearest
-- amount, and a tie goes away from zero on both sides of it.
pub div_round-IsRounded :
    (n : ℤ) (d : ℕ)
    → 0 < d
    → abs n + d / 2 < 2 ^ 63
    → d < 2 ^ 63
    → IsRounded n (div_round n (pos d)) d
div_round-IsRounded (pos n) d hd h k = rw (div_round-pos n d hd h k) (pos-IsRounded n d hd)
div_round-IsRounded (negsuc n) d hd h k =
    rw (div_round-negsuc n d hd h k) (ground (arith, quotient_near (suc n) d hd))

-- Rounding does not depend on the sign, so a credit takes back exactly what was charged.
pub div_round-neg_ℤ :
    (n : ℤ) (d : ℕ)
    → 0 < d
    → abs n + d / 2 < 2 ^ 63
    → d < 2 ^ 63
    → div_round (neg_ℤ n) (pos d) ≡ neg_ℤ (div_round n (pos d))
div_round-neg_ℤ (pos zero) d hd h k = rw (div_round-pos 0 d hd h k, half_lt d hd)
div_round-neg_ℤ (pos (suc n)) d hd h k =
    rw (div_round-pos (suc n) d hd h k)
      (ap (λ z. div_round z (pos d)) (of_neg-suc n) ∙ div_round-negsuc n d hd h k)
div_round-neg_ℤ (negsuc n) d hd h k =
    rw (div_round-pos (suc n) d hd h k, div_round-negsuc n d hd h k) (sym (neg_ℤ-of_neg _))
