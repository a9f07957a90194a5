-- ===== src/Money/Rounding/Margin.antt =====
-- `MarginScheme` of internal/money/money.go: one car's result under the margin scheme.
use free_sms.Common.{
  ℕ, zero, suc, if◌then◌else◌, ◌+◌, ◌-◌, ◌*◌, ◌/◌, ◌^◌, ◌≤◌, ◌<◌, ◌≡◌, refl, sym, ◌∙◌, arith,
}
use free_sms.Common.Int.{
  pos, of_neg, ltb_ℤ, of_neg-sub, ◌-ℤ◌, ◌+ℤ◌, ◌≤ℤ◌, pos-sub, sub64-pos, sub64,
}
use free_sms.Money.Rounding.{div_round, MarginSchemeResult, ok, margin_scheme, margin_scheme_vat}
use native.Mathlib.Decide.{dec_lt}
use native.Mathlib.Nat.{mul-zero, mul-le-mul}
use free_sms.Money.Rounding.Nearest.{IsRounded, div_round-pos, div_round-IsRounded}
use free_sms.Money.Rounding.Amounts.{part-pos, part-le}

-- What `MarginScheme` returns: the margin is the price less the purchase price; a loss has neither
-- VAT nor base; a profit is made up of the two, and its VAT is the rate's part of the margin.
pub record IsMarginResult (sale purchase rate : ℕ) (m : MarginSchemeResult) : Type 0 where
  pub margin : m.margin_minor ≡ pos sale -ℤ pos purchase
  pub no_vat : sale ≤ purchase → (m.vat_minor ≡ pos 0) × (m.base_minor ≡ pos 0)
  pub parts : purchase < sale → m.vat_minor +ℤ m.base_minor ≡ pos (sale - purchase)
  pub vat_part :
      purchase < sale → IsRounded (pos ((sale - purchase) * rate)) m.vat_minor (10000 + rate)
  pub vat_nonneg : pos 0 ≤ℤ m.vat_minor

loss : (s p : ℕ) → s ≤ p → p ≤ 10 ^ 11 → sub64 (pos s) (pos p) ≡ of_neg (p - s)
unfolding ◌-ℤ◌
loss s p h hp = rw (sub64-pos s p (omega arith) (omega arith)) (ground arith)

margin_vat-loss :
    (s p r : ℕ) → s ≤ p → p ≤ 10 ^ 11 → margin_scheme_vat (pos s) (pos p) (pos r) ≡ pos 0
unfolding margin_scheme_vat
margin_vat-loss s p r h hp = rw (loss s p h hp) (ground arith)

profit : (s p : ℕ) → p < s → s ≤ 10 ^ 11 → sub64 (pos s) (pos p) ≡ pos (s - p)
profit s p h hs = sub64-pos s p (omega arith) (omega arith) ∙ pos-sub s p (omega arith)

margin_vat-profit :
    (s p r : ℕ)
    → p < s
    → s ≤ 10 ^ 11
    → r ≤ 10000
    → margin_scheme_vat (pos s) (pos p) (pos r)
      ≡ pos (((s - p) * r + (10000 + r) / 2) / (10000 + r))
unfolding margin_scheme_vat
margin_vat-profit s p zero h hs hr = rw (profit s p h hs) (ground (arith, mul-zero (s - p)))
margin_vat-profit s p (suc r) h hs hr =
    rw (profit s p h hs, part-pos (s - p) (suc r) (omega arith) hr) (ground arith)

abbrev answer : ℕ → ℕ → ℕ → MarginSchemeResult
answer s p r =
    let margin = sub64 (pos s) (pos p) in
    let part = margin_scheme_vat (pos s) (pos p) (pos r) in
    record {
      margin_minor = margin;
      vat_minor = part;
      base_minor = if ltb_ℤ (pos 0) margin then sub64 margin part else pos 0;
    }

answer-loss : (s p r : ℕ) → s ≤ p → p ≤ 10 ^ 11 → IsMarginResult s p r (answer s p r)
answer-loss s p r h hp =
    rw (margin_vat-loss s p r h hp, loss s p h hp)
      (record {
        margin = ground (arith, of_neg-sub s p h);
        no_vat = λ _. (refl, ground arith);
        parts = λ lt. absurd (omega arith);
        vat_part = λ lt. absurd (omega arith);
        vat_nonneg = omega arith;
      })

base-profit :
    (d v : ℕ)
    → 0 < d
    → v ≤ d
    → d < 2 ^ 63
    → pos v +ℤ (if ltb_ℤ (pos 0) (pos d) then sub64 (pos d) (pos v) else pos 0) ≡ pos d
unfolding ◌+ℤ◌
base-profit d v h le small = rw (sub64-pos d v small (omega arith), pos-sub d v le) (ground arith)

answer-profit : (s p r : ℕ) → p < s → s ≤ 10 ^ 11 → r ≤ 10000 → IsMarginResult s p r (answer s p r)
answer-profit s p r h hs hr =
    let v = ((s - p) * r + (10000 + r) / 2) / (10000 + r) in
    let small : (s - p) * r ≤ 10 ^ 11 * 10000 = mul-le-mul {n₂ = 10 ^ 11} (omega arith) hr in
    let round : IsRounded (pos ((s - p) * r)) (div_round (pos ((s - p) * r)) (pos (10000 + r)))
        (10000 + r) =
      div_round-IsRounded (pos ((s - p) * r)) (10000 + r) (omega arith) (omega arith)
        (omega arith) in
    let value : div_round (pos ((s - p) * r)) (pos (10000 + r)) ≡ pos v =
      div_round-pos ((s - p) * r) (10000 + r) (omega arith) (omega arith) (omega arith) in
    rw (margin_vat-profit s p r h hs hr, profit s p h hs)
      (record {
        margin = sym (pos-sub s p (omega arith));
        no_vat = λ le. absurd (omega arith);
        parts = λ _. base-profit (s - p) v (omega arith) (part-le (s - p) r) (omega arith);
        vat_part = λ _. rw value at round;
        vat_nonneg = omega arith;
      })

-- For prices to a billion kronor and rates to 100 per cent `MarginScheme` has a result, and it is
-- the margin, its VAT and its base: none of the last two for a loss, and the whole of it together,
-- the VAT rounded to the nearest, for a profit.
pub margin_scheme-IsMarginResult :
    (s p r : ℕ)
    → s ≤ 10 ^ 11
    → p ≤ 10 ^ 11
    → r ≤ 10000
    → (m : MarginSchemeResult) × (margin_scheme (pos s) (pos p) (pos r) ≡ ok m)
      × IsMarginResult s p r m
unfolding margin_scheme
margin_scheme-IsMarginResult s p r hs hp hr = (
  answer s p r,
  ground arith,
  (elim (dec_lt p s) [
    | yes h ↦ answer-profit s p r h hs hr
    | no h ↦ answer-loss s p r (omega arith) hp
  ]),
)
