-- ===== src/Dealer/Calculation/Margins.antt =====
-- What the amounts of internal/workshop/dealer_calculations.go come to at a margin: the VAT, what is
-- left, and the two loops of `marginSchemeBid`.
use free_sms.Common.{ℕ, zero, suc, ◌+◌, ◌*◌, ◌/◌, ◌^◌, ◌≤◌, ◌≡◌, refl, ◌||◌, if◌then◌else◌, arith}
use free_sms.Common.Int.{
  ℤ, pos, negsuc, abs, ◌+ℤ◌, ◌-ℤ◌, leb_ℤ, ltb_ℤ, add64, sub64, mul64, sub64_exact, add64_exact,
  mul64-pos, add64-pos, int_laws,
}
use free_sms.Money.Rounding.{div_round, margin_scheme_vat}
use free_sms.Money.Rounding.Nearest.{div_round-pos}
use free_sms.Dealer.Calculation.{left, lower, raise}

-- The VAT on a margin, and what it leaves.
abbrev pub due : ℤ → ℕ
due (pos m) = (2 * m + 5) / 10
due (negsuc m) = 0

abbrev pub kept : ℤ → ℤ
kept z = z -ℤ pos (due z)

vat_on :
    (z : ℤ)
    → abs z ≤ 10 ^ 15
    → (if leb_ℤ z (pos 0) || leb_ℤ (pos 2500) (pos 0)
        then pos 0
        else div_round (mul64 z (pos 2500)) (add64 (pos 10000) (pos 2500)))
      ≡ pos (due z)
vat_on (pos zero) h = refl
vat_on (negsuc n) h = ground arith
vat_on (pos (suc n)) h =
    rw
      (
        mul64-pos (suc n) 2500 (omega arith),
        add64-pos 10000 2500 (omega arith),
        div_round-pos (suc n * 2500) 12500 (omega arith) (omega arith) (omega arith),
      )
      (ground arith)

pub small_sub : (a b : ℤ) → abs a ≤ 10 ^ 15 → abs b ≤ 10 ^ 15 → sub64 a b ≡ a -ℤ b
unfolding ◌-ℤ◌
small_sub a b ha hb = sub64_exact a b (ground arith)

pub abs-sub : (a b : ℤ) → abs (a -ℤ b) ≤ abs a + abs b
unfolding ◌-ℤ◌
abs-sub a b = ground arith

due-le : (z : ℤ) → due z ≤ abs z
due-le z = ground arith

-- The VAT, and what is left, at a price that is `z` below the sale.
pub margin_scheme_vat-due :
    (s : ℕ) (p : ℤ)
    → s ≤ 10 ^ 11
    → abs p ≤ 10 ^ 14
    → margin_scheme_vat (pos s) p (pos 2500) ≡ pos (due (pos s -ℤ p))
unfolding margin_scheme_vat
margin_scheme_vat-due s p hs hp =
    rw (small_sub (pos s) p (omega arith) (omega arith))
      (vat_on (pos s -ℤ p) (omega (arith, abs-sub (pos s) p)))

pub swap_sub : (a b c : ℤ) → a -ℤ b -ℤ c ≡ a -ℤ c -ℤ b
swap_sub a b c = grind int_laws

left-kept : (s : ℕ) (p : ℤ) → s ≤ 10 ^ 11 → abs p ≤ 10 ^ 14 → left (pos s) p ≡ kept (pos s -ℤ p)
unfolding left
left-kept s p hs hp =
    let near : due (pos s -ℤ p) ≤ s + abs p =
      omega (arith, due-le (pos s -ℤ p), abs-sub (pos s) p) in
    rw
      (
        margin_scheme_vat-due s p hs hp,
        small_sub (pos s) (pos (due (pos s -ℤ p))) (omega arith) (omega arith),
        small_sub (pos s -ℤ pos (due (pos s -ℤ p))) p
            (omega (arith, abs-sub (pos s) (pos (due (pos s -ℤ p))))) (omega arith),
      )
      (swap_sub (pos s) (pos (due (pos s -ℤ p))) p)

-- The two loops on the margin instead of the price.
unfoldable pub widen : ℕ → ℤ → ℤ → ℤ
widen zero keep z = z
widen (suc n) keep z =
    let rest = widen n keep (z +ℤ pos 1) in if ltb_ℤ (kept z) keep then rest else z

unfoldable pub narrow : ℕ → ℤ → ℤ → ℤ
narrow zero keep z = z
narrow (suc n) keep z =
    let rest = narrow n keep (z -ℤ pos 1) in if leb_ℤ keep (kept (z -ℤ pos 1)) then rest else z

sub_down : (s : ℕ) (p : ℤ) → pos s -ℤ (p -ℤ pos 1) ≡ pos s -ℤ p +ℤ pos 1
sub_down s p = grind int_laws

sub_up : (s : ℕ) (p : ℤ) → pos s -ℤ (p +ℤ pos 1) ≡ pos s -ℤ p -ℤ pos 1
sub_up s p = grind int_laws

pub sub_twice : (s : ℕ) (p : ℤ) → pos s -ℤ (pos s -ℤ p) ≡ p
sub_twice s p = grind int_laws

pub small_add : (a b : ℤ) → abs a ≤ 10 ^ 15 → abs b ≤ 10 ^ 15 → add64 a b ≡ a +ℤ b
unfolding ◌+ℤ◌
small_add a b ha hb = add64_exact a b (ground arith)

pub abs-add : (a b : ℤ) → abs (a +ℤ b) ≤ abs a + abs b
unfolding ◌+ℤ◌
abs-add a b = ground arith

pub lower-widen :
    (n s : ℕ) (keep p : ℤ)
    → s ≤ 10 ^ 11
    → abs p + n ≤ 10 ^ 14
    → pos s -ℤ lower n (pos s) keep p ≡ widen n keep (pos s -ℤ p)
unfolding lower widen
lower-widen zero s keep p hs hp = refl
lower-widen (suc n) s keep p hs hp =
    let rest : pos s -ℤ lower n (pos s) keep (p -ℤ pos 1) ≡ widen n keep (pos s -ℤ (p -ℤ pos 1)) =
      lower-widen n s keep (p -ℤ pos 1) hs (omega (arith, abs-sub p (pos 1))) in
    rw
      (
        small_sub p (pos 1) (omega arith) (omega arith),
        left-kept s p hs (omega arith),
        ← sub_down s p,
      )
      (ground arith)

pub raise-narrow :
    (n s : ℕ) (keep p : ℤ)
    → s ≤ 10 ^ 11
    → abs p + n ≤ 10 ^ 14
    → pos s -ℤ raise n (pos s) keep p ≡ narrow n keep (pos s -ℤ p)
unfolding raise narrow
raise-narrow zero s keep p hs hp = refl
raise-narrow (suc n) s keep p hs hp =
    let near : abs (p +ℤ pos 1) + n ≤ 10 ^ 14 = omega (arith, abs-add p (pos 1)) in
    let rest : pos s -ℤ raise n (pos s) keep (p +ℤ pos 1) ≡ narrow n keep (pos s -ℤ (p +ℤ pos 1)) =
      raise-narrow n s keep (p +ℤ pos 1) hs near in
    rw
      (
        small_add p (pos 1) (omega arith) (omega arith),
        left-kept s (p +ℤ pos 1) hs (omega arith),
        ← sub_up s p,
      )
      (ground arith)
