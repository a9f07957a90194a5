-- ===== src/Invoice/Ceiling.antt =====
-- What the consumables of an invoice come to, with the ceiling that a shop may set.
use free_sms.Common.{
  ℕ, zero, suc, ◌+◌, ◌≤◌, ◌<◌, ◌≡◌, refl, sym, ap, subst, ◌∙◌, true, List, [], ◌∷◌, ◌++◌, map,
  length, append_assoc, append-nil, Option, none, some, if◌then◌else◌, All, Bool-cases, inl, inr,
  arith,
}
use free_sms.Common.Int.{
  ℤ, pos, Fits, add64, sub64, wrap, ◌+ℤ◌, ◌-ℤ◌, ◌≤ℤ◌, ltb_ℤ, eqb_ℤ, add64_assoc, add64_comm,
  add64_zero, add64-Fits,
}
use free_sms.Common.Text.{Text}
use free_sms.Money.Rounding.{scale}
use free_sms.Money.Totals.Sort.{eqb_ℤ→eq}
use free_sms.Invoice.{InvoiceLine}
use free_sms.Invoice.Surcharges.{
  Cut, cut_loop, add_at, cut_down, total_of, capped, charge_line, share_lines,
}

-- The sum of amounts, and of the nets of lines, in int64.
abbrev pub sum64 : List ℤ → ℤ
sum64 [] = pos 0
sum64 (s ∷ ss) = add64 s (sum64 ss)

abbrev pub sum_nets : List InvoiceLine → ℤ
sum_nets [] = pos 0
sum_nets (l ∷ ls) = add64 l.net_minor (sum_nets ls)

sum64-Fits : (ss : List ℤ) → Fits (sum64 ss)
sum64-Fits [] = omega arith
sum64-Fits (s ∷ ss) = add64-Fits s (sum64 ss)

total_of-sum64 : (t : ℤ) (ss : List ℤ) → Fits t → total_of t ss ≡ add64 t (sum64 ss)
unfolding total_of
total_of-sum64 t [] h = sym (add64_comm t (pos 0) ∙ add64_zero t h)
total_of-sum64 t (s ∷ ss) h =
    total_of-sum64 (add64 t s) ss (add64-Fits t s) ∙ add64_assoc t s (sum64 ss)

pub total_of_zero : (ss : List ℤ) → total_of (pos 0) ss ≡ sum64 ss
total_of_zero ss = total_of-sum64 (pos 0) ss (omega arith) ∙ add64_zero (sum64 ss) (sum64-Fits ss)

sum64-add_at :
    (i : ℕ) (d : ℤ) (ss : List ℤ) → i < length ss → sum64 (add_at i d ss) ≡ add64 (sum64 ss) d
unfolding add_at
sum64-add_at i d [] h = absurd (omega (arith, h))
sum64-add_at zero d (s ∷ ss) h =
    add64_assoc s d (sum64 ss)
    ∙ ap (add64 s) (add64_comm d (sum64 ss))
    ∙ sym (add64_assoc s (sum64 ss) d)
sum64-add_at (suc i) d (s ∷ ss) h =
    ap (add64 s) (sum64-add_at i d ss (omega (arith, h))) ∙ sym (add64_assoc s (sum64 ss) d)

length-add_at : (i : ℕ) (d : ℤ) (ss : List ℤ) → length (add_at i d ss) ≡ length ss
unfolding add_at
length-add_at i d [] = refl
length-add_at zero d (s ∷ ss) = refl
length-add_at (suc i) d (s ∷ ss) = omega (arith, length-add_at i d ss)

-- What is missing is put back.
add_difference : (a c : ℤ) → Fits a → Fits c → add64 a (sub64 c a) ≡ c
unfolding add64 sub64 wrap ◌+ℤ◌ ◌-ℤ◌
add_difference a c ha hc = ground arith

abbrev uncut : Cut
uncut = record { scaled = []; cut_off = pos 0; largest = pos 0; big = 0 }

abbrev scaled_by : ℤ → ℤ → List ℤ → List ℤ
scaled_by cap total ss = map (λ s. scale s cap total) ss

cut_loop-scaled :
    (cap total : ℤ) (i : ℕ) (s : Cut) (ss : List ℤ)
    → (cut_loop cap total i s ss).scaled ≡ s.scaled ++ scaled_by cap total ss
unfolding cut_loop
cut_loop-scaled cap total i s [] = sym (append-nil s.scaled)
cut_loop-scaled cap total i s (x ∷ ss) =
    cut_loop-scaled cap total (suc i) _ ss
    ∙ append_assoc s.scaled (scale x cap total ∷ []) (scaled_by cap total ss)

cut_loop-cut :
    (cap total : ℤ) (i : ℕ) (s : Cut) (ss : List ℤ)
    → (cut_loop cap total i s ss).cut_off ≡ total_of s.cut_off (scaled_by cap total ss)
unfolding cut_loop total_of
cut_loop-cut cap total i s [] = refl
cut_loop-cut cap total i s (x ∷ ss) = cut_loop-cut cap total (suc i) _ ss

cut_loop-big :
    (cap total : ℤ) (i n : ℕ) (s : Cut) (ss : List ℤ)
    → s.big < n
    → i + length ss ≤ n
    → (cut_loop cap total i s ss).big < n
unfolding cut_loop
cut_loop-big cap total i n s [] h k = h
cut_loop-big cap total i n s (x ∷ ss) h k =
    cut_loop-big cap total (suc i) n _ ss (ground (arith, h, k)) (omega (arith, k))

length-scaled_by : (cap total : ℤ) (ss : List ℤ) → length (scaled_by cap total ss) ≡ length ss
length-scaled_by cap total [] = refl
length-scaled_by cap total (s ∷ ss) = omega (arith, length-scaled_by cap total ss)

-- Shares that are cut down add up to the ceiling, to the last minor unit.
cut_down-cap :
    (cap total : ℤ) (ss : List ℤ)
    → Fits cap
    → 0 < length ss
    → (sum64 (cut_down cap total ss) ≡ cap) × (length (cut_down cap total ss) ≡ length ss)
unfolding cut_down
cut_down-cap cap total ss h pos' =
    let c = cut_loop cap total 0 uncut ss in
    let sums = cut_loop-cut cap total 0 uncut ss ∙ total_of_zero (scaled_by cap total ss) in
    let scaled = cut_loop-scaled cap total 0 uncut ss in
    let same = ap length scaled ∙ length-scaled_by cap total ss in
    let big = cut_loop-big cap total 0 (length ss) uncut ss pos' (omega arith) in
    (
      sum64-add_at c.big (sub64 cap c.cut_off) c.scaled (omega (arith, same, big))
          ∙ ap (λ t. add64 t (sub64 cap c.cut_off)) (ap sum64 scaled ∙ sym sums)
          ∙ add_difference c.cut_off cap
              (subst Fits (sym sums) (sum64-Fits (scaled_by cap total ss))) h,
      length-add_at c.big (sub64 cap c.cut_off) c.scaled ∙ same,
    )

-- What is due, or the ceiling when that is less.
abbrev pub ceiling : Option ℤ → ℤ → ℤ
ceiling none due = due
ceiling (some cap) due = if ltb_ℤ cap due then cap else due

-- A ceiling that an int64 holds and that is not below nothing.
abbrev pub IsCap : Option ℤ → Type 0
IsCap none = Unit
IsCap (some cap) = Fits cap × (pos 0 ≤ℤ cap)

some_share : (cap : ℤ) (ss : List ℤ) → pos 0 ≤ℤ cap → ltb_ℤ cap (sum64 ss) ≡ true → 0 < length ss
some_share cap [] h e = absurd (ground (arith, h, e))
some_share cap (s ∷ ss) h e = omega arith

pub capped-ceiling :
    (cap : Option ℤ) (ss : List ℤ)
    → IsCap cap
    → (sum64 (capped cap (sum64 ss) ss) ≡ ceiling cap (sum64 ss))
      × (length (capped cap (sum64 ss) ss) ≡ length ss)
unfolding capped
capped-ceiling none ss h = (refl, refl)
capped-ceiling (some cap) ss (fits, h) = elim (Bool-cases (ltb_ℤ cap (sum64 ss))) [
  | inl e ↦ rw e (cut_down-cap cap (sum64 ss) ss fits (some_share cap ss h e))
  | inr e ↦ rw e (refl, refl)
]

-- Shares that are nothing have no line, and add nothing.
pub sum_nets-share_lines :
    (text : Text) (rates shares : List ℤ)
    → length rates ≡ length shares
    → sum_nets (share_lines text rates shares) ≡ sum64 shares
unfolding share_lines charge_line
sum_nets-share_lines text [] [] e = refl
sum_nets-share_lines text [] (s ∷ shares) e = absurd (omega (arith, e))
sum_nets-share_lines text (r ∷ rates) [] e = absurd (omega (arith, e))
sum_nets-share_lines text (r ∷ rates) (s ∷ shares) e = elim (Bool-cases (eqb_ℤ s (pos 0))) [
  | inl z ↦ rw z (
      sum_nets-share_lines text rates shares (omega (arith, e))
      ∙ sym (
          ap (λ x. add64 x (sum64 shares)) (eqb_ℤ→eq s (pos 0) z)
          ∙ add64_zero (sum64 shares) (sum64-Fits shares)))
  | inr z ↦ rw z (ap (add64 s) (sum_nets-share_lines text rates shares (omega (arith, e))))
]

pub share_lines-amounts :
    (text : Text) (f : ℤ → ℤ) (rates : List ℤ)
    → All (λ l. l.net_minor ≡ f l.vat_rate_basis) (share_lines text rates (map f rates))
unfolding share_lines charge_line
share_lines-amounts text f [] = tt
share_lines-amounts text f (r ∷ rates) = elim (Bool-cases (eqb_ℤ (f r) (pos 0))) [
  | inl z ↦ rw z (share_lines-amounts text f rates)
  | inr z ↦ rw z (refl, share_lines-amounts text f rates)
]
