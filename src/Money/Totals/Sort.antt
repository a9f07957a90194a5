-- ===== src/Money/Totals/Sort.antt =====
-- The sort of the rates: it orders them and loses none.
use free_sms.Common.{
  ◌≡◌, refl, sym, ap, ◌∙◌, Bool, true, false, List, [], ◌∷◌, ◌++◌, reverse, ◌||◌, arith, All,
  All-append, All-reverse, Bool-cases, inl, inr,
}
use mathlib.Core.List.{reverse-append}
use free_sms.Common.Int.{
  ℤ, pos, add64, add64_assoc, add64_comm, add64_left_comm, ltb_ℤ, eqb_ℤ, Fits, wrap-Fits,
  add64_zero,
}
use free_sms.Money.Totals.{bubble, sort_rates}

pub eqb_ℤ→eq : (a b : ℤ) → eqb_ℤ a b ≡ true → a ≡ b
eqb_ℤ→eq a b h = ground arith

-- The sum of a function over a list, in wrapping arithmetic.
abbrev pub sum_over : (ℤ → ℤ) → List ℤ → ℤ
sum_over f [] = pos 0
sum_over f (r ∷ rs) = add64 (f r) (sum_over f rs)

abbrev pub has : ℤ → List ℤ → Bool
has r [] = false
has r (q ∷ qs) = eqb_ℤ q r || has r qs

-- Strictly ascending, and strictly descending.
abbrev pub IsAscending : List ℤ → Type 0
IsAscending [] = Unit
IsAscending (r ∷ rs) = All (λ q. ltb_ℤ r q ≡ true) rs × IsAscending rs

abbrev pub IsDescending : List ℤ → Type 0
IsDescending [] = Unit
IsDescending (r ∷ rs) = All (λ q. ltb_ℤ q r ≡ true) rs × IsDescending rs

abbrev pub IsFresh : List ℤ → Type 0
IsFresh [] = Unit
IsFresh (r ∷ rs) = (has r rs ≡ false) × IsFresh rs

reverse-cons {ℓ} : {A : Type ℓ} (x : A) (xs : List A) → reverse (x ∷ xs) ≡ reverse xs ++ (x ∷ [])
reverse-cons x xs = reverse-append (x ∷ []) xs

module _ (f : ℤ → ℤ) where
  pub sum_over-Fits : (rs : List ℤ) → Fits (sum_over f rs)
  unfolding add64
  sum_over-Fits [] = omega arith
  sum_over-Fits (r ∷ rs) = wrap-Fits _

  sum_over-bubble : (rs : List ℤ) (r : ℤ) → sum_over f (bubble rs r) ≡ add64 (f r) (sum_over f rs)
  unfolding bubble
  sum_over-bubble [] r = refl
  sum_over-bubble (q ∷ qs) r = elim (Bool-cases (ltb_ℤ r q)) [
    | inl e ↦ rw (e, sum_over-bubble qs r) (add64_left_comm (f q) (f r) (sum_over f qs))
    | inr e ↦ rw e
  ]

  pub sum_over-append :
      (xs ys : List ℤ) → sum_over f (xs ++ ys) ≡ add64 (sum_over f xs) (sum_over f ys)
  sum_over-append [] ys = sym (add64_zero (sum_over f ys) (sum_over-Fits ys))
  sum_over-append (x ∷ xs) ys = rw (sum_over-append xs ys, add64_assoc)

  pub sum_over-reverse : (xs : List ℤ) → sum_over f (reverse xs) ≡ sum_over f xs
  sum_over-reverse [] = refl
  sum_over-reverse (x ∷ xs) =
      rw (reverse-cons x xs, sum_over-append (reverse xs) (x ∷ []), sum_over-reverse xs)
        (add64_left_comm (sum_over f xs) (f x) (pos 0)
          ∙ ap (add64 (f x)) (add64_comm (sum_over f xs) (pos 0) ∙ add64_zero _ (sum_over-Fits xs)))

  pub sum_over-sort_rates :
      (before rs : List ℤ)
      → sum_over f (sort_rates before rs) ≡ add64 (sum_over f before) (sum_over f rs)
  unfolding sort_rates
  sum_over-sort_rates before [] =
      sum_over-reverse before
      ∙ sym (add64_comm (sum_over f before) (pos 0) ∙ add64_zero _ (sum_over-Fits before))
  sum_over-sort_rates before (r ∷ rs) =
      rw (sum_over-sort_rates (bubble before r) rs, sum_over-bubble before r)
        (add64_assoc (f r) (sum_over f before) (sum_over f rs)
          ∙ add64_left_comm (f r) (sum_over f before) (sum_over f rs))

pub has-append : (r : ℤ) (xs ys : List ℤ) → has r (xs ++ ys) ≡ (has r xs || has r ys)
has-append r [] ys = refl
has-append r (x ∷ xs) ys = ground (arith, has-append r xs ys)

pub has-reverse : (r : ℤ) (xs : List ℤ) → has r (reverse xs) ≡ has r xs
has-reverse r [] = refl
has-reverse r (x ∷ xs) =
    rw (reverse-cons x xs, has-append r (reverse xs) (x ∷ []), has-reverse r xs) (ground arith)

has-bubble : (r : ℤ) (qs : List ℤ) (q : ℤ) → has r (bubble qs q) ≡ has r (q ∷ qs)
unfolding bubble
has-bubble r [] q = refl
has-bubble r (p ∷ ps) q = ground (arith, has-bubble r ps q)

pub has-sort_rates :
    (r : ℤ) (before rs : List ℤ) → has r (sort_rates before rs) ≡ (has r before || has r rs)
unfolding sort_rates
has-sort_rates r before [] = rw (has-reverse r before) (ground arith)
has-sort_rates r before (q ∷ qs) =
    rw (has-sort_rates r (bubble before q) qs, has-bubble r before q) (ground arith)

All-bubble : (P : ℤ → Type 0) (qs : List ℤ) (r : ℤ) → P r → All P qs → All P (bubble qs r)
unfolding bubble
All-bubble P [] r h _ = (h, tt)
All-bubble P (q ∷ qs) r h (k, ks) = elim (Bool-cases (ltb_ℤ r q)) [
  | inl e ↦ rw e (k, All-bubble P qs r h ks)
  | inr e ↦ rw e (h, (k, ks))
]

All-below :
    (q r : ℤ) (qs : List ℤ)
    → ltb_ℤ q r ≡ true
    → All (λ p. ltb_ℤ p q ≡ true) qs
    → All (λ p. ltb_ℤ p r ≡ true) qs
All-below q r [] h _ = tt
All-below q r (p ∷ ps) h (k, ks) = (ground arith, All-below q r ps h ks)

bubble-IsDescending :
    (qs : List ℤ) (r : ℤ) → IsDescending qs → has r qs ≡ false → IsDescending (bubble qs r)
unfolding bubble
bubble-IsDescending [] r _ _ = (tt, tt)
bubble-IsDescending (q ∷ qs) r (h, hs) fresh = elim (Bool-cases (ltb_ℤ r q)) [
  | inl e ↦ rw e (All-bubble _ qs r e h, bubble-IsDescending qs r hs (ground arith))
  | inr e ↦
      let above : ltb_ℤ q r ≡ true = ground arith in
      rw e ((above, All-below q r qs above h), (h, hs))
]

IsAscending-append :
    (xs : List ℤ) (x : ℤ)
    → IsAscending xs
    → All (λ y. ltb_ℤ y x ≡ true) xs
    → IsAscending (xs ++ (x ∷ []))
IsAscending-append [] x _ _ = (tt, tt)
IsAscending-append (y ∷ ys) x (h, hs) (k, ks) =
    (All-append _ ys (x ∷ []) h (k, tt), IsAscending-append ys x hs ks)

reverse-IsAscending : (qs : List ℤ) → IsDescending qs → IsAscending (reverse qs)
reverse-IsAscending [] _ = tt
reverse-IsAscending (q ∷ qs) (h, hs) =
    rw (reverse-cons q qs)
      (IsAscending-append (reverse qs) q (reverse-IsAscending qs hs) (All-reverse _ qs h))

-- Rates that are all different come out strictly ascending.
pub sort_rates-IsAscending :
    (before rs : List ℤ)
    → IsDescending before
    → IsFresh rs
    → All (λ r. has r before ≡ false) rs
    → IsAscending (sort_rates before rs)
unfolding sort_rates
sort_rates-IsAscending before [] d _ _ = reverse-IsAscending before d
sort_rates-IsAscending before (r ∷ rs) d (new, fresh) (h, hs) =
    sort_rates-IsAscending (bubble before r) rs (bubble-IsDescending before r d h) fresh
      (apart rs new hs)
  where
    apart :
        (qs : List ℤ)
        → has r qs ≡ false
        → All (λ q. has q before ≡ false) qs
        → All (λ q. has q (bubble before r) ≡ false) qs
    apart [] _ _ = tt
    apart (q ∷ qs) e (k, ks) =
        (rw (has-bubble q before r) (ground arith), apart qs (ground arith) ks)
