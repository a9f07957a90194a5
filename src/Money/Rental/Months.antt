-- ===== src/Money/Rental/Months.antt =====
-- The loop of internal/money/rental.go that counts months ends where its test fails.
use free_sms.Common.{
  ℕ, zero, suc, ◌+◌, ◌-◌, ◌*◌, ◌/◌, ◌≤◌, ◌<◌, ◌≡◌, sym, subst, true, Option, arith, ltb, ◌==◌,
  ==_iff, Bool-cases, inl, inr,
}
use free_sms.Common.Int.{ℤ}
use free_sms.Common.Calendar.{day, add_months, add_months-ge}
use free_sms.Money.Rental.{is_priced, count_months, max_months}

-- The months that are counted cover the rental.
count_months-covers :
    (fuel from need k : ℕ)
    → need ≤ from + 28 * day * (k + fuel)
    → need ≤ add_months from (count_months fuel from need k)
unfolding count_months
count_months-covers zero from need k h = let later = add_months-ge from k in omega arith
count_months-covers (suc fuel) from need k h = elim (Bool-cases (ltb (add_months from k) need)) [
  | inl e ↦ rw e (count_months-covers fuel from need (suc k) (omega arith))
  | inr e ↦ rw e (ground arith)
]

pub count_months-le : (fuel from need k : ℕ) → count_months fuel from need k ≤ k + fuel
unfolding count_months
count_months-le zero from need k = omega arith
count_months-le (suc fuel) from need k = ground (arith, count_months-le fuel from need (suc k))

pub max_months-covers :
    (p : Option ℤ) (from need : ℕ)
    → is_priced p ≡ true
    → need ≤ add_months from (max_months p from need)
unfolding max_months
max_months-covers p from need e =
    rw e (count_months-covers ((need - from) / (28 * day) + 1) from need 0 (omega arith))

count_months-before :
    (fuel from need k j : ℕ) → k ≤ j → j < count_months fuel from need k → add_months from j < need
unfolding count_months
count_months-before zero from need k j h lt = absurd (omega arith)
count_months-before (suc fuel) from need k j h lt =
    elim (Bool-cases (ltb (add_months from k) need)) [
      | inl e ↦ elim (Bool-cases (j == k)) [
        | inl same ↦
            subst (λ i. add_months from i < need) (sym ((==_iff j k).0 same)) (ground (arith, e))
        | inr other ↦
            count_months-before fuel from need (suc k) j (ground (arith, h, other)) (rw e at lt)
      ]
      | inr e ↦ absurd (ground (arith, rw e at lt))
    ]

-- The months of a plan that prices them are counted until they cover the time that is needed, and no
-- further: the fuel never ends the count.
pub max_months-end :
    (p : Option ℤ) (from need : ℕ)
    → is_priced p ≡ true
    → (need ≤ add_months from (max_months p from need))
      × ((k : ℕ) → k < max_months p from need → add_months from k < need)
unfolding max_months
max_months-end p from need e = (
  max_months-covers p from need e,
  λ k lt.
      count_months-before ((need - from) / (28 * day) + 1) from need 0 k (omega arith) (rw e at lt),
)
