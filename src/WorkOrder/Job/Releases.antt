-- ===== src/WorkOrder/Job/Releases.antt =====
-- What a job still holds once its parts are given back, of `releaseReservationsForOrder` of
-- internal/workshop/state.go.
use free_sms.Common.{
  ℕ, ◌≡◌, ◌≢◌, ◌⊎◌, refl, sym, subst, ap, ◌∙◌, Bool, true, false, not, ◌&&◌, ◌||◌, List, [], ◌∷◌,
  ◌++◌, if◌then◌else◌, ◌==◌, arith, Bool-cases, inl, inr,
}
use free_sms.Common.Int.{ℤ, pos, ◌+ℤ◌, neg_ℤ, int_laws}
use free_sms.WorkOrder.State.{
  State, draft, estimated, awaiting_approval, approved, in_progress, awaiting_parts, ready,
  invoiced, closed, declined, cancelled, same_state,
}
use free_sms.WorkOrder.Job.Changes.{set_state_tx_cases}
use free_sms.WorkOrder.Job.{
  Job, ok, releasing, set_state_tx, write_state, Movement, held, holds, moved_part, parts_of,
  give_back, releases, release_reservations,
}

+ℤ_assoc : (a b c : ℤ) → a +ℤ b +ℤ c ≡ a +ℤ (b +ℤ c)
+ℤ_assoc a b c = grind int_laws

+ℤ_neg : (a : ℤ) → a +ℤ neg_ℤ a ≡ pos 0
unfolding ◌+ℤ◌
+ℤ_neg a = ground arith

+ℤ_zero : (a : ℤ) → a +ℤ pos 0 ≡ a
unfolding ◌+ℤ◌
+ℤ_zero a = ground arith

zero_+ℤ : (a : ℤ) → pos 0 +ℤ a ≡ a
unfolding ◌+ℤ◌
zero_+ℤ a = ground arith

held-append : (p : ℕ) (ms ns : List Movement) → held p (ms ++ ns) ≡ held p ms +ℤ held p ns
unfolding held
held-append p [] ns = sym (zero_+ℤ (held p ns))
held-append p (m ∷ ms) ns = rw (held-append p ms ns) (sym (+ℤ_assoc _ _ _))

-- The sum of a part's movements, with the tests as arguments.
nothing_held :
    (here holding again : Bool) (q t : ℤ)
    → (here ≡ true → again ≡ false)
    → not holding || again ≡ true
    → t ≡ pos 0
    → (if here && holding then q else pos 0) +ℤ t ≡ pos 0
unfolding ◌+ℤ◌
nothing_held here holding again q t h k e = ground arith

nothing_here :
    (here : Bool) (holding : Bool) (q t : ℤ)
    → here ≡ false
    → t ≡ pos 0
    → (if here && holding then q else pos 0) +ℤ t ≡ pos 0
unfolding ◌+ℤ◌
nothing_here here holding q t h e = ground arith

or_false : (a b : Bool) → a || b ≡ false → (a ≡ false) × (b ≡ false)
or_false a b h = ground arith

eqb→eq : (a b : ℕ) → (a == b) ≡ true → a ≡ b
eqb→eq a b h = ground arith

eqb_refl : (a : ℕ) → (a == a) ≡ true
eqb_refl a = ground arith

-- A part that is not among the moved ones has nothing held.
held-parts_of :
    (p : ℕ) (ms : List Movement) → moved_part p (parts_of ms) ≡ false → held p ms ≡ pos 0
unfolding held parts_of moved_part
held-parts_of p [] h = refl
held-parts_of p (m ∷ ms) h =
    elim (Bool-cases (not (holds m.kind) || moved_part m.part (parts_of ms))) [
      | inl e ↦
          let k : moved_part p (parts_of ms) ≡ false = rw e at h in
          nothing_held (m.part == p) (holds m.kind) (moved_part m.part (parts_of ms)) m.quantity
            (held p ms) (λ i. ap (λ n. moved_part n (parts_of ms)) (eqb→eq m.part p i) ∙ k) e
            (held-parts_of p ms k)
      | inr e ↦
          let k : (m.part == p) || moved_part p (parts_of ms) ≡ false = rw e at h in
          let (a, b) = or_false (m.part == p) (moved_part p (parts_of ms)) k in
          nothing_here (m.part == p) (holds m.kind) m.quantity (held p ms) a (held-parts_of p ms b)
    ]

held-give_back : (p q : ℕ) (z : ℤ) → held p (give_back q z) ≡ (if q == p then neg_ℤ z else pos 0)
unfolding held ◌+ℤ◌
held-give_back p q z = ground arith

-- Each part once.
unique : List ℕ → Bool
unfolding moved_part
unique [] = true
unique (p ∷ ps) = not (moved_part p ps) && unique ps

and_true : (a b : Bool) → not a && b ≡ true → (a ≡ false) × (b ≡ true)
and_true a b h = ground arith

or_false_right : (a b : Bool) → a || b ≡ false → b ≡ false
or_false_right a b h = ground arith

parts_of-unique : (ms : List Movement) → unique (parts_of ms) ≡ true
unfolding parts_of unique
parts_of-unique [] = refl
parts_of-unique (m ∷ ms) =
    elim (Bool-cases (not (holds m.kind) || moved_part m.part (parts_of ms))) [
      | inl e ↦ rw e (parts_of-unique ms)
      | inr e ↦
          rw (e, or_false_right (not (holds m.kind)) (moved_part m.part (parts_of ms)) e)
            (parts_of-unique ms)
    ]

-- What is given back of a part is all of it, once, or nothing.
held-releases :
    (p : ℕ) (ps : List ℕ) (ms : List Movement)
    → unique ps ≡ true
    → held p (releases ps ms) ≡ (if moved_part p ps then neg_ℤ (held p ms) else pos 0)
unfolding releases unique moved_part
held-releases p [] ms u = refl
held-releases p (q ∷ ps) ms u =
    let (f, v) = and_true (moved_part q ps) (unique ps) u in
    rw
      (
        held-append p (give_back q (held q ms)) (releases ps ms),
        held-give_back p q (held q ms),
        held-releases p ps ms v,
      )
      (elim (Bool-cases (q == p)) [
        | inl e ↦
            let w : q ≡ p = eqb→eq q p e in
            rw (e, sym (ap (λ n. moved_part n ps) w) ∙ f, w) (+ℤ_zero (neg_ℤ (held p ms)))
        | inr e ↦ rw e (zero_+ℤ (if moved_part p ps then neg_ℤ (held p ms) else pos 0))
      ])

-- Once the parts are given back, nothing is held of any part.
pub release_reservations-held :
    (p : ℕ) (ms : List Movement) → held p (release_reservations ms) ≡ pos 0
unfolding release_reservations
release_reservations-held p ms =
    rw
      (
        held-append p ms (releases (parts_of ms) ms),
        held-releases p (parts_of ms) ms (parts_of-unique ms),
      )
      (elim (Bool-cases (moved_part p (parts_of ms))) [
        | inl e ↦ rw e (+ℤ_neg (held p ms))
        | inr e ↦ rw e (+ℤ_zero (held p ms) ∙ held-parts_of p ms e)
      ])

-- The states in which a job has no more use for parts put aside.
abbrev pub IsOver : State → Type 0
IsOver s = (s ≡ declined) ⊎ (s ≡ cancelled) ⊎ (s ≡ invoiced) ⊎ (s ≡ closed)

IsOver-releasing : (s : State) → IsOver s → releasing s ≡ true
IsOver-releasing s (inl e) = subst (λ t. releasing t ≡ true) (sym e) refl
IsOver-releasing s (inr (inl e)) = subst (λ t. releasing t ≡ true) (sym e) refl
IsOver-releasing s (inr (inr (inl e))) = subst (λ t. releasing t ≡ true) (sym e) refl
IsOver-releasing s (inr (inr (inr e))) = subst (λ t. releasing t ≡ true) (sym e) refl

not-IsOver : (s : State) → releasing s ≡ false → ¬ IsOver s
not-IsOver s r h = let k = IsOver-releasing s h in cc

-- Which of them a state is, and what the code says of it.
IsOver-cases :
    (s : State) → ((releasing s ≡ true) × IsOver s) ⊎ ((releasing s ≡ false) × (¬ IsOver s))
IsOver-cases invoiced = inl (refl, inr (inr (inl refl)))
IsOver-cases closed = inl (refl, inr (inr (inr refl)))
IsOver-cases declined = inl (refl, inl refl)
IsOver-cases cancelled = inl (refl, inr (inl refl))
IsOver-cases draft = inr (refl, not-IsOver draft refl)
IsOver-cases estimated = inr (refl, not-IsOver estimated refl)
IsOver-cases awaiting_approval = inr (refl, not-IsOver awaiting_approval refl)
IsOver-cases approved = inr (refl, not-IsOver approved refl)
IsOver-cases in_progress = inr (refl, not-IsOver in_progress refl)
IsOver-cases awaiting_parts = inr (refl, not-IsOver awaiting_parts refl)
IsOver-cases ready = inr (refl, not-IsOver ready refl)

same_state→eq : (s t : State) → same_state s t ≡ true → s ≡ t
same_state→eq s t h = ground arith

-- A job that is moved from another state: to declined, cancelled, invoiced or closed, and then it
-- holds nothing of any part; or to a state that is none of these, and then its movements of stock
-- are what they were.
pub set_state_tx-held :
    (now : ℕ) (j : Job) (to : State) (j' : Job) (p : ℕ)
    → set_state_tx now j to ≡ ok j'
    → j.state ≢ to
    → (IsOver to × (held p j'.movements ≡ pos 0)) ⊎ ((¬ IsOver to) × (j'.movements ≡ j.movements))
unfolding write_state
set_state_tx-held now j to j' p h apart = elim (set_state_tx_cases now j to j' h) [
  | inl (same, _) ↦ absurd (apart (same_state→eq j.state to same))
  | inr (_, _, _, w) ↦
      let n : (write_state now j to).movements ≡ j'.movements = ap (λ i. i.movements) w in
      elim (IsOver-cases to) [
        | inl (e, over) ↦
            inl (over, ap (held p) (sym n) ∙ (rw e (release_reservations-held p j.movements)))
        | inr (e, other) ↦ inr (other, sym n ∙ (rw e refl))
      ]
]
