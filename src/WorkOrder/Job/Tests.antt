-- ===== src/WorkOrder/Job/Tests.antt =====
-- What the tests of internal/workshop/state.go, and those of internal/access/access.go that it
-- makes, say of a job and of a person.
use free_sms.Common.{
  inl, inr, Bool-cases, ◌↔◌, refl, if◌then◌else◌, ℕ, ◌+◌, ◌≡◌, ◌≢◌, ◌⊎◌, sym, subst, Bool, true,
  false, not, ◌&&◌, ◌||◌, List, [], ◌∷◌, arith, All, Any, Has, ltb, ◌==◌,
}
use free_sms.Common.Text.{Text, text_eq}
use free_sms.Common.Text.Laws.{text_eq→eq, text_eq_refl}
use free_sms.WorkOrder.State.{State, same_state, contains_state}
use free_sms.WorkOrder.Job.{
  JobLine, Task, TaskStatus, Outsourced, OutsourcedKind, pending, underway, blocked, done, omitted,
  requested, sent, waiting, returned, checked, check_failed, called_off, outstanding, unresolved,
  some_task, some_away, of_customer, approval_gate, count_lines,
}

-- Tests that say what two statements say, joined.
module _ {a b : Bool} {P Q : Type 0} where
  pub or_pair : (a ≡ false) ↔ P → (b ≡ false) ↔ Q → ((a || b) ≡ false) ↔ (P × Q)
  or_pair h k = (
    λ e. (h.0 (ground arith), k.0 (ground arith)),
    λ (p, q). let l = h.1 p in let r = k.1 q in ground arith,
  )

  pub or_sum : (a ≡ true) ↔ P → (b ≡ true) ↔ Q → ((a || b) ≡ true) ↔ (P ⊎ Q)
  or_sum h k = (
    λ e. elim (Bool-cases a) [ inl l ↦ inl (h.0 l) | inr l ↦ inr (k.0 (ground arith)) ],
    λ s. elim s [ inl p ↦ let l = h.1 p in ground arith | inr q ↦ let r = k.1 q in ground arith ],
  )

  pub and_pair : (a ≡ true) ↔ P → (b ≡ true) ↔ Q → ((a && b) ≡ true) ↔ (P × Q)
  and_pair h k = (
    λ e. (h.0 (ground arith), k.0 (ground arith)),
    λ (p, q). let l = h.1 p in let r = k.1 q in ground arith,
  )

  pub and_sum : (a ≡ false) ↔ P → (b ≡ false) ↔ Q → ((a && b) ≡ false) ↔ (P ⊎ Q)
  and_sum h k = (
    λ e. elim (Bool-cases a) [ inr l ↦ inl (h.0 l) | inl l ↦ inr (k.0 (ground arith)) ],
    λ s. elim s [ inl p ↦ let l = h.1 p in ground arith | inr q ↦ let r = k.1 q in ground arith ],
  )

module _ {a : Bool} {P : Type 0} where
  pub not-false : (a ≡ true) ↔ P → (not a ≡ false) ↔ P
  not-false h = (λ e. h.0 (ground arith), λ p. let l = h.1 p in ground arith)

  pub not-true : (a ≡ false) ↔ P → (not a ≡ true) ↔ P
  not-true h = (λ e. h.0 (ground arith), λ p. let l = h.1 p in ground arith)

pub itself : {P : Type 0} → P ↔ P
itself = (λ p. p, λ p. p)

same_state→eq : (s t : State) → same_state s t ≡ true → s ≡ t
same_state→eq s t h = ground arith

same_state_refl : (s : State) → same_state s s ≡ true
same_state_refl s = ground arith

pub same_state_iff : (s t : State) → (same_state s t ≡ true) ↔ (s ≡ t)
same_state_iff s t =
    (same_state→eq s t, λ e. subst (λ u. same_state s u ≡ true) e (same_state_refl s))

pub same_state_apart : (s t : State) → (same_state s t ≡ false) ↔ (s ≢ t)
same_state_apart s t = (
  λ e h. (let k = (same_state_iff s t).1 h in cc),
  λ n. elim (Bool-cases (same_state s t)) [ inl e ↦ absurd (n (same_state→eq s t e)) | inr e ↦ e ],
)

pub contains_state_iff : (ts : List State) (s : State) → (contains_state ts s ≡ true) ↔ Has s ts
contains_state_iff [] s = (λ e. absurd cc, λ h. absurd h)
contains_state_iff (t ∷ ts) s = or_sum (same_state_iff t s) (contains_state_iff ts s)

pub text_eq_iff : (s t : Text) → (text_eq s t ≡ true) ↔ (s ≡ t)
text_eq_iff s t = (text_eq→eq s t, λ e. subst (λ u. text_eq s u ≡ true) e (text_eq_refl s))

-- Work at a supplier that holds nothing up.
abbrev pub IsBack : Outsourced → Type 0
IsBack o = (o.required ≡ false) ⊎ (o.latest ≡ checked) ⊎ (o.latest ≡ called_off)

holds_up : OutsourcedKind → Bool
holds_up k = elim k [ checked ↦ false | called_off ↦ false | _ ↦ true ]

holds_up_only : (k : OutsourcedKind) → holds_up k ≡ false → (k ≡ checked) ⊎ (k ≡ called_off)
unfolding holds_up
holds_up_only checked e = inl refl
holds_up_only called_off e = inr refl
holds_up_only requested e = absurd cc
holds_up_only sent e = absurd cc
holds_up_only waiting e = absurd cc
holds_up_only returned e = absurd cc
holds_up_only check_failed e = absurd cc

holds_up_iff : (k : OutsourcedKind) → (holds_up k ≡ false) ↔ ((k ≡ checked) ⊎ (k ≡ called_off))
unfolding holds_up
holds_up_iff k = (
  holds_up_only k,
  λ h. elim h [
    | inl e ↦ subst (λ l. holds_up l ≡ false) (sym e) refl
    | inr e ↦ subst (λ l. holds_up l ≡ false) (sym e) refl
  ],
)

IsBack-iff : (o : Outsourced) → (unresolved o ≡ false) ↔ IsBack o
unfolding holds_up
IsBack-iff o = and_sum itself (holds_up_iff o.latest)

pub some_away_iff : (os : List Outsourced) → (some_away os ≡ false) ↔ All IsBack os
unfolding some_away
some_away_iff [] = (λ _. tt, λ _. refl)
some_away_iff (o ∷ os) = or_pair (IsBack-iff o) (some_away_iff os)

-- A task that nobody has to do any more.
abbrev pub IsSettled : Task → Type 0
IsSettled t = (t.line_gone ≡ true) ⊎ (t.status ≡ done) ⊎ (t.status ≡ omitted)

open_task : TaskStatus → Bool → Bool
open_task status gone = elim status [
  | pending ↦ not gone
  | underway ↦ not gone
  | blocked ↦ not gone
  | _ ↦ false
]

open_task_iff :
    (s : TaskStatus) (g : Bool)
    → (open_task s g ≡ false) ↔ ((g ≡ true) ⊎ (s ≡ done) ⊎ (s ≡ omitted))
unfolding open_task
open_task_iff s true = (λ _. inl refl, λ _. ground arith)
open_task_iff done false = (λ _. inr (inl refl), λ _. refl)
open_task_iff omitted false = (λ _. inr (inr refl), λ _. refl)
open_task_iff pending false = (
  λ e. absurd cc,
  λ h. elim h [ inl e ↦ absurd cc | inr (inl e) ↦ absurd cc | inr (inr e) ↦ absurd cc ],
)
open_task_iff underway false = (
  λ e. absurd cc,
  λ h. elim h [ inl e ↦ absurd cc | inr (inl e) ↦ absurd cc | inr (inr e) ↦ absurd cc ],
)
open_task_iff blocked false = (
  λ e. absurd cc,
  λ h. elim h [ inl e ↦ absurd cc | inr (inl e) ↦ absurd cc | inr (inr e) ↦ absurd cc ],
)

IsSettled-iff : (t : Task) → (outstanding t ≡ false) ↔ IsSettled t
unfolding outstanding open_task
IsSettled-iff t = open_task_iff t.status t.line_gone

pub some_task_iff : (ts : List Task) → (some_task ts ≡ false) ↔ All IsSettled ts
unfolding some_task
some_task_iff [] = (λ _. tt, λ _. refl)
some_task_iff (t ∷ ts) = or_pair (IsSettled-iff t) (some_task_iff ts)

-- A line that the customer is not asked about, one that is answered where it is, and one asked
-- about that the customer has not declined.
abbrev pub IsUnasked : JobLine → Type 0
IsUnasked l = (l.for_customer ≡ false) ⊎ (l.withdrawn ≡ true)

abbrev pub IsAnswered : JobLine → Type 0
IsAnswered l = (IsUnasked l ⊎ (l.approved_line ≡ true)) ⊎ (l.declined_line ≡ true)

abbrev pub IsLive : JobLine → Type 0
IsLive l = ((l.for_customer ≡ true) × (l.withdrawn ≡ false)) × (l.declined_line ≡ false)

pub compose : {P Q R : Type 0} → P ↔ Q → Q ↔ R → P ↔ R
compose h k = (λ p. k.0 (h.0 p), λ r. h.1 (k.1 r))

pub pair_iff : {P Q R S : Type 0} → P ↔ R → Q ↔ S → (P × Q) ↔ (R × S)
pair_iff h k = (λ (p, q). (h.0 p, k.0 q), λ (r, s). (h.1 r, k.1 s))

pub sum_iff : {P Q R S : Type 0} → P ↔ R → Q ↔ S → (P ⊎ Q) ↔ (R ⊎ S)
sum_iff h k = (
  λ s. elim s [ inl p ↦ inl (h.0 p) | inr q ↦ inr (k.0 q) ],
  λ s. elim s [ inl p ↦ inl (h.1 p) | inr q ↦ inr (k.1 q) ],
)

not_one :
    (b : Bool) (n : ℕ)
    → (ltb 0 ((if b then 1 else 0) + n) ≡ false) ↔ ((b ≡ false) × (ltb 0 n ≡ false))
not_one true n = (λ e. ground arith, λ e. ground arith)
not_one false n = (λ e. ground arith, λ e. ground arith)

some_one :
    (b : Bool) (n : ℕ)
    → (((if b then 1 else 0) + n == 0) ≡ false) ↔ ((b ≡ true) ⊎ ((n == 0) ≡ false))
some_one true n = (λ e. inl refl, λ e. ground arith)
some_one false n = (λ e. inr (ground arith), λ e. ground arith)

none_counted :
    (p : JobLine → Bool) {P : JobLine → Type 0}
    → ((l : JobLine) → (p l ≡ false) ↔ P l)
    → (ls : List JobLine) → (ltb 0 (count_lines p ls) ≡ false) ↔ All P ls
unfolding count_lines
none_counted p h [] = (λ _. tt, λ _. refl)
none_counted p h (l ∷ ls) =
    compose (not_one (p l) (count_lines p ls)) (pair_iff (h l) (none_counted p h ls))

some_counted :
    (p : JobLine → Bool) {P : JobLine → Type 0}
    → ((l : JobLine) → (p l ≡ true) ↔ P l)
    → (ls : List JobLine) → ((count_lines p ls == 0) ≡ false) ↔ Any P ls
unfolding count_lines
some_counted p h [] = (λ e. absurd cc, λ q. absurd q)
some_counted p h (l ∷ ls) =
    compose (some_one (p l) (count_lines p ls)) (sum_iff (h l) (some_counted p h ls))

IsUnasked-iff : (l : JobLine) → (of_customer l ≡ false) ↔ IsUnasked l
IsUnasked-iff l = and_sum itself (not-false itself)

IsLive-iff : (l : JobLine) → ((of_customer l && not l.declined_line) ≡ true) ↔ IsLive l
IsLive-iff l = and_pair (and_pair itself (not-true itself)) (not-true itself)

IsAnswered-iff :
    (l : JobLine)
    → ((of_customer l && not l.approved_line && not l.declined_line) ≡ false) ↔ IsAnswered l
IsAnswered-iff l = and_sum (and_sum (IsUnasked-iff l) (not-false itself)) (not-false itself)

-- What the customer has agreed to: each line asked about is answered, and where one is asked about,
-- one is not declined.
abbrev pub IsAgreed : List JobLine → Type 0
IsAgreed ls = All IsAnswered ls × (All IsUnasked ls ⊎ Any IsLive ls)

pub approval_gate_iff : (ls : List JobLine) → (approval_gate ls ≡ true) ↔ IsAgreed ls
unfolding approval_gate
approval_gate_iff ls = not-true (
    or_pair (none_counted _ IsAnswered-iff ls)
      (and_sum (none_counted of_customer IsUnasked-iff ls) (some_counted _ IsLive-iff ls)))
