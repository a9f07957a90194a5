-- ===== src/WorkOrder/Job/Changes.antt =====
-- What a change of state that goes through needs, of internal/workshop/state.go and what it calls.
use free_sms.Common.{
  inl, inr, Bool-cases, ◌↔◌, refl, if◌then◌else◌, ℕ, ◌≡◌, ◌⊎◌, sym, ap, ◌∙◌, Bool, true, false, not,
  ◌&&◌, ◌||◌, [], ◌∷◌, Option, none, some, arith,
}
use free_sms.Common.Text.{is_empty, Text}
use free_sms.Access.Role.{any_role, roles_valid, works_in_the_workshop, workshop}
use free_sms.Access.Scope.{Scope, require_modules, validate}
use free_sms.WorkOrder.State.{
  State, approved, ready, invoiced, closed, cancelled, same_state, can_transition, may_transition,
}
use free_sms.WorkOrder.Job.{
  Job, Refused, Outcome, ok, refused, gate, ready_gate, approval_gate, has_work, write_state,
  set_state_tx, stop_if_ready, stop_clock, in_workshop, set_state_in_scope, set_state,
}

-- A change of state of a job that is there, taken apart.
pub record IsChange (now : ℕ) (scope : Scope) (j : Job) (to : State) (j' : Job) : Type 0 where
  roles : roles_valid scope.role ≡ true
  module_on : require_modules scope (workshop ∷ []) ≡ none
  worker : any_role works_in_the_workshop scope.role ≡ true
  valid : validate scope ≡ none
  pub passed : gate scope j to ≡ none
  pub result : stop_if_ready now scope.user_id to (set_state_tx now j to) ≡ ok j'

pub set_state-IsChange :
    (now : ℕ) (scope : Scope) (j : Job) (to : State) {j' : Job}
    → set_state now scope (some j) to ≡ ok j'
    → IsChange now scope j to j'
unfolding set_state
set_state-IsChange now scope j to h = ground arith

-- The gates in front of the move, and the tests of the move itself, with their tests as arguments.
gate_cases :
    (unnamed closing stays may legal agreed to_approved to_ready : Bool) (a b c f d : Refused)
    (e : Option Refused)
    → (if unnamed
        then some a
        else if closing
        then some b
        else if not stays && not may
        then (if legal then some c else some f)
        else if to_approved && not agreed
        then some d
        else if to_ready
        then e
        else none)
      ≡ none
    → (unnamed ≡ false)
      × (closing ≡ false)
      × (stays || may ≡ true)
      × ((to_approved && not agreed) ≡ false)
      × ((if to_ready then e else none) ≡ none)
gate_cases u c s m l g a r _ _ _ _ _ _ h = ground arith

move_cases :
    (stays legal unbillable lost : Bool) (j w k : Job) (i n l : Refused)
    → (if stays
        then ok j
        else if not legal
        then refused i
        else if unbillable
        then refused n
        else if lost
        then refused l
        else ok w)
      ≡ ok k
    → (stays ≡ true) × (j ≡ k) ⊎ (legal ≡ true) × (unbillable ≡ false) × (lost ≡ false) × (w ≡ k)
move_cases true g u l _ _ _ _ _ _ h = ground arith
move_cases false false u l _ _ _ _ _ _ h = ground arith
move_cases false true true l _ _ _ _ _ _ h = ground arith
move_cases false true false true _ _ _ _ _ _ h = ground arith
move_cases false true false false _ _ _ _ _ _ h = ground arith

pub stop_if_ready-state :
    (now : ℕ) (user : Text) (to : State) (r : Outcome) (j' : Job)
    → stop_if_ready now user to r ≡ ok j'
    → (k : Job) × (r ≡ ok k) × (j'.state ≡ k.state) × (j'.movements ≡ k.movements)
stop_if_ready-state now user to (refused r) j' h = ground arith
stop_if_ready-state now user to (ok j) j' h = ground arith

same_state→eq : (s t : State) → same_state s t ≡ true → s ≡ t
same_state→eq s t h = ground arith

-- The tests that the code makes of a change of state.
pub record IsOpen (scope : Scope) (j : Job) (to : State) : Type 0 where
  pub roles : roles_valid scope.role ≡ true
  pub module_on : require_modules scope (workshop ∷ []) ≡ none
  pub worker : any_role works_in_the_workshop scope.role ≡ true
  pub valid : validate scope ≡ none
  pub documented : (same_state to invoiced && not (same_state j.state invoiced)) ≡ false
  pub not_by_hand : same_state to closed ≡ false
  pub mover : same_state j.state to || may_transition scope.role j.state to ≡ true
  pub agreed : (same_state to approved && not (approval_gate j.lines)) ≡ false
  pub finished : (if same_state to ready then ready_gate j else none) ≡ none
  pub moved :
      (same_state j.state to ≡ true)
      ⊎ (can_transition j.state to ≡ true) × ((same_state to cancelled && has_work j) ≡ false)

gate_passed :
    (scope : Scope) (j : Job) (to : State)
    → gate scope j to ≡ none
    → ((same_state to invoiced && not (same_state j.state invoiced)) ≡ false)
      × (same_state to closed ≡ false)
      × (same_state j.state to || may_transition scope.role j.state to ≡ true)
      × ((same_state to approved && not (approval_gate j.lines)) ≡ false)
      × ((if same_state to ready then ready_gate j else none) ≡ none)
unfolding gate
gate_passed scope j to h =
    gate_cases (same_state to invoiced && not (same_state j.state invoiced)) (same_state to closed)
      (same_state j.state to) (may_transition scope.role j.state to) (can_transition j.state to)
      (approval_gate j.lines) (same_state to approved) (same_state to ready) _ _ _ _ _ _ h

pub set_state_tx_cases :
    (now : ℕ) (j : Job) (to : State) (k : Job)
    → set_state_tx now j to ≡ ok k
    → (same_state j.state to ≡ true) × (j ≡ k)
      ⊎ (can_transition j.state to ≡ true)
        × ((same_state to invoiced && not j.has_customer) ≡ false)
        × ((same_state to cancelled && has_work j) ≡ false)
        × (write_state now j to ≡ k)
unfolding set_state_tx
set_state_tx_cases now j to k h =
    move_cases (same_state j.state to) (can_transition j.state to)
      (same_state to invoiced && not j.has_customer) (same_state to cancelled && has_work j) j
      (write_state now j to) k _ _ _ h

set_state_tx-state :
    (now : ℕ) (j : Job) (to : State) (k : Job)
    → set_state_tx now j to ≡ ok k
    → ((same_state j.state to ≡ true)
        ⊎ (can_transition j.state to ≡ true) × ((same_state to cancelled && has_work j) ≡ false))
      × (k.state ≡ to)
unfolding write_state
set_state_tx-state now j to k h = elim (set_state_tx_cases now j to k h) [
  | inl (e, f) ↦ (inl e, sym (ap (λ i. i.state) f) ∙ same_state→eq j.state to e)
  | inr (c, b, l, f) ↦ (inr (c, l), sym (ap (λ i. i.state) f))
]

allowed :
    (now : ℕ) (scope : Scope) (j : Job) (to : State) (j' : Job)
    → set_state now scope (some j) to ≡ ok j'
    → (j'.state ≡ to) × IsOpen scope j to
allowed now scope j to j' h =
    let c = set_state-IsChange now scope j to h in
    let (u, cl, mv, ag, fi) = gate_passed scope j to c.passed in
    let (k, e, s, _) =
      stop_if_ready-state now scope.user_id to (set_state_tx now j to) j' c.result in
    let (m, t) = set_state_tx-state now j to k e in
    (
      s ∙ t,
      record {
        roles = c.roles;
        module_on = c.module_on;
        worker = c.worker;
        valid = c.valid;
        documented = u;
        not_by_hand = cl;
        mover = mv;
        agreed = ag;
        finished = fi;
        moved = m;
      },
    )

-- A job becomes invoiced, by hand, only when it is so already.
already :
    (from to : State)
    → (same_state to invoiced && not (same_state from invoiced)) ≡ false
    → same_state from to || not (same_state to invoiced) ≡ true
already from to h = ground arith

gate_open :
    (unnamed closing stays may legal agreed to_approved to_ready : Bool) (a b c f d : Refused)
    (e : Option Refused)
    → unnamed ≡ false
    → closing ≡ false
    → stays || may ≡ true
    → (to_approved && not agreed) ≡ false
    → (if to_ready then e else none) ≡ none
    → (if unnamed
        then some a
        else if closing
        then some b
        else if not stays && not may
        then (if legal then some c else some f)
        else if to_approved && not agreed
        then some d
        else if to_ready
        then e
        else none)
      ≡ none
gate_open u c s m l g a r _ _ _ _ _ e h k n o q = ground arith

move_open :
    (stays legal to_invoiced nobody lost : Bool) (j w : Job) (i n l : Refused)
    → stays || not to_invoiced ≡ true
    → (stays ≡ true) ⊎ (legal ≡ true) × (lost ≡ false)
    → (k : Job) × ((if stays
          then ok j
          else if not legal
          then refused i
          else if to_invoiced && nobody
          then refused n
          else if lost
          then refused l
          else ok w)
        ≡ ok k)
move_open true g v b l j w _ _ _ h k = (j, refl)
move_open false g v b l j w _ _ _ h k = (w, ground arith)

gate-none : (scope : Scope) (j : Job) (to : State) → IsOpen scope j to → gate scope j to ≡ none
unfolding gate
gate-none scope j to a =
    gate_open (same_state to invoiced && not (same_state j.state invoiced)) (same_state to closed)
      (same_state j.state to) (may_transition scope.role j.state to) (can_transition j.state to)
      (approval_gate j.lines) (same_state to approved) (same_state to ready) _ _ _ _ _ _
      a.documented a.not_by_hand a.mover a.agreed a.finished

set_state_tx-ok :
    (now : ℕ) (scope : Scope) (j : Job) (to : State)
    → IsOpen scope j to
    → (k : Job) × (set_state_tx now j to ≡ ok k)
unfolding set_state_tx
set_state_tx-ok now scope j to a =
    move_open (same_state j.state to) (can_transition j.state to) (same_state to invoiced)
      (not j.has_customer) (same_state to cancelled && has_work j) j (write_state now j to) _ _ _
      (already j.state to a.documented) a.moved

stop_if_ready-ok :
    (now : ℕ) (user : Text) (to : State) (k : Job)
    → (j' : Job) × (stop_if_ready now user to (ok k) ≡ ok j')
stop_if_ready-ok now user to k = elim (Bool-cases (same_state to ready && not (is_empty user))) [
  | inl e ↦ (record k { entries = stop_clock now user k.entries }, rw e)
  | inr e ↦ (k, rw e)
]

in_workshop-open :
    (scope : Scope) (r : Outcome)
    → require_modules scope (workshop ∷ []) ≡ none
    → any_role works_in_the_workshop scope.role ≡ true
    → validate scope ≡ none
    → in_workshop scope r ≡ r
in_workshop-open scope r h k v = ground arith

goes_through :
    (now : ℕ) (scope : Scope) (j : Job) (to : State)
    → IsOpen scope j to
    → (j' : Job) × (set_state now scope (some j) to ≡ ok j')
unfolding set_state set_state_in_scope
goes_through now scope j to a =
    let (k, e) = set_state_tx-ok now scope j to a in
    let (j', h) = stop_if_ready-ok now scope.user_id to k in
    (
      j',
      rw
          (
            a.roles,
            in_workshop-open scope (set_state_in_scope now scope (some j) to) a.module_on a.worker
                a.valid,
            gate-none scope j to a,
            e,
          )
          h,
    )

pub set_state_iff :
    (now : ℕ) (scope : Scope) (j : Job) (to : State)
    → ((j' : Job) × (set_state now scope (some j) to ≡ ok j') × (j'.state ≡ to)) ↔ IsOpen scope j to
set_state_iff now scope j to = (
  λ (j', h, _). (allowed now scope j to j' h).1,
  λ a. let (j', h) = goes_through now scope j to a in (j', h, (allowed now scope j to j' h).0),
)
