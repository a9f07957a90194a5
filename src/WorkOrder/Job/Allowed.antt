-- ===== src/WorkOrder/Job/Allowed.antt =====
-- What a change of state needs, of `SetState` and what it calls in internal/workshop/state.go, said
-- of the job, the person and the table of moves, without the tests of the code.
use free_sms.Common.{
  inl, inr, ◌↔◌, refl, if◌then◌else◌, ◌≡◌, ◌≢◌, ◌⊎◌, Bool, true, false, not, ◌&&◌, ◌||◌, List, [],
  ◌∷◌, Option, none, some, arith, All, Any, Has, ℕ,
}
use free_sms.Access.Role.{Roles, all_roles, workshop, any_role, works_in_the_workshop}
use free_sms.Access.Scope.{Scope}
use free_sms.WorkOrder.State.{
  State, approved, ready, invoiced, closed, cancelled, same_state, transitions, can_transition,
  may_transition,
}
use free_sms.WorkOrder.Job.{
  Job, Refused, JobLine, Movement, consumed, MovementKind, reserved, unreserved, other_movement,
  TimeEntry, some_away, some_task, work_away, work_left, not_checked, ok, ready_gate, approval_gate,
  has_work, has_entries, some_performed, some_consumed, is_consumed, set_state, FinalCheck,
}
use free_sms.WorkOrder.Job.Changes.{IsOpen, set_state_iff}
use free_sms.WorkOrder.Job.Tests.{
  or_pair, or_sum, and_sum, not-false, itself, compose, pair_iff, sum_iff, same_state_iff,
  same_state_apart, some_away_iff, some_task_iff, IsAgreed, approval_gate_iff, IsBack, IsSettled,
}
use free_sms.WorkOrder.Job.People.{
  IsWorker, IsScope, MayMove, any_role_iff, IsWorker-iff, roles_valid_iff, module_iff, legal_iff,
  may_transition_iff, validate_iff,
}

-- What is done before a car is ready: no work is away, no task is left, and the final check that the
-- shop requires is made.
abbrev pub IsChecked : FinalCheck → Type 0
IsChecked f = (f.required ≡ false) ⊎ (f.done ≡ true)

abbrev pub IsFinished : Job → Type 0
IsFinished j = All IsBack j.outsourced × (All IsSettled j.tasks × IsChecked j.final_check)

ready_gate_iff : (j : Job) → (ready_gate j ≡ none) ↔ IsFinished j
unfolding ready_gate
ready_gate_iff j =
    compose
      (passes (some_away j.outsourced) (some_task j.tasks)
        (j.final_check.required && not j.final_check.done))
      (or_pair (some_away_iff j.outsourced)
        (or_pair (some_task_iff j.tasks) (and_sum itself (not-false itself))))
  where
    passes :
        (a b c : Bool)
        → ((if a
              then some work_away
              else if b
              then some work_left
              else if c
              then some not_checked
              else none)
            ≡ none)
          ↔ ((a || (b || c)) ≡ false)
    passes a b c = (λ e. ground arith, λ e. ground arith)

-- A job on which nothing has been done.
abbrev pub IsUntouched : Job → Type 0
IsUntouched j =
    ((j.entries ≡ []) × All (λ l. l.performed ≡ false) j.lines)
    × All (λ m. m.kind ≢ consumed) j.movements

entries_iff : (es : List TimeEntry) → (has_entries es ≡ false) ↔ (es ≡ [])
entries_iff [] = (λ _. refl, λ _. refl)
entries_iff (e ∷ es) = (λ h. absurd cc, λ h. absurd cc)

performed_iff :
    (ls : List JobLine) → (some_performed ls ≡ false) ↔ All (λ l. l.performed ≡ false) ls
unfolding some_performed
performed_iff [] = (λ _. tt, λ _. refl)
performed_iff (l ∷ ls) = or_pair itself (performed_iff ls)

kind_iff : (k : MovementKind) → (is_consumed k ≡ false) ↔ (k ≢ consumed)
kind_iff consumed = (λ e. absurd cc, λ n. absurd (n refl))
kind_iff reserved = (λ _ h. cc, λ _. refl)
kind_iff unreserved = (λ _ h. cc, λ _. refl)
kind_iff other_movement = (λ _ h. cc, λ _. refl)

consumed_iff : (ms : List Movement) → (some_consumed ms ≡ false) ↔ All (λ m. m.kind ≢ consumed) ms
unfolding some_consumed
consumed_iff [] = (λ _. tt, λ _. refl)
consumed_iff (m ∷ ms) = or_pair (kind_iff m.kind) (consumed_iff ms)

has_work_iff : (j : Job) → (has_work j ≡ false) ↔ IsUntouched j
unfolding has_work
has_work_iff j =
    or_pair (or_pair (entries_iff j.entries) (performed_iff j.lines)) (consumed_iff j.movements)

-- What a change of state is allowed by.
pub record IsAllowed (scope : Scope) (j : Job) (to : State) : Type 0 where
  pub roles : (scope.role ≢ []) × All (λ r. Has r all_roles) scope.role
  pub module_on : Has workshop scope.modules
  pub worker : Any IsWorker scope.role
  pub valid : IsScope scope
  pub documented : (to ≢ invoiced) ⊎ (j.state ≡ invoiced)
  pub not_by_hand : to ≢ closed
  pub mover : (j.state ≡ to) ⊎ MayMove scope.role j.state to
  pub agreed : (to ≢ approved) ⊎ IsAgreed j.lines
  pub finished : (to ≢ ready) ⊎ IsFinished j
  pub moved : (j.state ≡ to) ⊎ (Has to (transitions j.state) × ((to ≢ cancelled) ⊎ IsUntouched j))

IsWorker-Any : (s : Scope) → (any_role works_in_the_workshop s.role ≡ true) ↔ Any IsWorker s.role
IsWorker-Any s = any_role_iff works_in_the_workshop IsWorker-iff s.role

documented_iff :
    (from to : State)
    → ((same_state to invoiced && not (same_state from invoiced)) ≡ false)
      ↔ ((to ≢ invoiced) ⊎ (from ≡ invoiced))
documented_iff from to =
    and_sum (same_state_apart to invoiced) (not-false (same_state_iff from invoiced))

mover_iff :
    (role : Roles) (from to : State)
    → ((same_state from to || may_transition role from to) ≡ true)
      ↔ ((from ≡ to) ⊎ MayMove role from to)
mover_iff role from to = or_sum (same_state_iff from to) (may_transition_iff role from to)

IsAgreed-iff :
    (j : Job) (to : State)
    → ((same_state to approved && not (approval_gate j.lines)) ≡ false)
      ↔ ((to ≢ approved) ⊎ IsAgreed j.lines)
IsAgreed-iff j to = and_sum (same_state_apart to approved) (not-false (approval_gate_iff j.lines))

finished_iff :
    (j : Job) (to : State)
    → ((if same_state to ready then ready_gate j else none) ≡ none) ↔ ((to ≢ ready) ⊎ IsFinished j)
finished_iff j to =
    compose (passes (same_state to ready) (ready_gate j))
      (sum_iff (same_state_apart to ready) (ready_gate_iff j))
  where
    passes :
        (r : Bool) (e : Option Refused)
        → ((if r then e else none) ≡ none) ↔ ((r ≡ false) ⊎ (e ≡ none))
    passes true e = (λ h. inr h, λ h. elim h [ inl k ↦ absurd cc | inr k ↦ k ])
    passes false e = (λ h. inl refl, λ h. refl)

moved_iff :
    (j : Job) (to : State)
    → ((same_state j.state to ≡ true)
        ⊎ ((can_transition j.state to ≡ true) × ((same_state to cancelled && has_work j) ≡ false)))
      ↔ ((j.state ≡ to) ⊎ (Has to (transitions j.state) × ((to ≢ cancelled) ⊎ IsUntouched j)))
moved_iff j to =
    sum_iff (same_state_iff j.state to)
      (pair_iff (legal_iff j.state to) (and_sum (same_state_apart to cancelled) (has_work_iff j)))

IsOpen-iff : (scope : Scope) (j : Job) (to : State) → IsOpen scope j to ↔ IsAllowed scope j to
IsOpen-iff scope j to = (
  λ o. record {
    roles = (roles_valid_iff scope.role).0 o.roles;
    module_on = (module_iff scope).0 o.module_on;
    worker = (IsWorker-Any scope).0 o.worker;
    valid = (validate_iff scope o.roles).0 o.valid;
    documented = (documented_iff j.state to).0 o.documented;
    not_by_hand = (same_state_apart to closed).0 o.not_by_hand;
    mover = (mover_iff scope.role j.state to).0 o.mover;
    agreed = (IsAgreed-iff j to).0 o.agreed;
    finished = (finished_iff j to).0 o.finished;
    moved = (moved_iff j to).0 o.moved;
  },
  λ a. record {
    roles = (roles_valid_iff scope.role).1 a.roles;
    module_on = (module_iff scope).1 a.module_on;
    worker = (IsWorker-Any scope).1 a.worker;
    valid = (validate_iff scope ((roles_valid_iff scope.role).1 a.roles)).1 a.valid;
    documented = (documented_iff j.state to).1 a.documented;
    not_by_hand = (same_state_apart to closed).1 a.not_by_hand;
    mover = (mover_iff scope.role j.state to).1 a.mover;
    agreed = (IsAgreed-iff j to).1 a.agreed;
    finished = (finished_iff j to).1 a.finished;
    moved = (moved_iff j to).1 a.moved;
  },
)

-- For a job that is there, a change of state goes through, and leaves the job in the state asked
-- for, just when all of this holds: the person has roles, all of them known, and one of them is
-- owner, admin, service advisor, technician or parts; the shop runs the workshop module; the shop's
-- identifier, and the person's where there is one, is a UUID; a job is invoiced from no other state,
-- and closed by nobody by hand; a job that is to leave its state makes a move of the table, which
-- is a technician's own where no role held is owner, admin or service advisor, and it is not
-- cancelled with time, performed lines or consumed parts on it; before it is approved, the customer
-- has answered every line asked about, not declining all of them; and before it is ready, what was
-- required of suppliers is checked or called off, no task with a line is pending, underway or
-- blocked, and the final check is done where it is required.
pub set_state-IsAllowed :
    (now : ℕ) (scope : Scope) (j : Job) (to : State)
    → ((j' : Job) × (set_state now scope (some j) to ≡ ok j') × (j'.state ≡ to))
      ↔ IsAllowed scope j to
set_state-IsAllowed now scope j to = compose (set_state_iff now scope j to) (IsOpen-iff scope j to)
