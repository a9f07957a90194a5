-- ===== src/WorkOrder/Job.antt =====
-- A job as the database holds it, and what a change of state does to it: `SetState`,
-- `setStateInScopeTx`, `setStateTx`, `stopClockOn` and `releaseReservationsForOrder` of
-- internal/workshop/state.go, with the checks they call in internal/workshop/quotes.go,
-- outsourced.go and tasks.go. A transaction that is refused is rolled back, so a refusal has no job.
mod Examples
pub mod Releases
pub mod Changes
pub mod Tests
pub mod People
pub mod Allowed
use free_sms.Common.{
  ℕ, zero, ◌+◌, ◌-◌, ◌*◌, ◌/◌, Bool, true, false, not, ◌&&◌, ◌||◌, List, [], ◌∷◌, ◌++◌, Option,
  none, some, ltb, ◌==◌, if◌then◌else◌,
}
use free_sms.Common.Int.{ℤ, pos, ◌+ℤ◌, neg_ℤ, eqb_ℤ}
use free_sms.Common.Text.{Text, text_eq, is_empty}
use free_sms.Access.Role.{Role, Module, workshop, roles_valid, any_role, works_in_the_workshop}
use free_sms.Access.Scope.{Scope, ScopeError, require_modules, validate}
use free_sms.WorkOrder.State.{
  State, approved, ready, invoiced, closed, declined, cancelled, same_state, can_transition,
  may_transition,
}

-- A line of the order; `part` is the part it is for.
pub record JobLine : Type 0 where
  pub for_customer : Bool
  pub part : Option ℕ
  pub approved_line : Bool
  pub declined_line : Bool
  pub withdrawn : Bool
  pub performed : Bool

pub data MovementKind : Type 0 where
  reserved unreserved consumed other_movement : MovementKind

-- A movement of stock for the job.
pub record Movement : Type 0 where
  pub part : ℕ
  pub kind : MovementKind
  pub quantity : ℤ

-- A stretch of clocked time, in seconds; `note_hours` is the number in the note that a long one
-- gets when it is closed.
pub record TimeEntry : Type 0 where
  pub user : Text
  pub started_at : ℕ
  pub ended_at : Option ℕ
  pub flagged : Bool
  pub note_hours : Option ℕ

pub data TaskStatus : Type 0 where
  pending underway blocked done omitted : TaskStatus

pub record Task : Type 0 where
  pub status : TaskStatus
  pub line_gone : Bool

-- Work at a supplier, with its latest event.
pub data OutsourcedKind : Type 0 where
  requested sent waiting returned checked check_failed called_off : OutsourcedKind

pub record Outsourced : Type 0 where
  pub required : Bool
  pub latest : OutsourcedKind

-- What the shop's final check says of the job.
pub record FinalCheck : Type 0 where
  pub required : Bool
  pub done : Bool

pub record Job : Type 0 where
  pub state : State
  pub has_customer : Bool
  pub lines : List JobLine
  pub movements : List Movement
  pub entries : List TimeEntry
  pub tasks : List Task
  pub outsourced : List Outsourced
  pub final_check : FinalCheck
  pub closed_at : Option ℕ

pub data Refused : Type 0 where
  forbidden module_off not_found needs_document close_by_hand needs_approval : Refused
  work_away work_left not_checked no_customer would_lose_work : Refused
  bad_scope : ScopeError → Refused
  illegal_transition : State → State → Refused

pub data Outcome : Type 0 where
  ok : Job → Outcome
  refused : Refused → Outcome

-- `agreementTx`: the customer's lines that nobody has answered, those not declined, and all.
unfoldable pub count_lines : (JobLine → Bool) → List JobLine → ℕ
count_lines p [] = 0
count_lines p (l ∷ ls) = (if p l then 1 else 0) + count_lines p ls

abbrev pub of_customer : JobLine → Bool
of_customer l = l.for_customer && not l.withdrawn

unfoldable pub approval_gate : List JobLine → Bool
approval_gate ls =
    let unanswered =
      count_lines (λ l. of_customer l && not l.approved_line && not l.declined_line) ls in
    let live = count_lines (λ l. of_customer l && not l.declined_line) ls in
    let total = count_lines of_customer ls in not (ltb 0 unanswered || (ltb 0 total && (live == 0)))

unfoldable pub outstanding : Task → Bool
outstanding t = elim t.status [
  | pending ↦ not t.line_gone
  | underway ↦ not t.line_gone
  | blocked ↦ not t.line_gone
  | _ ↦ false
]

unfoldable pub some_task : List Task → Bool
unfolding outstanding
some_task [] = false
some_task (t ∷ ts) = outstanding t || some_task ts

abbrev pub unresolved : Outsourced → Bool
unresolved o = o.required && (elim o.latest [ checked ↦ false | called_off ↦ false | _ ↦ true ])

unfoldable pub some_away : List Outsourced → Bool
some_away [] = false
some_away (o ∷ os) = unresolved o || some_away os

-- What is held of a part: the sum of its reservations, those given back being negative.
abbrev pub holds : MovementKind → Bool
holds reserved = true
holds unreserved = true
holds k = false

unfoldable pub held : ℕ → List Movement → ℤ
held p [] = pos 0
held p (m ∷ ms) = (if (m.part == p) && holds m.kind then m.quantity else pos 0) +ℤ held p ms

-- `GROUP BY part_id`: each part once.
unfoldable pub moved_part : ℕ → List ℕ → Bool
moved_part p [] = false
moved_part p (q ∷ qs) = (q == p) || moved_part p qs

unfoldable pub parts_of : List Movement → List ℕ
unfolding moved_part
parts_of [] = []
parts_of (m ∷ ms) =
    let rest = parts_of ms in
    if not (holds m.kind) || moved_part m.part rest then rest else m.part ∷ rest

abbrev pub give_back : ℕ → ℤ → List Movement
give_back p q =
    if eqb_ℤ q (pos 0) then [] else record { part = p; kind = unreserved; quantity = neg_ℤ q } ∷ []

unfoldable pub releases : List ℕ → List Movement → List Movement
unfolding held
releases [] ms = []
releases (p ∷ ps) ms = give_back p (held p ms) ++ releases ps ms

unfoldable pub release_reservations : List Movement → List Movement
unfolding releases parts_of
release_reservations ms = ms ++ releases (parts_of ms) ms

-- What counts as work on the job.
unfoldable pub some_performed : List JobLine → Bool
some_performed [] = false
some_performed (l ∷ ls) = l.performed || some_performed ls

abbrev pub is_consumed : MovementKind → Bool
is_consumed consumed = true
is_consumed k = false

unfoldable pub some_consumed : List Movement → Bool
some_consumed [] = false
some_consumed (m ∷ ms) = is_consumed m.kind || some_consumed ms

abbrev pub has_entries : List TimeEntry → Bool
has_entries [] = false
has_entries (e ∷ es) = true

unfoldable pub has_work : Job → Bool
unfolding some_performed some_consumed
has_work j = has_entries j.entries || some_performed j.lines || some_consumed j.movements

-- The part of a line, taken out to the job.
unfoldable pub consumed_part : ℕ → List Movement → Bool
consumed_part p [] = false
consumed_part p (m ∷ ms) = ((m.part == p) && is_consumed m.kind) || consumed_part p ms

abbrev pub taken_out : Option ℕ → List Movement → Bool
taken_out none ms = false
taken_out (some p) ms = consumed_part p ms

-- What a declined job no longer owes.
unfoldable pub decline_lines : List Movement → List JobLine → List JobLine
unfolding consumed_part
decline_lines ms [] = []
decline_lines ms (l ∷ ls) =
    (if not l.performed && not l.declined_line && not l.withdrawn && not (taken_out l.part ms)
      then record l { declined_line = true }
      else l)
    ∷ decline_lines ms ls

abbrev pub releasing : State → Bool
releasing s =
    same_state s declined || same_state s cancelled || same_state s invoiced || same_state s closed

-- The writes of `setStateTx`, once nothing refuses the move.
unfoldable pub write_state : ℕ → Job → State → Job
unfolding release_reservations decline_lines
write_state now j to =
    let ms = if releasing to then release_reservations j.movements else j.movements in
    record j {
      state = to;
      movements = ms;
      closed_at = if same_state to closed || same_state to cancelled then some now else none;
      lines = if same_state to declined then decline_lines ms j.lines else j.lines;
    }

-- `setStateTx`.
unfoldable pub set_state_tx : ℕ → Job → State → Outcome
unfolding write_state has_work
set_state_tx now j to =
    if same_state j.state to
    then ok j
    else if not (can_transition j.state to)
    then refused (illegal_transition j.state to)
    else if same_state to invoiced && not j.has_customer
    then refused no_customer
    else if same_state to cancelled && has_work j
    then refused would_lose_work
    else ok (write_state now j to)

abbrev pub is_running : Option ℕ → Bool
is_running none = true
is_running (some t) = false

-- `stopClockOn`: ten hours are more than anybody works in one go.
unfoldable pub stop_clock : ℕ → Text → List TimeEntry → List TimeEntry
stop_clock now user [] = []
stop_clock now user (e ∷ es) =
    let long = ltb 36000 (now - e.started_at) in
    let ended = record e {
      ended_at = some now;
      flagged = long;
      note_hours = if long then some (((now - e.started_at) * 2 + 3600) / 7200) else e.note_hours;
    } in
    let rest = stop_clock now user es in
    if text_eq e.user user && is_running e.ended_at then ended ∷ rest else e ∷ rest

-- What stands between a car and ready.
unfoldable pub ready_gate : Job → Option Refused
unfolding some_away some_task
ready_gate j =
    if some_away j.outsourced
    then some work_away
    else if some_task j.tasks
    then some work_left
    else if j.final_check.required && not j.final_check.done
    then some not_checked
    else none

abbrev pub stop_if_ready : ℕ → Text → State → Outcome → Outcome
stop_if_ready now user to (refused r) = refused r
stop_if_ready now user to (ok j) =
    if same_state to ready && not (is_empty user)
    then ok (record j { entries = stop_clock now user j.entries })
    else ok j

-- The gates of `setStateInScopeTx` in front of the move, in their order.
unfoldable pub gate : Scope → Job → State → Option Refused
unfolding ready_gate approval_gate
gate scope j to =
    if same_state to invoiced && not (same_state j.state invoiced)
    then some needs_document
    else if same_state to closed
    then some close_by_hand
    else if not (same_state j.state to) && not (may_transition scope.role j.state to)
    then (if can_transition j.state to
        then some forbidden
        else some (illegal_transition j.state to))
    else if same_state to approved && not (approval_gate j.lines)
    then some needs_approval
    else if same_state to ready
    then ready_gate j
    else none

-- `setStateInScopeTx`; `none` is a job that is not there.
abbrev pub after_gate : ℕ → Scope → Job → State → Option Refused → Outcome
after_gate now scope j to (some r) = refused r
after_gate now scope j to none = stop_if_ready now scope.user_id to (set_state_tx now j to)

unfoldable pub set_state_in_scope : ℕ → Scope → Option Job → State → Outcome
set_state_in_scope now scope none to = refused not_found
set_state_in_scope now scope (some j) to = after_gate now scope j to (gate scope j to)

-- `SetState`, with the checks of `inWorkshop`.
abbrev pub in_workshop : Scope → Outcome → Outcome
in_workshop scope run = elim (require_modules scope (workshop ∷ [])) [
  | some m ↦ refused module_off
  | none ↦
      if not (any_role works_in_the_workshop scope.role)
      then refused forbidden
      else (elim (validate scope) [ some e ↦ refused (bad_scope e) | none ↦ run ])
]

unfoldable pub set_state : ℕ → Scope → Option Job → State → Outcome
unfolding set_state_in_scope
set_state now scope j to =
    if not (roles_valid scope.role)
    then refused forbidden
    else in_workshop scope (set_state_in_scope now scope j to)
