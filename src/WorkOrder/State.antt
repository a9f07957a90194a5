-- ===== src/WorkOrder/State.antt =====
-- The state machine of internal/workshop/state.go, and whose move is whose.
mod Examples
pub mod Moves
use free_sms.Common.{Bool, true, false, not, ◌&&◌, ◌||◌, List, [], ◌∷◌, ◌++◌, if◌then◌else◌}
use free_sms.Common.Text.{Text, codes}
use free_sms.Access.Role.{Roles, technician, of, any_role, has_role, sees_customer_personal_data}

pub data State : Type 0 where
  draft estimated awaiting_approval approved in_progress awaiting_parts : State
  ready invoiced closed declined cancelled : State

unfoldable pub transitions : State → List State
transitions draft = estimated ∷ cancelled ∷ []
transitions estimated = awaiting_approval ∷ draft ∷ cancelled ∷ []
transitions awaiting_approval = approved ∷ declined ∷ estimated ∷ cancelled ∷ []
transitions approved = in_progress ∷ awaiting_parts ∷ declined ∷ cancelled ∷ []
transitions in_progress = awaiting_parts ∷ ready ∷ declined ∷ []
transitions awaiting_parts = in_progress ∷ ready ∷ declined ∷ []
transitions ready = invoiced ∷ in_progress ∷ []
transitions invoiced = closed ∷ []
transitions declined = invoiced ∷ cancelled ∷ []
transitions closed = []
transitions cancelled = []

-- `==` on two states.
abbrev pub same_state : State → State → Bool
same_state draft draft = true
same_state estimated estimated = true
same_state awaiting_approval awaiting_approval = true
same_state approved approved = true
same_state in_progress in_progress = true
same_state awaiting_parts awaiting_parts = true
same_state ready ready = true
same_state invoiced invoiced = true
same_state closed closed = true
same_state declined declined = true
same_state cancelled cancelled = true
same_state _ _ = false

-- The words for a state, and for the move into it.
unfoldable pub label : State → Text
label draft = codes "Being written up"
label estimated = codes "Priced, not sent"
label awaiting_approval = codes "Waiting for the customer"
label approved = codes "Approved, not started"
label in_progress = codes "Being worked on"
label awaiting_parts = codes "Waiting for parts"
label ready = codes "Ready for collection"
label invoiced = codes "Invoiced"
label closed = codes "Closed"
label declined = codes "Declined"
label cancelled = codes "Cancelled"

unfoldable pub action : State → Text
action draft = codes "Put it back to a draft"
action estimated = codes "Price it"
action awaiting_approval = codes "Ask the customer"
action approved = codes "Mark it approved"
action in_progress = codes "Start work"
action awaiting_parts = codes "Park it for parts"
action ready = codes "It is ready"
action invoiced = codes "Invoice it"
action closed = codes "Close it"
action declined = codes "The customer said no"
action cancelled = codes "Cancel it"

-- Whether a clock may run.
unfoldable pub accepts_work : State → Bool
accepts_work invoiced = false
accepts_work closed = false
accepts_work cancelled = false
accepts_work s = true

-- The moves of the person who holds the spanner.
unfoldable pub technician_moves : State → List State
technician_moves approved = in_progress ∷ []
technician_moves in_progress = awaiting_parts ∷ ready ∷ []
technician_moves awaiting_parts = in_progress ∷ []
technician_moves ready = in_progress ∷ []
technician_moves s = []

abbrev pub contains_state : List State → State → Bool
contains_state [] s = false
contains_state (t ∷ ts) s = same_state t s || contains_state ts s

unfoldable pub can_transition : State → State → Bool
unfolding transitions
can_transition from to = contains_state (transitions from) to

unfoldable pub may_transition : Roles → State → State → Bool
unfolding technician_moves
may_transition role from to =
    if not (can_transition from to)
    then false
    else if any_role sees_customer_personal_data role
    then true
    else has_role role technician && contains_state (technician_moves from) to

-- The loop of `AvailableStates`.
abbrev pub available : Bool → List State → List State
available has_work [] = []
available has_work (s ∷ ss) =
    if same_state s invoiced || (same_state s cancelled && has_work)
    then available has_work ss
    else s ∷ available has_work ss

unfoldable pub available_states : State → Bool → List State
unfolding transitions
available_states from has_work = available has_work (transitions from)

abbrev pub may_move : State → List State → List State
may_move from [] = []
may_move from (s ∷ ss) =
    if may_transition (of technician []) from s then s ∷ may_move from ss else may_move from ss

unfoldable pub technician_states : State → Bool → List State
unfolding available_states
technician_states from has_work = may_move from (available_states from has_work)
