-- ===== src/WorkOrder/Job/Examples.antt =====
-- A job of internal/workshop/state.go that is changed.
use free_sms.Common.{◌↔◌, ◌≡◌, ◌≢◌, ◌⊎◌, refl, true, false, none, some, List, [], ◌∷◌}
use free_sms.Common.Int.{pos, negsuc, ◌+ℤ◌}
use free_sms.Common.Text.{codes}
use free_sms.Access.Role.{
  service_advisor, technician, workshop, roles_valid, works_in_the_workshop,
  sees_customer_personal_data, runs_it,
}
use free_sms.Access.Scope.{Scope, validate, is_uuid, require_modules}
use free_sms.WorkOrder.State.{
  declined, in_progress, ready, invoiced, can_transition, may_transition, technician_moves,
}
use free_sms.WorkOrder.Job.{
  write_state, release_reservations, gate, set_state_tx, Job, Movement, reserved, unreserved, done,
  ok, held, ready_gate, set_state, stop_clock,
}
use free_sms.WorkOrder.Job.Allowed.{IsAllowed, set_state-IsAllowed}
use free_sms.WorkOrder.Job.Releases.{IsOver, set_state_tx-held}

abbrev mechanic : Scope
mechanic = record {
  shop_id = codes "8b1f7f0e-2f0c-4c0b-9a7e-0d5f7f1c2a3b";
  user_id = codes "0c9d2e4a-7b1f-4e63-8a55-6f0e1d2c3b4a";
  role = technician ∷ [];
  planner = false;
  modules = workshop ∷ [];
  opened = [];
}

-- A job with a task that is done, and the mechanic's clock running for eleven hours.
abbrev brakes : Job
brakes = record {
  state = in_progress;
  has_customer = true;
  lines = [];
  movements = [];
  entries =
      record {
        user = mechanic.user_id;
        started_at = 0;
        ended_at = none;
        flagged = false;
        note_hours = none;
      }
      ∷ [];
  tasks = record { status = done; line_gone = false } ∷ [];
  outsourced = [];
  final_check = record { required = true; done = true };
  closed_at = none;
}

abbrev brakes_ready : Job
brakes_ready = record brakes {
  state = ready;
  entries =
      record {
        user = mechanic.user_id;
        started_at = 0;
        ended_at = some 39600;
        flagged = true;
        note_hours = some 11;
      }
      ∷ [];
}

brakes_made_ready : set_state 39600 mechanic (some brakes) ready ≡ ok brakes_ready
unfolding set_state roles_valid validate is_uuid works_in_the_workshop runs_it require_modules
    may_transition can_transition technician_moves sees_customer_personal_data gate ready_gate
    set_state_tx write_state stop_clock
brakes_made_ready = refl

set_state-IsAllowed_example :
    ((j' : Job) × (set_state 39600 mechanic (some brakes) ready ≡ ok j') × (j'.state ≡ ready))
    ↔ IsAllowed mechanic brakes ready
set_state-IsAllowed_example = set_state-IsAllowed 39600 mechanic brakes ready

-- Four of part 1 reserved, one of them given back; of part 2, one reserved.
abbrev three_movements : List Movement
three_movements =
    record { part = 1; kind = reserved; quantity = pos 4 }
    ∷ record { part = 2; kind = reserved; quantity = pos 1 }
    ∷ record { part = 1; kind = unreserved; quantity = negsuc 0 }
    ∷ []

three_held : held 1 three_movements ≡ pos 3
unfolding held ◌+ℤ◌
three_held = refl

-- The customer says no to the job, with these parts put aside for it.
abbrev advisor : Scope
advisor = record mechanic { role = service_advisor ∷ [] }

abbrev unwanted : Job
unwanted = record brakes { movements = three_movements }

unwanted_declined :
    set_state 39600 advisor (some unwanted) declined ≡ ok (write_state 39600 unwanted declined)
unfolding set_state roles_valid validate is_uuid works_in_the_workshop runs_it require_modules
    may_transition can_transition sees_customer_personal_data gate set_state_tx write_state
    release_reservations ◌+ℤ◌
unwanted_declined = refl

-- A finished job whose invoice is issued.
abbrev finished : Job
finished = record unwanted { state = ready }

finished_invoiced : set_state_tx 39600 finished invoiced ≡ ok (write_state 39600 finished invoiced)
unfolding set_state_tx can_transition
finished_invoiced = refl

not_invoiced : finished.state ≢ invoiced
not_invoiced e = cc

set_state_tx-held_example :
    (IsOver invoiced × (held 1 (write_state 39600 finished invoiced).movements ≡ pos 0))
    ⊎ ((¬ IsOver invoiced) × ((write_state 39600 finished invoiced).movements ≡ finished.movements))
set_state_tx-held_example =
    set_state_tx-held 39600 finished invoiced (write_state 39600 finished invoiced) 1
      finished_invoiced not_invoiced
