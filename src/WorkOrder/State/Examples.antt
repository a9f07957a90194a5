-- ===== src/WorkOrder/State/Examples.antt =====
-- Moves of internal/workshop/state.go at concrete states.
use free_sms.Common.{◌≡◌, refl, false, [], ◌∷◌}
use free_sms.Access.Role.{sees_customer_personal_data, runs_it, of}
use free_sms.WorkOrder.State.{
  in_progress, awaiting_parts, ready, invoiced, closed, can_transition, technician_moves,
  may_transition, technician_states,
}
use free_sms.WorkOrder.State.Moves.{here, move, IsBilled, CanEnd, Reach-IsBilled, can_end}

technician_offered : technician_states in_progress false ≡ awaiting_parts ∷ ready ∷ []
unfolding technician_states may_transition can_transition technician_moves
    sees_customer_personal_data runs_it of
technician_offered = refl

Reach-IsBilled_example : IsBilled closed
unfolding can_transition
Reach-IsBilled_example = Reach-IsBilled {s = invoiced} {t = closed} refl (move here refl)

can_end_example : CanEnd awaiting_parts
can_end_example = can_end awaiting_parts
