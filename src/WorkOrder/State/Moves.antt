-- ===== src/WorkOrder/State/Moves.antt =====
-- What the moves of internal/workshop/state.go can and cannot do to an order.
use free_sms.Common.{◌≡◌, ◌⊎◌, inl, inr, refl, true, ◌||◌, arith}
use free_sms.WorkOrder.State.{
  State, draft, estimated, awaiting_approval, approved, in_progress, awaiting_parts, ready,
  invoiced, closed, declined, cancelled, same_state, can_transition,
}

-- A sequence of legal moves.
pub data Reach (s : State) : State → Type 0 where
  here : Reach s s
  move : {t u : State} → Reach s t → can_transition t u ≡ true → Reach s u

-- What an invoiced order may be: it stays invoiced or is closed.
abbrev pub IsBilled : State → Type 0
IsBilled s = (same_state s invoiced || same_state s closed) ≡ true

step-IsBilled : (t u : State) → IsBilled t → can_transition t u ≡ true → IsBilled u
unfolding can_transition
step-IsBilled invoiced u h e = ground arith
step-IsBilled closed u h e = cc
step-IsBilled draft u h e = cc
step-IsBilled estimated u h e = cc
step-IsBilled awaiting_approval u h e = cc
step-IsBilled approved u h e = cc
step-IsBilled in_progress u h e = cc
step-IsBilled awaiting_parts u h e = cc
step-IsBilled ready u h e = cc
step-IsBilled declined u h e = cc
step-IsBilled cancelled u h e = cc

-- Once billed, an order is never anything but invoiced or closed, whatever moves are made.
pub Reach-IsBilled : {s t : State} → IsBilled s → Reach s t → IsBilled t
Reach-IsBilled h here = h
Reach-IsBilled h (move {t = t} {u = u} r e) = step-IsBilled t u (Reach-IsBilled h r) e

-- How an order may end.
abbrev pub CanEnd : State → Type 0
CanEnd s = Reach s closed ⊎ Reach s cancelled

-- From every state there are legal moves that end in closed, or in cancelled.
pub can_end : (s : State) → CanEnd s
unfolding can_transition
can_end draft = inr (move here refl)
can_end estimated = inr (move here refl)
can_end awaiting_approval = inr (move here refl)
can_end approved = inr (move here refl)
can_end in_progress = inl (move {t = invoiced} (move {t = ready} (move here refl) refl) refl)
can_end awaiting_parts = inl (move {t = invoiced} (move {t = ready} (move here refl) refl) refl)
can_end ready = inl (move {t = invoiced} (move here refl) refl)
can_end invoiced = inl (move here refl)
can_end closed = inl here
can_end declined = inr (move here refl)
can_end cancelled = inr here
