-- ===== src/WorkOrder.antt =====
-- A work order's states and the moves between them, internal/workshop/state.go.
pub mod State
pub mod Job
