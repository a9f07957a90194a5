-- ===== src/Access.antt =====
-- Package access, internal/access/access.go: who is asking, and what they may be shown.
mod Examples
pub mod Role
pub mod Scope
pub mod Laws
pub mod Shown
