-- ===== src/RichMenu.antt =====
-- The rich menu part of the backend (backend/linerichmenus).
pub mod StateMachine
