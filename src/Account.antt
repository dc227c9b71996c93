-- ===== src/Account.antt =====
-- The accounts of the backend (backend/lineaccounts).
pub mod Targets
