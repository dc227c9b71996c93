-- ===== src/TextLab.antt =====
-- The text judgement lab of the backend (backend/textjudgmentlab).
pub mod Limits
