-- ===== src/Interaction.antt =====
-- backend/lineinteractions: messages and postbacks of linked users.
pub mod Types
pub mod Parsing
pub mod Audit
pub mod Registry
pub mod Service
pub mod Examples
