-- ===== src/Webhook.antt =====
-- backend/linewebhooks: LINE's webhook requests, their receipts and the dispatch to handlers.
pub mod Json
pub mod Types
pub mod Verification
pub mod Receipts
pub mod Dispatch
pub mod Examples
