-- ===== src/Delivery.antt =====
-- The delivery part of the backend (backend/delivery).
pub mod Types
pub mod Formatter
pub mod Fingerprint
pub mod Store
pub mod Row
pub mod Repository
pub mod Receipt
pub mod Confirmation
pub mod Gateway
pub mod Service
pub mod Data
pub mod Examples
