-- ===== src/Channel.antt =====
-- The LINE channels of the backend (backend/linechannels).
pub mod Rotation
