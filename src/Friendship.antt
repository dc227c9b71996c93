-- ===== src/Friendship.antt =====
-- backend/linefriendships: the friendship of a recipient with a channel, as follow and unfollow events
-- report it.
pub mod Projection
pub mod Order
pub mod Examples
