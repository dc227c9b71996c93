-- ===== src/Friendship/Examples.antt =====
-- The order theorem at two events.
use line_message_playground.Prelude.{◌≡◌, refl, false, some, none, [], ◌∷◌, ◌==◌, if◌then◌else◌}
use line_message_playground.Prelude.Text.{codes, text_eq}
use line_message_playground.Friendship.Projection.{
  friend, not_friend, unknown, follow, unfollow, ValidatedFriendshipEvent,
  LockedRecipientProjection,
}
use line_message_playground.Friendship.Order.{process, process_order}
use mathlib.Core.List.{Permᴰ}

abbrev followed : ValidatedFriendshipEvent
followed = record {
  channel_public_id = 1;
  webhook_event_id = codes "A";
  event_type = follow;
  occurred_at_ms = 2000;
  line_subject = codes "U1";
  target_state = friend;
  is_unblocked = some false;
}

abbrev blocked : ValidatedFriendshipEvent
blocked = record {
  channel_public_id = 1;
  webhook_event_id = codes "B";
  event_type = unfollow;
  occurred_at_ms = 3000;
  line_subject = codes "U1";
  target_state = not_friend;
  is_unblocked = none;
}

abbrev recipient : LockedRecipientProjection
recipient = record {
  recipient_public_id = 7;
  registered_at = 1000000;
  friendship_state = unknown;
  last = none;
}

process_order_example :
    process recipient (followed ∷ blocked ∷ []) ≡ process recipient (blocked ∷ followed ∷ [])
process_order_example =
    process_order (λ id. if text_eq id (codes "A") then 2000 else 3000)
      (λ k. if k.0 == 2000 then friend else not_friend) recipient (followed ∷ blocked ∷ [])
      (blocked ∷ followed ∷ [])
      (record { time = refl; state = refl }, (record { time = refl; state = refl }, tt)) tt
      (Permᴰ.swap refl refl)
