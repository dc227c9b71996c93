-- ===== src/Friendship/Projection.antt =====
-- backend/linefriendships/services.py and the projection of backend/linefriendships/types.py: which
-- event changes the stored state. Milliseconds and LINE's event ids are as the event carries them.
use line_message_playground.Prelude.{
  ℕ, ◌/◌, Bool, true, false, Option, none, some, List, [], ◌∷◌, ◌==◌, ltb, leb, if◌then◌else◌,
}
use line_message_playground.Prelude.Text.{Text, text_eq}

pub data FriendshipState : Type 0 where
  friend not_friend : FriendshipState

pub data StoredFriendshipState : Type 0 where
  known : FriendshipState → StoredFriendshipState
  unknown : StoredFriendshipState

pub data FriendshipEventType : Type 0 where
  follow unfollow : FriendshipEventType

pub data ProjectionOutcome : Type 0 where
  applied state_maintained stale duplicate unlinked unresolvable out_of_scope invalid :
      ProjectionOutcome

pub record ValidatedFriendshipEvent : Type 0 where
  pub channel_public_id : ℕ
  pub webhook_event_id : Text
  pub event_type : FriendshipEventType
  pub occurred_at_ms : ℕ
  pub line_subject : Text
  pub target_state : FriendshipState
  pub is_unblocked : Option Bool

-- The last event that was applied: its time and its id, which form a pair or are both missing.
pub record LockedRecipientProjection : Type 0 where
  pub recipient_public_id : ℕ
  pub registered_at : ℕ
  pub friendship_state : StoredFriendshipState
  pub last : Option (ℕ × Text)

-- The order of `bytes`: lexicographic.
abbrev pub bytes_lt : Text → Text → Bool
bytes_lt [] [] = false
bytes_lt [] (b ∷ t) = true
bytes_lt (a ∷ s) [] = false
bytes_lt (a ∷ s) (b ∷ t) = if a == b then bytes_lt s t else ltb a b

-- The order of pairs of a time and an id: `event_key <= last_key`.
abbrev pub key_lt : ℕ × Text → ℕ × Text → Bool
key_lt (m, s) (n, t) = if m == n then bytes_lt s t else ltb m n

abbrev pub key_le : ℕ × Text → ℕ × Text → Bool
key_le a b = if key_lt b a then false else true

abbrev pub event_key : ValidatedFriendshipEvent → ℕ × Text
event_key e = (e.occurred_at_ms, e.webhook_event_id)

abbrev pub same_state : StoredFriendshipState → FriendshipState → Bool
same_state (known friend) friend = true
same_state (known not_friend) not_friend = true
same_state _ _ = false

abbrev pub is_last : Option (ℕ × Text) → Text → Bool
is_last none id = false
is_last (some (ms, last_id)) id = text_eq last_id id

abbrev pub not_after_last : Option (ℕ × Text) → ℕ × Text → Bool
not_after_last none key = false
not_after_last (some last) key = key_le key last

-- `registered_at` in microseconds; `math.floor(registered_at.timestamp() * 1000)` in milliseconds.
unfoldable pub decide_projection :
    LockedRecipientProjection → ValidatedFriendshipEvent → ProjectionOutcome
decide_projection target event =
    if leb event.occurred_at_ms (target.registered_at / 1000)
    then stale
    else if is_last target.last event.webhook_event_id
    then duplicate
    else if not_after_last target.last (event_key event)
    then stale
    else if same_state target.friendship_state event.target_state
    then state_maintained
    else applied

abbrev pub updates : ProjectionOutcome → Bool
updates applied = true
updates state_maintained = true
updates _ = false

-- `apply_locked`: the state and the order fields are written together.
unfoldable pub apply_locked :
    LockedRecipientProjection → ValidatedFriendshipEvent → LockedRecipientProjection
apply_locked target event = record target {
  friendship_state = known event.target_state;
  last = some (event_key event);
}

-- The part of the handler under the lock: the outcome that is recorded, and the row after it.
unfoldable pub project :
    LockedRecipientProjection
    → ValidatedFriendshipEvent
    → ProjectionOutcome × LockedRecipientProjection
unfolding decide_projection apply_locked
project target event =
    let outcome = decide_projection target event in
    (outcome, if updates outcome then apply_locked target event else target)

-- An audit record, and what the handler works on: the recipient's row, if there is one, and the log.
pub record FriendshipAuditRecord : Type 0 where
  pub channel_public_id : ℕ
  pub webhook_event_id : Text
  pub event_type : FriendshipEventType
  pub occurred_at_ms : ℕ
  pub outcome : ProjectionOutcome
  pub is_unblocked : Option Bool

pub record SyncState : Type 0 where
  pub target : Option LockedRecipientProjection
  pub audits : List FriendshipAuditRecord

pub data ParseResult : Type 0 where
  invalid_event out_of_scope_source : ParseResult
  validated : ValidatedFriendshipEvent → ParseResult

pub data HandlerOutcome : Type 0 where
  handler_succeeded handler_failed : HandlerOutcome

abbrev pub audit_of : ValidatedFriendshipEvent → ProjectionOutcome → FriendshipAuditRecord
audit_of event outcome = record {
  channel_public_id = event.channel_public_id;
  webhook_event_id = event.webhook_event_id;
  event_type = event.event_type;
  occurred_at_ms = event.occurred_at_ms;
  outcome = outcome;
  is_unblocked = event.is_unblocked;
}

-- The transaction of a validated event on a known channel.
abbrev pub in_transaction : ValidatedFriendshipEvent → SyncState → SyncState
in_transaction event s = elim s.target [
  | none ↦ record s { audits = audit_of event unlinked ∷ s.audits }
  | some t ↦
      let (outcome, t') = project t event in
      record { target = some t'; audits = audit_of event outcome ∷ s.audits }
]

-- The event as the webhook delivers it, before the parser.
pub record RawEvent : Type 0 where
  pub channel_public_id : ℕ
  pub webhook_event_id : Text
  pub event_type : FriendshipEventType
  pub occurred_at_ms : ℕ

-- `_record_non_update`
abbrev pub record_non_update : RawEvent → ProjectionOutcome → SyncState → SyncState
record_non_update event outcome s = record s {
  audits =
      record {
        channel_public_id = event.channel_public_id;
        webhook_event_id = event.webhook_event_id;
        event_type = event.event_type;
        occurred_at_ms = event.occurred_at_ms;
        outcome = outcome;
        is_unblocked = none;
      }
      ∷ s.audits;
}

-- `DefaultFriendshipSyncService.handle`. The first flag says whether the channel is known, the second
-- whether the audit log and the locked rows can be written: what raises inside is rolled back and
-- answered by a failure.
unfoldable pub handle :
    RawEvent → ParseResult → Bool → Bool → SyncState → HandlerOutcome × SyncState
unfolding project
handle event parsed known_channel false s = (handler_failed, s)
handle event invalid_event known_channel true s =
    (handler_succeeded, record_non_update event invalid s)
handle event out_of_scope_source known_channel true s =
    (handler_succeeded, record_non_update event out_of_scope s)
handle event (validated parsed) false true s =
    (handler_succeeded, record s { audits = audit_of parsed unresolvable ∷ s.audits })
handle event (validated parsed) true true s = (handler_succeeded, in_transaction parsed s)
