-- ===== src/Delivery/Row.antt =====
-- backend/delivery/repositories.py, what its methods read and write in one row: the snapshot's
-- fields, the conditions of queries and the values of updates.
use line_message_playground.Prelude.{
  ℕ, ◌+◌, Bool, true, false, ◌&&◌, ◌||◌, not, Option, none, some, is_some, is_none, ◌∷◌, ◌==◌, ltb,
  leb, if◌then◌else◌, Result, ok, err,
}
use line_message_playground.Prelude.Text.{Text}
use line_message_playground.Delivery.Types.{
  Uuid, Digest, Time, TargetMode, fixed_user, linked_recipient, FriendshipState, DeliveryStatus,
  processing, succeeded, failed, ReceiptStatus, pending, confirmed, rejected_push, unknown_push,
  pre_push, processing_expired, ReceiptRejectionReason, target_mismatch, delivery_failed,
  MessageSnapshot, LinkedTargetSnapshot, TargetSnapshot, fixed_target, linked_target,
  ReceiptCommitment, AcceptedDeliveryCommand, push_accepted, push_rejected, push_unknown,
  AttemptFinalizationResult, line_push, pre_push_failure, DeliverySnapshot, delivery_snapshot_valid,
  ConfirmReceiptCommand, StorageFailure, AttemptAcceptResult, attempt_accepted, existing_attempt,
  ReceiptResult, receipt_recorded, receipt_unchanged, Raised, value_error,
}
use line_message_playground.Delivery.Store.{Attempt, AttemptDb, is_processing, column_eq}

-- 30 seconds, in microseconds.
abbrev pub processing_timeout : Time
processing_timeout = 30000000

-- The columns of a linked target; a missing one, or an empty label, raises.
unfoldable pub linked_columns :
    Option Uuid
    → Option Text
    → Option Uuid
    → Option Bool
    → Option Bool
    → Option FriendshipState
    → Option LinkedTargetSnapshot
linked_columns (some c) (some (x ∷ label)) (some r) (some active) (some enabled) (some state) =
    some (record {
      channel_public_id = c;
      channel_label = x ∷ label;
      recipient_public_id = r;
      channel_active = active;
      recipient_enabled = enabled;
      friendship_state = state;
    })
linked_columns _ _ _ _ _ _ = none

unfoldable pub snapshot_target : Attempt → Option TargetSnapshot
unfolding linked_columns
snapshot_target a = elim a.target_mode [
  | fixed_user ↦ some fixed_target
  | linked_recipient ↦
      (elim (linked_columns a.channel_public_id a.channel_label_snapshot a.recipient_public_id
        a.channel_active_snapshot a.recipient_enabled_snapshot a.friendship_state_snapshot) [
          | none ↦ none
          | some t ↦ some (linked_target t)
        ])
]

abbrev pub expired_by : Option Time → Time → Bool
expired_by none now = false
expired_by (some expires_at) now = leb expires_at now

unfoldable pub receipt_status_of : Attempt → Time → ReceiptStatus
receipt_status_of a now =
    if a.receipt_requested
    then (if is_some a.receipt_confirmed_at
        then confirmed
        else if expired_by a.receipt_expires_at now
        then ReceiptStatus.expired
        else pending)
    else ReceiptStatus.not_requested

-- The fields of the snapshot, before its own check.
unfoldable pub snapshot_fields :
    Attempt → Time → TargetSnapshot → MessageSnapshot → DeliverySnapshot
unfolding receipt_status_of
snapshot_fields a now target message = record {
  operation_id = a.operation_id;
  owner = a.owner_principal_slot;
  owner_identity = a.owner_identity_public_id;
  target = target;
  message = record message { formatted_text = a.formatted_text };
  status = a.status;
  accepted_at = a.accepted_at;
  completed_at = a.completed_at;
  line_request_id = a.line_request_id;
  line_accepted_request_id = a.line_accepted_request_id;
  failure = a.failure_type;
  receipt_status = receipt_status_of a now;
  receipt_expires_at = a.receipt_expires_at;
  receipt_confirmed_at = a.receipt_confirmed_at;
  receipt_webhook_event_id = a.receipt_webhook_event_id;
  processing_expires_at = some a.processing_expires_at;
}

-- The columns that `finalize` sets, and their values.
unfoldable pub terminal_values : AttemptFinalizationResult → Time → Attempt → Attempt
terminal_values (line_push (push_accepted request_id accepted_request_id)) completed_at a =
    record a {
      active_request_fingerprint = none;
      completed_at = some completed_at;
      status = succeeded;
      sent_at = some completed_at;
      line_request_id = request_id;
      line_accepted_request_id = accepted_request_id;
    }
terminal_values (line_push (push_rejected failure)) completed_at a = record a {
  active_request_fingerprint = none;
  completed_at = some completed_at;
  status = failed;
  failure_type = some (rejected_push failure);
  failed_at = some completed_at;
}
terminal_values (line_push (push_unknown failure)) completed_at a = record a {
  active_request_fingerprint = none;
  completed_at = some completed_at;
  status = DeliveryStatus.unknown;
  failure_type = some (unknown_push failure);
  failed_at = some completed_at;
}
terminal_values (pre_push_failure failure) completed_at a = record a {
  active_request_fingerprint = none;
  completed_at = some completed_at;
  status = failed;
  failure_type = some (pre_push failure);
  failed_at = some completed_at;
}

-- The columns that an expiry sets.
unfoldable pub expired_values : Time → Attempt → Attempt
expired_values now a = record a {
  status = DeliveryStatus.unknown;
  failure_type = some processing_expired;
  active_request_fingerprint = none;
  failed_at = some now;
  completed_at = some now;
}

-- The columns that a confirmed receipt sets.
unfoldable pub receipt_values : ConfirmReceiptCommand → Attempt → Attempt
receipt_values command a = record a {
  receipt_confirmed_at = some command.occurred_at;
  receipt_webhook_event_id = some command.webhook_event_id;
}

-- A processing attempt whose time is over.
abbrev pub overdue : Time → Attempt → Bool
overdue now a = is_processing a.status && leb a.processing_expires_at now

abbrev pub may_have_been_delivered : DeliveryStatus → Bool
may_have_been_delivered failed = false
may_have_been_delivered _ = true

abbrev pub occurred_before : Time → Option Time → Bool
occurred_before occurred_at none = false
occurred_before occurred_at (some expires_at) = ltb occurred_at expires_at

-- The condition of the update that records a receipt.
unfoldable pub receipt_open : ConfirmReceiptCommand → Attempt → Bool
receipt_open command a =
    column_eq a.receipt_token_digest (some command.capability_digest)
    && column_eq a.channel_public_id (some command.channel_public_id)
    && column_eq a.recipient_public_id (some command.recipient_public_id)
    && a.receipt_requested
    && occurred_before command.occurred_at a.receipt_expires_at
    && may_have_been_delivered a.status
    && is_none a.receipt_confirmed_at
    && is_none a.receipt_webhook_event_id

abbrev pub is_linked : TargetMode → Bool
is_linked linked_recipient = true
is_linked fixed_user = false

-- The answer of `_classify_receipt`, with a mark in place of the snapshot.
pub data Classified : Type 0 where
  refused : ReceiptRejectionReason → Classified
  already_confirmed : Classified
  undecided : Classified

unfoldable pub classify_receipt : Attempt → ConfirmReceiptCommand → Classified
classify_receipt a command =
    if not (is_linked a.target_mode)
      || not (column_eq a.channel_public_id (some command.channel_public_id))
      || not (column_eq a.recipient_public_id (some command.recipient_public_id))
    then refused target_mismatch
    else if not a.receipt_requested
    then refused ReceiptRejectionReason.not_requested
    else if is_some a.receipt_confirmed_at
    then already_confirmed
    else if not (occurred_before command.occurred_at a.receipt_expires_at)
    then refused ReceiptRejectionReason.expired
    else if may_have_been_delivered a.status
    then undecided
    else refused delivery_failed

pub data FenceStatus : Type 0 where
  locked channel_not_found : FenceStatus
  fence_failed : StorageFailure → FenceStatus

abbrev pub commitment_expiry : Option ReceiptCommitment → Option Time
commitment_expiry none = none
commitment_expiry (some c) = some c.expires_at

abbrev pub commitment_digest : Option ReceiptCommitment → Option Digest
commitment_digest none = none
commitment_digest (some c) = some c.digest

-- The row that `accept` creates.
unfoldable pub new_attempt : AcceptedDeliveryCommand → Time → Attempt
new_attempt command accepted_at = record {
  pk = 0;
  operation_id = command.operation_id;
  subject = command.message.subject;
  body = command.message.body;
  formatted_text = command.message.formatted_text;
  request_fingerprint = command.request_fingerprint;
  active_request_fingerprint = some command.request_fingerprint;
  target_mode = linked_recipient;
  owner_principal_slot = command.owner;
  owner_identity_public_id = some command.owner_identity;
  channel_public_id = some command.target.channel_public_id;
  channel_label_snapshot = some command.target.channel_label;
  recipient_public_id = some command.target.recipient_public_id;
  channel_active_snapshot = some command.target.channel_active;
  recipient_enabled_snapshot = some command.target.recipient_enabled;
  friendship_state_snapshot = some command.target.friendship_state;
  status = processing;
  failure_type = none;
  line_request_id = none;
  line_accepted_request_id = none;
  accepted_at = accepted_at;
  processing_expires_at = accepted_at + processing_timeout;
  sent_at = none;
  failed_at = none;
  completed_at = none;
  receipt_requested = is_some command.receipt_commitment;
  receipt_expires_at = commitment_expiry command.receipt_commitment;
  receipt_token_digest = commitment_digest command.receipt_commitment;
  receipt_confirmed_at = none;
  receipt_webhook_event_id = none;
}

-- The snapshot of a target and a message, where neither raised and its own check passes.
abbrev pub present :
    Attempt
    → Time
    → Option TargetSnapshot
    → Result Raised MessageSnapshot
    → Result Raised DeliverySnapshot
present a now none message = err value_error
present a now (some target) (err e) = err e
present a now (some target) (ok message) =
    let s = snapshot_fields a now target message in
    if delivery_snapshot_valid s then ok s else err value_error

-- `pk=...`
abbrev pub has_pk : ℕ → Attempt → Bool
has_pk k a = a.pk == k

-- The rows that `finalize` ends.
abbrev pub unfinished : ℕ → Attempt → Bool
unfinished k a = a.pk == k && is_processing a.status

-- The rows of one operation of one owner.
abbrev pub owned : ℕ → Uuid → Attempt → Bool
owned slot operation_id a = a.owner_principal_slot == slot && a.operation_id == operation_id

-- The row of one operation of one owner, if it is overdue.
abbrev pub overdue_row : ℕ → ℕ → Uuid → Time → Attempt → Bool
overdue_row k slot operation_id now a = a.pk == k && (owned slot operation_id a && overdue now a)

-- The row that may still take a receipt.
abbrev pub awaiting : ℕ → ConfirmReceiptCommand → Attempt → Bool
awaiting k command a = a.pk == k && receipt_open command a

-- The rows of a receipt token.
abbrev pub has_token : Digest → Attempt → Bool
has_token digest a = column_eq a.receipt_token_digest (some digest)

abbrev pub lift_some : Result Raised DeliverySnapshot → Result Raised (Option DeliverySnapshot)
lift_some (ok s) = ok (some s)
lift_some (err e) = err e

abbrev pub found :
    Result Raised DeliverySnapshot × AttemptDb → Result Raised (Option DeliverySnapshot) × AttemptDb
found (r, db) = (lift_some r, db)

abbrev pub unchanged_if_ok : Result Raised DeliverySnapshot → Result Raised ReceiptResult
unchanged_if_ok (ok s) = ok (receipt_unchanged s)
unchanged_if_ok (err e) = err e

abbrev pub recorded_if_ok : Result Raised DeliverySnapshot → Result Raised ReceiptResult
recorded_if_ok (ok s) = ok (receipt_recorded s)
recorded_if_ok (err e) = err e

abbrev pub existing_if_ok : Result Raised DeliverySnapshot → Result Raised AttemptAcceptResult
existing_if_ok (ok s) = ok (existing_attempt s)
existing_if_ok (err e) = err e

abbrev pub accepted_if_ok : ℕ → Result Raised DeliverySnapshot → Result Raised AttemptAcceptResult
accepted_if_ok pk (ok s) = ok (attempt_accepted pk s)
accepted_if_ok pk (err e) = err e

abbrev pub of_operation : AcceptedDeliveryCommand → Attempt → Bool
of_operation command a = a.operation_id == command.operation_id

abbrev pub of_request : AcceptedDeliveryCommand → Attempt → Bool
of_request command a = column_eq a.active_request_fingerprint (some command.request_fingerprint)
