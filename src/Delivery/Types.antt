-- ===== src/Delivery/Types.antt =====
-- backend/delivery/types.py: the values that the delivery code passes around. A UUID is the number
-- that it stands for, a SHA-256 digest the number that its 64 hexadecimal digits write, and an aware
-- datetime the number of microseconds since 1970.
use line_message_playground.Prelude.{
  ℕ, Bool, true, false, ◌&&◌, not, Option, none, some, is_some, is_none, ltb, if◌then◌else◌, [],
  ◌∷◌,
}
use line_message_playground.Prelude.Text.{Text}

abbrev pub Uuid : Type 0
Uuid = ℕ

abbrev pub Digest : Type 0
Digest = ℕ

abbrev pub Time : Type 0
Time = ℕ

pub data TargetMode : Type 0 where
  fixed_user linked_recipient : TargetMode

pub data FriendshipState : Type 0 where
  friend not_friend unknown : FriendshipState

pub data DeliveryStatus : Type 0 where
  processing succeeded failed unknown : DeliveryStatus

pub data ReceiptStatus : Type 0 where
  not_requested pending confirmed expired : ReceiptStatus

pub data TargetUnavailableReason : Type 0 where
  target_not_available channel_inactive recipient_disabled not_friend : TargetUnavailableReason
  friendship_unknown no_deliverable_recipient : TargetUnavailableReason

pub data RejectedPushFailureType : Type 0 where
  invalid_request authentication permission conflict rate_limited : RejectedPushFailureType

pub data UnknownPushFailureType : Type 0 where
  service_unknown timeout_unknown response_unknown : UnknownPushFailureType

pub data PrePushFailureType : Type 0 where
  configuration target_changed : PrePushFailureType

-- The failure types of the three kinds above are among these, under the same texts.
pub data DeliveryFailureType : Type 0 where
  rejected_push : RejectedPushFailureType → DeliveryFailureType
  unknown_push : UnknownPushFailureType → DeliveryFailureType
  pre_push : PrePushFailureType → DeliveryFailureType
  service_unavailable processing_expired storage_unavailable unexpected : DeliveryFailureType

pub data ReceiptRejectionReason : Type 0 where
  unmatched expired target_mismatch not_requested delivery_failed invalid : ReceiptRejectionReason

pub record MessageSnapshot : Type 0 where
  pub subject : Text
  pub body : Text
  pub formatted_text : Text
  pub fingerprint : Digest

pub record LinkedTargetSnapshot : Type 0 where
  pub channel_public_id : Uuid
  pub channel_label : Text
  pub recipient_public_id : Uuid
  pub channel_active : Bool
  pub recipient_enabled : Bool
  pub friendship_state : FriendshipState

pub data TargetSnapshot : Type 0 where
  fixed_target : TargetSnapshot
  linked_target : LinkedTargetSnapshot → TargetSnapshot

abbrev pub is_friend : FriendshipState → Bool
is_friend friend = true
is_friend _ = false

pub record LiveDeliveryTarget : Type 0 where
  pub owner_identity : Uuid
  pub provider_id : Text
  pub snapshot : LinkedTargetSnapshot
  pub revision : Digest
  pub line_subject : Text
  pub delivery_available : Bool

-- The check of `LiveDeliveryTarget.__post_init__` that its field types leave open.
abbrev pub live_target_valid : LiveDeliveryTarget → Bool
live_target_valid t =
    let expected =
      t.snapshot.channel_active
      && t.snapshot.recipient_enabled
      && is_friend t.snapshot.friendship_state in
    if t.delivery_available then expected else not expected

pub record ConfirmationSnapshot : Type 0 where
  pub owner : ℕ
  pub owner_identity : Uuid
  pub channel_public_id : Uuid
  pub recipient_public_id : Uuid
  pub target_revision : Digest
  pub message_fingerprint : Digest
  pub receipt_requested : Bool
  pub receipt_expires_at : Option Time

pub record SubmitLinkedDelivery : Type 0 where
  pub operation_id : Uuid
  pub confirmation : ConfirmationSnapshot
  pub message : MessageSnapshot

pub record ReceiptCommitment : Type 0 where
  pub digest : Digest
  pub expires_at : Time

pub record ReceiptCapabilityCandidate : Type 0 where
  pub capability : Text
  pub commitment : ReceiptCommitment

pub record AcceptedDeliveryCommand : Type 0 where
  pub operation_id : Uuid
  pub owner : ℕ
  pub owner_identity : Uuid
  pub target : LinkedTargetSnapshot
  pub message : MessageSnapshot
  pub request_fingerprint : Digest
  pub receipt_commitment : Option ReceiptCommitment

pub record PushLinkedRecipientCommand : Type 0 where
  pub operation_id : Uuid
  pub access_token : Text
  pub line_subject : Text
  pub text : Text
  pub receipt_capability : Option Text

pub data LinePushResult : Type 0 where
  push_accepted : Option Text → Option Text → LinePushResult
  push_rejected : RejectedPushFailureType → LinePushResult
  push_unknown : UnknownPushFailureType → LinePushResult

pub data AttemptFinalizationResult : Type 0 where
  line_push : LinePushResult → AttemptFinalizationResult
  pre_push_failure : PrePushFailureType → AttemptFinalizationResult

pub record DeliverySnapshot : Type 0 where
  pub operation_id : Uuid
  pub owner : ℕ
  pub owner_identity : Option Uuid
  pub target : TargetSnapshot
  pub message : MessageSnapshot
  pub status : DeliveryStatus
  pub accepted_at : Time
  pub completed_at : Option Time
  pub line_request_id : Option Text
  pub line_accepted_request_id : Option Text
  pub failure : Option DeliveryFailureType
  pub receipt_status : ReceiptStatus
  pub receipt_expires_at : Option Time
  pub receipt_confirmed_at : Option Time
  pub receipt_webhook_event_id : Option Text
  pub processing_expires_at : Option Time

-- A text that is there is not empty.
abbrev pub nonempty_if_some : Option Text → Bool
nonempty_if_some none = true
nonempty_if_some (some []) = false
nonempty_if_some (some (c ∷ s)) = true

abbrev pub is_nonempty : Option Text → Bool
is_nonempty none = false
is_nonempty (some []) = false
is_nonempty (some (c ∷ s)) = true

unfoldable pub validate_receipt_snapshot :
    ReceiptStatus → Option Time → Option Time → Option Text → Bool
validate_receipt_snapshot ReceiptStatus.not_requested expires_at confirmed_at webhook_event_id =
    is_none expires_at && is_none confirmed_at && is_none webhook_event_id
validate_receipt_snapshot ReceiptStatus.confirmed expires_at confirmed_at webhook_event_id =
    is_some expires_at && is_some confirmed_at && is_nonempty webhook_event_id
validate_receipt_snapshot _ expires_at confirmed_at webhook_event_id =
    is_some expires_at && is_none confirmed_at && is_none webhook_event_id

-- The part of the status, completion time and failure.
unfoldable pub validate_completion :
    DeliveryStatus → Option Time → Option DeliveryFailureType → Bool
validate_completion processing completed_at failure = is_none completed_at && is_none failure
validate_completion succeeded completed_at failure = is_some completed_at && is_none failure
validate_completion failed completed_at failure = is_some completed_at && is_some failure
validate_completion DeliveryStatus.unknown completed_at failure =
    is_some completed_at && is_some failure

unfoldable pub validate_owner_identity : TargetSnapshot → Option Uuid → Bool
validate_owner_identity fixed_target owner_identity = true
validate_owner_identity (linked_target t) owner_identity = is_some owner_identity

-- `DeliverySnapshot.__post_init__`: false where it raises.
unfoldable pub delivery_snapshot_valid : DeliverySnapshot → Bool
unfolding validate_receipt_snapshot validate_completion validate_owner_identity
delivery_snapshot_valid s =
    ltb 0 s.owner
    && validate_owner_identity s.target s.owner_identity
    && validate_completion s.status s.completed_at s.failure
    && nonempty_if_some s.line_request_id
    && nonempty_if_some s.line_accepted_request_id
    && validate_receipt_snapshot s.receipt_status s.receipt_expires_at s.receipt_confirmed_at
        s.receipt_webhook_event_id

pub record ConfirmReceiptCommand : Type 0 where
  pub capability_digest : Digest
  pub channel_public_id : Uuid
  pub recipient_public_id : Uuid
  pub occurred_at : Time
  pub webhook_event_id : Text

pub data StorageFailure : Type 0 where
  storage_retryable storage_unavailable : StorageFailure

pub data AttemptAcceptResult : Type 0 where
  attempt_accepted : ℕ → DeliverySnapshot → AttemptAcceptResult
  existing_attempt : DeliverySnapshot → AttemptAcceptResult
  attempt_conflict attempt_target_unavailable : AttemptAcceptResult
  attempt_storage_failed : StorageFailure → AttemptAcceptResult

pub data ReceiptResult : Type 0 where
  receipt_recorded receipt_unchanged : DeliverySnapshot → ReceiptResult
  receipt_rejected : ReceiptRejectionReason → ReceiptResult

-- What the code raises.
pub data Raised : Type 0 where
  value_error integrity_error does_not_exist database_error : Raised
  message_blank_subject message_blank_body message_too_long message_invalid_unicode : Raised
