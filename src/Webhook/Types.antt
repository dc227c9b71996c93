-- ===== src/Webhook/Types.antt =====
-- backend/linewebhooks/types.py and the table of backend/linewebhooks/models.py. Times of the monotonic clock are in microseconds. A JSON object is
-- its fields.
use line_message_playground.Prelude.{
  ℕ, Bool, true, false, ◌&&◌, Option, none, some, ltb, leb, if◌then◌else◌, Result, ok, err,
}
use line_message_playground.Prelude.Text.{Text}
use line_message_playground.Webhook.Json.{Fields}

pub record VerifiedEventData : Type 0 where
  pub webhook_event_id : Text
  pub event_type : Text
  pub occurred_at_ms : ℕ
  pub is_redelivery : Bool
  pub event : Fields

pub record VerifiedWebhookEvent : Type 0 where
  pub channel_public_id : ℕ
  pub webhook_event_id : Text
  pub event_type : Text
  pub occurred_at_ms : ℕ
  pub is_redelivery : Bool
  pub event_data : Fields

pub data HandlerOutcome : Type 0 where
  handler_succeeded handler_failed : HandlerOutcome

pub data HandlerExecutionProfile : Type 0 where
  local deadline_managed_external : HandlerExecutionProfile

pub record HandlerExecutionContext : Type 0 where
  pub response_deadline_monotonic : ℕ
  pub dispatch_index : ℕ
  pub remaining_dispatch_count : ℕ
  pub external_io_deadline_monotonic : Option ℕ

pub data ValueError : Type 0 where
  invalid_response_deadline invalid_dispatch_index invalid_remaining_dispatch_count
        invalid_external_io_deadline :
      ValueError

abbrev pub valid_cutoff : Option ℕ → ℕ → Bool
valid_cutoff none deadline = true
valid_cutoff (some cutoff) deadline = ltb 0 cutoff && leb cutoff deadline

-- `HandlerExecutionContext(...)` with its `__post_init__`.
unfoldable pub make_context : ℕ → ℕ → ℕ → Option ℕ → Result ValueError HandlerExecutionContext
make_context deadline index remaining cutoff =
    if leb deadline 0
    then err invalid_response_deadline
    else if ltb 9 index
    then err invalid_dispatch_index
    else if ltb 9 remaining
    then err invalid_remaining_dispatch_count
    else if valid_cutoff cutoff deadline
    then ok (record {
      response_deadline_monotonic = deadline;
      dispatch_index = index;
      remaining_dispatch_count = remaining;
      external_io_deadline_monotonic = cutoff;
    })
    else err invalid_external_io_deadline

pub record HandlerRegistration : Type 0 where
  pub event_type : Text
  pub handler : ℕ
  pub execution_profile : HandlerExecutionProfile

-- What the registry answers: a registration, nothing, or an object that is none.
pub data Resolved : Type 0 where
  registered : HandlerRegistration → Resolved
  not_registered other_object : Resolved

pub data ReceiptStatus : Type 0 where
  processing processed failed unsupported : ReceiptStatus

pub data FailureCode : Type 0 where
  code_handler_failed code_dispatch_deadline_exceeded : FailureCode

pub record ReceiptCandidate : Type 0 where
  pub channel_public_id : ℕ
  pub webhook_event_id : Text
  pub event_type : Text
  pub occurred_at_ms : ℕ
  pub is_redelivery : Bool
  pub initial_status : ReceiptStatus

pub record ReceiptDecision : Type 0 where
  pub receipt_id : ℕ
  pub webhook_event_id : Text
  pub status : ReceiptStatus
  pub created : Bool

pub data AuditOutcome : Type 0 where
  channel_rejected signature_rejected payload_rejected empty_accepted event_accepted event_duplicate
        event_unsupported audit_handler_processed audit_handler_failed dispatch_deadline_exceeded
        storage_unavailable response_deadline_exceeded :
      AuditOutcome

-- A row of `linewebhooks_event_receipt`.
pub record WebhookEventReceipt : Type 0 where
  pub pk : ℕ
  pub webhook_event_id : Text
  pub channel_public_id : ℕ
  pub event_type : Text
  pub occurred_at_ms : ℕ
  pub is_redelivery : Bool
  pub status : ReceiptStatus
  pub failure_code : Option FailureCode
  pub completed_at : Option ℕ
  pub updated_at : ℕ

-- `linewh_receipt_status_consistent`
abbrev pub status_consistent : ReceiptStatus → Option ℕ → Option FailureCode → Bool
status_consistent processing none none = true
status_consistent processed (some t) none = true
status_consistent unsupported (some t) none = true
status_consistent failed (some t) (some c) = true
status_consistent _ _ _ = false

abbrev pub is_processing : ReceiptStatus → Bool
is_processing processing = true
is_processing _ = false

abbrev pub is_unsupported : ReceiptStatus → Bool
is_unsupported unsupported = true
is_unsupported _ = false
