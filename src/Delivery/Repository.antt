-- ===== src/Delivery/Repository.antt =====
-- backend/delivery/repositories.py: the repository of delivery attempts. A method is a function of
-- the table that returns its result, or what it raises, and the table after it. `others` stands for
-- what other requests commit while a method runs: at 0 between its first read and its write, at 1
-- between the write, done or refused, and the next read, and at 2 before the last read of `accept`.
-- The clock's readings are arguments, in the order of the calls.
pub mod Constraints
pub mod Writes
pub mod Finalize
pub mod Snapshot
pub mod Keys
pub mod Receipts
pub mod Receipted
pub mod Accept
pub mod Stored
pub mod Expiry
pub mod Operations
pub mod Invariant
use line_message_playground.Prelude.{
  ℕ, zero, ◌+◌, Bool, true, false, ◌&&◌, ◌||◌, not, Option, none, some, is_some, is_none, List, [],
  ◌∷◌, ◌++◌, ◌==◌, ltb, leb, length, if◌then◌else◌, Result, ok, err,
}
use line_message_playground.Prelude.Text.{Text}
use line_message_playground.Prelude.Rows.{first}
use line_message_playground.Delivery.Types.{
  Uuid, Digest, Time, TargetMode, fixed_user, linked_recipient, FriendshipState, DeliveryStatus,
  processing, succeeded, failed, ReceiptStatus, pending, confirmed, RejectedPushFailureType,
  UnknownPushFailureType, DeliveryFailureType, rejected_push, unknown_push, pre_push,
  processing_expired, ReceiptRejectionReason, unmatched, target_mismatch, delivery_failed, invalid,
  MessageSnapshot, LinkedTargetSnapshot, TargetSnapshot, fixed_target, linked_target,
  ReceiptCommitment, AcceptedDeliveryCommand, LinePushResult, push_accepted, push_rejected,
  push_unknown, AttemptFinalizationResult, line_push, pre_push_failure, DeliverySnapshot,
  delivery_snapshot_valid, ConfirmReceiptCommand, StorageFailure, AttemptAcceptResult,
  attempt_accepted, existing_attempt, attempt_conflict, attempt_target_unavailable,
  attempt_storage_failed, ReceiptResult, receipt_recorded, receipt_unchanged, receipt_rejected,
  Raised, value_error, integrity_error, does_not_exist,
}
use line_message_playground.Delivery.Formatter.{format_message}
use line_message_playground.Delivery.Fingerprint.{build_request_fingerprint}
use line_message_playground.Delivery.Store.{
  Attempt, AttemptDb, Others, is_processing, column_eq, create, update,
}
use line_message_playground.Delivery.Row.{
  Classified, FenceStatus, accepted_if_ok, already_confirmed, awaiting, channel_not_found,
  classify_receipt, existing_if_ok, expired_values, fence_failed, found, has_pk, has_token,
  lift_some, locked, new_attempt, of_operation, of_request, overdue, overdue_row, owned, present,
  receipt_open, receipt_values, recorded_if_ok, refused, snapshot_fields, snapshot_target,
  terminal_values, unchanged_if_ok, undecided, unfinished,
}

-- What the code takes from Python's libraries: SHA-256, the table of white space, and the digest of
-- a serialised message.
pub record Runtime : Type 0 where
  pub sha256 : List ℕ → Digest
  pub is_space : ℕ → Bool
  pub message_digest : Text → Text → Text → Digest

module _ (rt : Runtime) where
  -- `_snapshot`
  unfoldable pub snapshot : Attempt → Time → Result Raised DeliverySnapshot
  unfolding snapshot_target snapshot_fields
  snapshot a now =
      present a now (snapshot_target a)
        (format_message rt.is_space rt.message_digest a.subject a.body)

  -- `objects.get(pk=...)`, and its snapshot
  unfoldable pub get_snapshot : ℕ → Time → AttemptDb → Result Raised DeliverySnapshot
  unfolding snapshot
  get_snapshot attempt_id now db = elim (first (has_pk attempt_id) db.rows) [
    | none ↦ err does_not_exist
    | some a ↦ snapshot a now
  ]

  -- After an update, read the row back.
  abbrev pub read_back :
      Others → ℕ → Time → Result Raised ℕ × AttemptDb → Result Raised DeliverySnapshot × AttemptDb
  read_back others attempt_id now (err e, db) = (err e, db)
  read_back others attempt_id now (ok n, db) =
      (get_snapshot attempt_id now (others 1 db), others 1 db)

  unfoldable pub finalize :
      Others
      → ℕ
      → AttemptFinalizationResult
      → Time
      → Time
      → AttemptDb
      → Result Raised DeliverySnapshot × AttemptDb
  unfolding get_snapshot
  finalize others zero result completed_at now db = (err value_error, db)
  finalize others attempt_id result completed_at now db =
      read_back others attempt_id now
        (update (unfinished attempt_id) (terminal_values result completed_at) db)

  abbrev pub found_for_owner :
      Others
      → ℕ
      → Uuid
      → Time
      → AttemptDb
      → Option Attempt
      → Result Raised (Option DeliverySnapshot) × AttemptDb
  found_for_owner others slot operation_id now db none = (ok none, db)
  found_for_owner others slot operation_id now db (some a) =
      if overdue now a
      then found (
          read_back others a.pk now
            (update (overdue_row a.pk slot operation_id now) (expired_values now) (others 0 db)))
      else (lift_some (snapshot a now), db)

  unfoldable pub get_for_owner :
      Others → ℕ → Uuid → Time → AttemptDb → Result Raised (Option DeliverySnapshot) × AttemptDb
  get_for_owner others zero operation_id now db = (err value_error, db)
  get_for_owner others slot operation_id now db =
      found_for_owner others slot operation_id now db (first (owned slot operation_id) db.rows)

  -- What is answered without a write; `otherwise` where the class is undecided.
  abbrev pub answer_receipt :
      Classified
      → Attempt
      → Time
      → Result Raised ReceiptResult × AttemptDb
      → AttemptDb
      → Result Raised ReceiptResult × AttemptDb
  answer_receipt (refused reason) a now otherwise db = (ok (receipt_rejected reason), db)
  answer_receipt already_confirmed a now otherwise db = (unchanged_if_ok (snapshot a now), db)
  answer_receipt undecided a now otherwise db = otherwise

  -- After the update: the row is read again.
  abbrev pub reread :
      ConfirmReceiptCommand
      → ℕ
      → Time
      → Option Attempt
      → AttemptDb
      → Result Raised ReceiptResult × AttemptDb
  reread command updated now none db = (ok (receipt_rejected unmatched), db)
  reread command updated now (some current) db =
      if updated == 1
      then (recorded_if_ok (snapshot current now), db)
      else answer_receipt (classify_receipt current command) current now
          (ok (receipt_rejected invalid), db) db

  abbrev pub after_receipt_update :
      Others
      → ConfirmReceiptCommand
      → ℕ
      → Time
      → Result Raised ℕ × AttemptDb
      → Result Raised ReceiptResult × AttemptDb
  after_receipt_update others command attempt_id now (err e, db) = (err e, db)
  after_receipt_update others command attempt_id now (ok updated, db) =
      reread command updated now (first (has_pk attempt_id) (others 1 db).rows) (others 1 db)

  -- The row of the token: it is classified, and updated if nothing speaks against it.
  abbrev pub confirm_found :
      Others
      → ConfirmReceiptCommand
      → Time
      → AttemptDb
      → Option Attempt
      → Result Raised ReceiptResult × AttemptDb
  confirm_found others command now db none = (ok (receipt_rejected unmatched), db)
  confirm_found others command now db (some a) =
      answer_receipt (classify_receipt a command) a now
        (after_receipt_update others command a.pk now
          (update (awaiting a.pk command) (receipt_values command) (others 0 db)))
        db

  unfoldable pub confirm_receipt :
      Others → ConfirmReceiptCommand → Time → AttemptDb → Result Raised ReceiptResult × AttemptDb
  unfolding snapshot classify_receipt receipt_open receipt_values
  confirm_receipt others command now db =
      if ltb 26 (length command.webhook_event_id)
      then (ok (receipt_rejected invalid), db)
      else confirm_found others command now db (first (has_token command.capability_digest) db.rows)

  -- `_classify_operation`
  unfoldable pub classify_operation :
      Attempt → AcceptedDeliveryCommand → Time → Result Raised AttemptAcceptResult
  unfolding snapshot
  classify_operation a command now =
      if a.request_fingerprint == command.request_fingerprint
      then existing_if_ok (snapshot a now)
      else ok attempt_conflict

  -- The handler of `IntegrityError`: who was first is read again. The second row counts only where the
  -- first reading finds none.
  abbrev pub who_was_first :
      AcceptedDeliveryCommand
      → Time
      → Option Attempt
      → Option Attempt
      → Result Raised AttemptAcceptResult
  who_was_first command now (some a) canonical = classify_operation a command now
  who_was_first command now none (some a) = existing_if_ok (snapshot a now)
  who_was_first command now none none = err integrity_error

  abbrev pub after_integrity_error :
      Others
      → AcceptedDeliveryCommand
      → Time
      → AttemptDb
      → Result Raised AttemptAcceptResult × AttemptDb
  after_integrity_error others command now db = (
    who_was_first command now (first (of_operation command) (others 1 db).rows)
        (first (of_request command) (others 2 (others 1 db)).rows),
    others 2 (others 1 db),
  )

  -- The outcome of `create`.
  abbrev pub after_create :
      Others
      → AcceptedDeliveryCommand
      → Time
      → Time
      → Result Raised Attempt × AttemptDb
      → Result Raised AttemptAcceptResult × AttemptDb
  after_create others command accepted_at now (ok a, db) =
      (accepted_if_ok a.pk (snapshot a accepted_at), db)
  after_create others command accepted_at now (err e, db) =
      after_integrity_error others command now db

  unfoldable pub store_attempt :
      Others
      → AcceptedDeliveryCommand
      → Time
      → Time
      → AttemptDb
      → Result Raised AttemptAcceptResult × AttemptDb
  unfolding classify_operation new_attempt snapshot
  store_attempt others command accepted_at now db =
      after_create others command accepted_at now (create (new_attempt command accepted_at) db)

  unfoldable pub expected_fingerprint : AcceptedDeliveryCommand → Digest
  expected_fingerprint command =
      build_request_fingerprint rt.sha256 command.owner command.owner_identity
        command.target.channel_public_id command.target.recipient_public_id
        command.message.fingerprint (is_some command.receipt_commitment)

  abbrev pub accept_fenced :
      Others
      → AcceptedDeliveryCommand
      → Time
      → Time
      → AttemptDb
      → FenceStatus
      → Result Raised AttemptAcceptResult × AttemptDb
  accept_fenced others command accepted_at now db channel_not_found =
      (ok attempt_target_unavailable, others 0 db)
  accept_fenced others command accepted_at now db (fence_failed code) =
      (ok (attempt_storage_failed code), others 0 db)
  accept_fenced others command accepted_at now db locked =
      store_attempt others command accepted_at now (others 0 db)

  abbrev pub accept_found :
      (Uuid → FenceStatus)
      → Others
      → AcceptedDeliveryCommand
      → Time
      → Time
      → AttemptDb
      → Option Attempt
      → Result Raised AttemptAcceptResult × AttemptDb
  accept_found fence others command accepted_at now db (some a) =
      (classify_operation a command accepted_at, db)
  accept_found fence others command accepted_at now db none =
      accept_fenced others command accepted_at now db (fence command.target.channel_public_id)

  unfoldable pub accept :
      (Uuid → FenceStatus)
      → Others
      → AcceptedDeliveryCommand
      → Time
      → Time
      → AttemptDb
      → Result Raised AttemptAcceptResult × AttemptDb
  unfolding store_attempt expected_fingerprint
  accept fence others command accepted_at now db =
      if command.request_fingerprint == expected_fingerprint command
      then accept_found fence others command accepted_at now db
          (first (of_operation command) db.rows)
      else (err value_error, db)
