-- ===== src/Delivery/Store.antt =====
-- backend/delivery/models.py: the table of delivery attempts with its constraints, and the queries
-- that the code runs on it. Lengths of text columns are not modelled.
use line_message_playground.Prelude.{
  ℕ, ◌+◌, Bool, true, false, ◌&&◌, ◌||◌, not, Option, some, is_some, is_none, List, [], ◌∷◌, ◌++◌,
  ◌==◌, if◌then◌else◌, Result, ok, err,
}
use line_message_playground.Prelude.Text.{Text}
use line_message_playground.Prelude.Rows.{exists, all, count_where, update_where}
use line_message_playground.Delivery.Types.{
  Uuid, Digest, Time, TargetMode, fixed_user, linked_recipient, FriendshipState, DeliveryStatus,
  processing, succeeded, DeliveryFailureType, Raised, integrity_error,
}

pub record Attempt : Type 0 where
  pub pk : ℕ
  pub operation_id : Uuid
  pub subject : Text
  pub body : Text
  pub formatted_text : Text
  pub request_fingerprint : Digest
  pub active_request_fingerprint : Option Digest
  pub target_mode : TargetMode
  pub owner_principal_slot : ℕ
  pub owner_identity_public_id : Option Uuid
  pub channel_public_id : Option Uuid
  pub channel_label_snapshot : Option Text
  pub recipient_public_id : Option Uuid
  pub channel_active_snapshot : Option Bool
  pub recipient_enabled_snapshot : Option Bool
  pub friendship_state_snapshot : Option FriendshipState
  pub status : DeliveryStatus
  pub failure_type : Option DeliveryFailureType
  pub line_request_id : Option Text
  pub line_accepted_request_id : Option Text
  pub accepted_at : Time
  pub processing_expires_at : Time
  pub sent_at : Option Time
  pub failed_at : Option Time
  pub completed_at : Option Time
  pub receipt_requested : Bool
  pub receipt_expires_at : Option Time
  pub receipt_token_digest : Option Digest
  pub receipt_confirmed_at : Option Time
  pub receipt_webhook_event_id : Option Text

abbrev pub is_processing : DeliveryStatus → Bool
is_processing processing = true
is_processing _ = false

-- A nullable column against a value: null equals nothing.
abbrev pub column_eq : Option ℕ → Option ℕ → Bool
column_eq (some a) (some b) = a == b
column_eq _ _ = false

-- The check `delivery_attempt_valid_target`.
unfoldable pub valid_target : Attempt → Bool
valid_target a = elim a.target_mode [
  | fixed_user ↦ true
  | linked_recipient ↦
      is_some a.owner_identity_public_id
      && is_some a.channel_public_id
      && is_some a.channel_label_snapshot
      && is_some a.recipient_public_id
      && is_some a.channel_active_snapshot
      && is_some a.recipient_enabled_snapshot
      && is_some a.friendship_state_snapshot
]

-- The check `delivery_attempt_valid_state`.
unfoldable pub valid_state : Attempt → Bool
valid_state a = elim a.status [
  | processing ↦
      column_eq a.active_request_fingerprint (some a.request_fingerprint)
      && is_none a.failure_type
      && is_none a.sent_at
      && is_none a.failed_at
      && is_none a.completed_at
  | succeeded ↦
      is_none a.active_request_fingerprint
      && is_none a.failure_type
      && is_some a.sent_at
      && is_none a.failed_at
      && is_some a.completed_at
  | _ ↦
      is_none a.active_request_fingerprint
      && is_some a.failure_type
      && is_none a.sent_at
      && is_some a.failed_at
      && is_some a.completed_at
]

-- The check `delivery_attempt_valid_receipt`.
unfoldable pub valid_receipt : Attempt → Bool
valid_receipt a =
    if a.receipt_requested
    then is_some a.receipt_expires_at
      && is_some a.receipt_token_digest
      && (is_none a.receipt_confirmed_at && is_none a.receipt_webhook_event_id
          || is_some a.receipt_confirmed_at && is_some a.receipt_webhook_event_id)
    else is_none a.receipt_expires_at
      && is_none a.receipt_token_digest
      && is_none a.receipt_confirmed_at
      && is_none a.receipt_webhook_event_id

unfoldable pub check_constraints : Attempt → Bool
check_constraints a = valid_target a && (valid_state a && valid_receipt a)

-- The unique columns: the operation, the active request and the receipt token.
unfoldable pub conflicts : Attempt → Attempt → Bool
conflicts a b =
    a.operation_id == b.operation_id
    || column_eq a.active_request_fingerprint b.active_request_fingerprint
    || column_eq a.receipt_token_digest b.receipt_token_digest

pub record AttemptDb : Type 0 where
  pub rows : List Attempt
  pub next_pk : ℕ

-- What other requests commit, by the place in a method where they do.
abbrev pub Others : Type 0
Others = ℕ → AttemptDb → AttemptDb

-- `objects.create(...)`
unfoldable pub create : Attempt → AttemptDb → Result Raised Attempt × AttemptDb
create a db =
    let row : Attempt = record a { pk = db.next_pk } in
    if check_constraints row && not (exists (conflicts row) db.rows)
    then (ok row, record { rows = db.rows ++ row ∷ []; next_pk = db.next_pk + 1 })
    else (err integrity_error, db)

-- `objects.filter(test).update(f)`: the number of rows matched. The code never writes a value to a
-- unique column in this way, only null.
unfoldable pub update :
    (Attempt → Bool) → (Attempt → Attempt) → AttemptDb → Result Raised ℕ × AttemptDb
update test f db =
    let rows' = update_where test f db.rows in
    if all check_constraints rows'
    then (ok (count_where test db.rows), record db { rows = rows' })
    else (err integrity_error, db)
