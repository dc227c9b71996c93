-- ===== src/Delivery/Receipt.antt =====
-- backend/delivery/receipt.py: the capability that a receipt is confirmed with. The random bytes and
-- SHA-256 come from outside.
use line_message_playground.Prelude.{
  ℕ, ◌+◌, ◌-◌, ◌*◌, ◌/◌, ◌%◌, List, [], ◌∷◌, ◌==◌, ltb, length, if◌then◌else◌, Result, ok, err,
}
use line_message_playground.Prelude.Text.{Text, codes, text_eq}
use line_message_playground.Delivery.Types.{
  Digest, Time, ReceiptCapabilityCandidate, ConfirmReceiptCommand, ReceiptResult, receipt_recorded,
  receipt_unchanged, receipt_rejected, Raised, value_error,
}
use line_message_playground.Interaction.Types.{
  ActionOutcome, action_succeeded, action_no_change, action_rejected, action_failed,
  PostbackActionCommand,
}
use line_message_playground.Delivery.Fingerprint.{utf8}
use line_message_playground.Delivery.Store.{AttemptDb, Others}
use line_message_playground.Delivery.Repository.{Runtime, confirm_receipt}

abbrev pub capability_entropy_bytes : ℕ
capability_entropy_bytes = 32

-- The alphabet of `urlsafe_b64encode`.
abbrev pub base64_char : ℕ → ℕ
base64_char d =
    if ltb d 26
    then 65 + d
    else if ltb d 52
    then 71 + d
    else if ltb d 62
    then d - 4
    else if d == 62
    then 45
    else 95

-- `urlsafe_b64encode(entropy).rstrip(b"=")`
unfoldable pub urlsafe_base64 : List ℕ → Text
urlsafe_base64 [] = []
urlsafe_base64 (a ∷ []) = base64_char (a / 4) ∷ base64_char (a % 4 * 16) ∷ []
urlsafe_base64 (a ∷ b ∷ []) =
    base64_char (a / 4) ∷ base64_char (a % 4 * 16 + b / 16) ∷ base64_char (b % 16 * 4) ∷ []
urlsafe_base64 (a ∷ b ∷ c ∷ rest) =
    base64_char (a / 4)
    ∷ base64_char (a % 4 * 16 + b / 16)
    ∷ base64_char (b % 16 * 4 + c / 64)
    ∷ base64_char (c % 64)
    ∷ urlsafe_base64 rest

-- `ReceiptCapabilityFactory.create`; the generator's own failure is an error here.
unfoldable pub create_capability :
    (List ℕ → Digest) → Result Raised (List ℕ) → Time → Result Raised ReceiptCapabilityCandidate
unfolding urlsafe_base64
create_capability sha256 (err e) confirmed_expires_at = err value_error
create_capability sha256 (ok entropy) confirmed_expires_at =
    if length entropy == capability_entropy_bytes
    then (let raw = urlsafe_base64 entropy in
        ok (record {
          capability = raw;
          commitment = record { digest = sha256 raw; expires_at = confirmed_expires_at };
        }))
    else err value_error

abbrev pub outcome_of : Result Raised ReceiptResult → ActionOutcome
outcome_of (ok (receipt_recorded s)) = action_succeeded
outcome_of (ok (receipt_unchanged s)) = action_no_change
outcome_of (ok (receipt_rejected r)) = action_rejected
outcome_of (err e) = action_failed

abbrev pub receipt_command : Runtime → PostbackActionCommand → Time → ConfirmReceiptCommand
receipt_command rt command occurred_at = record {
  capability_digest = rt.sha256 (utf8 command.payload);
  channel_public_id = command.channel.channel_public_id;
  recipient_public_id = command.user.recipient_public_id;
  occurred_at = occurred_at;
  webhook_event_id = command.webhook_event_id;
}

-- `ReceiptHandler.handle`. A command with an empty event id raises when it is built.
unfoldable pub handle :
    Runtime → Others → PostbackActionCommand → Time → Time → AttemptDb → ActionOutcome × AttemptDb
handle rt others command occurred_at now db =
    if text_eq command.action_name (codes "delivery.received")
    then (if length command.webhook_event_id == 0
        then (action_failed, db)
        else (let (result, db') =
              confirm_receipt rt others (receipt_command rt command occurred_at) now db in
            (outcome_of result, db')))
    else (action_rejected, db)
