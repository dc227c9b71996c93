-- ===== src/Delivery/Confirmation/Examples.antt =====
-- Runs of the confirmation at concrete inputs.
use line_message_playground.Prelude.{
  ℕ, ◌+◌, ◌≤◌, ◌<◌, ◌≡◌, refl, true, Option, none, some, [], ◌∷◌, arith,
}
use line_message_playground.Prelude.Text.{Text}
use line_message_playground.Webhook.Json.{object}
use line_message_playground.Delivery.Types.{ConfirmationSnapshot, Time}
use line_message_playground.Delivery.Data.{confirmation}
use line_message_playground.Delivery.Fingerprint.{uuid_text, hex_text}
use line_message_playground.Delivery.Confirmation.{
  Signing, IssuedConfirmation, issue, verify_request, request_of, confirmation_verified,
  confirmation_max_age, payload_from_snapshot, confirmation_rejected, mismatched_token,
  expired_token, verify,
}
use line_message_playground.Delivery.Confirmation.Tokens.{issue-verify_request}
use line_message_playground.Delivery.Confirmation.Tampered.{verify_request_genuine}

abbrev snapshot : ConfirmationSnapshot
snapshot = record confirmation { receipt_requested = true; receipt_expires_at = some 5000 }

abbrev first_time : Text → Option Time
first_time [] = none
first_time (t ∷ s) = some t

abbrev split : Text → Option (Text × ℕ)
split [] = none
split (n ∷ s) = some (s, n)

abbrev unread : Signing
unread = record {
  dumps = λ payload. 1 ∷ 2 ∷ [];
  loads = λ s. none;
  sign = λ s n. n ∷ s;
  unsign = split;
  isoformat = λ t. t ∷ [];
  fromisoformat = first_time;
  float_equals = λ x n. true;
}

abbrev signing : Signing
unfolding payload_from_snapshot
signing = record unread { loads = λ s. some (object (payload_from_snapshot unread snapshot)) }

abbrev issued : IssuedConfirmation
issued = record { token = 1001 ∷ 1 ∷ 2 ∷ []; receipt_expires_at = some 5000 }

-- A request for another recipient, and the same request too late, are rejected.
other_recipient :
    verify_request signing issued.token
      (record (request_of snapshot) { recipient_public_id = 99 })
      2000
      2001
    ≡ confirmation_rejected mismatched_token
unfolding verify_request signing uuid_text hex_text
other_recipient = refl

too_late :
    verify_request signing issued.token (request_of snapshot) 600001002 600001003
    ≡ confirmation_rejected expired_token
unfolding verify_request signing
too_late = refl

verified : verify signing issued.token snapshot 2000 ≡ confirmation_verified snapshot
unfolding verify signing uuid_text hex_text
verified = refl

expires_later : (t : Time) → snapshot.receipt_expires_at ≡ some t → 2001 < t
expires_later t h = ground (arith, h)

issue-verify_request_example :
    verify_request signing issued.token (request_of snapshot) 2000 2001
    ≡ confirmation_verified snapshot
unfolding issue signing payload_from_snapshot
issue-verify_request_example =
    issue-verify_request signing snapshot issued 1000 1001 2000 2001 refl (λ s n. refl) (λ t. refl)
      refl refl (omega arith) (omega arith) expires_later

verify_request_genuine_example :
    (snapshot ≡ snapshot)
    × (request_of snapshot ≡ request_of snapshot)
    × (2000 ≤ 1001 + confirmation_max_age)
unfolding issue signing payload_from_snapshot verify_request uuid_text hex_text
verify_request_genuine_example =
    verify_request_genuine signing snapshot snapshot issued (request_of snapshot) 1000 1001 2000
      2001 refl (λ s n. refl) (λ t. refl) refl refl
      (omega arith, omega arith, omega arith, omega arith, omega arith)
      (omega arith, omega arith, omega arith, omega arith, omega arith) refl
