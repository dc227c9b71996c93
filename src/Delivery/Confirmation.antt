-- ===== src/Delivery/Confirmation.antt =====
-- backend/delivery/confirmation.py: the token that a preview hands out and a submission hands back.
-- Django's signer, its JSON and base64, and the ISO texts of times are parameters.
pub mod Tokens
pub mod Tampered
pub mod Examples
use line_message_playground.Prelude.{
  ℕ, ◌+◌, Bool, true, false, ◌&&◌, ◌||◌, not, Option, none, some, is_some, List, [], ◌∷◌, ◌==◌, ltb,
  leb, if◌then◌else◌, Result, ok, err,
}
use line_message_playground.Prelude.Text.{Text, text_eq, codes}
use line_message_playground.Prelude.Rows.{all, exists}
use line_message_playground.Webhook.Json.{
  Json, null, boolean, whole, negative, float, string, array, object, Fields, no_fields, field, get,
}
use line_message_playground.Delivery.Types.{
  Uuid, Digest, Time, ConfirmationSnapshot, Raised, value_error,
}
use line_message_playground.Delivery.Fingerprint.{uuid_text, hex_text}

abbrev pub confirmation_max_age : ℕ
confirmation_max_age = 600000000

abbrev pub receipt_max_age : ℕ
receipt_max_age = 86400000000

-- `dumps` and `loads` write and read the payload of a token, `sign` and `unsign` a text with the
-- microsecond at which it was signed, `isoformat` and `fromisoformat` a time in UTC that ends in `Z`.
pub record Signing : Type 0 where
  pub dumps : Fields → Text
  pub loads : Text → Option Json
  pub sign : Text → ℕ → Text
  pub unsign : Text → Option (Text × ℕ)
  pub isoformat : Time → Text
  pub fromisoformat : Text → Option Time
  pub float_equals : Text → ℕ → Bool

pub data ConfirmationRejectionReason : Type 0 where
  invalid_token expired_token mismatched_token : ConfirmationRejectionReason

pub data ConfirmationVerification : Type 0 where
  confirmation_verified : ConfirmationSnapshot → ConfirmationVerification
  confirmation_rejected : ConfirmationRejectionReason → ConfirmationVerification

pub record IssuedConfirmation : Type 0 where
  pub token : Text
  pub receipt_expires_at : Option Time

-- What a submission asks to have been confirmed.
pub record ConfirmationRequest : Type 0 where
  pub owner : ℕ
  pub owner_identity : Uuid
  pub channel_public_id : Uuid
  pub recipient_public_id : Uuid
  pub target_revision : Digest
  pub message_fingerprint : Digest
  pub receipt_requested : Bool

-- `receipt_expires_at`
abbrev pub receipt_expiry : Bool → Time → Option Time
receipt_expiry receipt_requested now =
    if receipt_requested then some (now + receipt_max_age) else none

-- `ConfirmationSnapshot(...)`: a receipt that is requested, and no other, expires.
unfoldable pub confirmation_snapshot :
    ConfirmationRequest → Option Time → Option ConfirmationSnapshot
confirmation_snapshot r none =
    if r.receipt_requested
    then none
    else some (record {
      owner = r.owner;
      owner_identity = r.owner_identity;
      channel_public_id = r.channel_public_id;
      recipient_public_id = r.recipient_public_id;
      target_revision = r.target_revision;
      message_fingerprint = r.message_fingerprint;
      receipt_requested = r.receipt_requested;
      receipt_expires_at = none;
    })
confirmation_snapshot r (some t) =
    if r.receipt_requested
    then some (record {
      owner = r.owner;
      owner_identity = r.owner_identity;
      channel_public_id = r.channel_public_id;
      recipient_public_id = r.recipient_public_id;
      target_revision = r.target_revision;
      message_fingerprint = r.message_fingerprint;
      receipt_requested = r.receipt_requested;
      receipt_expires_at = some t;
    })
    else none

abbrev pub within_window : Option Time → Time → Bool
within_window none now = false
within_window (some expires_at) now = ltb now expires_at && leb expires_at (now + receipt_max_age)

-- `_validate_receipt_window`: false where it raises.
abbrev pub validate_receipt_window : ConfirmationSnapshot → Time → Bool
validate_receipt_window s now = not s.receipt_requested || within_window s.receipt_expires_at now

-- What a request has in common with the payload: the key and the value of each of its parts.
unfoldable pub expected_without_expiry : ConfirmationRequest → List (Text × Json)
expected_without_expiry r =
    (codes "v", whole 1)
    ∷ (codes "owner", whole r.owner)
    ∷ (codes "identity", string (uuid_text r.owner_identity))
    ∷ (codes "channel", string (uuid_text r.channel_public_id))
    ∷ (codes "recipient", string (uuid_text r.recipient_public_id))
    ∷ (codes "target_revision", string (hex_text 64 r.target_revision))
    ∷ (codes "message_fingerprint", string (hex_text 64 r.message_fingerprint))
    ∷ (codes "receipt_requested", boolean r.receipt_requested)
    ∷ []

abbrev pub with_fields : List (Text × Json) → Fields → Fields
with_fields [] rest = rest
with_fields ((key, value) ∷ entries) rest = field key value (with_fields entries rest)

abbrev pub request_of : ConfirmationSnapshot → ConfirmationRequest
request_of s = record {
  owner = s.owner;
  owner_identity = s.owner_identity;
  channel_public_id = s.channel_public_id;
  recipient_public_id = s.recipient_public_id;
  target_revision = s.target_revision;
  message_fingerprint = s.message_fingerprint;
  receipt_requested = s.receipt_requested;
}

abbrev pub keys : Fields → List Text
keys no_fields = []
keys (field key value rest) = key ∷ keys rest

abbrev pub mem : Text → List Text → Bool
mem key known = exists (λ k. text_eq k key) known

abbrev pub payload_keys : List Text
payload_keys =
    codes "v"
    ∷ codes "owner"
    ∷ codes "identity"
    ∷ codes "channel"
    ∷ codes "recipient"
    ∷ codes "target_revision"
    ∷ codes "message_fingerprint"
    ∷ codes "receipt_requested"
    ∷ codes "receipt_expires_at"
    ∷ []

-- `set(payload) == {...}`
abbrev pub has_keys : Fields → Bool
has_keys payload =
    all (λ key. mem key payload_keys) (keys payload)
    && all (λ key. mem key (keys payload)) payload_keys

abbrev pub bit : Bool → ℕ
bit b = if b then 1 else 0

-- What a token contains.
pub data Unsigned : Type 0 where
  unsigned_payload : Json → Unsigned
  unsigned_expired unsigned_invalid : Unsigned

module _ (g : Signing) where
  -- `==` of a value of the payload and a value of the request.
  unfoldable pub python_equal : Option Json → Json → Bool
  python_equal (some (whole m)) (whole n) = m == n
  python_equal (some (boolean b)) (whole n) = bit b == n
  python_equal (some (float x)) (whole n) = g.float_equals x n
  python_equal (some (boolean b)) (boolean c) = bit b == bit c
  python_equal (some (whole m)) (boolean c) = m == bit c
  python_equal (some (float x)) (boolean c) = g.float_equals x (bit c)
  python_equal (some (string s)) (string t) = text_eq s t
  python_equal (some null) null = true
  python_equal _ _ = false

  -- `_serialize_datetime`
  abbrev pub serialize_datetime : Option Time → Json
  serialize_datetime none = null
  serialize_datetime (some t) = string (g.isoformat t)

  -- `_payload_from_snapshot`
  unfoldable pub payload_from_snapshot : ConfirmationSnapshot → Fields
  unfolding expected_without_expiry
  payload_from_snapshot s =
      with_fields (expected_without_expiry (request_of s))
        (field (codes "receipt_expires_at") (serialize_datetime s.receipt_expires_at) no_fields)

  -- `issue`, with the times of its two looks at the clock.
  unfoldable pub issue : ConfirmationSnapshot → Time → Time → Result Raised IssuedConfirmation
  unfolding payload_from_snapshot
  issue s checked_at signed_at =
      if validate_receipt_window s checked_at
      then ok (record {
        token = g.sign (g.dumps (payload_from_snapshot s)) signed_at;
        receipt_expires_at = s.receipt_expires_at;
      })
      else err value_error

  abbrev pub loaded : Option Json → Unsigned
  loaded none = unsigned_invalid
  loaded (some json) = unsigned_payload json

  abbrev pub unsign_at : Option (Text × ℕ) → Time → Unsigned
  unsign_at none now = unsigned_invalid
  unsign_at (some (value, signed_at)) now =
      if ltb (signed_at + confirmation_max_age) now
      then unsigned_expired
      else loaded (g.loads value)

  -- `_ClockTimestampSigner.unsign` under `unsign_object`
  abbrev pub unsign_object : Text → Time → Unsigned
  unsign_object token now = unsign_at (g.unsign token) now

  abbrev pub agrees : Fields → List (Text × Json) → Bool
  unfolding python_equal
  agrees payload [] = true
  agrees payload ((key, value) ∷ rest) = python_equal (get key payload) value && agrees payload rest

  -- The expiry in a payload: a text that is no time raises, and what is no text stands for none.
  abbrev pub raw_expiry : Option Json → Option (Option Time)
  raw_expiry (some (string s)) = elim (g.fromisoformat s) [ none ↦ none | some t ↦ some (some t) ]
  raw_expiry _ = some none

  abbrev pub in_window : Option ConfirmationSnapshot → Time → ConfirmationVerification
  in_window none now = confirmation_rejected mismatched_token
  in_window (some s) now =
      if validate_receipt_window s now
      then confirmation_verified s
      else confirmation_rejected mismatched_token

  abbrev pub with_expiry :
      ConfirmationRequest → Option (Option Time) → Time → ConfirmationVerification
  unfolding confirmation_snapshot
  with_expiry r none now = confirmation_rejected mismatched_token
  with_expiry r (some expires_at) now = in_window (confirmation_snapshot r expires_at) now

  abbrev pub verify_payload : ConfirmationRequest → Json → Time → ConfirmationVerification
  unfolding agrees expected_without_expiry with_expiry
  verify_payload r (object fs) now =
      if agrees fs (expected_without_expiry r) && has_keys fs
      then with_expiry r (raw_expiry (get (codes "receipt_expires_at") fs)) now
      else confirmation_rejected mismatched_token
  verify_payload r _ now = confirmation_rejected mismatched_token

  abbrev pub verify_unsigned : ConfirmationRequest → Unsigned → Time → ConfirmationVerification
  unfolding verify_payload
  verify_unsigned r unsigned_expired now = confirmation_rejected expired_token
  verify_unsigned r unsigned_invalid now = confirmation_rejected invalid_token
  verify_unsigned r (unsigned_payload json) now = verify_payload r json now

  -- `verify_request`, with the times of its two looks at the clock.
  unfoldable pub verify_request :
      Text → ConfirmationRequest → Time → Time → ConfirmationVerification
  unfolding verify_unsigned
  verify_request token r unsigned_at checked_at =
      verify_unsigned r (unsign_object token unsigned_at) checked_at

  abbrev pub verify_all : ConfirmationSnapshot → Unsigned → ConfirmationVerification
  unfolding agrees expected_without_expiry
  verify_all s unsigned_expired = confirmation_rejected expired_token
  verify_all s unsigned_invalid = confirmation_rejected invalid_token
  verify_all s (unsigned_payload (object fs)) =
      if agrees fs (expected_without_expiry (request_of s))
        && (python_equal (get (codes "receipt_expires_at") fs)
              (serialize_datetime s.receipt_expires_at)
            && has_keys fs)
      then confirmation_verified s
      else confirmation_rejected mismatched_token
  verify_all s (unsigned_payload _) = confirmation_rejected mismatched_token

  -- `verify`
  unfoldable pub verify : Text → ConfirmationSnapshot → Time → ConfirmationVerification
  unfolding verify_all
  verify token expected now = verify_all expected (unsign_object token now)
