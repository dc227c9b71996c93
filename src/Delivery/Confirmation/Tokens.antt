-- ===== src/Delivery/Confirmation/Tokens.antt =====
-- A token against the snapshot that it was issued for.
use line_message_playground.Prelude.{
  ℕ, ◌+◌, ◌≤◌, ◌<◌, Bool, true, false, ◌||◌, not, Option, none, some, is_some, ◌==◌, ltb, Result,
  ok, err, ◌≡◌, refl, sym, subst, Bool-cases, inl, inr, arith,
}
use line_message_playground.Prelude.Text.{Text, text_eq_refl, codes}
use line_message_playground.Webhook.Json.{object, get}
use line_message_playground.Delivery.Types.{Time, ConfirmationSnapshot, Raised}
use line_message_playground.Delivery.Fingerprint.{uuid_text, hex_text}
use line_message_playground.Delivery.Confirmation.{
  confirmation_max_age, Signing, confirmation_verified, IssuedConfirmation, confirmation_snapshot,
  within_window, validate_receipt_window, expected_without_expiry, request_of, has_keys, bit,
  python_equal, serialize_datetime, payload_from_snapshot, issue, unsign_object, agrees, raw_expiry,
  with_expiry, verify_payload, verify_unsigned, verify_request, unsigned_payload,
}

bit-equal : (b : Bool) → (bit b == bit b) ≡ true
bit-equal true = refl
bit-equal false = refl

whole-equal : (n : ℕ) → (n == n) ≡ true
whole-equal n = ground arith

module _ (g : Signing) where
  payload-agrees :
      (s : ConfirmationSnapshot)
      → agrees g (payload_from_snapshot g s) (expected_without_expiry (request_of s)) ≡ true
  unfolding agrees python_equal payload_from_snapshot expected_without_expiry
  payload-agrees s =
      rw
        (
          whole-equal s.owner,
          text_eq_refl (uuid_text s.owner_identity),
          text_eq_refl (uuid_text s.channel_public_id),
          text_eq_refl (uuid_text s.recipient_public_id),
          text_eq_refl (hex_text 64 s.target_revision),
          text_eq_refl (hex_text 64 s.message_fingerprint),
          bit-equal s.receipt_requested,
        )
        refl

  pub payload-has_keys : (s : ConfirmationSnapshot) → has_keys (payload_from_snapshot g s) ≡ true
  unfolding payload_from_snapshot expected_without_expiry
  payload-has_keys s = refl

  pub payload-get :
      (s : ConfirmationSnapshot)
      → get (codes "receipt_expires_at") (payload_from_snapshot g s)
        ≡ some (serialize_datetime g s.receipt_expires_at)
  unfolding payload_from_snapshot expected_without_expiry
  payload-get s = refl

  pub confirmation_snapshot-request_of :
      (s : ConfirmationSnapshot) (o : Option Time)
      → s.receipt_expires_at ≡ o
      → s.receipt_requested ≡ is_some o
      → confirmation_snapshot (request_of s) o ≡ some s
  unfolding confirmation_snapshot
  confirmation_snapshot-request_of s none h r =
      rw r (λ i. some (record s { receipt_requested = false; receipt_expires_at = sym h i }))
  confirmation_snapshot-request_of s (some t) h r =
      rw r (λ i. some (record s { receipt_requested = true; receipt_expires_at = sym h i }))

  -- What a snapshot that was issued has, and its token.
  abbrev pub Issues : ConfirmationSnapshot → Time → Time → Result Raised IssuedConfirmation → Type 0
  Issues s checked_at signed_at (ok i) =
      (validate_receipt_window s checked_at ≡ true)
      × (i.token ≡ g.sign (g.dumps (payload_from_snapshot g s)) signed_at)
  Issues s checked_at signed_at (err e) = Unit

  pub issue-Issues :
      (s : ConfirmationSnapshot) (checked_at signed_at : Time)
      → Issues s checked_at signed_at (issue g s checked_at signed_at)
  unfolding issue
  issue-Issues s checked_at signed_at = elim (Bool-cases (validate_receipt_window s checked_at)) [
    | inl e ↦ rw e (e, refl)
    | inr e ↦ rw e tt
  ]

  pub unsign_object-issue :
      (s : ConfirmationSnapshot) (token : Text) (signed_at now : Time)
      → g.loads (g.dumps (payload_from_snapshot g s)) ≡ some (object (payload_from_snapshot g s))
      → ((value : Text) (at : ℕ) → g.unsign (g.sign value at) ≡ some (value, at))
      → token ≡ g.sign (g.dumps (payload_from_snapshot g s)) signed_at
      → ltb (signed_at + confirmation_max_age) now ≡ false
      → unsign_object g token now ≡ unsigned_payload (object (payload_from_snapshot g s))
  unsign_object-issue s token signed_at now loads unsigns h l =
      rw (h, unsigns (g.dumps (payload_from_snapshot g s)) signed_at, l, loads) refl

  pub raw_expiry-serialize :
      ((t : Time) → g.fromisoformat (g.isoformat t) ≡ some t)
      → (o : Option Time) → raw_expiry g (some (serialize_datetime g o)) ≡ some o
  raw_expiry-serialize times none = refl
  raw_expiry-serialize times (some t) = rw (times t) refl

  still_in_window :
      (s : ConfirmationSnapshot) (o : Option Time) (checked_at now : Time)
      → s.receipt_expires_at ≡ o
      → validate_receipt_window s checked_at ≡ true
      → checked_at ≤ now
      → ((t : Time) → s.receipt_expires_at ≡ some t → now < t)
      → validate_receipt_window s now ≡ true
  still_in_window s none checked_at now h v l later =
      rw h (subst (λ o. (not s.receipt_requested || within_window o checked_at) ≡ true) h v)
  still_in_window s (some t) checked_at now h v l later =
      let v' = subst (λ o. (not s.receipt_requested || within_window o checked_at) ≡ true) h v in
      rw h (ground (arith, v', later t h))

  -- A token that was issued for a snapshot, whose receipt expires if and only if it is requested: a
  -- submission of the same contents, at most ten minutes after the token was signed and before the
  -- expiry of the receipt, is verified, and gets the snapshot back with its expiry. The signer and
  -- the ISO texts read back what they wrote, as the encoding does for this payload.
  pub issue-verify_request :
      (s : ConfirmationSnapshot) (issued : IssuedConfirmation)
      (checked_at signed_at unsigned_at verified_at : Time)
      → g.loads (g.dumps (payload_from_snapshot g s)) ≡ some (object (payload_from_snapshot g s))
      → ((value : Text) (at : ℕ) → g.unsign (g.sign value at) ≡ some (value, at))
      → ((t : Time) → g.fromisoformat (g.isoformat t) ≡ some t)
      → issue g s checked_at signed_at ≡ ok issued
      → s.receipt_requested ≡ is_some s.receipt_expires_at
      → unsigned_at ≤ signed_at + confirmation_max_age
      → checked_at ≤ verified_at
      → ((t : Time) → s.receipt_expires_at ≡ some t → verified_at < t)
      → verify_request g issued.token (request_of s) unsigned_at verified_at
        ≡ confirmation_verified s
  unfolding verify_request verify_unsigned verify_payload with_expiry
  issue-verify_request s issued checked_at signed_at unsigned_at verified_at loads unsigns times h r
        u c later =
      let (v, t) = subst (Issues s checked_at signed_at) h (issue-Issues s checked_at signed_at) in
      rw
        (
          unsign_object-issue s issued.token signed_at unsigned_at loads unsigns t (ground arith),
          payload-agrees s,
          payload-has_keys s,
          payload-get s,
          raw_expiry-serialize times s.receipt_expires_at,
          confirmation_snapshot-request_of s s.receipt_expires_at refl r,
          still_in_window s s.receipt_expires_at checked_at verified_at refl v c later,
        )
        refl
