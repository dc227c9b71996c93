-- ===== src/Delivery/Confirmation/Tampered.antt =====
-- A token against a request that it was not issued for.
use line_message_playground.Prelude.{
  ℕ, ◌+◌, ◌≤◌, ◌<◌, ◌^◌, Bool, true, false, ◌&&◌, some, is_some, ◌==◌, ==_iff, ltb, ok, ◌≡◌, refl,
  sym, subst, Bool-cases, inl, inr, arith,
}
use line_message_playground.Prelude.Text.{Text, text_eq, text_eq_iff}
use line_message_playground.Webhook.Json.{object}
use line_message_playground.Delivery.Types.{Uuid, Digest, Time, ConfirmationSnapshot}
use line_message_playground.Delivery.Fingerprint.{uuid_text, hex_text}
use line_message_playground.Delivery.Fingerprint.Hex.{uuid_text-injective, digest_text-injective}
use line_message_playground.Delivery.Confirmation.{
  confirmation_max_age, Signing, ConfirmationVerification, confirmation_verified,
  confirmation_rejected, IssuedConfirmation, ConfirmationRequest, validate_receipt_window,
  expected_without_expiry, request_of, bit, python_equal, payload_from_snapshot, issue, agrees,
  in_window, with_expiry, verify_payload, verify_unsigned, verify_request,
}
use line_message_playground.Delivery.Confirmation.Tokens.{
  payload-get, payload-has_keys, confirmation_snapshot-request_of, unsign_object-issue,
  raw_expiry-serialize, Issues, issue-Issues,
}

-- The ids are UUIDs, and the digests SHA-256 digests.
abbrev pub IsWide : ConfirmationRequest → Type 0
IsWide r =
    (r.owner_identity < 16 ^ 32)
    × (r.channel_public_id < 16 ^ 32)
    × (r.recipient_public_id < 16 ^ 32)
    × (r.target_revision < 16 ^ 64)
    × (r.message_fingerprint < 16 ^ 64)

both : (a b : Bool) → (a && b) ≡ true → (a ≡ true) × (b ≡ true)
both true true h = (refl, refl)
both true false h = cc
both false b h = cc

bit-injective : (a b : Bool) → (bit a == bit b) ≡ true → a ≡ b
bit-injective true true h = refl
bit-injective true false h = cc
bit-injective false true h = cc
bit-injective false false h = refl

same_uuid :
    (a b : Uuid) → a < 16 ^ 32 → b < 16 ^ 32 → text_eq (uuid_text a) (uuid_text b) ≡ true → a ≡ b
same_uuid a b ha hb h =
    uuid_text-injective a b ha hb ((text_eq_iff (uuid_text a) (uuid_text b)).0 h)

same_digest :
    (a b : Digest)
    → a < 16 ^ 64
    → b < 16 ^ 64
    → text_eq (hex_text 64 a) (hex_text 64 b) ≡ true
    → a ≡ b
same_digest a b ha hb h =
    digest_text-injective a b ha hb ((text_eq_iff (hex_text 64 a) (hex_text 64 b)).0 h)

module _ (g : Signing) (s : ConfirmationSnapshot) where
  agrees-equal :
      (r : ConfirmationRequest)
      → IsWide (request_of s)
      → IsWide r
      → agrees g (payload_from_snapshot g s) (expected_without_expiry r) ≡ true
      → r ≡ request_of s
  unfolding agrees python_equal payload_from_snapshot expected_without_expiry
  agrees-equal r (a1, a2, a3, a4, a5) (b1, b2, b3, b4, b5) h =
      let (o, h1) = both (s.owner == r.owner) _ h in
      let (i, h2) = both (text_eq (uuid_text s.owner_identity) (uuid_text r.owner_identity)) _ h1 in
      let (c, h3) =
        both (text_eq (uuid_text s.channel_public_id) (uuid_text r.channel_public_id)) _ h2 in
      let (p, h4) =
        both (text_eq (uuid_text s.recipient_public_id) (uuid_text r.recipient_public_id)) _ h3 in
      let (t, h5) =
        both (text_eq (hex_text 64 s.target_revision) (hex_text 64 r.target_revision)) _ h4 in
      let (m, h6) =
        both (text_eq (hex_text 64 s.message_fingerprint) (hex_text 64 r.message_fingerprint)) _
          h5 in
      let (q, h7) = both (bit s.receipt_requested == bit r.receipt_requested) _ h6 in
      λ j. record {
        owner = sym ((==_iff s.owner r.owner).0 o) j;
        owner_identity = sym (same_uuid s.owner_identity r.owner_identity a1 b1 i) j;
        channel_public_id = sym (same_uuid s.channel_public_id r.channel_public_id a2 b2 c) j;
        recipient_public_id = sym (same_uuid s.recipient_public_id r.recipient_public_id a3 b3 p) j;
        target_revision = sym (same_digest s.target_revision r.target_revision a4 b4 t) j;
        message_fingerprint =
            sym (same_digest s.message_fingerprint r.message_fingerprint a5 b5 m) j;
        receipt_requested = sym (bit-injective s.receipt_requested r.receipt_requested q) j;
      }

  -- What is verified is the snapshot, for the request that it holds.
  abbrev Restores : ConfirmationRequest → ConfirmationVerification → Type 0
  Restores r (confirmation_verified s') = (s' ≡ s) × (r ≡ request_of s)
  Restores r (confirmation_rejected reason) = Unit

  in_window-Restores : (now : Time) → Restores (request_of s) (in_window g (some s) now)
  in_window-Restores now = elim (Bool-cases (validate_receipt_window s now)) [
    | inl e ↦ rw e (refl, refl)
    | inr e ↦ rw e tt
  ]

  verify_payload-Restores :
      ((t : Time) → g.fromisoformat (g.isoformat t) ≡ some t)
      → (r : ConfirmationRequest) (now : Time) → s.receipt_requested ≡ is_some s.receipt_expires_at
      → IsWide (request_of s)
      → IsWide r
      → Restores r (verify_payload g r (object (payload_from_snapshot g s)) now)
  unfolding verify_payload with_expiry
  verify_payload-Restores times r now q ws wr =
      elim (Bool-cases (agrees g (payload_from_snapshot g s) (expected_without_expiry r))) [
        | inl e ↦
            rw
              (
                e,
                payload-has_keys g s,
                payload-get g s,
                raw_expiry-serialize g times s.receipt_expires_at,
                agrees-equal r ws wr e,
                confirmation_snapshot-request_of g s s.receipt_expires_at refl q,
              )
              (in_window-Restores now)
        | inr e ↦ rw e tt
      ]

  abbrev InTime : ConfirmationRequest → Time → Time → ConfirmationVerification → Type 0
  InTime r signed_at now (confirmation_verified s') =
      (s' ≡ s) × (r ≡ request_of s) × (now ≤ signed_at + confirmation_max_age)
  InTime r signed_at now (confirmation_rejected reason) = Unit

  Restores-InTime :
      (r : ConfirmationRequest) (v : ConfirmationVerification) (signed_at now : Time)
      → now ≤ signed_at + confirmation_max_age
      → Restores r v
      → InTime r signed_at now v
  Restores-InTime r (confirmation_verified s') signed_at now l (h, k) = (h, k, l)
  Restores-InTime r (confirmation_rejected reason) signed_at now l h = tt

  verify_request-InTime :
      g.loads (g.dumps (payload_from_snapshot g s)) ≡ some (object (payload_from_snapshot g s))
      → ((value : Text) (at : ℕ) → g.unsign (g.sign value at) ≡ some (value, at))
      → ((t : Time) → g.fromisoformat (g.isoformat t) ≡ some t)
      → (r : ConfirmationRequest) (token : Text) (signed_at unsigned_at verified_at : Time)
      → token ≡ g.sign (g.dumps (payload_from_snapshot g s)) signed_at
      → s.receipt_requested ≡ is_some s.receipt_expires_at
      → IsWide (request_of s)
      → IsWide r
      → InTime r signed_at unsigned_at (verify_request g token r unsigned_at verified_at)
  unfolding verify_request verify_unsigned
  verify_request-InTime loads unsigns times r token signed_at unsigned_at verified_at t q ws wr =
      elim (Bool-cases (ltb (signed_at + confirmation_max_age) unsigned_at)) [
        | inl e ↦ rw (t, unsigns (g.dumps (payload_from_snapshot g s)) signed_at, e) tt
        | inr e ↦
            let v = verify_payload g r (object (payload_from_snapshot g s)) verified_at in
            rw (unsign_object-issue g s token signed_at unsigned_at loads unsigns t e) (
              Restores-InTime r v signed_at unsigned_at (ground arith)
                (verify_payload-Restores times r verified_at q ws wr))
      ]

-- A token that was issued for a snapshot, whose receipt expires if and only if it is requested, is
-- handed in with a request, with ids of 128 and digests of 256 bits: if it is verified, the snapshot
-- that comes back is the one it was issued for, and the request is that of the snapshot, so no part
-- of it was changed; and the token was at most ten minutes old. The signer and the ISO texts read
-- back what they wrote, as the encoding does for this payload.
pub verify_request_genuine :
    (g : Signing) (s s' : ConfirmationSnapshot) (issued : IssuedConfirmation)
    (r : ConfirmationRequest) (checked_at signed_at unsigned_at verified_at : Time)
    → g.loads (g.dumps (payload_from_snapshot g s)) ≡ some (object (payload_from_snapshot g s))
    → ((value : Text) (at : ℕ) → g.unsign (g.sign value at) ≡ some (value, at))
    → ((t : Time) → g.fromisoformat (g.isoformat t) ≡ some t)
    → issue g s checked_at signed_at ≡ ok issued
    → s.receipt_requested ≡ is_some s.receipt_expires_at
    → IsWide (request_of s)
    → IsWide r
    → verify_request g issued.token r unsigned_at verified_at ≡ confirmation_verified s'
    → (s' ≡ s) × (r ≡ request_of s) × (unsigned_at ≤ signed_at + confirmation_max_age)
verify_request_genuine g s s' issued r checked_at signed_at unsigned_at verified_at loads unsigns
      times h q ws wr v =
    let (w, t) =
      subst (Issues g s checked_at signed_at) h (issue-Issues g s checked_at signed_at) in
    subst (InTime g s r signed_at unsigned_at) v (
      verify_request-InTime g s loads unsigns times r issued.token signed_at unsigned_at verified_at
        t q ws wr)
