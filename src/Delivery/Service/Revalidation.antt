-- ===== src/Delivery/Service/Revalidation.antt =====
-- What is checked again before LINE is called.
use line_message_playground.Prelude.{
  ℕ, ◌≡◌, refl, true, Option, some, none, [], ◌∷◌, is_some, inl, inr, ◌⊎◌, Bool-cases, arith, ok,
}
use line_message_playground.Prelude.Text.{Text, text_eq, text_eq_iff}
use line_message_playground.Delivery.Types.{
  LiveDeliveryTarget, SubmitLinkedDelivery, ReceiptCapabilityCandidate, configuration,
  target_changed, PrePushFailureType,
}
use line_message_playground.Delivery.Repository.{Runtime, expected_fingerprint}
use line_message_playground.Delivery.Service.{
  TargetResolution, live, target_unavailable, Outside, AcceptedLinkedAttempt, World,
  validate_confirmed_target, same_push_target, candidate_for, accepted_command, prevent_linked_push,
  push_once, push_with_token, push_accepted, push_command, candidate_commitment,
}

-- The target is still deliverable and is the one that was accepted, in the same revision.
pub record IsSameTarget (current expected : LiveDeliveryTarget) : Type 0 where
  pub available : current.delivery_available ≡ true
  pub owner : current.owner_identity ≡ expected.owner_identity
  pub provider : current.provider_id ≡ expected.provider_id
  pub channel : current.snapshot.channel_public_id ≡ expected.snapshot.channel_public_id
  pub recipient : current.snapshot.recipient_public_id ≡ expected.snapshot.recipient_public_id
  pub revision : current.revision ≡ expected.revision

same_push_target-IsSameTarget :
    (current expected : LiveDeliveryTarget)
    → same_push_target (live current) expected ≡ true
    → IsSameTarget current expected
unfolding same_push_target
same_push_target-IsSameTarget current expected h =
    ground (arith, text_eq_iff current.provider_id expected.provider_id)

-- One command was sent, for the target `current` with the token `token`.
pub record IsSent (rt : Runtime) (out : Outside) (a : AcceptedLinkedAttempt) (w w' : World)
    (token : Text) (current : LiveDeliveryTarget) : Type 0 where
  pub credential :
      out.access_token a.push_preparation.target.snapshot.channel_public_id ≡ some token
  pub resolved :
      out.resolve_at_push a.push_preparation.target.owner_identity
        a.push_preparation.target.snapshot.channel_public_id
        a.push_preparation.target.snapshot.recipient_public_id
      ≡ live current
  pub same : IsSameTarget current a.push_preparation.target
  pub sent : w'.pushes ≡ push_command rt out a token current ∷ w.pushes

module _ (rt : Runtime) (out : Outside) (a : AcceptedLinkedAttempt) (w : World) where
  prevent-pushes :
      (k : ℕ) (f : PrePushFailureType) → (prevent_linked_push rt out k f w).1.pushes ≡ w.pushes
  unfolding prevent_linked_push
  prevent-pushes k f = refl

  once :
      (token : Text) (current : LiveDeliveryTarget)
      → ((push_once rt out a token (live current) w).1.pushes ≡ w.pushes)
        ⊎ ((push_once rt out a token (live current) w).1.pushes
            ≡ push_command rt out a token current ∷ w.pushes)
  unfolding push_once
  once token current = elim (Bool-cases (text_eq (push_command rt out a token current).text [])) [
    | inl e ↦ inl (rw e)
    | inr e ↦ inr (rw e)
  ]

  with_token :
      (r : TargetResolution) (o : Option Text)
      → ((push_with_token rt out a r o w).1.pushes ≡ w.pushes)
        ⊎ ((token : Text) × (current : LiveDeliveryTarget) × (o ≡ some token)
            × (r ≡ live current)
            × IsSameTarget current a.push_preparation.target
            × ((push_with_token rt out a r o w).1.pushes
                ≡ push_command rt out a token current ∷ w.pushes))
  with_token r none = inl (prevent-pushes a.attempt_id configuration)
  with_token (target_unavailable reason) (some token) =
      inl (unfold same_push_target in prevent-pushes a.attempt_id target_changed)
  with_token (live current) (some token) =
      elim (Bool-cases (same_push_target (live current) a.push_preparation.target)) [
        | inl e ↦ elim (once token current) [
          | inl p ↦ inl (rw e p)
          | inr p ↦ inr (
            token,
            current,
            refl,
            refl,
            same_push_target-IsSameTarget current a.push_preparation.target e,
            rw e p,
          )
        ]
        | inr e ↦ inl (rw e (prevent-pushes a.attempt_id target_changed))
      ]

  -- LINE is called only with a token of the accepted channel, and only if the target, asked for again,
  -- is deliverable and agrees with the accepted one in owner, provider, channel, recipient and
  -- revision; what is sent is one command with the accepted operation and text, to that target.
  pub push_accepted_revalidates :
      ((push_accepted rt out a w).1.pushes ≡ w.pushes)
      ⊎ ((token : Text) × (current : LiveDeliveryTarget) × IsSent rt out a w
            (push_accepted rt out a w).1
            token
            current)
  unfolding push_accepted
  push_accepted_revalidates =
      elim (with_token
        (out.resolve_at_push a.push_preparation.target.owner_identity
          a.push_preparation.target.snapshot.channel_public_id
          a.push_preparation.target.snapshot.recipient_public_id)
        (out.access_token a.push_preparation.target.snapshot.channel_public_id)) [
          | inl p ↦ inl p
          | inr (token, current, e, r, s, p) ↦
              inr (token, current, record { credential = e; resolved = r; same = s; sent = p })
        ]

module _ (rt : Runtime) (out : Outside) (command : SubmitLinkedDelivery)
    (target : LiveDeliveryTarget) where
  candidate-receipt :
      (c : Option ReceiptCapabilityCandidate)
      → candidate_for rt out command.confirmation ≡ ok c
      → is_some (candidate_commitment c) ≡ command.confirmation.receipt_requested
  unfolding candidate_for
  candidate-receipt c h = ground arith

  -- The command that the service builds from a confirmed target has the fingerprint that the
  -- repository computes for it, so the repository never refuses it for its fingerprint.
  pub accepted_command_genuine :
      (c : Option ReceiptCapabilityCandidate)
      → validate_confirmed_target target command.confirmation ≡ none
      → candidate_for rt out command.confirmation ≡ ok c
      → (accepted_command rt out command target c).request_fingerprint
        ≡ expected_fingerprint rt (accepted_command rt out command target c)
  unfolding validate_confirmed_target expected_fingerprint
  accepted_command_genuine c v h = ground (arith, candidate-receipt c h)
