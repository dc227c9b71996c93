-- ===== src/Delivery/Service/Examples.antt =====
-- The theorems on submissions at a concrete one.
use line_message_playground.Prelude.{◌≤◌, ◌≡◌, refl, none, some, ok, [], ◌∷◌, length, ◌⊎◌}
use line_message_playground.Prelude.Text.{Text}
use line_message_playground.Delivery.Types.{
  delivery_snapshot_valid, LiveDeliveryTarget, DeliverySnapshot, DeliveryStatus, linked_target,
  ReceiptStatus,
}
use line_message_playground.Delivery.Data.{
  runtime, submission, outside, world, target, message, linked,
}
use line_message_playground.Delivery.Repository.{expected_fingerprint, store_attempt}
use line_message_playground.Delivery.Fingerprint.{build_request_fingerprint}
use line_message_playground.Delivery.Formatter.{format_message}
use line_message_playground.Delivery.Store.{
  create, check_constraints, valid_target, valid_state, valid_receipt, conflicts,
}
use line_message_playground.Delivery.Service.{
  push_accepted, push_once, same_push_target, finalize_linked_push, AcceptedLinkedAttempt,
  validate_confirmed_target, candidate_for, accepted_command,
}
use line_message_playground.Prelude.Rows.{count_where}
use line_message_playground.Delivery.Service.Requests.{Server, arrived, serve, proceed}
use line_message_playground.Delivery.Service.Pending.{is_for}
use line_message_playground.Delivery.Service.Pushes.{serve_pushes_once}
use line_message_playground.Delivery.Service.Revalidation.{
  push_accepted_revalidates, accepted_command_genuine, IsSent,
}

abbrev shown : DeliverySnapshot
shown = record {
  operation_id = 5;
  owner = 1;
  owner_identity = some 13;
  target = linked_target linked;
  message = message;
  status = DeliveryStatus.processing;
  accepted_at = 100;
  completed_at = none;
  line_request_id = none;
  line_accepted_request_id = none;
  failure = none;
  receipt_status = ReceiptStatus.not_requested;
  receipt_expires_at = none;
  receipt_confirmed_at = none;
  receipt_webhook_event_id = none;
  processing_expires_at = some 30000100;
}

abbrev accepted_attempt : AcceptedLinkedAttempt
accepted_attempt = record {
  attempt_id = 1;
  snapshot = shown;
  push_preparation = record { target = target; message = message; receipt_capability = none };
}

-- Two requests of one operation whose steps alternate: both find no row before either stores one.
abbrev both : Server
both = record {
  world = world;
  requests = arrived ((outside, submission) ∷ (outside, submission) ∷ []);
}

alternating : length (serve runtime (0 ∷ 1 ∷ 0 ∷ 1 ∷ 0 ∷ 1 ∷ 0 ∷ 1 ∷ []) both).world.pushes ≡ 1
unfolding serve proceed push_accepted push_once validate_confirmed_target candidate_for
    build_request_fingerprint expected_fingerprint store_attempt create check_constraints
    valid_target valid_state valid_receipt conflicts format_message delivery_snapshot_valid
    same_push_target finalize_linked_push
alternating = refl

serve_pushes_once_example :
    count_where
      (is_for 5)
      (serve runtime (0 ∷ 1 ∷ 0 ∷ 1 ∷ 0 ∷ 1 ∷ 0 ∷ 1 ∷ []) (record {
        world = world;
        requests = arrived ((outside, submission) ∷ (outside, submission) ∷ []);
      })).world.pushes
    ≤ 1
serve_pushes_once_example =
    serve_pushes_once runtime 5 ((outside, submission) ∷ (outside, submission) ∷ [])
      (0 ∷ 1 ∷ 0 ∷ 1 ∷ 0 ∷ 1 ∷ 0 ∷ 1 ∷ []) world

push_accepted_revalidates_example :
    ((push_accepted runtime outside accepted_attempt world).1.pushes ≡ [])
    ⊎ ((token : Text) × (current : LiveDeliveryTarget) × IsSent runtime outside accepted_attempt
          world
          (push_accepted runtime outside accepted_attempt world).1
          token
          current)
push_accepted_revalidates_example = push_accepted_revalidates runtime outside accepted_attempt world

valid_target_confirmed : validate_confirmed_target target submission.confirmation ≡ none
unfolding validate_confirmed_target
valid_target_confirmed = refl

no_candidate : candidate_for runtime outside submission.confirmation ≡ ok none
unfolding candidate_for
no_candidate = refl

accepted_command_genuine_example :
    (accepted_command runtime outside submission target none).request_fingerprint
    ≡ expected_fingerprint runtime (accepted_command runtime outside submission target none)
accepted_command_genuine_example =
    accepted_command_genuine runtime outside submission target none valid_target_confirmed
      no_candidate
