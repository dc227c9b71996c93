-- ===== src/Delivery/Service.antt =====
-- backend/delivery/services.py, and the part of backend/delivery/views.py that calls it for a
-- submission. What other components answer (the target directory, the credential repository, the LINE
-- gateway, the random bytes, the clock) is a record; every command that the gateway is called with is
-- kept in the state.
pub mod Requests
pub mod Pending
pub mod Falls
pub mod Alone
pub mod Pushes
pub mod Revalidation
pub mod Examples
use line_message_playground.Prelude.{
  ℕ, zero, Bool, true, false, ◌&&◌, ◌||◌, not, Option, none, some, List, [], ◌∷◌, ◌++◌, ◌==◌,
  if◌then◌else◌, Result, ok, err,
}
use line_message_playground.Prelude.Text.{Text, text_eq}
use line_message_playground.Delivery.Types.{
  Uuid, Digest, Time, FriendshipState, friend, not_friend, DeliveryStatus, processing, failed,
  TargetUnavailableReason, target_not_available, channel_inactive, recipient_disabled,
  friendship_unknown, PrePushFailureType, configuration, target_changed, DeliveryFailureType,
  pre_push, MessageSnapshot, LiveDeliveryTarget, ConfirmationSnapshot, SubmitLinkedDelivery,
  ReceiptCommitment, ReceiptCapabilityCandidate, AcceptedDeliveryCommand,
  PushLinkedRecipientCommand, LinePushResult, AttemptFinalizationResult, line_push,
  pre_push_failure, DeliverySnapshot, AttemptAcceptResult, attempt_accepted, existing_attempt,
  attempt_conflict, attempt_target_unavailable, attempt_storage_failed, Raised, value_error,
  database_error,
}
use line_message_playground.Delivery.Fingerprint.{build_request_fingerprint}
use line_message_playground.Delivery.Store.{AttemptDb, Others, is_processing}
use line_message_playground.Delivery.Receipt.{create_capability}
use line_message_playground.Delivery.Repository.{Runtime, accept, finalize}
use line_message_playground.Delivery.Row.{FenceStatus}

pub data TargetResolution : Type 0 where
  live : LiveDeliveryTarget → TargetResolution
  target_unavailable : TargetUnavailableReason → TargetResolution

-- What the other components answer during one submission, in the order of the calls.
pub record Outside : Type 0 where
  pub resolve_at_accept : Uuid → Uuid → Uuid → TargetResolution
  pub entropy : Result Raised (List ℕ)
  pub fence : Uuid → FenceStatus
  pub others : Others
  pub accepted_at : Time
  pub classified_at : Time
  pub access_token : Uuid → Option Text
  pub resolve_at_push : Uuid → Uuid → Uuid → TargetResolution
  pub line : PushLinkedRecipientCommand → LinePushResult
  pub completed_at : Time
  pub read_at : Time

pub record LinkedPushPreparation : Type 0 where
  pub target : LiveDeliveryTarget
  pub message : MessageSnapshot
  pub receipt_capability : Option Text

pub record AcceptedLinkedAttempt : Type 0 where
  pub attempt_id : ℕ
  pub snapshot : DeliverySnapshot
  pub push_preparation : LinkedPushPreparation

pub data LinkedDeliveryAcceptResult : Type 0 where
  accepted_linked : AcceptedLinkedAttempt → LinkedDeliveryAcceptResult
  existing : DeliverySnapshot → LinkedDeliveryAcceptResult
  conflict : LinkedDeliveryAcceptResult
  unavailable : TargetUnavailableReason → LinkedDeliveryAcceptResult

pub data PushOutcome : Type 0 where
  executed : ℕ → LinePushResult → PushOutcome
  prevented : DeliverySnapshot → PrePushFailureType → PushOutcome
  stored : DeliverySnapshot → PushOutcome

-- The table, and the commands that LINE was called with, the last one first.
pub record World : Type 0 where
  pub db : AttemptDb
  pub pushes : List PushLinkedRecipientCommand

unavailable_reason : LiveDeliveryTarget → Option TargetUnavailableReason
unavailable_reason t =
    if t.delivery_available
    then none
    else if not t.snapshot.channel_active
    then some channel_inactive
    else if not t.snapshot.recipient_enabled
    then some recipient_disabled
    else elim t.snapshot.friendship_state [
      | not_friend ↦ some TargetUnavailableReason.not_friend
      | FriendshipState.unknown ↦ some friendship_unknown
      | friend ↦ some target_not_available
    ]

-- `_validate_confirmed_target`: `none` where the target may be used.
unfoldable pub validate_confirmed_target :
    LiveDeliveryTarget → ConfirmationSnapshot → Option TargetUnavailableReason
unfolding unavailable_reason
validate_confirmed_target target confirmed =
    if target.owner_identity == confirmed.owner_identity
      && (target.snapshot.channel_public_id == confirmed.channel_public_id
          && (target.snapshot.recipient_public_id == confirmed.recipient_public_id
              && (target.revision == confirmed.target_revision)))
    then unavailable_reason target
    else some target_not_available

-- `_same_push_target`
unfoldable pub same_push_target : TargetResolution → LiveDeliveryTarget → Bool
same_push_target (target_unavailable r) expected = false
same_push_target (live current) expected =
    current.delivery_available
    && (current.owner_identity == expected.owner_identity
        && (text_eq current.provider_id expected.provider_id
            && (current.snapshot.channel_public_id == expected.snapshot.channel_public_id
                && (current.snapshot.recipient_public_id == expected.snapshot.recipient_public_id
                    && (current.revision == expected.revision)))))

abbrev pub candidate_commitment : Option ReceiptCapabilityCandidate → Option ReceiptCommitment
candidate_commitment none = none
candidate_commitment (some c) = some c.commitment

abbrev pub candidate_capability : Option ReceiptCapabilityCandidate → Option Text
candidate_capability none = none
candidate_capability (some c) = some c.capability

pub data Answer : Type 0 where
  submitted : DeliverySnapshot → Answer
  already_there : DeliverySnapshot → Answer
  operation_id_reused : Answer
  not_deliverable : TargetUnavailableReason → Answer

module _ (rt : Runtime) (out : Outside) where
  -- The candidate for a receipt, where one was asked for.
  unfoldable pub candidate_for :
      ConfirmationSnapshot → Result Raised (Option ReceiptCapabilityCandidate)
  candidate_for confirmed =
      if confirmed.receipt_requested
      then elim confirmed.receipt_expires_at [
        | none ↦ err value_error
        | some t ↦ elim (create_capability rt.sha256 out.entropy t) [
          | ok c ↦ ok (some c)
          | err e ↦ err e
        ]
      ]
      else ok none

  abbrev pub accepted_command :
      SubmitLinkedDelivery
      → LiveDeliveryTarget
      → Option ReceiptCapabilityCandidate
      → AcceptedDeliveryCommand
  accepted_command command target candidate = record {
    operation_id = command.operation_id;
    owner = command.confirmation.owner;
    owner_identity = command.confirmation.owner_identity;
    target = target.snapshot;
    message = command.message;
    request_fingerprint =
        build_request_fingerprint rt.sha256 command.confirmation.owner
          command.confirmation.owner_identity command.confirmation.channel_public_id
          command.confirmation.recipient_public_id command.message.fingerprint
          command.confirmation.receipt_requested;
    receipt_commitment = candidate_commitment candidate;
  }

  -- What the service makes of the repository's answer.
  abbrev pub of_accept_result :
      SubmitLinkedDelivery
      → LiveDeliveryTarget
      → Option ReceiptCapabilityCandidate
      → Result Raised AttemptAcceptResult
      → Result Raised LinkedDeliveryAcceptResult
  of_accept_result command target candidate (err e) = err e
  of_accept_result command target candidate (ok (attempt_accepted attempt_id snapshot)) = ok (
      accepted_linked (record {
        attempt_id = attempt_id;
        snapshot = snapshot;
        push_preparation = record {
          target = target;
          message = command.message;
          receipt_capability = candidate_capability candidate;
        };
      }))
  of_accept_result command target candidate (ok (existing_attempt snapshot)) =
      ok (existing snapshot)
  of_accept_result command target candidate (ok attempt_conflict) = ok conflict
  of_accept_result command target candidate (ok attempt_target_unavailable) =
      ok (unavailable target_not_available)
  of_accept_result command target candidate (ok (attempt_storage_failed code)) = err database_error

  abbrev pub store_confirmed :
      SubmitLinkedDelivery
      → LiveDeliveryTarget
      → Result Raised (Option ReceiptCapabilityCandidate)
      → AttemptDb
      → Result Raised LinkedDeliveryAcceptResult × AttemptDb
  store_confirmed command target (err e) db = (err e, db)
  store_confirmed command target (ok candidate) db =
      let (r, db') =
        accept rt out.fence out.others (accepted_command command target candidate) out.accepted_at
          out.classified_at db in
      (of_accept_result command target candidate r, db')

  abbrev pub accept_validated :
      SubmitLinkedDelivery
      → LiveDeliveryTarget
      → Option TargetUnavailableReason
      → AttemptDb
      → Result Raised LinkedDeliveryAcceptResult × AttemptDb
  accept_validated command target (some reason) db = (ok (unavailable reason), db)
  accept_validated command target none db =
      store_confirmed command target (candidate_for command.confirmation) db

  abbrev pub accept_resolved :
      SubmitLinkedDelivery
      → TargetResolution
      → AttemptDb
      → Result Raised LinkedDeliveryAcceptResult × AttemptDb
  accept_resolved command (target_unavailable reason) db = (ok (unavailable reason), db)
  accept_resolved command (live target) db =
      accept_validated command target (validate_confirmed_target target command.confirmation) db

  unfoldable pub accept_confirmed :
      SubmitLinkedDelivery → AttemptDb → Result Raised LinkedDeliveryAcceptResult × AttemptDb
  accept_confirmed command db =
      accept_resolved command
        (out.resolve_at_accept command.confirmation.owner_identity
          command.confirmation.channel_public_id command.confirmation.recipient_public_id)
        db

  -- `LinkedPushStored(...)` refuses a snapshot that is still processing.
  abbrev pub stored_if_terminal : Result Raised DeliverySnapshot → Result Raised DeliverySnapshot
  stored_if_terminal (err e) = err e
  stored_if_terminal (ok s) = if is_processing s.status then err value_error else ok s

  abbrev pub is_pre_push_failure : PrePushFailureType → DeliverySnapshot → Bool
  is_pre_push_failure configuration s = elim s.status [
    | failed ↦ (elim s.failure [ some (pre_push configuration) ↦ true | _ ↦ false ])
    | _ ↦ false
  ]
  is_pre_push_failure target_changed s = elim s.status [
    | failed ↦ (elim s.failure [ some (pre_push target_changed) ↦ true | _ ↦ false ])
    | _ ↦ false
  ]

  abbrev pub of_prevented :
      PrePushFailureType → Result Raised DeliverySnapshot → Result Raised PushOutcome
  of_prevented f (err e) = err e
  of_prevented f (ok s) =
      if is_pre_push_failure f s
      then ok (prevented s f)
      else if is_processing s.status
      then err value_error
      else ok (stored s)

  -- `_prevent_linked_push`
  unfoldable pub prevent_linked_push :
      ℕ → PrePushFailureType → World → Result Raised PushOutcome × World
  prevent_linked_push attempt_id f w =
      let (r, db') =
        finalize rt out.others attempt_id (pre_push_failure f) out.completed_at out.read_at w.db in
      (of_prevented f r, record w { db = db' })

  abbrev pub push_command :
      AcceptedLinkedAttempt → Text → LiveDeliveryTarget → PushLinkedRecipientCommand
  push_command accepted token current = record {
    operation_id = accepted.snapshot.operation_id;
    access_token = token;
    line_subject = current.line_subject;
    text = accepted.push_preparation.message.formatted_text;
    receipt_capability = accepted.push_preparation.receipt_capability;
  }

  -- The one call of the gateway. A command with an empty text raises when it is built.
  unfoldable pub push_once :
      AcceptedLinkedAttempt → Text → TargetResolution → World → Result Raised PushOutcome × World
  push_once accepted token (target_unavailable r) w = (err value_error, w)
  push_once accepted token (live current) w =
      let command = push_command accepted token current in
      if text_eq command.text [] then (err value_error, w) else (
        ok (executed accepted.attempt_id (out.line command)),
        record w { pushes = command ∷ w.pushes },
      )

  abbrev pub push_with_token :
      AcceptedLinkedAttempt
      → TargetResolution
      → Option Text
      → World
      → Result Raised PushOutcome × World
  push_with_token accepted current none w = prevent_linked_push accepted.attempt_id configuration w
  push_with_token accepted current (some token) w =
      if same_push_target current accepted.push_preparation.target
      then push_once accepted token current w
      else prevent_linked_push accepted.attempt_id target_changed w

  unfoldable pub push_accepted : AcceptedLinkedAttempt → World → Result Raised PushOutcome × World
  unfolding push_once prevent_linked_push
  push_accepted accepted w =
      let expected = accepted.push_preparation.target in
      push_with_token accepted
        (out.resolve_at_push expected.owner_identity expected.snapshot.channel_public_id
          expected.snapshot.recipient_public_id)
        (out.access_token expected.snapshot.channel_public_id) w

  unfoldable pub finalize_linked_push :
      ℕ → LinePushResult → World → Result Raised DeliverySnapshot × World
  finalize_linked_push attempt_id result w =
      let (r, db') =
        finalize rt out.others attempt_id (line_push result) out.completed_at out.read_at w.db in
      (stored_if_terminal r, record w { db = db' })

  abbrev pub answer_stored : Result Raised DeliverySnapshot → Result Raised Answer
  answer_stored (err e) = err e
  answer_stored (ok s) = ok (submitted s)

  abbrev pub conclude : Result Raised PushOutcome → World → Result Raised Answer × World
  conclude (err e) w = (err e, w)
  conclude (ok (executed attempt_id result)) w =
      let (r, w') = finalize_linked_push attempt_id result w in (answer_stored r, w')
  conclude (ok (prevented s f)) w = (ok (submitted s), w)
  conclude (ok (stored s)) w = (ok (submitted s), w)

  abbrev pub continue_submission :
      Result Raised LinkedDeliveryAcceptResult → World → Result Raised Answer × World
  continue_submission (err e) w = (err e, w)
  continue_submission (ok (unavailable reason)) w = (ok (not_deliverable reason), w)
  continue_submission (ok conflict) w = (ok operation_id_reused, w)
  continue_submission (ok (existing s)) w = (ok (already_there s), w)
  continue_submission (ok (accepted_linked accepted)) w =
      let (outcome, w') = push_accepted accepted w in conclude outcome w'

  -- The submission, from the construction of the command in `DeliveryAPIView.post` on: a command whose
  -- message is not the confirmed one raises when it is built.
  unfoldable pub submit : SubmitLinkedDelivery → World → Result Raised Answer × World
  submit command w =
      if command.message.fingerprint == command.confirmation.message_fingerprint
      then (let (r, db') = accept_confirmed command w.db in
          continue_submission r (record w { db = db' }))
      else (err value_error, w)
