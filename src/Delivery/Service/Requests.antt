-- ===== src/Delivery/Service/Requests.antt =====
-- Submissions that run at the same time: the accesses to the table and the calls of LINE in
-- `DeliveryAPIView.post` from backend/delivery/views.py on, as the steps of one request among others.
use line_message_playground.Prelude.{
  ℕ, ◌==◌, Option, none, some, List, [], ◌∷◌, if◌then◌else◌, Result, ok, err,
}
use line_message_playground.Prelude.Rows.{first, nth, set_nth}
use line_message_playground.Delivery.Types.{
  LiveDeliveryTarget, SubmitLinkedDelivery, ReceiptCapabilityCandidate, TargetUnavailableReason,
  LinePushResult, Raised,
}
use line_message_playground.Delivery.Store.{Attempt, AttemptDb}
use line_message_playground.Delivery.Repository.{Runtime, expected_fingerprint, accept_fenced}
use line_message_playground.Delivery.Row.{of_operation}
use line_message_playground.Delivery.Service.{
  TargetResolution, live, target_unavailable, Outside, AcceptedLinkedAttempt,
  LinkedDeliveryAcceptResult, accepted_linked, existing, conflict, unavailable, PushOutcome,
  executed, prevented, stored, World, validate_confirmed_target, candidate_for, accepted_command,
  of_accept_result, push_accepted, finalize_linked_push,
}

-- Where a request stands: before the repository's first reading, before the transaction that stores
-- the attempt, before the push, before the result is stored, or at its end.
pub data Stage : Type 0 where
  begun : SubmitLinkedDelivery → Stage
  storing : SubmitLinkedDelivery → LiveDeliveryTarget → Option ReceiptCapabilityCandidate → Stage
  pushing : AcceptedLinkedAttempt → Stage
  finalizing : ℕ → LinePushResult → Stage
  over : Stage

-- A request, with what the other components answer it.
pub record Request : Type 0 where
  pub out : Outside
  pub stage : Stage

pub record Server : Type 0 where
  pub world : World
  pub requests : List Request

-- What other requests commit are their own steps here.
abbrev pub stepwise : Outside → Outside
stepwise out = record out { others = λ i db. db }

module _ (rt : Runtime) (out : Outside) where
  -- The repository's first reading.
  abbrev pub looked :
      SubmitLinkedDelivery
      → LiveDeliveryTarget
      → Option ReceiptCapabilityCandidate
      → Option Attempt
      → Stage
  looked command target candidate none = storing command target candidate
  looked command target candidate (some a) = over

  abbrev pub look :
      SubmitLinkedDelivery
      → LiveDeliveryTarget
      → Result Raised (Option ReceiptCapabilityCandidate)
      → AttemptDb
      → Stage
  look command target (err e) db = over
  look command target (ok candidate) db =
      let accepted = accepted_command rt out command target candidate in
      if accepted.request_fingerprint == expected_fingerprint rt accepted
      then looked command target candidate (first (of_operation accepted) db.rows)
      else over

  abbrev pub look_validated :
      SubmitLinkedDelivery → LiveDeliveryTarget → Option TargetUnavailableReason → AttemptDb → Stage
  look_validated command target (some reason) db = over
  look_validated command target none db =
      look command target (candidate_for rt out command.confirmation) db

  abbrev pub look_resolved : SubmitLinkedDelivery → TargetResolution → AttemptDb → Stage
  look_resolved command (target_unavailable reason) db = over
  look_resolved command (live target) db =
      look_validated command target (validate_confirmed_target target command.confirmation) db

  abbrev pub after_store : Result Raised LinkedDeliveryAcceptResult → Stage
  after_store (ok (accepted_linked a)) = pushing a
  after_store (ok (existing s)) = over
  after_store (ok conflict) = over
  after_store (ok (unavailable reason)) = over
  after_store (err e) = over

  abbrev pub after_push : Result Raised PushOutcome → Stage
  after_push (ok (executed k result)) = finalizing k result
  after_push (ok (prevented s f)) = over
  after_push (ok (stored s)) = over
  after_push (err e) = over

  -- The next step of a request. The readings after a refused row are one step with the refusal: all
  -- they decide is what is answered.
  unfoldable pub proceed : Stage → World → Stage × World
  proceed (begun command) w =
      if command.message.fingerprint == command.confirmation.message_fingerprint
      then (
        look_resolved command
            (out.resolve_at_accept command.confirmation.owner_identity
              command.confirmation.channel_public_id command.confirmation.recipient_public_id)
            w.db,
        w,
      )
      else (over, w)
  proceed (storing command target candidate) w =
      let accepted = accepted_command rt out command target candidate in
      let (r, db') =
        accept_fenced rt (λ i db. db) accepted out.accepted_at out.classified_at w.db
          (out.fence accepted.target.channel_public_id) in
      (after_store (of_accept_result rt out command target candidate r), record w { db = db' })
  proceed (pushing a) w = let (r, w') = push_accepted rt (stepwise out) a w in (after_push r, w')
  proceed (finalizing k result) w = (over, (finalize_linked_push rt (stepwise out) k result w).1)
  proceed over w = (over, w)

abbrev pub advanced : ℕ → Outside → Stage × World → Server → Server
advanced j out (stage, w) server = record {
  world = w;
  requests = set_nth j (record { out = out; stage = stage }) server.requests;
}

abbrev pub advance_request : Runtime → ℕ → Option Request → Server → Server
advance_request rt j none server = server
advance_request rt j (some r) server =
    advanced j r.out (proceed rt r.out r.stage server.world) server

-- The requests go on in this order, one step each time.
unfoldable pub serve : Runtime → List ℕ → Server → Server
serve rt [] server = server
serve rt (j ∷ schedule) server =
    serve rt schedule (advance_request rt j (nth j server.requests) server)

-- The requests at their arrival.
abbrev pub arrived : List (Outside × SubmitLinkedDelivery) → List Request
arrived [] = []
arrived ((out, command) ∷ rest) = record { out = out; stage = begun command } ∷ arrived rest
