-- ===== src/Delivery/Service/Falls.antt =====
-- The steps of a submission against the pushes of one operation: storing the attempt, the push, and the
-- result.
use line_message_playground.Prelude.{
  ℕ, ◌≡◌, ◌≢◌, refl, sym, ap, subst, Bool, true, false, ◌==◌, ==_iff, Option, some, none, List, [],
  ◌∷◌, ◌++◌, if◌then◌else◌, inl, inr, Bool-cases, arith, Result, ok, err,
}
use line_message_playground.Prelude.Text.{Text, text_eq}
use line_message_playground.Prelude.Rows.{first, exists}
use line_message_playground.Delivery.Types.{
  Uuid, Time, AcceptedDeliveryCommand, AttemptAcceptResult, attempt_accepted, existing_attempt,
  attempt_conflict, attempt_target_unavailable, attempt_storage_failed, LiveDeliveryTarget,
  MessageSnapshot, TargetSnapshot, LinePushResult, ReceiptCapabilityCandidate, DeliverySnapshot,
  Raised, SubmitLinkedDelivery, PrePushFailureType, configuration, target_changed, line_push,
  pre_push_failure,
}
use line_message_playground.Delivery.Formatter.{format_message}
use line_message_playground.Delivery.Store.{Attempt, AttemptDb, is_processing, conflicts}
use line_message_playground.Delivery.Repository.{
  Runtime, snapshot, accept_fenced, after_integrity_error, finalize,
}
use line_message_playground.Delivery.Row.{
  FenceStatus, locked, channel_not_found, fence_failed, present, snapshot_fields, snapshot_target,
  of_operation, of_request, accepted_if_ok, new_attempt,
}
use line_message_playground.Delivery.Repository.Accept.{stored, with_row, store_attempt_lem}
use line_message_playground.Delivery.Repository.Operations.{first_not_new, finalize-Taken}
use line_message_playground.Delivery.Service.{
  TargetResolution, live, target_unavailable, Outside, AcceptedLinkedAttempt, PushOutcome, World,
  same_push_target, accepted_command, of_accept_result, of_prevented, is_pre_push_failure,
  prevent_linked_push, push_once, push_with_token, push_accepted, finalize_linked_push,
  push_command,
}
use line_message_playground.Delivery.Service.Requests.{
  Stage, begun, storing, pushing, finalizing, over, stepwise, look_resolved, after_store,
  after_push, proceed,
}
use line_message_playground.Delivery.Service.Pending.{
  taken, may_push, Falls, still-Falls, look_resolved-quiet,
}

module _ (operation_id : Uuid) where
  module _ (rt : Runtime) (out : Outside) where
    finalizing-Falls :
        (k : ℕ) (result : LinePushResult) (w : World)
        → Falls operation_id w (finalizing k result) (proceed rt out (finalizing k result) w)
    unfolding proceed finalize_linked_push
    finalizing-Falls k result w =
        still-Falls operation_id rt out w (finalize_linked_push rt (stepwise out) k result w).1
          (finalizing k result) over refl refl
          (finalize-Taken rt k (line_push result) out.completed_at out.read_at w.db operation_id)

    of_prevented-over :
        (f : PrePushFailureType) (r : Result Raised DeliverySnapshot)
        → after_push rt out (of_prevented rt (stepwise out) f r) ≡ over
    of_prevented-over f (err e) = refl
    of_prevented-over f (ok s) = elim (Bool-cases (is_pre_push_failure rt (stepwise out) f s)) [
      | inl e ↦ rw e refl
      | inr e ↦
          rw e
            (elim (Bool-cases (is_processing s.status)) [ inl p ↦ rw p refl | inr p ↦ rw p refl ])
    ]

    after_prevent :
        (k : ℕ) (f : PrePushFailureType) (w : World)
        → after_push rt out (prevent_linked_push rt (stepwise out) k f w).0 ≡ over
    unfolding prevent_linked_push
    after_prevent k f w =
        of_prevented-over f
          (finalize rt (λ i db. db) k (pre_push_failure f) out.completed_at out.read_at w.db).0

  -- What a stored attempt shows is its command's operation.
  present-operation :
      (a : Attempt) (now : Time) (t : Option TargetSnapshot) (m : Result Raised MessageSnapshot)
      (s : DeliverySnapshot)
      → present a now t m ≡ ok s
      → s.operation_id ≡ a.operation_id
  unfolding snapshot_fields
  present-operation a now none m s h = cc
  present-operation a now (some t) (err e) s h = cc
  present-operation a now (some t) (ok m) s h = ground arith

  snapshot-operation :
      (rt : Runtime) (a : Attempt) (now : Time) (s : DeliverySnapshot)
      → snapshot rt a now ≡ ok s
      → s.operation_id ≡ a.operation_id
  unfolding snapshot
  snapshot-operation rt a now s h =
      present-operation a now (snapshot_target a)
        (format_message rt.is_space rt.message_digest a.subject a.body) s h

  append-taken :
      (rows : List Attempt) (a : Attempt)
      → exists (λ (b : Attempt). b.operation_id == operation_id) rows ≡ true
      → exists (λ (b : Attempt). b.operation_id == operation_id) (rows ++ a ∷ []) ≡ true
  append-taken [] a h = cc
  append-taken (r ∷ rows) a h = ground (arith, append-taken rows a)

  append-own :
      (rows : List Attempt) (a : Attempt)
      → a.operation_id ≡ operation_id
      → exists (λ (b : Attempt). b.operation_id == operation_id) (rows ++ a ∷ []) ≡ true
  append-own [] a h = ground arith
  append-own (r ∷ rows) a h = ground (arith, append-own rows a)

  -- A row that conflicts with none is the first of its operation.
  no_conflict-own :
      (a : Attempt) (rows : List Attempt)
      → exists (conflicts a) rows ≡ false
      → a.operation_id ≡ operation_id
      → exists (λ (b : Attempt). b.operation_id == operation_id) rows ≡ false
  unfolding conflicts
  no_conflict-own a [] h e = refl
  no_conflict-own a (r ∷ rows) h e = ground (arith, no_conflict-own a rows)

  module _ (rt : Runtime) (out : Outside) (command : SubmitLinkedDelivery)
      (target : LiveDeliveryTarget) (c : Option ReceiptCapabilityCandidate) (w : World) where
    abbrev cmd : AcceptedDeliveryCommand
    cmd = accepted_command rt out command target c

    abbrev stage_after : Result Raised AttemptAcceptResult → Stage
    stage_after r = after_store rt out (of_accept_result rt out command target c r)

    abbrev StoreFalls : Result Raised AttemptAcceptResult × AttemptDb → Type 0
    StoreFalls (r, db') =
        Falls operation_id w (storing command target c) (stage_after r, record w { db = db' })

    not_new-quiet :
        (r : Result Raised AttemptAcceptResult)
        → ((k : ℕ) (s : DeliverySnapshot) → r ≢ ok (attempt_accepted k s))
        → may_push operation_id (stage_after r) ≡ false
    not_new-quiet (ok (attempt_accepted k s)) h = absurd (h k s refl)
    not_new-quiet (ok (existing_attempt s)) h = refl
    not_new-quiet (ok attempt_conflict) h = refl
    not_new-quiet (ok attempt_target_unavailable) h = refl
    not_new-quiet (ok (attempt_storage_failed code)) h = refl
    not_new-quiet (err e) h = refl

    abbrev row : Attempt
    row = stored cmd out.accepted_at w.db

    abbrev new_world : World
    new_world = record w { db = with_row row w.db }

    -- A new row of another operation, or of this one where there was none.
    new-Falls :
        (s : DeliverySnapshot)
        → exists (conflicts row) w.db.rows ≡ false
        → s.operation_id ≡ command.operation_id
        → StoreFalls (ok (attempt_accepted w.db.next_pk s), with_row row w.db)
    unfolding new_attempt
    new-Falls s n e = elim (Bool-cases (command.operation_id == operation_id)) [
      | inl h ↦
          let same : command.operation_id ≡ operation_id =
            (==_iff command.operation_id operation_id).0 h in
          let fresh : taken operation_id w.db ≡ false = no_conflict-own row w.db.rows n same in
          let has : taken operation_id (with_row row w.db) ≡ true = append-own w.db.rows row same in
          rw (fresh, has, e, h) (omega arith)
      | inr h ↦
          still-Falls operation_id rt out w new_world (storing command target c)
            (stage_after (ok (attempt_accepted w.db.next_pk s))) refl (rw (e, h) refl)
            (append-taken w.db.rows row)
    ]

    created-Falls :
        (x : Result Raised DeliverySnapshot)
        → snapshot rt row out.accepted_at ≡ x
        → exists (conflicts row) w.db.rows ≡ false
        → StoreFalls (accepted_if_ok w.db.next_pk x, with_row row w.db)
    unfolding new_attempt
    created-Falls (ok s) e n = new-Falls s n (snapshot-operation rt row out.accepted_at s e)
    created-Falls (err x) e n =
        still-Falls operation_id rt out w new_world (storing command target c) over refl refl
          (append-taken w.db.rows row)

    locked-Falls :
        (b : Bool)
        → exists (conflicts row) w.db.rows ≡ b
        → StoreFalls (
            if b
            then after_integrity_error rt (λ i db. db) cmd out.classified_at w.db
            else (accepted_if_ok w.db.next_pk (snapshot rt row out.accepted_at), with_row row w.db))
    locked-Falls false n = created-Falls (snapshot rt row out.accepted_at) refl n
    locked-Falls true n =
        still-Falls operation_id rt out w w (storing command target c)
          (stage_after (after_integrity_error rt (λ i db. db) cmd out.classified_at w.db).0) refl
          (not_new-quiet (after_integrity_error rt (λ i db. db) cmd out.classified_at w.db).0 (
            first_not_new rt out.fence (λ i db. db) cmd out.accepted_at out.classified_at w.db
              (first (of_operation cmd) w.db.rows) (first (of_request cmd) w.db.rows)))
          (λ h. h)

    fenced-Falls :
        (f : FenceStatus)
        → StoreFalls (accept_fenced rt (λ i db. db) cmd out.accepted_at out.classified_at w.db f)
    fenced-Falls channel_not_found =
        still-Falls operation_id rt out w w (storing command target c) over refl refl (λ h. h)
    fenced-Falls (fence_failed code) =
        still-Falls operation_id rt out w w (storing command target c) over refl refl (λ h. h)
    fenced-Falls locked =
        subst StoreFalls
          (sym (store_attempt_lem rt (λ i db. db) cmd out.accepted_at out.classified_at w.db))
          (locked-Falls (exists (conflicts row) w.db.rows) refl)

  module _ (rt : Runtime) (out : Outside) (a : AcceptedLinkedAttempt) (w : World) where
    abbrev PushFalls : Result Raised PushOutcome × World → Type 0
    PushFalls (r, w') = Falls operation_id w (pushing a) (after_push rt out r, w')

    prevented-Falls :
        (f : PrePushFailureType)
        → PushFalls (prevent_linked_push rt (stepwise out) a.attempt_id f w)
    prevented-Falls f =
        still-Falls operation_id rt out w (prevent_linked_push rt (stepwise out) a.attempt_id f w).1
          (pushing a) (after_push rt out (prevent_linked_push rt (stepwise out) a.attempt_id f w).0)
          (unfold prevent_linked_push in refl)
          (ap (may_push operation_id) (after_prevent rt out a.attempt_id f w))
          (unfold prevent_linked_push in
            (finalize-Taken rt a.attempt_id (pre_push_failure f) out.completed_at out.read_at w.db
              operation_id))

    once-Falls :
        (token : Text) (r : TargetResolution) → PushFalls (push_once rt (stepwise out) a token r w)
    unfolding push_once
    once-Falls token (target_unavailable reason) =
        still-Falls operation_id rt out w w (pushing a) over refl refl (λ h. h)
    once-Falls token (live current) =
        let command = push_command rt (stepwise out) a token current in
        elim (Bool-cases (text_eq command.text [])) [
          | inl e ↦ rw e (still-Falls operation_id rt out w w (pushing a) over refl refl (λ h. h))
          | inr e ↦ rw e (ground arith)
        ]

    token-Falls :
        (r : TargetResolution) (token : Option Text)
        → PushFalls (push_with_token rt (stepwise out) a r token w)
    token-Falls r none = prevented-Falls configuration
    token-Falls r (some token) = elim (Bool-cases (same_push_target r a.push_preparation.target)) [
      | inl e ↦ rw e (once-Falls token r)
      | inr e ↦ rw e (prevented-Falls target_changed)
    ]

    push-Falls : PushFalls (push_accepted rt (stepwise out) a w)
    unfolding push_accepted
    push-Falls =
        token-Falls
          (out.resolve_at_push a.push_preparation.target.owner_identity
            a.push_preparation.target.snapshot.channel_public_id
            a.push_preparation.target.snapshot.recipient_public_id)
          (out.access_token a.push_preparation.target.snapshot.channel_public_id)

  module _ (rt : Runtime) (out : Outside) where
    pub proceed-Falls : (st : Stage) (w : World) → Falls operation_id w st (proceed rt out st w)
    unfolding proceed
    proceed-Falls (begun command) w =
        elim (Bool-cases
          (command.message.fingerprint == command.confirmation.message_fingerprint)) [
            | inl e ↦
                let r =
                  out.resolve_at_accept command.confirmation.owner_identity
                    command.confirmation.channel_public_id
                    command.confirmation.recipient_public_id in
                rw e (
                  still-Falls operation_id rt out w w (begun command)
                    (look_resolved rt out command r w.db) refl
                    (look_resolved-quiet operation_id rt out command r w.db) (λ h. h))
            | inr e ↦
                rw e (still-Falls operation_id rt out w w (begun command) over refl refl (λ h. h))
          ]
    proceed-Falls (storing command target c) w =
        fenced-Falls rt out command target c w
          (out.fence (accepted_command rt out command target c).target.channel_public_id)
    proceed-Falls (pushing a) w = push-Falls rt out a w
    proceed-Falls (finalizing k result) w = finalizing-Falls rt out k result w
    proceed-Falls over w = still-Falls operation_id rt out w w over over refl refl (λ h. h)
