-- ===== src/Webhook/Dispatch.antt =====
-- backend/linewebhooks/services.py: from a request to its receipts and to the handlers. The credential
-- repository, the signature check, the JSON parser, the handlers and the clocks are parameters.
pub mod Settled
pub mod Contexts
pub mod Once
use line_message_playground.Prelude.{
  ℕ, zero, suc, ◌+◌, ◌-◌, ◌*◌, Bool, true, false, ◌&&◌, Option, none, some, List, [], ◌∷◌, ◌==◌,
  ltb, leb, map, length, if◌then◌else◌, Result, ok, err,
}
use line_message_playground.Prelude.Text.{Text, text_eq}
use line_message_playground.Prelude.Rows.{count_where}
use line_message_playground.Webhook.Types.{
  VerifiedEventData, VerifiedWebhookEvent, HandlerOutcome, handler_succeeded, handler_failed,
  HandlerExecutionProfile, local, deadline_managed_external, HandlerExecutionContext, ValueError,
  make_context, HandlerRegistration, Resolved, registered, not_registered, other_object,
  ReceiptStatus, processing, unsupported, FailureCode, code_handler_failed,
  code_dispatch_deadline_exceeded, ReceiptCandidate, ReceiptDecision, AuditOutcome,
  channel_rejected, signature_rejected, payload_rejected, empty_accepted, event_accepted,
  event_duplicate, event_unsupported, audit_handler_processed, audit_handler_failed,
  dispatch_deadline_exceeded, storage_unavailable, is_processing, is_unsupported,
}
use line_message_playground.Webhook.Receipts.{
  ReceiptDb, FenceStatus, AcceptResult, decided, receipt_channel_unavailable,
  receipt_storage_retryable, receipt_storage_unavailable, does_not_exist, accept_batch,
  FinalizationResult, updated, unchanged, finalization_failed, mark_processed, mark_failed,
}

-- What the dispatch reads from outside, by the position of the event: the monotonic clock, the
-- handlers (nothing for an exception), whether the final update of the receipt raises, and the time.
pub record Environment : Type 0 where
  pub clock : ℕ → ℕ
  pub handle : ℕ → VerifiedWebhookEvent → HandlerExecutionContext → Option HandlerOutcome
  pub fails : ℕ → Bool
  pub now : ℕ → ℕ

pub record DispatchItem : Type 0 where
  pub event : VerifiedEventData
  pub registration : Resolved
  pub decision : ReceiptDecision

-- The locals of `_dispatch`, the receipts, and the calls of handlers, the latest first.
pub record DispatchState : Type 0 where
  pub db : ReceiptDb
  pub audits : List (AuditOutcome × Text)
  pub calls : List (VerifiedWebhookEvent × HandlerExecutionContext)
  pub storage_failed : Bool
  pub dispatch_closed : Bool
  pub dispatch_index : ℕ

-- `_dispatch` goes on, or an exception leaves it.
pub data Step : Type 0 where
  next : DispatchState → Step
  raised : ValueError → DispatchState → Step

abbrev pub is_registered : Resolved → Bool
is_registered (registered r) = true
is_registered _ = false

abbrev pub dispatchable : DispatchItem → Bool
dispatchable i =
    is_registered i.registration && i.decision.created && is_processing i.decision.status

-- 0.1 s and 0.02 s for each pending event, and 0.2 s for the response.
abbrev pub required_reserve : ℕ → ℕ
required_reserve pending = pending * 100000 + pending * 20000 + 200000

abbrev pub audit_event : AuditOutcome → VerifiedEventData → DispatchState → DispatchState
audit_event o e s = record s { audits = (o, e.webhook_event_id) ∷ s.audits }

abbrev pub envelope : ℕ → VerifiedEventData → VerifiedWebhookEvent
envelope channel e = record {
  channel_public_id = channel;
  webhook_event_id = e.webhook_event_id;
  event_type = e.event_type;
  occurred_at_ms = e.occurred_at_ms;
  is_redelivery = e.is_redelivery;
  event_data = e.event;
}

abbrev pub is_failure : FinalizationResult → Bool
is_failure finalization_failed = true
is_failure _ = false

-- The end of an event: the audit of its outcome, and of a final update that failed.
abbrev pub after_finalization :
    AuditOutcome
    → VerifiedEventData
    → DispatchState
    → FinalizationResult × ReceiptDb
    → DispatchState
after_finalization o e s (f, db) =
    let audits = (o, e.webhook_event_id) ∷ s.audits in
    record s {
      db = db;
      audits = if is_failure f then (storage_unavailable, e.webhook_event_id) ∷ audits else audits;
      storage_failed = if is_failure f then true else s.storage_failed;
    }

abbrev pub external_cutoff : HandlerExecutionProfile → ℕ → ℕ → Option ℕ
external_cutoff local deadline pending = none
external_cutoff deadline_managed_external deadline pending =
    some (deadline - required_reserve pending)

abbrev pub handled_outcome : Option HandlerOutcome → AuditOutcome
handled_outcome (some handler_succeeded) = audit_handler_processed
handled_outcome _ = audit_handler_failed

module _ (env : Environment) (channel deadline position : ℕ) where
  abbrev pub close_receipt : VerifiedEventData → ReceiptDecision → DispatchState → DispatchState
  unfolding mark_failed
  close_receipt e d s = after_finalization dispatch_deadline_exceeded e s (
      mark_failed (env.fails position) d.receipt_id code_dispatch_deadline_exceeded
        (env.now position) s.db)

  -- The final update after a handler: anything but a success is a failure.
  abbrev pub finalize_handled :
      ReceiptDecision → Option HandlerOutcome → ReceiptDb → FinalizationResult × ReceiptDb
  unfolding mark_processed mark_failed
  finalize_handled d (some handler_succeeded) db =
      mark_processed (env.fails position) d.receipt_id (env.now position) db
  finalize_handled d (some handler_failed) db =
      mark_failed (env.fails position) d.receipt_id code_handler_failed (env.now position) db
  finalize_handled d none db =
      mark_failed (env.fails position) d.receipt_id code_handler_failed (env.now position) db

  abbrev pub settle_handled :
      VerifiedEventData → ReceiptDecision → DispatchState → Option HandlerOutcome → DispatchState
  settle_handled e d s o = after_finalization (handled_outcome o) e s (finalize_handled d o s.db)

  abbrev pub call_with :
      VerifiedEventData
      → HandlerRegistration
      → ReceiptDecision
      → DispatchState
      → Result ValueError HandlerExecutionContext
      → Step
  call_with e r d s (err x) = raised x s
  call_with e r d s (ok context) = next (
      settle_handled e d
        (record s {
          calls = (envelope channel e, context) ∷ s.calls;
          dispatch_index = suc s.dispatch_index;
        })
        (env.handle r.handler (envelope channel e) context))

  abbrev pub call_handler :
      VerifiedEventData → HandlerRegistration → ReceiptDecision → ℕ → DispatchState → Step
  unfolding make_context
  call_handler e r d remaining s = call_with e r d (audit_event event_accepted e s) (
      make_context deadline s.dispatch_index remaining
        (external_cutoff r.execution_profile deadline (suc remaining)))

  abbrev pub closes : ℕ → DispatchState → Bool
  closes remaining s =
      if s.dispatch_closed
      then true
      else ltb deadline (env.clock position + required_reserve (suc remaining))

  -- A receipt that was created as processing, for a registered handler.
  abbrev pub dispatch_open :
      VerifiedEventData → HandlerRegistration → ReceiptDecision → ℕ → DispatchState → Step
  dispatch_open e r d remaining s =
      if closes remaining s
      then next (close_receipt e d (record s { dispatch_closed = true }))
      else call_handler e r d remaining (record s { dispatch_closed = false })

  abbrev pub dispatch_resolved :
      VerifiedEventData → Resolved → ReceiptDecision → ℕ → DispatchState → Step
  dispatch_resolved e not_registered d remaining s = next (audit_event event_unsupported e s)
  dispatch_resolved e other_object d remaining s = next (
      if is_unsupported d.status
      then audit_event event_unsupported e s
      else if not_processing d.status
      then audit_event event_duplicate e s
      else audit_event storage_unavailable e (record s { storage_failed = true }))
    where
      not_processing : ReceiptStatus → Bool
      not_processing t = if is_processing t then false else true
  dispatch_resolved e (registered r) d remaining s =
      if is_unsupported d.status
      then next (audit_event event_unsupported e s)
      else if is_processing d.status
      then dispatch_open e r d remaining s
      else next (audit_event event_duplicate e s)

  -- The body of the loop, `remaining` being the number of later events that can be dispatched.
  unfoldable pub dispatch_item : DispatchItem → ℕ → DispatchState → Step
  dispatch_item i remaining s =
      if i.decision.created
      then dispatch_resolved i.event i.registration i.decision remaining s
      else next (audit_event event_duplicate i.event s)

abbrev pub and_then : Step → (DispatchState → Step) → Step
and_then (raised x s) k = raised x s
and_then (next s) k = k s

-- `_dispatch` from a position on.
unfoldable pub dispatch : Environment → ℕ → ℕ → ℕ → List DispatchItem → DispatchState → Step
unfolding dispatch_item
dispatch env channel deadline position [] s = next s
dispatch env channel deadline position (i ∷ is) s =
    and_then (dispatch_item env channel deadline position i (count_where dispatchable is) s)
      (λ s'. dispatch env channel deadline (suc position) is s')

abbrev pub initial_status : Resolved → ReceiptStatus
initial_status not_registered = unsupported
initial_status _ = processing

-- `_candidate`
unfoldable pub candidate : ℕ → VerifiedEventData → Resolved → ReceiptCandidate
candidate channel e r = record {
  channel_public_id = channel;
  webhook_event_id = e.webhook_event_id;
  event_type = e.event_type;
  occurred_at_ms = e.occurred_at_ms;
  is_redelivery = e.is_redelivery;
  initial_status = initial_status r;
}

abbrev pub item_before : DispatchItem → Option (List DispatchItem) → Option (List DispatchItem)
item_before i none = none
item_before i (some is) = some (i ∷ is)

-- `_valid_decisions`, and the three tuples taken together: nothing if they do not fit.
abbrev pub items :
    List VerifiedEventData → (Text → Resolved) → List ReceiptDecision → Option (List DispatchItem)
items [] registry [] = some []
items (e ∷ es) registry (d ∷ ds) =
    let rest = items es registry ds in
    if text_eq e.webhook_event_id d.webhook_event_id
    then item_before (record { event = e; registration = registry e.event_type; decision = d }) rest
    else none
items _ registry _ = none

pub data IngressResult : Type 0 where
  accepted rejected_channel_unavailable rejected_signature_rejected rejected_payload_rejected
        rejected_storage_unavailable rejected_unexpected :
      IngressResult

-- What the services around `ingest` answer for one request: the channel of its key, whether its
-- credential is there and the signature is verified, the parsed payload, and the clocks.
pub record Request : Type 0 where
  pub started_at : ℕ
  pub channel : Option ℕ
  pub has_credential : Bool
  pub is_verified : Bool
  pub payload : Option (List VerifiedEventData)
  pub fence : FenceStatus
  pub accept_fails : Bool
  pub accepted_at : ℕ
  pub env : Environment

-- The receipts and what a run leaves behind.
pub record Ingress : Type 0 where
  pub receipts : ReceiptDb
  pub log : List (AuditOutcome × Text)
  pub handled : List (VerifiedWebhookEvent × HandlerExecutionContext)

abbrev pub logged : AuditOutcome → Ingress → Ingress
logged o w = record w { log = (o, []) ∷ w.log }

abbrev pub started : ReceiptDb → Ingress → DispatchState
started db w = record {
  db = db;
  audits = w.log;
  calls = w.handled;
  storage_failed = false;
  dispatch_closed = false;
  dispatch_index = 0;
}

abbrev pub left : DispatchState → Ingress
left s = record { receipts = s.db; log = s.audits; handled = s.calls }

abbrev pub answered : Step → IngressResult × Ingress
answered (raised x s) = (rejected_unexpected, left s)
answered (next s) = (if s.storage_failed then rejected_storage_unavailable else accepted, left s)

module _ (registry : Text → Resolved) (q : Request) where
  abbrev pub dispatch_decided :
      ℕ → Option (List DispatchItem) → ReceiptDb → Ingress → IngressResult × Ingress
  unfolding dispatch
  dispatch_decided channel none db w =
      (rejected_storage_unavailable, logged storage_unavailable (record w { receipts = db }))
  dispatch_decided channel (some is) db w =
      answered (dispatch q.env channel (q.started_at + 2000000) 0 is (started db w))

  abbrev pub ingest_accepted :
      ℕ → List VerifiedEventData → AcceptResult × ReceiptDb → Ingress → IngressResult × Ingress
  ingest_accepted channel es (decided ds, db) w =
      dispatch_decided channel (items es registry ds) db w
  ingest_accepted channel es (receipt_channel_unavailable, db) w =
      (rejected_channel_unavailable, logged channel_rejected (record w { receipts = db }))
  ingest_accepted channel es (receipt_storage_retryable, db) w =
      (rejected_storage_unavailable, logged storage_unavailable (record w { receipts = db }))
  ingest_accepted channel es (receipt_storage_unavailable, db) w =
      (rejected_storage_unavailable, logged storage_unavailable (record w { receipts = db }))
  ingest_accepted channel es (does_not_exist, db) w =
      (rejected_unexpected, record w { receipts = db })

  abbrev pub ingest_payload :
      ℕ → Option (List VerifiedEventData) → Ingress → IngressResult × Ingress
  unfolding accept_batch candidate
  ingest_payload channel none w = (rejected_payload_rejected, logged payload_rejected w)
  ingest_payload channel (some []) w = (accepted, logged empty_accepted w)
  ingest_payload channel (some (e ∷ es)) w =
      ingest_accepted channel (e ∷ es)
        (accept_batch q.accept_fails q.fence
          (map (λ x. candidate channel x (registry x.event_type)) (e ∷ es)) q.accepted_at
          w.receipts)
        w

  abbrev pub ingest_channel : Option ℕ → Ingress → IngressResult × Ingress
  ingest_channel none w = (rejected_channel_unavailable, logged channel_rejected w)
  ingest_channel (some channel) w =
      if q.has_credential
      then (if q.is_verified
          then ingest_payload channel q.payload w
          else (rejected_signature_rejected, logged signature_rejected w))
      else (rejected_channel_unavailable, logged channel_rejected w)

  -- `WebhookIngressService.ingest` up to its `finally`.
  unfoldable pub ingest : Ingress → IngressResult × Ingress
  ingest w = if leb q.started_at 0 then (rejected_unexpected, w) else ingest_channel q.channel w

-- Requests, one after the other.
unfoldable pub ingest_all : (Text → Resolved) → List Request → Ingress → Ingress
unfolding ingest
ingest_all registry [] w = w
ingest_all registry (q ∷ qs) w = ingest_all registry qs (ingest registry q w).1
