-- ===== src/Webhook/Dispatch/Once.antt =====
-- How often a handler is called for one event.
use line_message_playground.Prelude.{
  ℕ, suc, ◌+◌, ◌≤◌, ◌≡◌, refl, ◌∙◌, ap, Bool, true, false, ◌&&◌, Option, none, some, List, [], ◌∷◌,
  leb, map, if◌then◌else◌, Bool-cases, inl, inr, arith, Result, ok, err,
}
use line_message_playground.Prelude.Text.{Text, text_eq, text_eq_iff}
use line_message_playground.Prelude.Rows.{count_where}
use line_message_playground.Webhook.Types.{
  VerifiedEventData, VerifiedWebhookEvent, HandlerExecutionContext, HandlerRegistration,
  ReceiptDecision, ReceiptStatus, processing, processed, failed, unsupported, Resolved, registered,
  not_registered, other_object, ValueError, HandlerOutcome, handler_succeeded, handler_failed,
}
use line_message_playground.Webhook.Receipts.{
  ReceiptDb, AcceptResult, decided, receipt_channel_unavailable, receipt_storage_retryable,
  receipt_storage_unavailable, does_not_exist, mark_processed, mark_failed,
}
use line_message_playground.Webhook.Receipts.Created.{
  weight, creates, Accepts, accept_batch-Accepts, finalize_receipt-weight,
}
use line_message_playground.Webhook.Dispatch.{
  Environment, DispatchItem, DispatchState, Step, next, raised, dispatchable, closes, call_handler,
  call_with, finalize_handled, close_receipt, dispatch_open, dispatch_item, and_then, dispatch,
  item_before, items, Ingress, Request, started, answered, candidate, dispatch_decided,
  ingest_accepted, ingest_payload, ingest_channel, ingest, ingest_all,
}

-- The call was for the event with this id.
abbrev pub is_for : Text → VerifiedWebhookEvent × HandlerExecutionContext → Bool
is_for id (e, context) = text_eq e.webhook_event_id id

abbrev creates_for : Text → DispatchItem → Bool
creates_for id i = i.decision.created && text_eq i.event.webhook_event_id id

abbrev state_of : Step → DispatchState
state_of (next s) = s
state_of (raised x s) = s

module _ (id : Text) where
  -- At most `n` calls more for the event, and the same receipts up to their status.
  abbrev Calls : ℕ → DispatchState → DispatchState → Type 0
  Calls n s s' =
      (count_where (is_for id) s'.calls ≤ count_where (is_for id) s.calls + n)
      × (weight id s'.db ≡ weight id s.db)

  module _ (env : Environment) (channel deadline position : ℕ) where
    finalize_handled-weight :
        (d : ReceiptDecision) (o : Option HandlerOutcome) (db : ReceiptDb)
        → weight id (finalize_handled env channel deadline position d o db).1 ≡ weight id db
    unfolding finalize_handled mark_processed mark_failed
    finalize_handled-weight d (some handler_succeeded) db =
        finalize_receipt-weight id _ d.receipt_id _ _ _ db
    finalize_handled-weight d (some handler_failed) db =
        finalize_receipt-weight id _ d.receipt_id _ _ _ db
    finalize_handled-weight d none db = finalize_receipt-weight id _ d.receipt_id _ _ _ db

    close_receipt-Calls :
        (e : VerifiedEventData) (d : ReceiptDecision) (s : DispatchState)
        → Calls 0 s (close_receipt env channel deadline position e d s)
    unfolding close_receipt mark_failed
    close_receipt-Calls e d s = (omega arith, finalize_receipt-weight id _ d.receipt_id _ _ _ s.db)

    abbrev of_event : VerifiedEventData → ℕ
    of_event e = if text_eq e.webhook_event_id id then 1 else 0

    call_with-Calls :
        (e : VerifiedEventData) (r : HandlerRegistration) (d : ReceiptDecision) (s : DispatchState)
        (c : Result ValueError HandlerExecutionContext)
        → Calls (of_event e) s (state_of (call_with env channel deadline position e r d s c))
    call_with-Calls e r d s (err x) = (omega arith, refl)
    call_with-Calls e r d s (ok context) = (ground arith, finalize_handled-weight d _ s.db)

    dispatch_open-Calls :
        (e : VerifiedEventData) (r : HandlerRegistration) (d : ReceiptDecision) (remaining : ℕ)
        (s : DispatchState)
        → Calls
            (of_event e)
            s
            (state_of (dispatch_open env channel deadline position e r d remaining s))
    unfolding call_handler
    dispatch_open-Calls e r d remaining s =
        let c = close_receipt-Calls e d (record s { dispatch_closed = true }) in
        elim (Bool-cases (closes env channel deadline position remaining s)) [
          | inl y ↦ rw y (omega (arith, c.0), c.1)
          | inr n ↦ rw n (call_with-Calls e r d _ _)
        ]

    dispatch_item-Calls :
        (i : DispatchItem) (remaining : ℕ) (s : DispatchState)
        → Calls
            (if creates_for id i then 1 else 0)
            s
            (state_of (dispatch_item env channel deadline position i remaining s))
    unfolding dispatch_item close_receipt call_handler finalize_handled
    dispatch_item-Calls i remaining s =
        go i.decision.created i.registration i.decision.status refl refl refl
      where
        go :
            (b : Bool) (r : Resolved) (t : ReceiptStatus)
            → i.decision.created ≡ b
            → i.registration ≡ r
            → i.decision.status ≡ t
            → Calls
                (if creates_for id i then 1 else 0)
                s
                (state_of (dispatch_item env channel deadline position i remaining s))
        go false r t e g h = rw e (omega arith, refl)
        go true not_registered t e g h = rw (e, g) (omega arith, refl)
        go true other_object processing e g h = rw (e, g, h) (omega arith, refl)
        go true other_object processed e g h = rw (e, g, h) (omega arith, refl)
        go true other_object failed e g h = rw (e, g, h) (omega arith, refl)
        go true other_object unsupported e g h = rw (e, g, h) (omega arith, refl)
        go true (registered r) processing e g h =
            rw (e, g, h) (dispatch_open-Calls i.event r i.decision remaining s)
        go true (registered r) processed e g h = rw (e, g, h) (omega arith, refl)
        go true (registered r) failed e g h = rw (e, g, h) (omega arith, refl)
        go true (registered r) unsupported e g h = rw (e, g, h) (omega arith, refl)

  dispatch-Calls :
      (env : Environment) (channel deadline position : ℕ) (is : List DispatchItem)
      (s : DispatchState)
      → Calls
          (count_where (creates_for id) is)
          s
          (state_of (dispatch env channel deadline position is s))
  unfolding dispatch
  dispatch-Calls env channel deadline position [] s = (omega arith, refl)
  dispatch-Calls env channel deadline position (i ∷ is) s =
      go (dispatch_item env channel deadline position i (count_where dispatchable is) s)
        (dispatch_item-Calls env channel deadline position i (count_where dispatchable is) s)
        (λ u. dispatch-Calls env channel deadline (suc position) is u)
    where
      go :
          (t : Step)
          → Calls (if creates_for id i then 1 else 0) s (state_of t)
          → ((u : DispatchState)
              → Calls
                  (count_where (creates_for id) is)
                  u
                  (state_of (dispatch env channel deadline (suc position) is u)))
          → Calls
              (count_where (creates_for id) (i ∷ is))
              s
              (state_of (and_then t (dispatch env channel deadline (suc position) is)))
      go (raised x u) g rest = (ground arith, g.1)
      go (next u) g rest = let r = rest u in (ground arith, r.1 ∙ g.1)

  -- Every call for the event is covered by a receipt of it.
  abbrev Covered : Ingress → Type 0
  Covered w = count_where (is_for id) w.handled ≤ weight id w.receipts

  -- The items are as many for the event as the decisions that create its receipt.
  abbrev Counts : List ReceiptDecision → Option (List DispatchItem) → Type 0
  Counts ds none = Unit
  Counts ds (some is) = count_where (creates_for id) is ≡ count_where (creates id) ds

  items-Counts :
      (es : List VerifiedEventData) (registry : Text → Resolved) (ds : List ReceiptDecision)
      → Counts ds (items es registry ds)
  items-Counts [] registry [] = refl
  items-Counts [] registry (d ∷ ds) = tt
  items-Counts (e ∷ es) registry [] = tt
  items-Counts (e ∷ es) registry (d ∷ ds) =
      go (text_eq e.webhook_event_id d.webhook_event_id) (items es registry ds) refl
        (items-Counts es registry ds)
    where
      go :
          (b : Bool) (o : Option (List DispatchItem))
          → text_eq e.webhook_event_id d.webhook_event_id ≡ b
          → Counts ds o
          → Counts (d ∷ ds) (
              if b
              then item_before
                  (record { event = e; registration = registry e.event_type; decision = d })
                  o
              else none)
      go false o p c = tt
      go true none p c = tt
      go true (some is) p c = ground (
        arith,
        text_eq_iff e.webhook_event_id d.webhook_event_id,
        ap (λ t. text_eq t id) ((text_eq_iff e.webhook_event_id d.webhook_event_id).0 p),
      )

  module _ (registry : Text → Resolved) (q : Request) where
    answered-Covered :
        (n : ℕ) (s : DispatchState) (t : Step)
        → Calls n s (state_of t)
        → count_where (is_for id) s.calls + n ≤ weight id s.db
        → Covered (answered t).1
    answered-Covered n s (raised x u) c h = omega (arith, c.0, c.1)
    answered-Covered n s (next u) c h = omega (arith, c.0, c.1)

    dispatch_decided-Covered :
        (channel : ℕ) (ds : List ReceiptDecision) (o : Option (List DispatchItem)) (db : ReceiptDb)
        (w : Ingress)
        → Covered w
        → Counts ds o
        → count_where (creates id) ds + weight id w.receipts ≤ weight id db
        → Covered (dispatch_decided registry q channel o db w).1
    unfolding dispatch_decided
    dispatch_decided-Covered channel ds none db w h c a = omega arith
    dispatch_decided-Covered channel ds (some is) db w h c a =
        answered-Covered (count_where (creates_for id) is) (started db w)
          (dispatch q.env channel (q.started_at + 2000000) 0 is (started db w))
          (dispatch-Calls q.env channel (q.started_at + 2000000) 0 is (started db w)) (omega arith)

    ingest_accepted-Covered :
        (channel : ℕ) (es : List VerifiedEventData) (r : AcceptResult × ReceiptDb) (w : Ingress)
        → Covered w
        → Accepts id w.receipts r
        → Covered (ingest_accepted registry q channel es r w).1
    ingest_accepted-Covered channel es (decided ds, db) w h a =
        dispatch_decided-Covered channel ds (items es registry ds) db w h
          (items-Counts es registry ds) a
    ingest_accepted-Covered channel es (receipt_channel_unavailable, db) w h a = omega arith
    ingest_accepted-Covered channel es (receipt_storage_retryable, db) w h a = omega arith
    ingest_accepted-Covered channel es (receipt_storage_unavailable, db) w h a = omega arith
    ingest_accepted-Covered channel es (does_not_exist, db) w h a = omega arith

    ingest_payload-Covered :
        (channel : ℕ) (o : Option (List VerifiedEventData)) (w : Ingress)
        → Covered w
        → Covered (ingest_payload registry q channel o w).1
    unfolding ingest_payload
    ingest_payload-Covered channel none w h = h
    ingest_payload-Covered channel (some []) w h = h
    ingest_payload-Covered channel (some (e ∷ es)) w h =
        ingest_accepted-Covered channel (e ∷ es) _ w h (
          accept_batch-Accepts id q.accept_fails q.fence
            (map (λ x. candidate channel x (registry x.event_type)) (e ∷ es)) q.accepted_at
            w.receipts)

    ingest_channel-Covered :
        (c : Option ℕ) (a b : Bool) (w : Ingress)
        → q.has_credential ≡ a
        → q.is_verified ≡ b
        → Covered w
        → Covered (ingest_channel registry q c w).1
    unfolding ingest_payload dispatch_decided
    ingest_channel-Covered none a b w f g h = h
    ingest_channel-Covered (some channel) false b w f g h = rw f h
    ingest_channel-Covered (some channel) true false w f g h = rw (f, g) h
    ingest_channel-Covered (some channel) true true w f g h =
        rw (f, g) (ingest_payload-Covered channel q.payload w h)

    ingest-Covered : (w : Ingress) → Covered w → Covered (ingest registry q w).1
    unfolding ingest
    ingest-Covered w h = elim (Bool-cases (leb q.started_at 0)) [
      | inl e ↦ rw e h
      | inr e ↦ rw e (ingest_channel-Covered q.channel q.has_credential q.is_verified w refl refl h)
    ]

  ingest_all-Covered :
      (registry : Text → Resolved) (qs : List Request) (w : Ingress)
      → Covered w
      → Covered (ingest_all registry qs w)
  unfolding ingest_all
  ingest_all-Covered registry [] w h = h
  ingest_all-Covered registry (q ∷ qs) w h =
      ingest_all-Covered registry qs (ingest registry q w).1 (ingest-Covered registry q w h)

-- Over any requests, with repeated and redelivered events, with receipts and updates that fail, with
-- handlers that raise: handlers are called at most once in all for one webhook event id, if at the
-- start no more calls for it were made than it has receipts.
pub ingest_handles_once :
    (id : Text) (registry : Text → Resolved) (qs : List Request) (w : Ingress)
    → count_where (is_for id) w.handled ≤ weight id w.receipts
    → count_where (is_for id) (ingest_all registry qs w).handled ≤ 1
ingest_handles_once id registry qs w h =
    let c = ingest_all-Covered id registry qs w h in ground arith
