-- ===== src/Webhook/Dispatch/Settled.antt =====
-- The receipts after a dispatch.
use line_message_playground.Prelude.{
  ℕ, suc, ◌≡◌, refl, subst, Bool, true, false, Option, none, some, List, [], ◌∷◌, Bool-cases, inl,
  inr, arith, All, length, ◌≤◌, ◌<◌, Result, ok, err,
}
use line_message_playground.Prelude.Rows.{count_where, exists, update_where}
use line_message_playground.Webhook.Types.{
  VerifiedEventData, HandlerExecutionContext, HandlerRegistration, ReceiptDecision, ReceiptStatus,
  FailureCode, processing, processed, failed, unsupported, Resolved, registered, not_registered,
  other_object, ValueError, HandlerOutcome, handler_succeeded, handler_failed, is_processing,
  WebhookEventReceipt,
}
use line_message_playground.Webhook.Receipts.{
  ReceiptDb, open_receipt, finalized, finalize_receipt, mark_processed, mark_failed,
}
use line_message_playground.Webhook.Dispatch.{
  Environment, DispatchItem, DispatchState, Step, next, raised, dispatchable, closes, call_handler,
  call_with, finalize_handled, close_receipt, dispatch_open, dispatch_item, and_then, dispatch,
}
use line_message_playground.Webhook.Dispatch.Contexts.{dispatch_never_raises}

update_where-settles :
    (status : ReceiptStatus) (code : Option FailureCode) (k now : ℕ)
    (rows : List WebhookEventReceipt)
    → is_processing status ≡ false
    → exists (open_receipt k) (update_where (open_receipt k) (finalized status code now) rows)
      ≡ false
update_where-settles status code k now [] h = refl
update_where-settles status code k now (r ∷ rows) h =
    ground (arith, update_where-settles status code k now rows)

update_where-keeps :
    (status : ReceiptStatus) (code : Option FailureCode) (j k now : ℕ)
    (rows : List WebhookEventReceipt)
    → is_processing status ≡ false
    → exists (open_receipt j) rows ≡ false
    → exists (open_receipt j) (update_where (open_receipt k) (finalized status code now) rows)
      ≡ false
update_where-keeps status code j k now [] h o = refl
update_where-keeps status code j k now (r ∷ rows) h o =
    ground (arith, update_where-keeps status code j k now rows)

-- No row with this key is processing.
abbrev Closed : ℕ → ReceiptDb → Type 0
Closed k db = exists (open_receipt k) db.rows ≡ false

-- From one table to another, every receipt that was not processing stays so.
abbrev Keeps : ReceiptDb → ReceiptDb → Type 0
Keeps db db' = (j : ℕ) → Closed j db → Closed j db'

abbrev Moves : Bool → ℕ → ReceiptDb → ReceiptDb → Type 0
Moves true k db db' = Closed k db' × Keeps db db'
Moves false k db db' = Keeps db db'

module _ (env : Environment) (channel deadline position : ℕ) where
  finalize_handled-settles :
      (d : ReceiptDecision) (o : Option HandlerOutcome) (db : ReceiptDb)
      → env.fails position ≡ false
      → Closed d.receipt_id (finalize_handled env channel deadline position d o db).1
        × Keeps db (finalize_handled env channel deadline position d o db).1
  unfolding mark_processed mark_failed finalize_receipt finalize_handled
  finalize_handled-settles d (some handler_succeeded) db f = rw f (
    update_where-settles _ _ d.receipt_id _ db.rows refl,
    λ j h. update_where-keeps _ _ j d.receipt_id _ db.rows refl h,
  )
  finalize_handled-settles d (some handler_failed) db f = rw f (
    update_where-settles _ _ d.receipt_id _ db.rows refl,
    λ j h. update_where-keeps _ _ j d.receipt_id _ db.rows refl h,
  )
  finalize_handled-settles d none db f = rw f (
    update_where-settles _ _ d.receipt_id _ db.rows refl,
    λ j h. update_where-keeps _ _ j d.receipt_id _ db.rows refl h,
  )

  close_receipt-settles :
      (e : VerifiedEventData) (d : ReceiptDecision) (s : DispatchState)
      → env.fails position ≡ false
      → Closed d.receipt_id (close_receipt env channel deadline position e d s).db
        × Keeps s.db (close_receipt env channel deadline position e d s).db
  unfolding mark_failed finalize_receipt close_receipt
  close_receipt-settles e d s f = rw f (
    update_where-settles _ _ d.receipt_id _ s.db.rows refl,
    λ j h. update_where-keeps _ _ j d.receipt_id _ s.db.rows refl h,
  )

  -- A step that goes on: it keeps what is settled, and settles the receipt if the item asks for it.
  abbrev Settles : Bool → ℕ → ReceiptDb → Step → Type 0
  Settles b k db (raised x s) = Unit
  Settles b k db (next s) = Moves b k db s.db

  call_handler-Settles :
      (e : VerifiedEventData) (r : HandlerRegistration) (d : ReceiptDecision) (remaining : ℕ)
      (s : DispatchState) (c : Result ValueError HandlerExecutionContext)
      → env.fails position ≡ false
      → Settles true d.receipt_id s.db (call_with env channel deadline position e r d s c)
  call_handler-Settles e r d remaining s (err x) f = tt
  call_handler-Settles e r d remaining s (ok context) f = finalize_handled-settles d _ s.db f

  dispatch_open-Settles :
      (e : VerifiedEventData) (r : HandlerRegistration) (d : ReceiptDecision) (remaining : ℕ)
      (s : DispatchState)
      → env.fails position ≡ false
      → Settles true d.receipt_id s.db
          (dispatch_open env channel deadline position e r d remaining s)
  unfolding call_handler
  dispatch_open-Settles e r d remaining s f =
      elim (Bool-cases (closes env channel deadline position remaining s)) [
        | inl y ↦ rw y (close_receipt-settles e d (record s { dispatch_closed = true }) f)
        | inr n ↦ rw n (call_handler-Settles e r d remaining _ _ f)
      ]

  dispatch_item-Settles :
      (i : DispatchItem) (remaining : ℕ) (s : DispatchState)
      → env.fails position ≡ false
      → Settles
          (dispatchable i)
          i.decision.receipt_id
          s.db
          (dispatch_item env channel deadline position i remaining s)
  unfolding dispatch_item close_receipt call_handler finalize_handled
  dispatch_item-Settles i remaining s f =
      go i.decision.created i.registration i.decision.status refl refl refl
    where
      go :
          (b : Bool) (r : Resolved) (t : ReceiptStatus)
          → i.decision.created ≡ b
          → i.registration ≡ r
          → i.decision.status ≡ t
          → Settles
              (dispatchable i)
              i.decision.receipt_id
              s.db
              (dispatch_item env channel deadline position i remaining s)
      go false not_registered t e g h = rw (e, g) (λ j k. k)
      go false other_object t e g h = rw (e, g) (λ j k. k)
      go false (registered r) t e g h = rw (e, g) (λ j k. k)
      go true not_registered t e g h = rw (e, g) (λ j k. k)
      go true other_object processing e g h = rw (e, g, h) (λ j k. k)
      go true other_object processed e g h = rw (e, g, h) (λ j k. k)
      go true other_object failed e g h = rw (e, g, h) (λ j k. k)
      go true other_object unsupported e g h = rw (e, g, h) (λ j k. k)
      go true (registered r) processing e g h =
          rw (e, g, h) (dispatch_open-Settles i.event r i.decision remaining s f)
      go true (registered r) processed e g h = rw (e, g, h) (λ j k. k)
      go true (registered r) failed e g h = rw (e, g, h) (λ j k. k)
      go true (registered r) unsupported e g h = rw (e, g, h) (λ j k. k)

-- A run that goes on: it keeps what is settled, and settles what can be dispatched.
abbrev AllSettled : List DispatchItem → ReceiptDb → Step → Type 0
AllSettled is db (raised x s) = Unit
AllSettled is db (next s) =
    All (λ i. dispatchable i ≡ true → Closed i.decision.receipt_id s.db) is × Keeps db s.db

AllSettled-cons :
    (i : DispatchItem) (is : List DispatchItem) (db db' : ReceiptDb) (b : Bool) (t : Step)
    → dispatchable i ≡ b
    → Moves b i.decision.receipt_id db db'
    → AllSettled is db' t
    → AllSettled (i ∷ is) db t
AllSettled-cons i is db db' b (raised x s) q g a = tt
AllSettled-cons i is db db' true (next s) q g a =
    ((λ h. a.1 i.decision.receipt_id g.0, a.0), λ j k. a.1 j (g.1 j k))
AllSettled-cons i is db db' false (next s) q g a = ((λ h. cc, a.0), λ j k. a.1 j (g j k))

dispatch-AllSettled :
    (env : Environment) (channel deadline position : ℕ) (is : List DispatchItem) (s : DispatchState)
    → ((k : ℕ) → env.fails k ≡ false)
    → AllSettled is s.db (dispatch env channel deadline position is s)
unfolding dispatch
dispatch-AllSettled env channel deadline position [] s f = (tt, λ j k. k)
dispatch-AllSettled env channel deadline position (i ∷ is) s f =
    go (dispatch_item env channel deadline position i (count_where dispatchable is) s)
      (dispatch_item-Settles env channel deadline position i (count_where dispatchable is) s
        (f position))
      (λ u. dispatch-AllSettled env channel deadline (suc position) is u f)
  where
    go :
        (t : Step)
        → Settles env channel deadline position (dispatchable i) i.decision.receipt_id s.db t
        → ((u : DispatchState)
            → AllSettled is u.db (dispatch env channel deadline (suc position) is u))
        → AllSettled (i ∷ is) s.db (and_then t (dispatch env channel deadline (suc position) is))
    go (raised x u) g rest = tt
    go (next u) g rest = AllSettled-cons i is s.db u.db (dispatchable i) _ refl g (rest u)

-- If no final update fails and the clock is positive, `_dispatch` of at most ten events returns and every receipt that was
-- created as processing for a registered handler is processing no longer: neither a deadline that
-- passes nor a handler that raises leaves one open.
pub dispatch_settles :
    (env : Environment) (channel deadline : ℕ) (is : List DispatchItem) (s : DispatchState)
    → ((k : ℕ) → 0 < env.clock k)
    → ((k : ℕ) → env.fails k ≡ false)
    → length is ≤ 10
    → s.dispatch_index ≡ 0
    → (s' : DispatchState) × (dispatch env channel deadline 0 is s ≡ next s')
      × All
          (λ i.
            dispatchable i ≡ true → exists (open_receipt i.decision.receipt_id) s'.db.rows ≡ false)
          is
dispatch_settles env channel deadline is s c f h z =
    let r = dispatch_never_raises env channel deadline is s c h z in
    let a = subst (AllSettled is s.db) r.1 (dispatch-AllSettled env channel deadline 0 is s f) in
    (r.0, r.1, a.0)
