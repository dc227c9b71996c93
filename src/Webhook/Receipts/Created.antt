-- ===== src/Webhook/Receipts/Created.antt =====
-- Which decisions of a batch are new.
use line_message_playground.Prelude.{
  ℕ, ◌+◌, ◌≤◌, ◌≡◌, refl, ap, Bool, true, false, ◌&&◌, ◌||◌, not, Option, none, some, List, [], ◌∷◌,
  ◌++◌, if◌then◌else◌, arith,
}
use line_message_playground.Prelude.Text.{Text, text_eq, text_eq_iff}
use line_message_playground.Prelude.Rows.{first, exists, update_where, count_where}
use line_message_playground.Webhook.Types.{
  ReceiptCandidate, ReceiptDecision, ReceiptStatus, FailureCode, WebhookEventReceipt,
}
use line_message_playground.Webhook.Receipts.{
  ReceiptDb, has_id, candidate_row, create_receipt, decides, created_or_read, read_existing,
  decide_new, repeated, decision_before, decide_prior, after_new, decide_all, FenceStatus, locked,
  channel_not_found, fence_storage_retryable, fence_storage_unavailable, AcceptResult, decided,
  receipt_channel_unavailable, receipt_storage_retryable, receipt_storage_unavailable,
  does_not_exist, same_channel, committed, fenced, accept_batch, open_receipt, finalized,
  finalize_receipt,
}

exists-append :
    (p : WebhookEventReceipt → Bool) (rs : List WebhookEventReceipt) (r : WebhookEventReceipt)
    → exists p (rs ++ r ∷ []) ≡ (exists p rs || p r)
exists-append p [] r = ground arith
exists-append p (s ∷ rs) r = ground (arith, exists-append p rs r)

abbrev one : Bool → ℕ
one b = if b then 1 else 0

-- 1 if the event has a receipt, 0 otherwise.
abbrev pub weight : Text → ReceiptDb → ℕ
weight id db = one (exists (has_id id) db.rows)

-- A decision that creates the receipt of this event.
abbrev pub creates : Text → ReceiptDecision → Bool
creates id d = d.created && text_eq d.webhook_event_id id

module _ (id : Text) where
  create_receipt-weight :
      (c : ReceiptCandidate) (now : ℕ) (db db' : ReceiptDb) (r : WebhookEventReceipt)
      → create_receipt c now db ≡ some (r, db')
      → one (has_id id r) + weight id db ≤ weight id db'
  unfolding create_receipt
  create_receipt-weight c now db db' r h = ground (
    arith,
    exists-append (has_id id) db.rows (candidate_row c db.next now),
    text_eq_iff c.webhook_event_id id,
  )

  -- New decisions come with new rows.
  abbrev Grows : ReceiptDb → Option (ReceiptDecision × ReceiptDb) → Type 0
  Grows db none = Unit
  Grows db (some (d, db')) = one (creates id d) + weight id db ≤ weight id db'

  decide_new-Grows :
      (c : ReceiptCandidate) (now : ℕ) (db : ReceiptDb) → Grows db (decide_new c now db)
  unfolding decide_new
  decide_new-Grows c now db = go (create_receipt c now db) refl
    where
      read : (o : Option WebhookEventReceipt) → Grows db (read_existing o db)
      read none = tt
      read (some r) = omega arith

      go :
          (o : Option (WebhookEventReceipt × ReceiptDb))
          → create_receipt c now db ≡ o
          → Grows db (created_or_read o c db)
      go none e = read (first (has_id c.webhook_event_id) db.rows)
      go (some (r, db')) e = create_receipt-weight c now db db' r e

  abbrev GrowsAll : ReceiptDb → Option (List ReceiptDecision × ReceiptDb) → Type 0
  GrowsAll db none = Unit
  GrowsAll db (some (ds, db')) = count_where (creates id) ds + weight id db ≤ weight id db'

  decision_before-GrowsAll :
      (d : ReceiptDecision) (db db' : ReceiptDb) (o : Option (List ReceiptDecision × ReceiptDb))
      → one (creates id d) + weight id db ≤ weight id db'
      → GrowsAll db' o
      → GrowsAll db (decision_before d o)
  decision_before-GrowsAll d db db' none h k = tt
  decision_before-GrowsAll d db db' (some (ds, db'')) h k = ground arith

  after_new-GrowsAll :
      (db : ReceiptDb) (o : Option (ReceiptDecision × ReceiptDb))
      (rest : ReceiptDecision → ReceiptDb → Option (List ReceiptDecision × ReceiptDb))
      → Grows db o
      → ((d : ReceiptDecision) (db' : ReceiptDb) → GrowsAll db' (rest d db'))
      → GrowsAll db (after_new o rest)
  after_new-GrowsAll db none rest g k = tt
  after_new-GrowsAll db (some (d, db')) rest g k =
      decision_before-GrowsAll d db db' (rest d db') g (k d db')

  decide_prior-GrowsAll :
      (db : ReceiptDb) (o : Option ReceiptDecision)
      (rest new : Option (List ReceiptDecision × ReceiptDb))
      → GrowsAll db rest
      → GrowsAll db new
      → GrowsAll db (decide_prior o rest new)
  decide_prior-GrowsAll db none rest new h k = k
  decide_prior-GrowsAll db (some prior) rest new h k =
      decision_before-GrowsAll (repeated prior) db db rest (omega arith) h

  decide_all-GrowsAll :
      (cs : List ReceiptCandidate) (now : ℕ) (seen : List ReceiptDecision) (db : ReceiptDb)
      → GrowsAll db (decide_all cs now seen db)
  unfolding decide_all
  decide_all-GrowsAll [] now seen db = omega arith
  decide_all-GrowsAll (c ∷ cs) now seen db =
      decide_prior-GrowsAll db (first (decides c.webhook_event_id) seen) _ _
        (decide_all-GrowsAll cs now seen db)
        (after_new-GrowsAll db (decide_new c now db) _ (decide_new-Grows c now db)
          (λ d db'. decide_all-GrowsAll cs now (d ∷ seen) db'))

  -- What a batch answers: one new decision at most, none for an event that has a receipt.
  abbrev pub Accepts : ReceiptDb → AcceptResult × ReceiptDb → Type 0
  Accepts db (decided ds, db') = count_where (creates id) ds + weight id db ≤ weight id db'
  Accepts db (receipt_channel_unavailable, db') = weight id db ≤ weight id db'
  Accepts db (receipt_storage_retryable, db') = weight id db ≤ weight id db'
  Accepts db (receipt_storage_unavailable, db') = weight id db ≤ weight id db'
  Accepts db (does_not_exist, db') = weight id db ≤ weight id db'

  pub accept_batch-Accepts :
      (fails : Bool) (fence : FenceStatus) (cs : List ReceiptCandidate) (now : ℕ) (db : ReceiptDb)
      → Accepts db (accept_batch fails fence cs now db)
  unfolding accept_batch
  accept_batch-Accepts true fence [] now db = omega arith
  accept_batch-Accepts false fence [] now db = omega arith
  accept_batch-Accepts fails fence (c ∷ cs) now db = go (same_channel (c ∷ cs)) fails fence
    where
      all_of :
          (o : Option (List ReceiptDecision × ReceiptDb))
          → GrowsAll db o
          → Accepts db (committed o db)
      all_of none h = omega arith
      all_of (some (ds, db')) h = h

      go :
          (b f : Bool) (w : FenceStatus)
          → Accepts db (
              if not b
              then (receipt_channel_unavailable, db)
              else if f
              then (receipt_storage_unavailable, db)
              else fenced w (c ∷ cs) now db)
      go false f w = omega arith
      go true true w = omega arith
      go true false channel_not_found = omega arith
      go true false fence_storage_retryable = omega arith
      go true false fence_storage_unavailable = omega arith
      go true false locked = all_of _ (decide_all-GrowsAll (c ∷ cs) now [] db)

  exists-update_where :
      (status : ReceiptStatus) (code : Option FailureCode) (k now : ℕ)
      (rows : List WebhookEventReceipt)
      → exists (has_id id) (update_where (open_receipt k) (finalized status code now) rows)
        ≡ exists (has_id id) rows
  exists-update_where status code k now [] = refl
  exists-update_where status code k now (r ∷ rows) =
      ground (arith, exists-update_where status code k now rows)

  pub finalize_receipt-weight :
      (fails : Bool) (k : ℕ) (status : ReceiptStatus) (code : Option FailureCode) (now : ℕ)
      (db : ReceiptDb)
      → weight id (finalize_receipt fails k status code now db).1 ≡ weight id db
  unfolding finalize_receipt
  finalize_receipt-weight true k status code now db = refl
  finalize_receipt-weight false k status code now db =
      ap one (exists-update_where status code k now db.rows)
