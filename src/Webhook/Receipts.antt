-- ===== src/Webhook/Receipts.antt =====
-- backend/linewebhooks/repositories.py: the receipts of webhook events. The table is the list of its
-- rows and the key of the next row.
pub mod Created
use line_message_playground.Prelude.{
  ℕ, suc, Bool, true, false, ◌&&◌, ◌||◌, not, Option, none, some, List, [], ◌∷◌, ◌++◌, ◌==◌,
  if◌then◌else◌,
}
use line_message_playground.Prelude.Text.{Text, text_eq}
use line_message_playground.Prelude.Rows.{first, exists, update_where, count_where}
use line_message_playground.Webhook.Types.{
  ReceiptCandidate, ReceiptDecision, ReceiptStatus, processing, processed, failed, unsupported,
  FailureCode, WebhookEventReceipt, status_consistent, is_processing, is_unsupported,
}

pub record ReceiptDb : Type 0 where
  pub rows : List WebhookEventReceipt
  pub next : ℕ

abbrev pub has_id : Text → WebhookEventReceipt → Bool
has_id id r = text_eq r.webhook_event_id id

abbrev pub candidate_row : ReceiptCandidate → ℕ → ℕ → WebhookEventReceipt
candidate_row c k now = record {
  pk = k;
  webhook_event_id = c.webhook_event_id;
  channel_public_id = c.channel_public_id;
  event_type = c.event_type;
  occurred_at_ms = c.occurred_at_ms;
  is_redelivery = c.is_redelivery;
  status = c.initial_status;
  failure_code = none;
  completed_at = if is_unsupported c.initial_status then some now else none;
  updated_at = now;
}

abbrev pub consistent_row : WebhookEventReceipt → Bool
consistent_row r = status_consistent r.status r.completed_at r.failure_code

-- `_create_receipt`, in its savepoint: nothing is an IntegrityError.
unfoldable pub create_receipt :
    ReceiptCandidate → ℕ → ReceiptDb → Option (WebhookEventReceipt × ReceiptDb)
create_receipt c now db =
    let row = candidate_row c db.next now in
    if exists (has_id c.webhook_event_id) db.rows || not (consistent_row row)
    then none
    else some (row, record { rows = db.rows ++ row ∷ []; next = suc db.next })

abbrev pub decision : WebhookEventReceipt → Bool → ReceiptDecision
decision r created = record {
  receipt_id = r.pk;
  webhook_event_id = r.webhook_event_id;
  status = r.status;
  created = created;
}

abbrev pub decides : Text → ReceiptDecision → Bool
decides id d = text_eq d.webhook_event_id id

-- The row that is there already is read; nothing is DoesNotExist.
abbrev pub read_existing :
    Option WebhookEventReceipt → ReceiptDb → Option (ReceiptDecision × ReceiptDb)
read_existing none db = none
read_existing (some r) db = some (decision r false, db)

abbrev pub created_or_read :
    Option (WebhookEventReceipt × ReceiptDb)
    → ReceiptCandidate
    → ReceiptDb
    → Option (ReceiptDecision × ReceiptDb)
created_or_read (some (r, db')) c db = some (decision r true, db')
created_or_read none c db = read_existing (first (has_id c.webhook_event_id) db.rows) db

-- One candidate that has no decision yet.
unfoldable pub decide_new : ReceiptCandidate → ℕ → ReceiptDb → Option (ReceiptDecision × ReceiptDb)
unfolding create_receipt
decide_new c now db = created_or_read (create_receipt c now db) c db

abbrev pub repeated : ReceiptDecision → ReceiptDecision
repeated prior = record prior { created = false }

abbrev pub decision_before :
    ReceiptDecision
    → Option (List ReceiptDecision × ReceiptDb)
    → Option (List ReceiptDecision × ReceiptDb)
decision_before d none = none
decision_before d (some (ds, db)) = some (d ∷ ds, db)

abbrev pub decide_prior :
    Option ReceiptDecision
    → Option (List ReceiptDecision × ReceiptDb)
    → Option (List ReceiptDecision × ReceiptDb)
    → Option (List ReceiptDecision × ReceiptDb)
decide_prior (some prior) rest new = decision_before (repeated prior) rest
decide_prior none rest new = new

abbrev pub after_new :
    Option (ReceiptDecision × ReceiptDb)
    → (ReceiptDecision → ReceiptDb → Option (List ReceiptDecision × ReceiptDb))
    → Option (List ReceiptDecision × ReceiptDb)
after_new none rest = none
after_new (some (d, db)) rest = decision_before d (rest d db)

-- The loop over the candidates, with `decisions_by_event_id`. Nothing is DoesNotExist.
unfoldable pub decide_all :
    List ReceiptCandidate
    → ℕ
    → List ReceiptDecision
    → ReceiptDb
    → Option (List ReceiptDecision × ReceiptDb)
unfolding decide_new
decide_all [] now seen db = some ([], db)
decide_all (c ∷ cs) now seen db =
    decide_prior (first (decides c.webhook_event_id) seen) (decide_all cs now seen db)
      (after_new (decide_new c now db) (λ d db'. decide_all cs now (d ∷ seen) db'))

pub data FenceStatus : Type 0 where
  locked channel_not_found fence_storage_retryable fence_storage_unavailable : FenceStatus

pub data AcceptResult : Type 0 where
  decided : List ReceiptDecision → AcceptResult
  receipt_channel_unavailable receipt_storage_retryable receipt_storage_unavailable does_not_exist :
      AcceptResult

abbrev pub same_channel : List ReceiptCandidate → Bool
same_channel [] = true
same_channel (c ∷ cs) = not (exists (λ d. not (d.channel_public_id == c.channel_public_id)) cs)

abbrev pub committed :
    Option (List ReceiptDecision × ReceiptDb) → ReceiptDb → AcceptResult × ReceiptDb
committed none db = (does_not_exist, db)
committed (some (ds, db')) db = (decided ds, db')

abbrev pub fenced : FenceStatus → List ReceiptCandidate → ℕ → ReceiptDb → AcceptResult × ReceiptDb
fenced channel_not_found cs now db = (receipt_channel_unavailable, db)
fenced fence_storage_retryable cs now db = (receipt_storage_retryable, db)
fenced fence_storage_unavailable cs now db = (receipt_storage_unavailable, db)
fenced locked cs now db = committed (decide_all cs now [] db) db

-- `accept_batch`. `fails` says that the database raises DatabaseError in the transaction, which is
-- rolled back.
unfoldable pub accept_batch :
    Bool → FenceStatus → List ReceiptCandidate → ℕ → ReceiptDb → AcceptResult × ReceiptDb
accept_batch fails fence [] now db =
    if fails then (receipt_storage_unavailable, db) else (decided [], db)
accept_batch fails fence (c ∷ cs) now db =
    if not (same_channel (c ∷ cs))
    then (receipt_channel_unavailable, db)
    else if fails
    then (receipt_storage_unavailable, db)
    else fenced fence (c ∷ cs) now db

pub data FinalizationResult : Type 0 where
  updated unchanged finalization_failed : FinalizationResult

abbrev pub open_receipt : ℕ → WebhookEventReceipt → Bool
open_receipt k r = (r.pk == k) && is_processing r.status

abbrev pub finalized :
    ReceiptStatus → Option FailureCode → ℕ → WebhookEventReceipt → WebhookEventReceipt
finalized status code now r = record r {
  status = status;
  failure_code = code;
  completed_at = some now;
  updated_at = now;
}

-- `_finalize` with `_conditional_update`.
unfoldable pub finalize_receipt :
    Bool → ℕ → ReceiptStatus → Option FailureCode → ℕ → ReceiptDb → FinalizationResult × ReceiptDb
finalize_receipt true k status code now db = (finalization_failed, db)
finalize_receipt false k status code now db = (
  if count_where (open_receipt k) db.rows == 1 then updated else unchanged,
  record db { rows = update_where (open_receipt k) (finalized status code now) db.rows },
)

unfoldable pub mark_processed : Bool → ℕ → ℕ → ReceiptDb → FinalizationResult × ReceiptDb
unfolding finalize_receipt
mark_processed fails k now db = finalize_receipt fails k processed none now db

unfoldable pub mark_failed : Bool → ℕ → FailureCode → ℕ → ReceiptDb → FinalizationResult × ReceiptDb
unfolding finalize_receipt
mark_failed fails k code now db = finalize_receipt fails k failed (some code) now db
