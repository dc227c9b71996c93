-- ===== src/Webhook/Examples.antt =====
-- The webhook theorems at concrete requests.
use line_message_playground.Prelude.{
  suc, ◌≤◌, ◌≡◌, refl, false, true, some, none, [], ◌∷◌, arith, All, length,
}
use line_message_playground.Prelude.Text.{codes}
use line_message_playground.Prelude.Rows.{count_where, exists}
use line_message_playground.Webhook.Json.{
  Json, boolean, whole, string, array, object, no_items, item, no_fields, field, Fields,
}
use line_message_playground.Webhook.Verification.{
  is_event_id, validate, validate_events, validate_event,
}
use line_message_playground.Webhook.Verification.Bounds.{IsVerified, validate-Bounded}
use line_message_playground.Webhook.Types.{
  VerifiedEventData, HandlerRegistration, deadline_managed_external, registered, processing,
  handler_succeeded, WebhookEventReceipt,
}
use line_message_playground.Webhook.Receipts.{ReceiptDb, locked, open_receipt}
use line_message_playground.Webhook.Dispatch.{
  Environment, DispatchItem, DispatchState, Request, dispatch, dispatchable, next, ingest_all,
}
use line_message_playground.Webhook.Dispatch.Contexts.{dispatch_never_raises}
use line_message_playground.Webhook.Dispatch.Settled.{dispatch_settles}
use line_message_playground.Webhook.Dispatch.Once.{is_for, ingest_handles_once}

abbrev event : VerifiedEventData
event = record {
  webhook_event_id = codes "E1";
  event_type = codes "follow";
  occurred_at_ms = 5;
  is_redelivery = false;
  event = no_fields;
}

abbrev registration : HandlerRegistration
registration = record {
  event_type = codes "follow";
  handler = 1;
  execution_profile = deadline_managed_external;
}

abbrev environment : Environment
environment = record {
  clock = λ k. suc k;
  handle = λ h e c. some handler_succeeded;
  fails = λ k. false;
  now = λ k. k;
}

abbrev empty : ReceiptDb
empty = record { rows = []; next = 1 }

abbrev request : Request
request = record {
  started_at = 1;
  channel = some 3;
  has_credential = true;
  is_verified = true;
  payload = some (event ∷ event ∷ []);
  fence = locked;
  accept_fails = false;
  accepted_at = 10;
  env = environment;
}

abbrev dispatched : DispatchItem
dispatched = record {
  event = event;
  registration = registered registration;
  decision = record {
    receipt_id = 1;
    webhook_event_id = codes "E1";
    status = processing;
    created = true;
  };
}

abbrev open_row : WebhookEventReceipt
open_row = record {
  pk = 1;
  webhook_event_id = codes "E1";
  channel_public_id = 3;
  event_type = codes "follow";
  occurred_at_ms = 5;
  is_redelivery = false;
  status = processing;
  failure_code = none;
  completed_at = none;
  updated_at = 10;
}

abbrev start : DispatchState
start = record {
  db = record { rows = open_row ∷ []; next = 2 };
  audits = [];
  calls = [];
  storage_failed = false;
  dispatch_closed = false;
  dispatch_index = 0;
}

ingest_handles_once_example :
    count_where
      (is_for (codes "E1"))
      (ingest_all
        (λ t. registered registration)
        (request ∷ request ∷ [])
        (record { receipts = empty; log = []; handled = [] })).handled
    ≤ 1
ingest_handles_once_example =
    ingest_handles_once (codes "E1") (λ t. registered registration) (request ∷ request ∷ [])
      (record { receipts = empty; log = []; handled = [] }) (omega arith)

dispatch_never_raises_example :
    (s' : DispatchState) × (dispatch environment 3 2000001 0 (dispatched ∷ []) start ≡ next s')
dispatch_never_raises_example =
    dispatch_never_raises environment 3 2000001 (dispatched ∷ []) start (λ k. omega arith)
      (omega arith) refl

dispatch_settles_example :
    (s' : DispatchState) × (dispatch environment 3 2000001 0 (dispatched ∷ []) start ≡ next s')
    × All
        (λ i.
          dispatchable i ≡ true → exists (open_receipt i.decision.receipt_id) s'.db.rows ≡ false)
        (dispatched ∷ [])
dispatch_settles_example =
    dispatch_settles environment 3 2000001 (dispatched ∷ []) start (λ k. omega arith) (λ k. refl)
      (omega arith) refl

-- An event of LINE, and the payload that carries it.
abbrev event_fields : Fields
event_fields = field (codes "webhookEventId") (string (codes "01ARZ3NDEKTSV4RRFFQ69G5FAV")) (
    field (codes "type") (string (codes "follow")) (
      field (codes "timestamp") (whole 5) (
        field (codes "deliveryContext")
          (object (field (codes "isRedelivery") (boolean false) no_fields)) no_fields)))

abbrev payload : Json
payload = object (
    field (codes "destination") (string (codes "U0"))
      (field (codes "events") (array (item (object event_fields) no_items)) no_fields))

abbrev verified : VerifiedEventData
verified = record {
  webhook_event_id = codes "01ARZ3NDEKTSV4RRFFQ69G5FAV";
  event_type = codes "follow";
  occurred_at_ms = 5;
  is_redelivery = false;
  event = event_fields;
}

validate_payload_ok : validate (λ raw. some payload) [] (codes "U0") ≡ some (verified ∷ [])
unfolding validate validate_events validate_event is_event_id
validate_payload_ok = refl

validate-Bounded_example : All IsVerified (verified ∷ []) × (length (verified ∷ []) ≤ 10)
validate-Bounded_example =
    validate-Bounded (λ raw. some payload) [] (codes "U0") (verified ∷ []) validate_payload_ok
