-- ===== src/Delivery/Data.antt =====
-- A delivery to evaluate the code on: one linked recipient, one message, a receipt asked for.
use line_message_playground.Prelude.{true, false, none, some, [], ◌∷◌, ◌==◌, length, ok}
use line_message_playground.Prelude.Text.{codes}
use line_message_playground.Delivery.Types.{
  LinkedTargetSnapshot, friend, MessageSnapshot, LiveDeliveryTarget, ConfirmationSnapshot,
  SubmitLinkedDelivery, AcceptedDeliveryCommand, linked_recipient, processing,
  ConfirmReceiptCommand, push_accepted,
}
use line_message_playground.Delivery.Store.{Attempt, AttemptDb}
use line_message_playground.Delivery.Repository.{Runtime, expected_fingerprint}
use line_message_playground.Delivery.Row.{locked}
use line_message_playground.Delivery.Service.{Outside, live, World}

abbrev pub runtime : Runtime
runtime = record {
  sha256 = λ bytes. length bytes;
  is_space = λ c. c == 32;
  message_digest = λ subject body text. length text;
}

abbrev pub linked : LinkedTargetSnapshot
linked = record {
  channel_public_id = 11;
  channel_label = codes "Family";
  recipient_public_id = 12;
  channel_active = true;
  recipient_enabled = true;
  friendship_state = friend;
}

abbrev pub message : MessageSnapshot
message = record {
  subject = codes "Hi";
  body = codes "Hello";
  formatted_text = codes "【Hi】\n\nHello";
  fingerprint = 11;
}

abbrev pub target : LiveDeliveryTarget
target = record {
  owner_identity = 13;
  provider_id = codes "p";
  snapshot = linked;
  revision = 14;
  line_subject = codes "U1";
  delivery_available = true;
}

abbrev pub confirmation : ConfirmationSnapshot
confirmation = record {
  owner = 1;
  owner_identity = 13;
  channel_public_id = 11;
  recipient_public_id = 12;
  target_revision = 14;
  message_fingerprint = 11;
  receipt_requested = false;
  receipt_expires_at = none;
}

abbrev pub submission : SubmitLinkedDelivery
submission = record { operation_id = 5; confirmation = confirmation; message = message }

abbrev pub unsigned : AcceptedDeliveryCommand
unsigned = record {
  operation_id = 5;
  owner = 1;
  owner_identity = 13;
  target = linked;
  message = message;
  request_fingerprint = 0;
  receipt_commitment = some (record { digest = 43; expires_at = 900 });
}

abbrev pub accepted : AcceptedDeliveryCommand
accepted = record unsigned { request_fingerprint = expected_fingerprint runtime unsigned }

abbrev pub empty : AttemptDb
empty = record { rows = []; next_pk = 1 }

-- A row that is processing and asks for a receipt.
abbrev pub row : Attempt
row = record {
  pk = 1;
  operation_id = 5;
  subject = codes "Hi";
  body = codes "Hello";
  formatted_text = codes "【Hi】\n\nHello";
  request_fingerprint = 77;
  active_request_fingerprint = some 77;
  target_mode = linked_recipient;
  owner_principal_slot = 1;
  owner_identity_public_id = some 13;
  channel_public_id = some 11;
  channel_label_snapshot = some (codes "Family");
  recipient_public_id = some 12;
  channel_active_snapshot = some true;
  recipient_enabled_snapshot = some true;
  friendship_state_snapshot = some friend;
  status = processing;
  failure_type = none;
  line_request_id = none;
  line_accepted_request_id = none;
  accepted_at = 100;
  processing_expires_at = 30000100;
  sent_at = none;
  failed_at = none;
  completed_at = none;
  receipt_requested = true;
  receipt_expires_at = some 900;
  receipt_token_digest = some 43;
  receipt_confirmed_at = none;
  receipt_webhook_event_id = none;
}

abbrev pub one_row : AttemptDb
one_row = record { rows = row ∷ []; next_pk = 2 }

abbrev pub receipt : ConfirmReceiptCommand
receipt = record {
  capability_digest = 43;
  channel_public_id = 11;
  recipient_public_id = 12;
  occurred_at = 500;
  webhook_event_id = codes "event";
}

abbrev pub outside : Outside
outside = record {
  resolve_at_accept = λ i c r. live target;
  entropy = ok [];
  fence = λ c. locked;
  others = λ k db. db;
  accepted_at = 100;
  classified_at = 100;
  access_token = λ c. some (codes "token");
  resolve_at_push = λ i c r. live target;
  line = λ command. push_accepted (some (codes "r")) none;
  completed_at = 200;
  read_at = 200;
}

abbrev pub world : World
world = record { db = empty; pushes = [] }
