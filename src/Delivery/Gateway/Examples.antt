-- ===== src/Delivery/Gateway/Examples.antt =====
-- Runs of the gateway and of the confirmation at concrete inputs.
use line_message_playground.Prelude.{ℕ, ◌≡◌, refl, false, none, some, List, [], ◌∷◌, ◌++◌, length}
use line_message_playground.Prelude.Text.{codes}
use line_message_playground.Webhook.Types.{VerifiedWebhookEvent, HandlerExecutionContext}
use line_message_playground.Delivery.Types.{ReceiptCapabilityCandidate, PushLinkedRecipientCommand}
use line_message_playground.Delivery.Repository.{Runtime}
use line_message_playground.Delivery.Receipt.{create_capability, urlsafe_base64, receipt_command}
use line_message_playground.Delivery.Gateway.{
  Errors, other_error, text_header, PushRequest, CallResult, api_exception, push_request,
  receipt_action_prefix, push,
}
use line_message_playground.Delivery.Gateway.Certain.{Explains, push-Explains}
use line_message_playground.Delivery.Gateway.Capability.{capability_returns}
use line_message_playground.Interaction.Types.{
  ParsedPostbackInteraction, parsed_postback, VerifiedInteractionChannel, VerifiedInteractionUser,
}
use line_message_playground.Interaction.Parsing.{parse, valid_utf16_length}
use line_message_playground.Interaction.Parsing.Postback.{postback_event}
use line_message_playground.Interaction.Service.{
  Services, action_command, user_missing, no_command, no_action, credential_missing,
}
use line_message_playground.Webhook.Receipts.{locked}

abbrev errors : Errors
errors = record { class_of = λ id. other_error; reason = λ id. none }

-- LINE answers that the request id is in use, and was accepted.
abbrev conflict_call : PushRequest → CallResult
conflict_call request =
    api_exception errors 1
      (some (some 409, some (text_header (codes "x-line-ACCEPTED-request-id") (codes "r1") ∷ [])))

abbrev command : PushLinkedRecipientCommand
command = record {
  operation_id = 5;
  access_token = codes "secret";
  line_subject = codes "U0123456789abcdef0123456789abcdef";
  text = codes "hello";
  receipt_capability = some (codes "abc");
}

push-Explains_example : Explains (conflict_call (push_request command)) (push conflict_call command)
push-Explains_example = push-Explains conflict_call command

abbrev runtime : Runtime
runtime = record {
  sha256 = λ bytes. length bytes;
  is_space = λ c. false;
  message_digest = λ subject body text. 3;
}

abbrev zeros : List ℕ
zeros =
    0 ∷ 0 ∷ 0 ∷ 0 ∷ 0 ∷ 0 ∷ 0 ∷ 0 ∷ 0 ∷ 0 ∷ 0 ∷ 0 ∷ 0 ∷ 0 ∷ 0 ∷ 0 ∷ 0 ∷ 0 ∷ 0 ∷ 0 ∷ 0 ∷ 0 ∷ 0 ∷ 0
    ∷ 0 ∷ 0 ∷ 0 ∷ 0 ∷ 0 ∷ 0 ∷ 0 ∷ 255 ∷ []

abbrev candidate : ReceiptCapabilityCandidate
unfolding urlsafe_base64
candidate = record {
  capability = urlsafe_base64 zeros;
  commitment = record { digest = 43; expires_at = 90 };
}

abbrev services : Services
services = record {
  parser = λ e. none;
  channel = λ id. none;
  account = λ c subject. some user_missing;
  resolve_command = λ text. some no_command;
  resolve_action = λ name. some no_action;
  get_access_token = λ id. some credential_missing;
  monotonic = none;
  reply_text = λ call. none;
  fence = locked;
  reserve_fails = false;
  finish_fails = false;
}

abbrev pressed : VerifiedWebhookEvent
unfolding candidate
pressed = record {
  channel_public_id = 1;
  webhook_event_id = codes "event-1";
  event_type = codes "postback";
  occurred_at_ms = 1000;
  is_redelivery = false;
  event_data =
      postback_event (codes "U0123456789abcdef0123456789abcdef") (codes "reply")
        (receipt_action_prefix ++ candidate.capability);
}

abbrev context : HandlerExecutionContext
context = record {
  response_deadline_monotonic = 9000000;
  dispatch_index = 0;
  remaining_dispatch_count = 0;
  external_io_deadline_monotonic = none;
}

abbrev channel : VerifiedInteractionChannel
channel = record { channel_public_id = 1; provider_id = codes "p" }

abbrev user : VerifiedInteractionUser
user = record { identity_public_id = 7; recipient_public_id = 8 }

capability_returns_example :
    (p : ParsedPostbackInteraction) × (parse pressed ≡ parsed_postback p)
    × (p.action_name ≡ codes "delivery.received")
    × ((receipt_command runtime
          (action_command services pressed context p channel user)
          50).capability_digest
        ≡ 43)
unfolding create_capability urlsafe_base64 valid_utf16_length candidate pressed
capability_returns_example =
    capability_returns runtime zeros 90 candidate services pressed context channel user
      (codes "U0123456789abcdef0123456789abcdef") (codes "reply") 50 refl refl refl refl refl
