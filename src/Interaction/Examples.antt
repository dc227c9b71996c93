-- ===== src/Interaction/Examples.antt =====
-- Runs of interactions at concrete inputs.
use line_message_playground.Prelude.{
  ℕ, List, none, Bool, All, ◌≤◌, ◌≡◌, refl, true, false, some, [], ◌∷◌, arith,
}
use line_message_playground.Prelude.Text.{Text, codes}
use line_message_playground.Prelude.Rows.{count_where}
use line_message_playground.Webhook.Json.{no_fields, field, string, object}
use line_message_playground.Webhook.Types.{VerifiedWebhookEvent, HandlerExecutionContext}
use line_message_playground.Webhook.Receipts.{locked}
use line_message_playground.Interaction.Types.{
  parsed_postback, action_succeeded, reply_accepted, action_operation, outcome_succeeded,
  not_started, InteractionAuditRecord,
}
use line_message_playground.Interaction.Parsing.{parse, is_action_name, valid_utf16_length}
use line_message_playground.Interaction.Parsing.Postback.{
  postback_data, postback_event, parse-postback_event,
}
use line_message_playground.Interaction.Audit.{valid_audit_combination, result_consistent}
use line_message_playground.Interaction.Audit.Consistent.{result_consistent-valid}
use line_message_playground.Interaction.Registry.{register, resolve_action, register-resolves}
use line_message_playground.Interaction.Service.{
  Services, Interactions, linked_user, action, token, static_command, handle_interaction,
  handle_events,
}
use line_message_playground.Interaction.Service.Effects.{is_effect_of, handle_events_act_once}
use line_message_playground.Interaction.Service.Valid.{IsGood, handle_interaction-IsGood}

abbrev user_id : Text
user_id = codes "U0123456789abcdef0123456789abcdef"

abbrev pressed : VerifiedWebhookEvent
pressed = record {
  channel_public_id = 1;
  webhook_event_id = codes "event-1";
  event_type = codes "postback";
  occurred_at_ms = 1000;
  is_redelivery = false;
  event_data =
      postback_event user_id (codes "reply") (postback_data (codes "menu.open") (codes "a:b"));
}

abbrev pinged : VerifiedWebhookEvent
pinged = record pressed {
  event_type = codes "message";
  event_data = field (codes "replyToken") (string (codes "reply")) (
      field (codes "source")
        (object (
          field (codes "type") (string (codes "user"))
            (field (codes "userId") (string user_id) no_fields)))
        (field (codes "message")
          (object (
            field (codes "type") (string (codes "text"))
              (field (codes "text") (string (codes "/ping")) no_fields)))
          no_fields));
}

abbrev context : HandlerExecutionContext
context = record {
  response_deadline_monotonic = 9000000;
  dispatch_index = 0;
  remaining_dispatch_count = 0;
  external_io_deadline_monotonic = some 8000000;
}

abbrev services : Services
services = record {
  parser = λ e. some (parse e);
  channel =
      λ id. some (some (record { public_id = id; provider_id = codes "p"; is_active = true }));
  account =
      λ c subject. some (linked_user (record { identity_public_id = 7; recipient_public_id = 8 }));
  resolve_command = λ text. static_command text;
  resolve_action = λ name. some (action (λ c. some action_succeeded));
  get_access_token = λ id. some (token (codes "secret"));
  monotonic = some 5000000;
  reply_text = λ call. some reply_accepted;
  fence = locked;
  reserve_fails = false;
  finish_fails = false;
}

abbrev nothing : Interactions
nothing = record { audits = []; effects = [] }

abbrev saved_action : InteractionAuditRecord
saved_action = record {
  channel_public_id = 1;
  webhook_event_id = codes "event-1";
  event_type = codes "postback";
  operation_kind = action_operation;
  operation_identifier = some (codes "menu.open");
  interaction_outcome = outcome_succeeded;
  reply_outcome = not_started;
}

-- The same postback, delivered twice, is acted on, and once.
one_effect :
    count_where
      (is_effect_of (codes "event-1"))
      (handle_events
        ((services, pressed, context) ∷ (services, pressed, context) ∷ [])
        nothing).effects
    ≡ 1
unfolding handle_events handle_interaction parse postback_data
one_effect = refl

handle_events_act_once_example :
    count_where
      (is_effect_of (codes "event-1"))
      (handle_events
        ((services, pressed, context) ∷ (services, pressed, context) ∷ [])
        nothing).effects
    ≤ 1
handle_events_act_once_example =
    handle_events_act_once (codes "event-1")
      ((services, pressed, context) ∷ (services, pressed, context) ∷ []) nothing (omega arith)

handle_interaction-IsGood_example :
    IsGood services pinged context nothing (handle_interaction services pinged context nothing)
handle_interaction-IsGood_example =
    handle_interaction-IsGood services pinged context nothing refl (λ text. refl)

parse-postback_event_example :
    parse pressed
    ≡ parsed_postback (record {
      subject = user_id;
      reply_token = codes "reply";
      action_name = codes "menu.open";
      payload = codes "a:b";
    })
unfolding is_action_name valid_utf16_length postback_data
parse-postback_event_example =
    parse-postback_event pressed user_id (codes "reply") (codes "menu.open") (codes "a:b") refl refl
      refl refl refl refl

result_consistent-valid_example :
    result_consistent saved_action ≡ valid_audit_combination saved_action
result_consistent-valid_example = result_consistent-valid saved_action

abbrev registrations : List (Text × ℕ)
registrations = (codes "delivery.received", 1) ∷ (codes "menu.open", 2) ∷ []

abbrev registered : List (Text × ℕ)
registered = (codes "menu.open", 2) ∷ (codes "delivery.received", 1) ∷ []

abbrev always : ℕ → Bool
always h = true

-- A name that is there already is refused.
twice : register always [] ((codes "menu.open", 1) ∷ (codes "menu.open", 2) ∷ []) ≡ none
unfolding register is_action_name
twice = refl

register-resolves_example :
    All
      (λ r. (resolve_action always registered r.0 ≡ some r.1) × (is_action_name r.0 ≡ true))
      registrations
unfolding register is_action_name
register-resolves_example = register-resolves always [] registrations registered refl
