-- ===== src/Interaction/Service.antt =====
-- backend/lineinteractions/services.py: DefaultInteractionService. The directories, the registries, the
-- credentials, the reply gateway and the clock are parameters; nothing stands for an exception.
pub mod Effects
pub mod Valid
use line_message_playground.Prelude.{
  ℕ, ◌-◌, ◌+◌, Bool, true, false, ◌&&◌, ◌||◌, not, Option, none, some, is_none, List, [], ◌∷◌, ◌==◌,
  if◌then◌else◌, ltb, leb, Result, ok, err,
}
use line_message_playground.Prelude.Text.{Text, text_eq, codes}
use line_message_playground.Webhook.Types.{
  VerifiedWebhookEvent, HandlerExecutionContext, HandlerOutcome, handler_succeeded, handler_failed,
}
use line_message_playground.Webhook.Receipts.{FenceStatus}
use line_message_playground.Interaction.Types.{
  ParsedTextInteraction, ParsedPostbackInteraction, ParseResult, parsed_text, parsed_postback,
  invalid_interaction, out_of_scope_interaction, VerifiedInteractionChannel,
  VerifiedInteractionUser, CommandDefinition, ActionOutcome, action_succeeded, action_no_change,
  action_rejected, action_failed, PostbackActionCommand, ReplyResult, reply_accepted,
  reply_rejected, reply_unknown, InteractionOutcome, command_processed, outcome_succeeded,
  outcome_no_change, outcome_rejected, outcome_unknown, outcome_invalid, outcome_out_of_scope,
  outcome_unlinked, outcome_handler_failed, processing_failed, credential_unavailable,
  deadline_exceeded, ReplyOutcome, accepted, rejected, unknown, not_started, OperationKind,
  no_operation, command_operation, action_operation, InteractionAuditRecord,
}
use line_message_playground.Interaction.Audit.{
  valid_audit_combination, RecordResult, recorded, record_failed, record_refused, record_audit,
  replace_reserved,
}

-- `LinkableChannelSummary`, or any other answer of the directory.
pub record ChannelSummary : Type 0 where
  pub public_id : ℕ
  pub provider_id : Text
  pub is_active : Bool

pub data AccountAnswer : Type 0 where
  linked_user : VerifiedInteractionUser → AccountAnswer
  user_missing other_user : AccountAnswer

pub data CommandAnswer : Type 0 where
  command : CommandDefinition → CommandAnswer
  no_command other_command : CommandAnswer

-- A registered handler: what it answers to a command.
pub data ActionAnswer : Type 0 where
  action : (PostbackActionCommand → Option ActionOutcome) → ActionAnswer
  no_action other_action : ActionAnswer

pub data CredentialAnswer : Type 0 where
  token : Text → CredentialAnswer
  credential_missing other_credential : CredentialAnswer

pub record ReplyCall : Type 0 where
  pub access_token : Text
  pub reply_token : Text
  pub text : Text
  pub timeout : ℕ

pub record Services : Type 0 where
  pub parser : VerifiedWebhookEvent → Option ParseResult
  pub channel : ℕ → Option (Option ChannelSummary)
  pub account : VerifiedInteractionChannel → Text → Option AccountAnswer
  pub resolve_command : Text → Option CommandAnswer
  pub resolve_action : Text → Option ActionAnswer
  pub get_access_token : ℕ → Option CredentialAnswer
  pub monotonic : Option ℕ
  pub reply_text : ReplyCall → Option ReplyResult
  pub fence : FenceStatus
  pub reserve_fails : Bool
  pub finish_fails : Bool

-- What reaches the outside for an event.
pub data Effect : Type 0 where
  replied : ReplyCall → Effect
  acted : PostbackActionCommand → Effect

-- The audit table, and the effects with the id of their event, the latest first.
pub record Interactions : Type 0 where
  pub audits : List InteractionAuditRecord
  pub effects : List (Text × Effect)

abbrev pub minimum_reply_start : ℕ
minimum_reply_start = 300000

abbrev pub maximum_reply_total : ℕ
maximum_reply_total = 600000

abbrev pub reply_cleanup_reserve : ℕ
reply_cleanup_reserve = 100000

abbrev pub min_of : ℕ → ℕ → ℕ
min_of a b = if ltb b a then b else a

-- What the handler reports for an outcome that is in the audit.
abbrev pub is_success : InteractionOutcome → ReplyOutcome → Bool
is_success outcome_unknown r = true
is_success outcome_invalid r = true
is_success outcome_out_of_scope r = true
is_success outcome_unlinked r = true
is_success outcome_succeeded r = true
is_success outcome_no_change r = true
is_success outcome_rejected r = true
is_success command_processed accepted = true
is_success _ _ = false

abbrev pub reported : Bool → RecordResult → HandlerOutcome
reported success recorded = if success then handler_succeeded else handler_failed
reported success record_failed = handler_failed
reported success record_refused = handler_failed

abbrev pub outcome_of_action : Option ActionOutcome → InteractionOutcome
outcome_of_action (some action_succeeded) = outcome_succeeded
outcome_of_action (some action_no_change) = outcome_no_change
outcome_of_action (some action_rejected) = outcome_rejected
outcome_of_action (some action_failed) = outcome_handler_failed
outcome_of_action none = outcome_handler_failed

abbrev pub outcome_of_reply : Option ReplyResult → ReplyOutcome
outcome_of_reply (some reply_accepted) = accepted
outcome_of_reply (some reply_rejected) = rejected
outcome_of_reply (some reply_unknown) = unknown
outcome_of_reply none = unknown

-- `StaticCommandRegistry.resolve` of backend/lineinteractions/registries.py
abbrev pub ping : CommandDefinition
ping = record {
  identifier = codes "connectivity_ping_v1";
  exact_text = codes "/ping";
  reply_text = codes "pong";
}

unfoldable pub static_command : Text → Option CommandAnswer
static_command candidate =
    if text_eq candidate (codes "/ping") then some (command ping) else some no_command

pub data AuditError : Type 0 where
  invalid_audit_result invalid_reply_timeout : AuditError

abbrev pub Answer : Type 0
Answer = Result AuditError HandlerOutcome × Interactions

module _ (s : Services) (event : VerifiedWebhookEvent) (context : HandlerExecutionContext) where
  abbrev pub audit_record :
      OperationKind → Option Text → InteractionOutcome → ReplyOutcome → InteractionAuditRecord
  audit_record kind identifier outcome reply = record {
    channel_public_id = event.channel_public_id;
    webhook_event_id = event.webhook_event_id;
    event_type = event.event_type;
    operation_kind = kind;
    operation_identifier = identifier;
    interaction_outcome = outcome;
    reply_outcome = reply;
  }

  abbrev pub written :
      InteractionOutcome
      → ReplyOutcome
      → Interactions
      → RecordResult × List InteractionAuditRecord
      → Answer
  written outcome reply w (r, audits) =
      (ok (reported (is_success outcome reply) r), record w { audits = audits })

  -- `_finish`; the record raises where its combination is not valid.
  unfoldable pub finish :
      OperationKind → Option Text → InteractionOutcome → ReplyOutcome → Bool → Interactions → Answer
  unfolding valid_audit_combination record_audit replace_reserved
  finish kind identifier outcome reply reserved w =
      let r = audit_record kind identifier outcome reply in
      if valid_audit_combination r
      then written outcome reply w (
          if reserved
          then replace_reserved s.finish_fails r w.audits
          else record_audit s.finish_fails s.fence r w.audits)
      else (err invalid_audit_result, w)

  abbrev pub finish_plain : InteractionOutcome → Interactions → Answer
  unfolding finish
  finish_plain outcome w = finish no_operation none outcome not_started false w

  abbrev pub is_recorded : RecordResult → Bool
  is_recorded recorded = true
  is_recorded _ = false

  -- `_reserve_external_audit`: nothing where no record could be reserved.
  unfoldable pub reserve :
      OperationKind → Text → InteractionOutcome → Interactions → Option Interactions
  unfolding valid_audit_combination record_audit
  reserve kind identifier fallback w =
      let r = audit_record kind (some identifier) fallback not_started in
      let (result, audits) = record_audit s.reserve_fails s.fence r w.audits in
      if valid_audit_combination r && is_recorded result
      then some (record w { audits = audits })
      else none

  abbrev pub finish_command :
      CommandDefinition → InteractionOutcome → ReplyOutcome → Interactions → Answer
  unfolding finish
  finish_command c outcome reply w =
      finish command_operation (some c.identifier) outcome reply true w

  -- How long a reply may take, from now on.
  abbrev pub remaining_until : Option ℕ → Option ℕ → ℕ
  remaining_until (some cutoff) (some now) = min_of maximum_reply_total (cutoff - now)
  remaining_until _ _ = 0

  abbrev pub reply_budget : ℕ → ℕ
  reply_budget remaining =
      min_of (maximum_reply_total - reply_cleanup_reserve) (remaining - reply_cleanup_reserve)

  abbrev pub reply_now : CommandDefinition → ReplyCall → Interactions → Answer
  unfolding finish_command
  reply_now c call w =
      finish_command c command_processed (outcome_of_reply (s.reply_text call))
        (record w { effects = (event.webhook_event_id, replied call) ∷ w.effects })

  abbrev pub reply_within : CommandDefinition → Text → Text → ℕ → Interactions → Answer
  unfolding finish_command reply_now
  reply_within c access_token reply_token remaining w =
      if ltb remaining minimum_reply_start
      then finish_command c deadline_exceeded not_started w
      else if leb (reply_budget remaining) 0
      then (err invalid_reply_timeout, w)
      else reply_now c
          (record {
            access_token = access_token;
            reply_token = reply_token;
            text = c.reply_text;
            timeout = reply_budget remaining;
          })
          w

  abbrev pub reply_with : CommandDefinition → Text → Option CredentialAnswer → Interactions → Answer
  unfolding finish_command reply_within
  reply_with c reply_token none w = finish_command c processing_failed not_started w
  reply_with c reply_token (some credential_missing) w =
      finish_command c credential_unavailable not_started w
  reply_with c reply_token (some other_credential) w =
      finish_command c processing_failed not_started w
  reply_with c reply_token (some (token access_token)) w =
      reply_within c access_token reply_token
        (remaining_until context.external_io_deadline_monotonic s.monotonic) w

  abbrev pub command_reserved :
      CommandDefinition
      → Text
      → VerifiedInteractionChannel
      → Option Interactions
      → Interactions
      → Answer
  unfolding reply_with
  command_reserved c reply_token channel none w = (ok handler_failed, w)
  command_reserved c reply_token channel (some w') w =
      reply_with c reply_token (s.get_access_token channel.channel_public_id) w'

  -- `_handle_command`
  abbrev pub handle_command :
      Text → VerifiedInteractionChannel → Option CommandAnswer → Interactions → Answer
  unfolding finish_plain reserve command_reserved
  handle_command reply_token channel none w = finish_plain processing_failed w
  handle_command reply_token channel (some no_command) w = finish_plain outcome_unknown w
  handle_command reply_token channel (some other_command) w = finish_plain processing_failed w
  handle_command reply_token channel (some (command c)) w =
      command_reserved c reply_token channel
        (reserve command_operation c.identifier processing_failed w) w

  abbrev pub action_reserved :
      (PostbackActionCommand → Option ActionOutcome)
      → PostbackActionCommand
      → Option Interactions
      → Interactions
      → Answer
  unfolding finish
  action_reserved handler c none w = (ok handler_failed, w)
  action_reserved handler c (some w') w =
      finish action_operation (some c.action_name) (outcome_of_action (handler c)) not_started true
        (record w' { effects = (event.webhook_event_id, acted c) ∷ w'.effects })

  abbrev pub action_command :
      ParsedPostbackInteraction
      → VerifiedInteractionChannel
      → VerifiedInteractionUser
      → PostbackActionCommand
  action_command p channel user = record {
    action_name = p.action_name;
    payload = p.payload;
    channel = channel;
    webhook_event_id = event.webhook_event_id;
    user = user;
    execution = context;
  }

  -- `_handle_action`
  abbrev pub handle_action :
      ParsedPostbackInteraction
      → VerifiedInteractionChannel
      → VerifiedInteractionUser
      → Option ActionAnswer
      → Interactions
      → Answer
  unfolding finish_plain finish reserve action_reserved
  handle_action p channel user none w = finish_plain processing_failed w
  handle_action p channel user (some no_action) w = finish_plain outcome_unknown w
  handle_action p channel user (some other_action) w =
      finish action_operation (some p.action_name) outcome_handler_failed not_started false w
  handle_action p channel user (some (action handler)) w =
      action_reserved handler (action_command p channel user)
        (reserve action_operation p.action_name outcome_handler_failed w) w

  -- A text or a postback of a linked user, or neither.
  abbrev pub operate :
      ParseResult → VerifiedInteractionChannel → Option AccountAnswer → Interactions → Answer
  unfolding finish_plain handle_command handle_action
  operate p channel none w = finish_plain processing_failed w
  operate p channel (some user_missing) w = finish_plain outcome_unlinked w
  operate p channel (some other_user) w = finish_plain processing_failed w
  operate (parsed_text p) channel (some (linked_user user)) w =
      handle_command p.reply_token channel (s.resolve_command p.candidate) w
  operate (parsed_postback p) channel (some (linked_user user)) w =
      handle_action p channel user (s.resolve_action p.action_name) w
  operate invalid_interaction channel (some (linked_user user)) w = finish_plain processing_failed w
  operate out_of_scope_interaction channel (some (linked_user user)) w =
      finish_plain processing_failed w

  abbrev pub is_linkable : ChannelSummary → Bool
  is_linkable c = c.is_active && not (text_eq c.provider_id [])

  abbrev pub verified_channel : ChannelSummary → VerifiedInteractionChannel
  verified_channel c = record { channel_public_id = c.public_id; provider_id = c.provider_id }

  abbrev pub on_channel :
      ParseResult → Text → Option (Option ChannelSummary) → Interactions → Answer
  unfolding finish_plain operate
  on_channel p subject none w = finish_plain processing_failed w
  on_channel p subject (some none) w = finish_plain outcome_unlinked w
  on_channel p subject (some (some c)) w =
      if is_linkable c
      then operate p (verified_channel c) (s.account (verified_channel c) subject) w
      else finish_plain outcome_unlinked w

  abbrev pub after_parse : Option ParseResult → Interactions → Answer
  unfolding finish_plain on_channel
  after_parse none w = finish_plain processing_failed w
  after_parse (some invalid_interaction) w = finish_plain outcome_invalid w
  after_parse (some out_of_scope_interaction) w = finish_plain outcome_out_of_scope w
  after_parse (some (parsed_text p)) w =
      on_channel (parsed_text p) p.subject (s.channel event.channel_public_id) w
  after_parse (some (parsed_postback p)) w =
      on_channel (parsed_postback p) p.subject (s.channel event.channel_public_id) w

  -- `handle`
  unfoldable pub handle_interaction : Interactions → Answer
  unfolding after_parse
  handle_interaction w =
      if text_eq event.event_type (codes "message") || text_eq event.event_type (codes "postback")
      then after_parse (s.parser event) w
      else (ok handler_failed, w)

-- Events, one after the other, each with its own answers of the services.
unfoldable pub handle_events :
    List (Services × VerifiedWebhookEvent × HandlerExecutionContext) → Interactions → Interactions
unfolding handle_interaction
handle_events [] w = w
handle_events ((s, event, context) ∷ rest) w =
    handle_events rest (handle_interaction s event context w).1
