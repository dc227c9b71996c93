-- ===== src/Interaction/Types.antt =====
-- backend/lineinteractions/types.py. A redacted string is its text; times are in microseconds.
use line_message_playground.Prelude.{ℕ, Option}
use line_message_playground.Prelude.Text.{Text}
use line_message_playground.Webhook.Types.{HandlerExecutionContext}

pub record ParsedTextInteraction : Type 0 where
  pub subject : Text
  pub reply_token : Text
  pub candidate : Text

pub record ParsedPostbackInteraction : Type 0 where
  pub subject : Text
  pub reply_token : Text
  pub action_name : Text
  pub payload : Text

pub data ParseResult : Type 0 where
  parsed_text : ParsedTextInteraction → ParseResult
  parsed_postback : ParsedPostbackInteraction → ParseResult
  invalid_interaction out_of_scope_interaction : ParseResult

pub record VerifiedInteractionChannel : Type 0 where
  pub channel_public_id : ℕ
  pub provider_id : Text

pub record VerifiedInteractionUser : Type 0 where
  pub identity_public_id : ℕ
  pub recipient_public_id : ℕ

pub record CommandDefinition : Type 0 where
  pub identifier : Text
  pub exact_text : Text
  pub reply_text : Text

pub data ActionOutcome : Type 0 where
  action_succeeded action_no_change action_rejected action_failed : ActionOutcome

pub record PostbackActionCommand : Type 0 where
  pub action_name : Text
  pub payload : Text
  pub channel : VerifiedInteractionChannel
  pub webhook_event_id : Text
  pub user : VerifiedInteractionUser
  pub execution : HandlerExecutionContext

pub data ReplyResult : Type 0 where
  reply_accepted reply_rejected reply_unknown : ReplyResult

pub data InteractionOutcome : Type 0 where
  command_processed outcome_succeeded outcome_no_change outcome_rejected outcome_unknown
        outcome_invalid outcome_out_of_scope outcome_unlinked outcome_handler_failed
        processing_failed credential_unavailable deadline_exceeded :
      InteractionOutcome

pub data ReplyOutcome : Type 0 where
  accepted rejected unknown not_started : ReplyOutcome

pub data OperationKind : Type 0 where
  no_operation command_operation action_operation : OperationKind

pub record InteractionAuditRecord : Type 0 where
  pub channel_public_id : ℕ
  pub webhook_event_id : Text
  pub event_type : Text
  pub operation_kind : OperationKind
  pub operation_identifier : Option Text
  pub interaction_outcome : InteractionOutcome
  pub reply_outcome : ReplyOutcome
