-- ===== src/Interaction/Audit.antt =====
-- The audit of interactions: which records `InteractionAuditRecord` accepts
-- (backend/lineinteractions/types.py), which rows the table accepts
-- (backend/lineinteractions/models.py), and the repository over it
-- (backend/lineinteractions/repositories.py).
pub mod Consistent
use line_message_playground.Prelude.{
  ℕ, Bool, true, false, ◌&&◌, ◌||◌, not, Option, none, some, is_none, List, [], ◌∷◌, ◌==◌,
  if◌then◌else◌, ltb, length,
}
use line_message_playground.Prelude.Text.{Text, text_eq, codes}
use line_message_playground.Prelude.Rows.{exists, count_where, update_where, all}
use line_message_playground.Webhook.Receipts.{
  FenceStatus, locked, channel_not_found, fence_storage_retryable, fence_storage_unavailable,
}
use line_message_playground.Interaction.Types.{
  InteractionOutcome, command_processed, outcome_succeeded, outcome_no_change, outcome_rejected,
  outcome_unknown, outcome_invalid, outcome_out_of_scope, outcome_unlinked, outcome_handler_failed,
  processing_failed, credential_unavailable, deadline_exceeded, ReplyOutcome, accepted, rejected,
  unknown, not_started, OperationKind, no_operation, command_operation, action_operation,
  InteractionAuditRecord,
}

abbrev pub is_message : Text → Bool
is_message t = text_eq t (codes "message")

abbrev pub is_postback : Text → Bool
is_postback t = text_eq t (codes "postback")

abbrev pub is_no_operation : OperationKind → Bool
is_no_operation no_operation = true
is_no_operation _ = false

abbrev pub is_command : OperationKind → Bool
is_command command_operation = true
is_command _ = false

abbrev pub is_action : OperationKind → Bool
is_action action_operation = true
is_action _ = false

abbrev pub is_not_started : ReplyOutcome → Bool
is_not_started not_started = true
is_not_started _ = false

abbrev pub unoperated : InteractionOutcome → Bool
unoperated outcome_unknown = true
unoperated outcome_invalid = true
unoperated outcome_out_of_scope = true
unoperated outcome_unlinked = true
unoperated processing_failed = true
unoperated _ = false

abbrev pub is_command_processed : InteractionOutcome → Bool
is_command_processed command_processed = true
is_command_processed _ = false

abbrev pub command_failure : InteractionOutcome → Bool
command_failure processing_failed = true
command_failure credential_unavailable = true
command_failure deadline_exceeded = true
command_failure _ = false

abbrev pub action_result : InteractionOutcome → Bool
action_result outcome_succeeded = true
action_result outcome_no_change = true
action_result outcome_rejected = true
action_result outcome_handler_failed = true
action_result _ = false

abbrev pub is_ping : Option Text → Bool
is_ping none = false
is_ping (some s) = text_eq s (codes "connectivity_ping_v1")

abbrev pub is_named : Option Text → Bool
is_named none = false
is_named (some []) = false
is_named (some (c ∷ s)) = true

-- `_valid_audit_combination`
unfoldable pub valid_audit_combination : InteractionAuditRecord → Bool
valid_audit_combination r =
    if is_no_operation r.operation_kind
      && (is_none r.operation_identifier && is_not_started r.reply_outcome)
    then (is_message r.event_type || is_postback r.event_type) && unoperated r.interaction_outcome
    else if is_message r.event_type
        && (is_command r.operation_kind && is_ping r.operation_identifier)
    then (if is_command_processed r.interaction_outcome
        then not (is_not_started r.reply_outcome)
        else command_failure r.interaction_outcome && is_not_started r.reply_outcome)
    else is_postback r.event_type
      && (is_action r.operation_kind
          && (is_named r.operation_identifier
              && (action_result r.interaction_outcome && is_not_started r.reply_outcome)))

-- `lineint_audit_result_consistent`
unfoldable pub result_consistent : InteractionAuditRecord → Bool
result_consistent r =
    is_message r.event_type
      && (is_command r.operation_kind
          && (is_ping r.operation_identifier
              && (is_command_processed r.interaction_outcome
                  && not (is_not_started r.reply_outcome))))
    || (is_message r.event_type
          && (is_command r.operation_kind
              && (is_ping r.operation_identifier
                  && (command_failure r.interaction_outcome && is_not_started r.reply_outcome)))
        || (is_postback r.event_type
              && (is_action r.operation_kind
                  && (is_named r.operation_identifier
                      && (action_result r.interaction_outcome && is_not_started r.reply_outcome)))
            || (is_message r.event_type || is_postback r.event_type)
              && (is_no_operation r.operation_kind
                  && (is_none r.operation_identifier
                      && (unoperated r.interaction_outcome && is_not_started r.reply_outcome)))))

abbrev pub of_event : Text → InteractionAuditRecord → Bool
of_event id r = text_eq r.webhook_event_id id

pub data RecordResult : Type 0 where
  recorded record_failed record_refused : RecordResult

-- `record`: an event that has a row, or a row that the table refuses, raises IntegrityError.
unfoldable pub insert_audit :
    InteractionAuditRecord
    → List InteractionAuditRecord
    → RecordResult × List InteractionAuditRecord
unfolding result_consistent
insert_audit r rows =
    if exists (of_event r.webhook_event_id) rows || not (result_consistent r)
    then (record_failed, rows)
    else (recorded, r ∷ rows)

unfoldable pub record_audit :
    Bool
    → FenceStatus
    → InteractionAuditRecord
    → List InteractionAuditRecord
    → RecordResult × List InteractionAuditRecord
unfolding insert_audit
record_audit true fence r rows = (record_failed, rows)
record_audit false locked r rows = insert_audit r rows
record_audit false channel_not_found r rows = (record_refused, rows)
record_audit false fence_storage_retryable r rows = (record_refused, rows)
record_audit false fence_storage_unavailable r rows = (record_refused, rows)

abbrev pub replaces : InteractionAuditRecord → InteractionAuditRecord → Bool
replaces r row =
    text_eq row.webhook_event_id r.webhook_event_id
    && (row.channel_public_id == r.channel_public_id)

abbrev pub replaced : InteractionAuditRecord → InteractionAuditRecord → InteractionAuditRecord
replaced r row = record row {
  event_type = r.event_type;
  operation_kind = r.operation_kind;
  operation_identifier = r.operation_identifier;
  interaction_outcome = r.interaction_outcome;
  reply_outcome = r.reply_outcome;
}

-- `replace_reserved`
unfoldable pub replace_reserved :
    Bool
    → InteractionAuditRecord
    → List InteractionAuditRecord
    → RecordResult × List InteractionAuditRecord
unfolding result_consistent
replace_reserved true r rows = (record_failed, rows)
replace_reserved false r rows =
    let rows' = update_where (replaces r) (replaced r) rows in
    if all result_consistent rows'
    then (if count_where (replaces r) rows == 1 then recorded else record_failed, rows')
    else (record_failed, rows)
