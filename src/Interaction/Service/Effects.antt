-- ===== src/Interaction/Service/Effects.antt =====
-- How often an event has an effect outside.
use line_message_playground.Prelude.{
  ℕ, ◌+◌, ◌≤◌, ◌≡◌, refl, ap, Bool, true, false, ◌&&◌, ◌||◌, Option, none, some, List, [], ◌∷◌, ltb,
  leb, if◌then◌else◌, Bool-cases, inl, inr, arith,
}
use line_message_playground.Prelude.Text.{Text, text_eq, text_eq_iff, codes}
use line_message_playground.Prelude.Rows.{count_where, exists, update_where}
use line_message_playground.Webhook.Types.{VerifiedWebhookEvent, HandlerExecutionContext}
use line_message_playground.Webhook.Receipts.{
  FenceStatus, locked, channel_not_found, fence_storage_retryable, fence_storage_unavailable,
}
use line_message_playground.Interaction.Types.{
  ParseResult, parsed_text, parsed_postback, invalid_interaction, out_of_scope_interaction,
  ParsedPostbackInteraction, VerifiedInteractionChannel, VerifiedInteractionUser, CommandDefinition,
  ActionOutcome, PostbackActionCommand, InteractionOutcome, outcome_handler_failed, outcome_unknown,
  outcome_unlinked, outcome_invalid, outcome_out_of_scope, no_operation, processing_failed,
  command_processed, deadline_exceeded, credential_unavailable, ReplyOutcome, OperationKind,
  command_operation, action_operation, InteractionAuditRecord, not_started,
}
use line_message_playground.Interaction.Audit.{
  of_event, replaces, replaced, record_audit, insert_audit, replace_reserved,
  valid_audit_combination,
}
use line_message_playground.Interaction.Service.{
  Services, Effect, replied, acted, outcome_of_reply, outcome_of_action, Interactions, ReplyCall,
  ChannelSummary, AccountAnswer, linked_user, user_missing, other_user, CommandAnswer, command,
  no_command, other_command, ActionAnswer, action, no_action, other_action, CredentialAnswer, token,
  credential_missing, other_credential, minimum_reply_start, finish, finish_plain, finish_command,
  audit_record, reserve, is_recorded, remaining_until, reply_budget, reply_now, reply_within,
  reply_with, command_reserved, handle_command, action_reserved, action_command, handle_action,
  operate, is_linkable, verified_channel, on_channel, after_parse, handle_interaction,
  handle_events,
}

abbrev one : Bool → ℕ
one b = if b then 1 else 0

-- The effect was for the event with this id.
abbrev pub is_effect_of : Text → Text × Effect → Bool
is_effect_of id (event_id, effect) = text_eq event_id id

-- 1 if the event has an audit row, 0 otherwise.
abbrev pub audit_weight : Text → List InteractionAuditRecord → ℕ
audit_weight id rows = one (exists (of_event id) rows)

module _ (id : Text) where
  -- Every effect for the event is covered by an audit row of it.
  record IsCovered (w : Interactions) : Type 0 where
    pub covers : count_where (is_effect_of id) w.effects ≤ audit_weight id w.audits

  insert_audit-weight :
      (r : InteractionAuditRecord) (rows : List InteractionAuditRecord)
      → audit_weight id rows ≤ audit_weight id (insert_audit r rows).1
  unfolding insert_audit
  insert_audit-weight r rows = ground arith

  record_audit-weight :
      (fails : Bool) (fence : FenceStatus) (r : InteractionAuditRecord)
      (rows : List InteractionAuditRecord)
      → audit_weight id rows ≤ audit_weight id (record_audit fails fence r rows).1
  unfolding record_audit
  record_audit-weight true fence r rows = omega arith
  record_audit-weight false locked r rows = insert_audit-weight r rows
  record_audit-weight false channel_not_found r rows = omega arith
  record_audit-weight false fence_storage_retryable r rows = omega arith
  record_audit-weight false fence_storage_unavailable r rows = omega arith

  exists-replaced :
      (r : InteractionAuditRecord) (rows : List InteractionAuditRecord)
      → exists (of_event id) (update_where (replaces r) (replaced r) rows)
        ≡ exists (of_event id) rows
  exists-replaced r [] = refl
  exists-replaced r (x ∷ rows) = ground (arith, exists-replaced r rows)

  replace_reserved-weight :
      (fails : Bool) (r : InteractionAuditRecord) (rows : List InteractionAuditRecord)
      → audit_weight id rows ≤ audit_weight id (replace_reserved fails r rows).1
  unfolding replace_reserved
  replace_reserved-weight true r rows = omega arith
  replace_reserved-weight false r rows = ground (arith, exists-replaced r rows)

  module _ (s : Services) (event : VerifiedWebhookEvent) (context : HandlerExecutionContext) where
    finish-IsCovered :
        (kind : OperationKind) (identifier : Option Text) (outcome : InteractionOutcome)
        (reply : ReplyOutcome) (reserved : Bool) (w : Interactions)
        → IsCovered w
        → IsCovered (finish s event context kind identifier outcome reply reserved w).1
    unfolding finish
    finish-IsCovered kind identifier outcome reply true w h =
        let r = audit_record s event context kind identifier outcome reply in
        elim (Bool-cases (valid_audit_combination r)) [
          | inl e ↦ rw e (record {
            covers = omega (arith, h.covers, replace_reserved-weight s.finish_fails r w.audits);
          })
          | inr e ↦ rw e h
        ]
    finish-IsCovered kind identifier outcome reply false w h =
        let r = audit_record s event context kind identifier outcome reply in
        elim (Bool-cases (valid_audit_combination r)) [
          | inl e ↦ rw e (record {
            covers = omega (arith, h.covers, record_audit-weight s.finish_fails s.fence r w.audits);
          })
          | inr e ↦ rw e h
        ]

    -- A reserved record is new, and is the event's.
    abbrev Reserves : Interactions → Option Interactions → Type 0
    Reserves w none = Unit
    Reserves w (some w') =
        (w'.effects ≡ w.effects)
        × (one (text_eq event.webhook_event_id id) + audit_weight id w.audits
            ≤ audit_weight id w'.audits)

    insert_audit-new :
        (r : InteractionAuditRecord) (rows : List InteractionAuditRecord)
        → is_recorded s event context (insert_audit r rows).0 ≡ true
        → one (text_eq r.webhook_event_id id) + audit_weight id rows
          ≤ audit_weight id (insert_audit r rows).1
    unfolding insert_audit
    insert_audit-new r rows h = ground (arith, text_eq_iff r.webhook_event_id id)

    record_audit-new :
        (fails : Bool) (fence : FenceStatus) (r : InteractionAuditRecord)
        (rows : List InteractionAuditRecord)
        → is_recorded s event context (record_audit fails fence r rows).0 ≡ true
        → one (text_eq r.webhook_event_id id) + audit_weight id rows
          ≤ audit_weight id (record_audit fails fence r rows).1
    unfolding record_audit
    record_audit-new true fence r rows h = cc
    record_audit-new false locked r rows h = insert_audit-new r rows h
    record_audit-new false channel_not_found r rows h = cc
    record_audit-new false fence_storage_retryable r rows h = cc
    record_audit-new false fence_storage_unavailable r rows h = cc

    reserve-Reserves :
        (kind : OperationKind) (identifier : Text) (fallback : InteractionOutcome)
        (w : Interactions)
        → Reserves w (reserve s event context kind identifier fallback w)
    unfolding reserve
    reserve-Reserves kind identifier fallback w =
        let r = audit_record s event context kind (some identifier) fallback not_started in
        elim (Bool-cases (
          valid_audit_combination r
          && is_recorded s event context (record_audit s.reserve_fails s.fence r w.audits).0)) [
            | inr e ↦ rw e tt
            | inl e ↦
                rw e (refl, record_audit-new s.reserve_fails s.fence r w.audits (ground arith))
          ]

    effect-IsCovered :
        (e : Effect) (w w' : Interactions)
        → IsCovered w
        → Reserves w (some w')
        → IsCovered (record w' { effects = (event.webhook_event_id, e) ∷ w'.effects })
    effect-IsCovered e w w' h (p, q) = record {
      covers = ground (arith, h.covers, ap (count_where (is_effect_of id)) p);
    }

    reserved-IsCovered : (w w' : Interactions) → IsCovered w → Reserves w (some w') → IsCovered w'
    reserved-IsCovered w w' h (p, q) = record {
      covers = ground (arith, h.covers, ap (count_where (is_effect_of id)) p);
    }

    finish_command-IsCovered :
        (c : CommandDefinition) (outcome : InteractionOutcome) (reply : ReplyOutcome)
        (w : Interactions)
        → IsCovered w
        → IsCovered (finish_command s event context c outcome reply w).1
    unfolding finish_command
    finish_command-IsCovered c outcome reply w h =
        finish-IsCovered command_operation (some c.identifier) outcome reply true w h

    reply_now-IsCovered :
        (c : CommandDefinition) (call : ReplyCall) (w w' : Interactions)
        → IsCovered w
        → Reserves w (some w')
        → IsCovered (reply_now s event context c call w').1
    unfolding reply_now
    reply_now-IsCovered c call w w' h r =
        finish_command-IsCovered c command_processed (outcome_of_reply (s.reply_text call))
          (record w' { effects = (event.webhook_event_id, replied call) ∷ w'.effects })
          (effect-IsCovered (replied call) w w' h r)

    reply_within-IsCovered :
        (c : CommandDefinition) (access_token reply_token : Text) (remaining : ℕ)
        (w w' : Interactions)
        → IsCovered w
        → Reserves w (some w')
        → IsCovered (reply_within s event context c access_token reply_token remaining w').1
    unfolding reply_within
    reply_within-IsCovered c access_token reply_token remaining w w' h r =
        elim (Bool-cases (ltb remaining minimum_reply_start)) [
          | inl e ↦ rw e (
              finish_command-IsCovered c deadline_exceeded not_started w'
                (reserved-IsCovered w w' h r))
          | inr e ↦ rw e (elim (Bool-cases (leb (reply_budget s event context remaining) 0)) [
            | inl f ↦ rw f (reserved-IsCovered w w' h r)
            | inr f ↦ rw f (
                reply_now-IsCovered c
                  (record {
                    access_token = access_token;
                    reply_token = reply_token;
                    text = c.reply_text;
                    timeout = reply_budget s event context remaining;
                  })
                  w w' h r)
          ])
        ]

    reply_with-IsCovered :
        (c : CommandDefinition) (reply_token : Text) (o : Option CredentialAnswer)
        (w w' : Interactions)
        → IsCovered w
        → Reserves w (some w')
        → IsCovered (reply_with s event context c reply_token o w').1
    unfolding reply_with
    reply_with-IsCovered c t none w w' h r =
        finish_command-IsCovered c processing_failed not_started w' (reserved-IsCovered w w' h r)
    reply_with-IsCovered c t (some credential_missing) w w' h r =
        finish_command-IsCovered c credential_unavailable not_started w'
          (reserved-IsCovered w w' h r)
    reply_with-IsCovered c t (some other_credential) w w' h r =
        finish_command-IsCovered c processing_failed not_started w' (reserved-IsCovered w w' h r)
    reply_with-IsCovered c t (some (token a)) w w' h r =
        reply_within-IsCovered c a t
          (remaining_until s event context context.external_io_deadline_monotonic s.monotonic) w w'
          h r

    command_reserved-IsCovered :
        (c : CommandDefinition) (reply_token : Text) (channel : VerifiedInteractionChannel)
        (o : Option Interactions) (w : Interactions)
        → IsCovered w
        → Reserves w o
        → IsCovered (command_reserved s event context c reply_token channel o w).1
    unfolding command_reserved
    command_reserved-IsCovered c t channel none w h r = h
    command_reserved-IsCovered c t channel (some w') w h r =
        reply_with-IsCovered c t (s.get_access_token channel.channel_public_id) w w' h r

    finish_plain-IsCovered :
        (outcome : InteractionOutcome) (w : Interactions)
        → IsCovered w
        → IsCovered (finish_plain s event context outcome w).1
    unfolding finish_plain
    finish_plain-IsCovered outcome w h =
        finish-IsCovered no_operation none outcome not_started false w h

    handle_command-IsCovered :
        (reply_token : Text) (channel : VerifiedInteractionChannel) (o : Option CommandAnswer)
        (w : Interactions)
        → IsCovered w
        → IsCovered (handle_command s event context reply_token channel o w).1
    unfolding handle_command
    handle_command-IsCovered t channel none w h = finish_plain-IsCovered processing_failed w h
    handle_command-IsCovered t channel (some no_command) w h =
        finish_plain-IsCovered outcome_unknown w h
    handle_command-IsCovered t channel (some other_command) w h =
        finish_plain-IsCovered processing_failed w h
    handle_command-IsCovered t channel (some (command c)) w h =
        command_reserved-IsCovered c t channel
          (reserve s event context command_operation c.identifier processing_failed w) w h
          (reserve-Reserves command_operation c.identifier processing_failed w)

    action_reserved-IsCovered :
        (handler : PostbackActionCommand → Option ActionOutcome) (c : PostbackActionCommand)
        (o : Option Interactions) (w : Interactions)
        → IsCovered w
        → Reserves w o
        → IsCovered (action_reserved s event context handler c o w).1
    unfolding action_reserved
    action_reserved-IsCovered handler c none w h r = h
    action_reserved-IsCovered handler c (some w') w h r =
        finish-IsCovered action_operation (some c.action_name) (outcome_of_action (handler c))
          not_started true (record w' { effects = (event.webhook_event_id, acted c) ∷ w'.effects })
          (effect-IsCovered (acted c) w w' h r)

    handle_action-IsCovered :
        (p : ParsedPostbackInteraction) (channel : VerifiedInteractionChannel)
        (user : VerifiedInteractionUser) (o : Option ActionAnswer) (w : Interactions)
        → IsCovered w
        → IsCovered (handle_action s event context p channel user o w).1
    unfolding handle_action
    handle_action-IsCovered p channel user none w h = finish_plain-IsCovered processing_failed w h
    handle_action-IsCovered p channel user (some no_action) w h =
        finish_plain-IsCovered outcome_unknown w h
    handle_action-IsCovered p channel user (some other_action) w h =
        finish-IsCovered action_operation (some p.action_name) outcome_handler_failed not_started
          false w h
    handle_action-IsCovered p channel user (some (action handler)) w h =
        action_reserved-IsCovered handler (action_command s event context p channel user)
          (reserve s event context action_operation p.action_name outcome_handler_failed w) w h
          (reserve-Reserves action_operation p.action_name outcome_handler_failed w)

    operate-IsCovered :
        (p : ParseResult) (channel : VerifiedInteractionChannel) (o : Option AccountAnswer)
        (w : Interactions)
        → IsCovered w
        → IsCovered (operate s event context p channel o w).1
    unfolding operate
    operate-IsCovered p channel none w h = finish_plain-IsCovered processing_failed w h
    operate-IsCovered p channel (some user_missing) w h =
        finish_plain-IsCovered outcome_unlinked w h
    operate-IsCovered p channel (some other_user) w h = finish_plain-IsCovered processing_failed w h
    operate-IsCovered (parsed_text p) channel (some (linked_user u)) w h =
        handle_command-IsCovered p.reply_token channel (s.resolve_command p.candidate) w h
    operate-IsCovered (parsed_postback p) channel (some (linked_user u)) w h =
        handle_action-IsCovered p channel u (s.resolve_action p.action_name) w h
    operate-IsCovered invalid_interaction channel (some (linked_user u)) w h =
        finish_plain-IsCovered processing_failed w h
    operate-IsCovered out_of_scope_interaction channel (some (linked_user u)) w h =
        finish_plain-IsCovered processing_failed w h

    on_channel-IsCovered :
        (p : ParseResult) (subject : Text) (o : Option (Option ChannelSummary)) (w : Interactions)
        → IsCovered w
        → IsCovered (on_channel s event context p subject o w).1
    unfolding on_channel
    on_channel-IsCovered p subject none w h = finish_plain-IsCovered processing_failed w h
    on_channel-IsCovered p subject (some none) w h = finish_plain-IsCovered outcome_unlinked w h
    on_channel-IsCovered p subject (some (some c)) w h =
        elim (Bool-cases (is_linkable s event context c)) [
          | inl e ↦ rw e (
              operate-IsCovered p (verified_channel s event context c)
                (s.account (verified_channel s event context c) subject) w h)
          | inr e ↦ rw e (finish_plain-IsCovered outcome_unlinked w h)
        ]

    after_parse-IsCovered :
        (o : Option ParseResult) (w : Interactions)
        → IsCovered w
        → IsCovered (after_parse s event context o w).1
    unfolding after_parse
    after_parse-IsCovered none w h = finish_plain-IsCovered processing_failed w h
    after_parse-IsCovered (some invalid_interaction) w h =
        finish_plain-IsCovered outcome_invalid w h
    after_parse-IsCovered (some out_of_scope_interaction) w h =
        finish_plain-IsCovered outcome_out_of_scope w h
    after_parse-IsCovered (some (parsed_text p)) w h =
        on_channel-IsCovered (parsed_text p) p.subject (s.channel event.channel_public_id) w h
    after_parse-IsCovered (some (parsed_postback p)) w h =
        on_channel-IsCovered (parsed_postback p) p.subject (s.channel event.channel_public_id) w h

    handle_interaction-IsCovered :
        (w : Interactions) → IsCovered w → IsCovered (handle_interaction s event context w).1
    unfolding handle_interaction
    handle_interaction-IsCovered w h =
        elim (Bool-cases (
          text_eq event.event_type (codes "message")
          || text_eq event.event_type (codes "postback"))) [
            | inl e ↦ rw e (after_parse-IsCovered (s.parser event) w h)
            | inr e ↦ rw e h
          ]

  handle_events-IsCovered :
      (calls : List (Services × VerifiedWebhookEvent × HandlerExecutionContext)) (w : Interactions)
      → IsCovered w
      → IsCovered (handle_events calls w)
  unfolding handle_events
  handle_events-IsCovered [] w h = h
  handle_events-IsCovered ((s, event, context) ∷ rest) w h =
      handle_events-IsCovered rest (handle_interaction s event context w).1
        (handle_interaction-IsCovered s event context w h)

-- Over any events, handled any number of times, whatever the services answer and whichever writes
-- fail: at most one reply is sent or one action is called in all for one webhook event id, if at the
-- start no more effects for it were caused than it has audit rows.
pub handle_events_act_once :
    (id : Text) (calls : List (Services × VerifiedWebhookEvent × HandlerExecutionContext))
    (w : Interactions)
    → count_where (is_effect_of id) w.effects ≤ audit_weight id w.audits
    → count_where (is_effect_of id) (handle_events calls w).effects ≤ 1
handle_events_act_once id calls w h =
    let c = handle_events-IsCovered id calls w (record { covers = h }) in ground (arith, c.covers)
