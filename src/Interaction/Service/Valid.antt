-- ===== src/Interaction/Service/Valid.antt =====
-- What a handled event leaves: valid audit records, and replies within their time.
use line_message_playground.Prelude.{
  ℕ, ◌+◌, ◌≤◌, ◌≡◌, refl, ap, sym, subst, Bool, true, false, ◌&&◌, ◌||◌, Option, none, some, ◌∷◌,
  ltb, leb, Bool-cases, inl, inr, ◌⊎◌, arith, ok,
}
use line_message_playground.Prelude.Text.{Text, text_eq, codes}
use line_message_playground.Webhook.Types.{
  VerifiedWebhookEvent, HandlerExecutionContext, HandlerOutcome, handler_failed,
}
use line_message_playground.Interaction.Types.{
  ParseResult, parsed_text, parsed_postback, invalid_interaction, out_of_scope_interaction,
  ParsedPostbackInteraction, VerifiedInteractionChannel, VerifiedInteractionUser, CommandDefinition,
  ActionOutcome, action_succeeded, action_no_change, action_rejected, action_failed,
  PostbackActionCommand, ReplyResult, reply_accepted, reply_rejected, reply_unknown,
  InteractionOutcome, command_processed, deadline_exceeded, credential_unavailable,
  outcome_handler_failed, outcome_unknown, outcome_unlinked, outcome_invalid, outcome_out_of_scope,
  processing_failed, ReplyOutcome, not_started, OperationKind, no_operation, command_operation,
  action_operation,
}
use line_message_playground.Interaction.Parsing.Typed.{Typed, parse-Typed}
use line_message_playground.Interaction.Parsing.{parse}
use line_message_playground.Interaction.Audit.{
  is_message, is_not_started, is_command_processed, is_postback, unoperated, is_named, is_ping,
  action_result, command_failure, valid_audit_combination, record_audit,
}
use line_message_playground.Interaction.Service.{
  Services, Effect, replied, acted, outcome_of_reply, outcome_of_action, Interactions, Answer,
  ReplyCall, ChannelSummary, AccountAnswer, linked_user, user_missing, other_user, ActionAnswer,
  action, no_action, other_action, CredentialAnswer, token, credential_missing, other_credential,
  minimum_reply_start, static_command, ping, finish, finish_plain, finish_command, audit_record,
  reserve, is_recorded, remaining_until, reply_budget, reply_now, reply_within, reply_with,
  command_reserved, handle_command, action_reserved, action_command, handle_action, operate,
  is_linkable, verified_channel, on_channel, after_parse, handle_interaction,
}

-- The parts of a reply's time that the code relies on: 0.2 to 0.5 seconds, and over 0.1 seconds
-- before the cutoff.
pub record IsTimelyReply (s : Services) (context : HandlerExecutionContext) (call : ReplyCall)
    : Type 0 where
  pub now : ℕ
  pub cutoff : ℕ
  pub started : s.monotonic ≡ some now
  pub limit : context.external_io_deadline_monotonic ≡ some cutoff
  pub least : 200000 ≤ call.timeout
  pub most : call.timeout ≤ 500000
  pub ends : now + call.timeout + 100000 ≤ cutoff

abbrev pub IsTimely : Services → HandlerExecutionContext → Effect → Type 0
IsTimely s context (replied call) = IsTimelyReply s context call
IsTimely s context (acted c) = Unit

reply-started : (o : Option ReplyResult) → is_not_started (outcome_of_reply o) ≡ false
reply-started none = refl
reply-started (some reply_accepted) = refl
reply-started (some reply_rejected) = refl
reply-started (some reply_unknown) = refl

action-result : (o : Option ActionOutcome) → action_result (outcome_of_action o) ≡ true
action-result none = refl
action-result (some action_succeeded) = refl
action-result (some action_no_change) = refl
action-result (some action_rejected) = refl
action-result (some action_failed) = refl

module _ (s : Services) (event : VerifiedWebhookEvent) (context : HandlerExecutionContext) where
  -- The event has caused nothing, or one timely effect.
  abbrev pub Grown : Interactions → Interactions → Type 0
  Grown w w' =
      (w'.effects ≡ w.effects)
      ⊎ ((e : Effect) × IsTimely s context e
          × (w'.effects ≡ (event.webhook_event_id, e) ∷ w.effects))

  -- The event is answered, not interrupted by an exception, with one timely effect at most.
  pub record IsGood (w : Interactions) (a : Answer) : Type 0 where
    pub returned : (o : HandlerOutcome) × (a.0 ≡ ok o)
    pub effect : Grown w a.1

  finish-IsGood :
      (kind : OperationKind) (identifier : Option Text) (outcome : InteractionOutcome)
      (reply : ReplyOutcome) (reserved : Bool) (w w' : Interactions)
      → valid_audit_combination (audit_record s event context kind identifier outcome reply) ≡ true
      → Grown w w'
      → IsGood w (finish s event context kind identifier outcome reply reserved w')
  unfolding finish
  finish-IsGood kind identifier outcome reply true w w' v g =
      rw v (record { returned = (_, refl); effect = g })
  finish-IsGood kind identifier outcome reply false w w' v g =
      rw v (record { returned = (_, refl); effect = g })

  -- A reservation, where it was made, has only added an audit row.
  abbrev Kept : Interactions → Option Interactions → Type 0
  Kept w none = Unit
  Kept w (some w') = w'.effects ≡ w.effects

  reserve-Kept :
      (kind : OperationKind) (identifier : Text) (fallback : InteractionOutcome) (w : Interactions)
      → Kept w (reserve s event context kind identifier fallback w)
  unfolding reserve
  reserve-Kept kind identifier fallback w =
      let r = audit_record s event context kind (some identifier) fallback not_started in
      elim (Bool-cases (
        valid_audit_combination r
        && is_recorded s event context (record_audit s.reserve_fails s.fence r w.audits).0)) [
          | inl e ↦ rw e refl
          | inr e ↦ rw e tt
        ]

  module _ (typed : (is_message event.event_type || is_postback event.event_type) ≡ true) where
    finish_plain-IsGood :
        (outcome : InteractionOutcome) (w : Interactions)
        → unoperated outcome ≡ true
        → IsGood w (finish_plain s event context outcome w)
    unfolding finish_plain valid_audit_combination
    finish_plain-IsGood outcome w h =
        finish-IsGood no_operation none outcome not_started false w w (rw (typed, h) refl)
          (inl refl)

    module _ (message : is_message event.event_type ≡ true) (c : CommandDefinition)
        (named : is_ping (some c.identifier) ≡ true) where
      finish_command-IsGood :
          (outcome : InteractionOutcome) (w w' : Interactions)
          → is_command_processed outcome ≡ false
          → command_failure outcome ≡ true
          → Grown w w'
          → IsGood w (finish_command s event context c outcome not_started w')
      unfolding finish_command valid_audit_combination
      finish_command-IsGood outcome w w' p h g =
          finish-IsGood command_operation (some c.identifier) outcome not_started true w w'
            (rw (message, named, p, h) refl) g

      -- A reply that was sent, whatever the gateway answers.
      reply_now-IsGood :
          (call : ReplyCall) (w w' : Interactions)
          → w'.effects ≡ w.effects
          → IsTimelyReply s context call
          → IsGood w (reply_now s event context c call w')
      unfolding reply_now finish_command valid_audit_combination
      reply_now-IsGood call w w' h t =
          finish-IsGood command_operation (some c.identifier) command_processed
            (outcome_of_reply (s.reply_text call)) true w
            (record w' { effects = (event.webhook_event_id, replied call) ∷ w'.effects })
            (rw (message, named, reply-started (s.reply_text call)) refl)
            (inr (replied call, t, ap (λ e. (event.webhook_event_id, replied call) ∷ e) h))

      -- The time left is at least the minimum, so there is a cutoff and a clock.
      reply_timely :
          (access_token reply_token : Text) (limit started : Option ℕ)
          → context.external_io_deadline_monotonic ≡ limit
          → s.monotonic ≡ started
          → ltb (remaining_until s event context limit started) minimum_reply_start ≡ false
          → IsTimelyReply s context (record {
            access_token = access_token;
            reply_token = reply_token;
            text = c.reply_text;
            timeout = reply_budget s event context (remaining_until s event context limit started);
          })
      reply_timely a t (some cutoff) (some now) l m h = record {
        now = now;
        cutoff = cutoff;
        started = m;
        limit = l;
        least = ground arith;
        most = ground arith;
        ends = ground arith;
      }
      reply_timely a t (some cutoff) none l m h = cc
      reply_timely a t none started l m h = cc

      positive : (n : ℕ) → 200000 ≤ n → leb n 0 ≡ false
      positive n h = ground arith

      reply_within-IsGood :
          (access_token reply_token : Text) (w w' : Interactions)
          → w'.effects ≡ w.effects
          → IsGood w (
              reply_within s event context c access_token reply_token
                (remaining_until s event context context.external_io_deadline_monotonic s.monotonic)
                w')
      unfolding reply_within
      reply_within-IsGood a t w w' h =
          let left =
            remaining_until s event context context.external_io_deadline_monotonic s.monotonic in
          elim (Bool-cases (ltb left minimum_reply_start)) [
            | inl e ↦ rw e (finish_command-IsGood deadline_exceeded w w' refl refl (inl h))
            | inr e ↦
                let timely =
                  reply_timely a t context.external_io_deadline_monotonic s.monotonic refl refl e in
                rw (e, positive (reply_budget s event context left) timely.least)
                  (reply_now-IsGood
                    (record {
                      access_token = a;
                      reply_token = t;
                      text = c.reply_text;
                      timeout = reply_budget s event context left;
                    })
                    w w' h timely)
          ]

      reply_with-IsGood :
          (reply_token : Text) (o : Option CredentialAnswer) (w w' : Interactions)
          → w'.effects ≡ w.effects
          → IsGood w (reply_with s event context c reply_token o w')
      unfolding reply_with
      reply_with-IsGood t none w w' h =
          finish_command-IsGood processing_failed w w' refl refl (inl h)
      reply_with-IsGood t (some credential_missing) w w' h =
          finish_command-IsGood credential_unavailable w w' refl refl (inl h)
      reply_with-IsGood t (some other_credential) w w' h =
          finish_command-IsGood processing_failed w w' refl refl (inl h)
      reply_with-IsGood t (some (token a)) w w' h = reply_within-IsGood a t w w' h

      command_reserved-IsGood :
          (reply_token : Text) (channel : VerifiedInteractionChannel) (o : Option Interactions)
          (w : Interactions)
          → Kept w o
          → IsGood w (command_reserved s event context c reply_token channel o w)
      unfolding command_reserved
      command_reserved-IsGood t channel none w h = record {
        returned = (handler_failed, refl);
        effect = inl refl;
      }
      command_reserved-IsGood t channel (some w') w h =
          reply_with-IsGood t (s.get_access_token channel.channel_public_id) w w' h

    handle_command-IsGood :
        (reply_token : Text) (channel : VerifiedInteractionChannel) (text : Text) (w : Interactions)
        → is_message event.event_type ≡ true
        → IsGood w (handle_command s event context reply_token channel (static_command text) w)
    unfolding handle_command static_command
    handle_command-IsGood t channel text w h = elim (Bool-cases (text_eq text (codes "/ping"))) [
      | inl e ↦ rw e (
          command_reserved-IsGood h ping refl t channel
            (reserve s event context command_operation ping.identifier processing_failed w) w
            (reserve-Kept command_operation ping.identifier processing_failed w))
      | inr e ↦ rw e (finish_plain-IsGood outcome_unknown w refl)
    ]

    module _ (p : ParsedPostbackInteraction) (message : is_message event.event_type ≡ false)
        (named : is_named (some p.action_name) ≡ true) where
      finish_action-IsGood :
          (outcome : InteractionOutcome) (reserved : Bool) (w w' : Interactions)
          → action_result outcome ≡ true
          → Grown w w'
          → IsGood w (
              finish s event context action_operation
                (some p.action_name)
                outcome
                not_started
                reserved
                w')
      unfolding valid_audit_combination
      finish_action-IsGood outcome reserved w w' h g =
          finish-IsGood action_operation (some p.action_name) outcome not_started reserved w w'
            (rw
              (
                message,
                subst (λ b. (b || is_postback event.event_type) ≡ true) message typed,
                named,
                h,
              )
              refl)
            g

      action_reserved-IsGood :
          (handler : PostbackActionCommand → Option ActionOutcome)
          (channel : VerifiedInteractionChannel) (user : VerifiedInteractionUser)
          (o : Option Interactions) (w : Interactions)
          → Kept w o
          → IsGood w (
              action_reserved s event context handler
                (action_command s event context p channel user)
                o
                w)
      unfolding action_reserved
      action_reserved-IsGood handler channel user none w h = record {
        returned = (handler_failed, refl);
        effect = inl refl;
      }
      action_reserved-IsGood handler channel user (some w') w h =
          let c = action_command s event context p channel user in
          finish_action-IsGood (outcome_of_action (handler c)) true w
            (record w' { effects = (event.webhook_event_id, acted c) ∷ w'.effects })
            (action-result (handler c))
            (inr (acted c, tt, ap (λ e. (event.webhook_event_id, acted c) ∷ e) h))

      handle_action-IsGood :
          (channel : VerifiedInteractionChannel) (user : VerifiedInteractionUser)
          (o : Option ActionAnswer) (w : Interactions)
          → IsGood w (handle_action s event context p channel user o w)
      unfolding handle_action
      handle_action-IsGood channel user none w = finish_plain-IsGood processing_failed w refl
      handle_action-IsGood channel user (some no_action) w =
          finish_plain-IsGood outcome_unknown w refl
      handle_action-IsGood channel user (some other_action) w =
          finish_action-IsGood outcome_handler_failed false w w refl (inl refl)
      handle_action-IsGood channel user (some (action handler)) w =
          action_reserved-IsGood handler channel user
            (reserve s event context action_operation p.action_name outcome_handler_failed w) w
            (reserve-Kept action_operation p.action_name outcome_handler_failed w)

    module _ (static : (text : Text) → s.resolve_command text ≡ static_command text) where
      operate-IsGood :
          (p : ParseResult) (channel : VerifiedInteractionChannel) (o : Option AccountAnswer)
          (w : Interactions)
          → Typed event p
          → IsGood w (operate s event context p channel o w)
      unfolding operate
      operate-IsGood p channel none w h = finish_plain-IsGood processing_failed w refl
      operate-IsGood p channel (some user_missing) w h = finish_plain-IsGood outcome_unlinked w refl
      operate-IsGood p channel (some other_user) w h = finish_plain-IsGood processing_failed w refl
      operate-IsGood (parsed_text p) channel (some (linked_user u)) w h =
          subst (λ o. IsGood w (handle_command s event context p.reply_token channel o w))
            (sym (static p.candidate)) (handle_command-IsGood p.reply_token channel p.candidate w h)
      operate-IsGood (parsed_postback p) channel (some (linked_user u)) w (h, n) =
          handle_action-IsGood p h n channel u (s.resolve_action p.action_name) w
      operate-IsGood invalid_interaction channel (some (linked_user u)) w h =
          finish_plain-IsGood processing_failed w refl
      operate-IsGood out_of_scope_interaction channel (some (linked_user u)) w h =
          finish_plain-IsGood processing_failed w refl

      on_channel-IsGood :
          (p : ParseResult) (subject : Text) (o : Option (Option ChannelSummary)) (w : Interactions)
          → Typed event p
          → IsGood w (on_channel s event context p subject o w)
      unfolding on_channel
      on_channel-IsGood p subject none w h = finish_plain-IsGood processing_failed w refl
      on_channel-IsGood p subject (some none) w h = finish_plain-IsGood outcome_unlinked w refl
      on_channel-IsGood p subject (some (some c)) w h =
          let v = verified_channel s event context c in
          elim (Bool-cases (is_linkable s event context c)) [
            | inl e ↦ rw e (operate-IsGood p v (s.account v subject) w h)
            | inr e ↦ rw e (finish_plain-IsGood outcome_unlinked w refl)
          ]

      after_parse-IsGood :
          (p : ParseResult) (w : Interactions)
          → Typed event p
          → IsGood w (after_parse s event context (some p) w)
      unfolding after_parse
      after_parse-IsGood invalid_interaction w h = finish_plain-IsGood outcome_invalid w refl
      after_parse-IsGood out_of_scope_interaction w h =
          finish_plain-IsGood outcome_out_of_scope w refl
      after_parse-IsGood (parsed_text p) w h =
          on_channel-IsGood (parsed_text p) p.subject (s.channel event.channel_public_id) w h
      after_parse-IsGood (parsed_postback p) w h =
          on_channel-IsGood (parsed_postback p) p.subject (s.channel event.channel_public_id) w h

-- With the parser and the command registry of this component, and whatever the other services
-- answer: handling an event returns an outcome, that is, neither an audit record that is not valid
-- nor a reply without time raises an exception; and it causes nothing or one effect, which, if it
-- is a reply, is given between 0.2 and 0.5 seconds and ends 0.1 seconds before the deadline.
pub handle_interaction-IsGood :
    (s : Services) (event : VerifiedWebhookEvent) (context : HandlerExecutionContext)
    (w : Interactions)
    → s.parser event ≡ some (parse event)
    → ((text : Text) → s.resolve_command text ≡ static_command text)
    → IsGood s event context w (handle_interaction s event context w)
unfolding handle_interaction
handle_interaction-IsGood s event context w parses static =
    elim (Bool-cases (is_message event.event_type || is_postback event.event_type)) [
      | inl e ↦
          rw (e, parses)
            (after_parse-IsGood s event context e static (parse event) w (parse-Typed event))
      | inr e ↦ rw e (record { returned = (handler_failed, refl); effect = inl refl })
    ]
