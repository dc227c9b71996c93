-- ===== src/Interaction/Parsing/Typed.antt =====
-- What a parsed interaction has in common with its event.
use line_message_playground.Prelude.{
  ◌≡◌, refl, true, false, ◌&&◌, ◌||◌, Option, none, some, [], ◌∷◌, Bool-cases, inl, inr, arith,
}
use line_message_playground.Prelude.Text.{Text, text_eq, codes}
use line_message_playground.Webhook.Types.{VerifiedWebhookEvent}
use line_message_playground.Webhook.Json.{
  Json, null, boolean, whole, negative, float, string, array, object, get,
}
use line_message_playground.Interaction.Types.{
  ParseResult, parsed_text, parsed_postback, invalid_interaction, out_of_scope_interaction,
}
use line_message_playground.Interaction.Parsing.{
  parse, parse_source, parse_user, parse_token, parse_message, parse_postback, message_of,
  postback_of, action_of, three_parts, text_within, is_string, is_action_name, is_line_user_id,
}
use line_message_playground.Interaction.Audit.{is_message, is_named}

-- The interaction agrees with the event's type, and an action has a name.
abbrev pub Typed : VerifiedWebhookEvent → ParseResult → Type 0
Typed event (parsed_text p) = is_message event.event_type ≡ true
Typed event (parsed_postback p) =
    (is_message event.event_type ≡ false) × (is_named (some p.action_name) ≡ true)
Typed event invalid_interaction = Unit
Typed event out_of_scope_interaction = Unit

message_of-Typed :
    (event : VerifiedWebhookEvent) (subject reply_token : Text) (o : Option Text)
    → is_message event.event_type ≡ true
    → Typed event (message_of subject reply_token o)
message_of-Typed event subject t none h = tt
message_of-Typed event subject t (some x) h = h

parse_message-Typed :
    (event : VerifiedWebhookEvent) (o : Option Json) (subject reply_token : Text)
    → is_message event.event_type ≡ true
    → Typed event (parse_message o subject reply_token)
unfolding parse_message
parse_message-Typed event (some (object fs)) subject t h =
    elim (Bool-cases (is_string (codes "text") (get (codes "type") fs))) [
      | inl e ↦
          rw e (message_of-Typed event subject t (text_within 1 5000 (get (codes "text") fs)) h)
      | inr e ↦ rw e tt
    ]
parse_message-Typed event none subject t h = tt
parse_message-Typed event (some null) subject t h = tt
parse_message-Typed event (some (boolean b)) subject t h = tt
parse_message-Typed event (some (whole n)) subject t h = tt
parse_message-Typed event (some (negative n)) subject t h = tt
parse_message-Typed event (some (float x)) subject t h = tt
parse_message-Typed event (some (string x)) subject t h = tt
parse_message-Typed event (some (array x)) subject t h = tt

is_action_name-named : (name : Text) → is_action_name name ≡ true → is_named (some name) ≡ true
unfolding is_action_name
is_action_name-named [] h = cc
is_action_name-named (c ∷ s) h = refl

action_of-Typed :
    (event : VerifiedWebhookEvent) (subject reply_token : Text) (o : Option (Text × Text × Text))
    → is_message event.event_type ≡ false
    → Typed event (action_of subject reply_token o)
unfolding action_of
action_of-Typed event subject t none h = tt
action_of-Typed event subject t (some (version, name, payload)) h =
    elim (Bool-cases (text_eq version (codes "v1") && is_action_name name)) [
      | inl e ↦ rw e (h, is_action_name-named name (ground arith))
      | inr e ↦ rw e tt
    ]

postback_of-Typed :
    (event : VerifiedWebhookEvent) (subject reply_token : Text) (o : Option Text)
    → is_message event.event_type ≡ false
    → Typed event (postback_of subject reply_token o)
unfolding postback_of
postback_of-Typed event subject t none h = tt
postback_of-Typed event subject t (some x) h = action_of-Typed event subject t (three_parts x) h

parse_postback-Typed :
    (event : VerifiedWebhookEvent) (o : Option Json) (subject reply_token : Text)
    → is_message event.event_type ≡ false
    → Typed event (parse_postback o subject reply_token)
unfolding parse_postback
parse_postback-Typed event (some (object fs)) subject t h =
    postback_of-Typed event subject t (text_within 1 300 (get (codes "data") fs)) h
parse_postback-Typed event none subject t h = tt
parse_postback-Typed event (some null) subject t h = tt
parse_postback-Typed event (some (boolean b)) subject t h = tt
parse_postback-Typed event (some (whole n)) subject t h = tt
parse_postback-Typed event (some (negative n)) subject t h = tt
parse_postback-Typed event (some (float x)) subject t h = tt
parse_postback-Typed event (some (string x)) subject t h = tt
parse_postback-Typed event (some (array x)) subject t h = tt

parse_token-Typed :
    (event : VerifiedWebhookEvent) (subject : Text) (o : Option Text)
    → Typed event (parse_token event subject o)
unfolding parse_token
parse_token-Typed event subject none = tt
parse_token-Typed event subject (some t) = elim (Bool-cases (is_message event.event_type)) [
  | inl e ↦ rw e (parse_message-Typed event (get (codes "message") event.event_data) subject t e)
  | inr e ↦ rw e (parse_postback-Typed event (get (codes "postback") event.event_data) subject t e)
]

parse_user-Typed :
    (event : VerifiedWebhookEvent) (o : Option Json) → Typed event (parse_user event o)
unfolding parse_user
parse_user-Typed event (some (string subject)) = elim (Bool-cases (is_line_user_id subject)) [
  | inl e ↦ rw e (
      parse_token-Typed event subject
        (text_within 1 512 (get (codes "replyToken") event.event_data)))
  | inr e ↦ rw e tt
]
parse_user-Typed event none = tt
parse_user-Typed event (some null) = tt
parse_user-Typed event (some (boolean b)) = tt
parse_user-Typed event (some (whole n)) = tt
parse_user-Typed event (some (negative n)) = tt
parse_user-Typed event (some (float x)) = tt
parse_user-Typed event (some (object x)) = tt
parse_user-Typed event (some (array x)) = tt

parse_source-Typed :
    (event : VerifiedWebhookEvent) (o : Option Json) → Typed event (parse_source event o)
unfolding parse_source
parse_source-Typed event (some (object source)) =
    elim (Bool-cases (
      is_string (codes "group") (get (codes "type") source)
      || is_string (codes "room") (get (codes "type") source))) [
        | inl e ↦ rw e tt
        | inr e ↦ rw e (elim (Bool-cases (is_string (codes "user") (get (codes "type") source))) [
          | inl f ↦ rw f (parse_user-Typed event (get (codes "userId") source))
          | inr f ↦ rw f tt
        ])
      ]
parse_source-Typed event none = tt
parse_source-Typed event (some null) = tt
parse_source-Typed event (some (boolean b)) = tt
parse_source-Typed event (some (whole n)) = tt
parse_source-Typed event (some (negative n)) = tt
parse_source-Typed event (some (float x)) = tt
parse_source-Typed event (some (string x)) = tt
parse_source-Typed event (some (array x)) = tt

pub parse-Typed : (event : VerifiedWebhookEvent) → Typed event (parse event)
unfolding parse
parse-Typed event =
    elim (Bool-cases
      (text_eq event.event_type (codes "message") || text_eq event.event_type (codes "postback"))) [
        | inl e ↦ rw e (parse_source-Typed event (get (codes "source") event.event_data))
        | inr e ↦ rw e tt
      ]
