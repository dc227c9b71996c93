-- ===== src/Interaction/Parsing/Postback.antt =====
-- The data of a postback, written and read back.
use line_message_playground.Prelude.{
  ℕ, Bool, true, not, some, [], ◌∷◌, ◌++◌, ◌==◌, ◌≡◌, refl, Bool-cases, inl, inr, arith,
}
use line_message_playground.Prelude.Text.{Text, codes}
use line_message_playground.Prelude.Rows.{all}
use line_message_playground.Webhook.Json.{Fields, no_fields, field, string, object}
use line_message_playground.Webhook.Types.{VerifiedWebhookEvent}
use line_message_playground.Interaction.Types.{parsed_postback}
use line_message_playground.Interaction.Parsing.{
  parse, parse_source, parse_user, parse_token, parse_postback, postback_of, action_of, text_within,
  three_parts, first_part, before_colon, is_action_name, is_action_char, is_line_user_id,
  valid_utf16_length,
}

-- The data of a postback that asks for an action.
unfoldable pub postback_data : Text → Text → Text
postback_data name payload = codes "v1:" ++ (name ++ (58 ∷ payload))

-- The event object of a postback of a user.
abbrev pub postback_event : Text → Text → Text → Fields
postback_event subject reply_token data_text = field (codes "replyToken") (string reply_token) (
    field (codes "source")
      (object (
        field (codes "type") (string (codes "user"))
          (field (codes "userId") (string subject) no_fields)))
      (field (codes "postback") (object (field (codes "data") (string data_text) no_fields))
        no_fields))

no_colon : ℕ → Bool
no_colon c = not (c == 58)

action_char-no_colon : (s : Text) → all is_action_char s ≡ true → all no_colon s ≡ true
unfolding no_colon
action_char-no_colon [] h = refl
action_char-no_colon (c ∷ s) h = ground (arith, action_char-no_colon s)

action_name-no_colon : (s : Text) → is_action_name s ≡ true → all no_colon s ≡ true
unfolding is_action_name no_colon
action_name-no_colon [] h = refl
action_name-no_colon (c ∷ s) h = ground (arith, action_char-no_colon s)

before_colon-append :
    (a b : Text) → all no_colon a ≡ true → before_colon (a ++ (58 ∷ b)) ≡ some (a, b)
unfolding before_colon no_colon
before_colon-append [] b h = refl
before_colon-append (c ∷ a) b h = elim (Bool-cases (c == 58)) [
  | inl e ↦ ground arith
  | inr e ↦ rw (e, before_colon-append a b (ground arith)) refl
]

three_parts-postback_data :
    (name payload : Text)
    → is_action_name name ≡ true
    → three_parts (postback_data name payload) ≡ some (codes "v1", name, payload)
unfolding three_parts postback_data before_colon first_part
three_parts-postback_data name payload h =
    rw (before_colon-append name payload (action_name-no_colon name h)) refl

-- A postback of a user whose id and reply token have their form, and whose data is
-- "v1:" name ":" payload with the name of an action and 1 to 300 UTF-16 code units in all,
-- is read as that name and that payload, colons in the payload included.
pub parse-postback_event :
    (event : VerifiedWebhookEvent) (subject reply_token name payload : Text)
    → event.event_type ≡ codes "postback"
    → event.event_data ≡ postback_event subject reply_token (postback_data name payload)
    → is_line_user_id subject ≡ true
    → valid_utf16_length reply_token 1 512 ≡ true
    → valid_utf16_length (postback_data name payload) 1 300 ≡ true
    → is_action_name name ≡ true
    → parse event
      ≡ parsed_postback (record {
        subject = subject;
        reply_token = reply_token;
        action_name = name;
        payload = payload;
      })
unfolding parse parse_source parse_user parse_token parse_postback postback_of action_of text_within
parse-postback_event event subject t name payload e d u v w a =
    rw (e, d, u, v, w, three_parts-postback_data name payload a, a) refl
