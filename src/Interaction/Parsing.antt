-- ===== src/Interaction/Parsing.antt =====
-- backend/lineinteractions/parsing.py: what a message or a postback asks for.
pub mod Postback
pub mod Typed
use line_message_playground.Prelude.{
  ℕ, Bool, true, false, ◌&&◌, ◌||◌, Option, none, some, List, [], ◌∷◌, ◌==◌, leb, ltb, length,
  if◌then◌else◌,
}
use line_message_playground.Prelude.Text.{Text, text_eq, codes}
use line_message_playground.Prelude.Rows.{all}
use line_message_playground.Webhook.Json.{
  Json, null, boolean, whole, negative, float, string, array, object, Fields, get,
}
use line_message_playground.Webhook.Types.{VerifiedWebhookEvent}
use line_message_playground.Webhook.Verification.{between}
use line_message_playground.Delivery.Formatter.{count_utf16_code_units}
use line_message_playground.Interaction.Types.{
  ParseResult, parsed_text, parsed_postback, invalid_interaction, out_of_scope_interaction,
}

-- `U[0-9a-f]{32}`
abbrev pub is_hex : ℕ → Bool
is_hex c = between 48 57 c || between 97 102 c

abbrev pub is_line_user_id : Text → Bool
is_line_user_id [] = false
is_line_user_id (c ∷ s) = c == 85 && (length s == 32 && all is_hex s)

-- `[a-z][a-z0-9_.-]{0,63}`
abbrev pub is_action_char : ℕ → Bool
is_action_char c = between 97 122 c || (between 48 57 c || (c == 95 || (c == 46 || c == 45)))

unfoldable pub is_action_name : Text → Bool
is_action_name [] = false
is_action_name (c ∷ s) = between 97 122 c && (leb (length s) 63 && all is_action_char s)

abbrev pub within : ℕ → ℕ → Option ℕ → Bool
within minimum maximum none = false
within minimum maximum (some n) = between minimum maximum n

-- `_valid_utf16_length` of a text
unfoldable pub valid_utf16_length : Text → ℕ → ℕ → Bool
unfolding count_utf16_code_units
valid_utf16_length value minimum maximum = within minimum maximum (count_utf16_code_units value)

abbrev pub text_within : ℕ → ℕ → Option Json → Option Text
unfolding valid_utf16_length
text_within minimum maximum (some (string s)) =
    if valid_utf16_length s minimum maximum then some s else none
text_within minimum maximum _ = none

-- `text.partition(":")`: nothing where there is no colon.
unfoldable pub before_colon : Text → Option (Text × Text)
before_colon [] = none
before_colon (c ∷ s) =
    let rest = before_colon s in
    if c == 58 then some ([], s) else elim rest [ none ↦ none | some (a, b) ↦ some (c ∷ a, b) ]

-- `data.split(":", 2)` where it has three parts.
abbrev pub second_part : Text → Option (Text × Text) → Option (Text × Text × Text)
second_part a none = none
second_part a (some (b, c)) = some (a, b, c)

abbrev pub first_part : Option (Text × Text) → Option (Text × Text × Text)
unfolding before_colon
first_part none = none
first_part (some (a, rest)) = second_part a (before_colon rest)

unfoldable pub three_parts : Text → Option (Text × Text × Text)
unfolding first_part
three_parts s = first_part (before_colon s)

abbrev pub message_of : Text → Text → Option Text → ParseResult
message_of subject reply_token none = invalid_interaction
message_of subject reply_token (some text) =
    parsed_text (record { subject = subject; reply_token = reply_token; candidate = text })

abbrev pub is_string : Text → Option Json → Bool
is_string expected (some (string s)) = text_eq s expected
is_string expected _ = false

-- `_parse_message`
abbrev pub parse_message : Option Json → Text → Text → ParseResult
unfolding text_within
parse_message (some (object fs)) subject reply_token =
    if is_string (codes "text") (get (codes "type") fs)
    then message_of subject reply_token (text_within 1 5000 (get (codes "text") fs))
    else invalid_interaction
parse_message _ subject reply_token = invalid_interaction

abbrev pub action_of : Text → Text → Option (Text × Text × Text) → ParseResult
unfolding is_action_name
action_of subject reply_token none = invalid_interaction
action_of subject reply_token (some (version, name, payload)) =
    if text_eq version (codes "v1") && is_action_name name
    then parsed_postback (record {
      subject = subject;
      reply_token = reply_token;
      action_name = name;
      payload = payload;
    })
    else invalid_interaction

abbrev pub postback_of : Text → Text → Option Text → ParseResult
unfolding action_of three_parts
postback_of subject reply_token none = invalid_interaction
postback_of subject reply_token (some s) = action_of subject reply_token (three_parts s)

-- `_parse_postback`
abbrev pub parse_postback : Option Json → Text → Text → ParseResult
unfolding text_within postback_of
parse_postback (some (object fs)) subject reply_token =
    postback_of subject reply_token (text_within 1 300 (get (codes "data") fs))
parse_postback _ subject reply_token = invalid_interaction

abbrev pub parse_token : VerifiedWebhookEvent → Text → Option Text → ParseResult
unfolding parse_message parse_postback
parse_token event subject none = invalid_interaction
parse_token event subject (some reply_token) =
    if text_eq event.event_type (codes "message")
    then parse_message (get (codes "message") event.event_data) subject reply_token
    else parse_postback (get (codes "postback") event.event_data) subject reply_token

abbrev pub parse_user : VerifiedWebhookEvent → Option Json → ParseResult
unfolding parse_token text_within
parse_user event (some (string subject)) =
    if is_line_user_id subject
    then parse_token event subject (text_within 1 512 (get (codes "replyToken") event.event_data))
    else invalid_interaction
parse_user event _ = invalid_interaction

abbrev pub parse_source : VerifiedWebhookEvent → Option Json → ParseResult
unfolding parse_user
parse_source event (some (object source)) =
    let type = get (codes "type") source in
    if is_string (codes "group") type || is_string (codes "room") type
    then out_of_scope_interaction
    else if is_string (codes "user") type
    then parse_user event (get (codes "userId") source)
    else invalid_interaction
parse_source event _ = invalid_interaction

-- `DefaultInteractionParser.parse`
unfoldable pub parse : VerifiedWebhookEvent → ParseResult
unfolding parse_source
parse event =
    if text_eq event.event_type (codes "message") || text_eq event.event_type (codes "postback")
    then parse_source event (get (codes "source") event.event_data)
    else invalid_interaction
