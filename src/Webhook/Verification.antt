-- ===== src/Webhook/Verification.antt =====
-- backend/linewebhooks/verification.py: WebhookPayloadValidator. `json.loads` is a parameter; nothing
-- stands for what it raises.
pub mod Bounds
use line_message_playground.Prelude.{
  ℕ, suc, ◌≤◌, ◌≡◌, refl, Bool, true, false, ◌&&◌, ◌||◌, Option, none, some, List, [], ◌∷◌, ◌==◌,
  ltb, leb, length, if◌then◌else◌, All, arith, Bool-cases, inl, inr, ap, subst,
}
use line_message_playground.Prelude.Text.{Text, text_eq, codes}
use line_message_playground.Prelude.Rows.{all}
use line_message_playground.Webhook.Json.{
  Json, null, boolean, whole, negative, float, string, array, object, Items, no_items, item, Fields,
  get, count,
}
use line_message_playground.Webhook.Types.{VerifiedEventData}

abbrev pub max_raw_body_bytes : ℕ
max_raw_body_bytes = 262144

abbrev pub max_events : ℕ
max_events = 10

abbrev pub max_timestamp_ms : ℕ
max_timestamp_ms = 9223372036854775807

abbrev pub between : ℕ → ℕ → ℕ → Bool
between a b c = leb a c && leb c b

-- `[0-9A-HJKMNP-TV-Z]`
abbrev pub is_id_char : ℕ → Bool
is_id_char c =
    between 48 57 c
    || (between 65 72 c
        || (between 74 75 c || (between 77 78 c || (between 80 84 c || between 86 90 c))))

-- `_WEBHOOK_EVENT_ID_PATTERN.fullmatch(...)`
unfoldable pub is_event_id : Text → Bool
is_event_id [] = false
is_event_id (c ∷ s) = between 48 55 c && (length s == 25 && all is_id_char s)

abbrev pub event_id_of : Option Json → Option Text
unfolding is_event_id
event_id_of (some (string s)) = if is_event_id s then some s else none
event_id_of _ = none

abbrev pub event_type_of : Option Json → Option Text
event_type_of (some (string s)) = if between 1 255 (length s) then some s else none
event_type_of _ = none

abbrev pub occurred_at_of : Option Json → Option ℕ
occurred_at_of (some (whole n)) = if leb n max_timestamp_ms then some n else none
occurred_at_of _ = none

abbrev pub redelivery_flag : Option Json → Option Bool
redelivery_flag (some (boolean b)) = some b
redelivery_flag _ = none

abbrev pub is_redelivery_of : Option Json → Option Bool
is_redelivery_of (some (object fs)) = redelivery_flag (get (codes "isRedelivery") fs)
is_redelivery_of _ = none

abbrev pub event_of :
    Option Text → Option Text → Option ℕ → Option Bool → Fields → Option VerifiedEventData
event_of (some id) (some type) (some ms) (some redelivery) fs = some (record {
  webhook_event_id = id;
  event_type = type;
  occurred_at_ms = ms;
  is_redelivery = redelivery;
  event = fs;
})
event_of _ _ _ _ fs = none

-- `_validate_event`
unfoldable pub validate_event : Json → Option VerifiedEventData
unfolding event_id_of
validate_event (object fs) =
    event_of (event_id_of (get (codes "webhookEventId") fs)) (event_type_of (get (codes "type") fs))
      (occurred_at_of (get (codes "timestamp") fs))
      (is_redelivery_of (get (codes "deliveryContext") fs)) fs
validate_event _ = none

abbrev pub event_before :
    Option VerifiedEventData → Option (List VerifiedEventData) → Option (List VerifiedEventData)
event_before (some e) (some es) = some (e ∷ es)
event_before _ _ = none

unfoldable pub validate_events : Items → Option (List VerifiedEventData)
unfolding validate_event
validate_events no_items = some []
validate_events (item v rest) = event_before (validate_event v) (validate_events rest)

abbrev pub events_of : Option Json → Option (List VerifiedEventData)
unfolding validate_events
events_of (some (array items)) =
    if ltb max_events (count items) then none else validate_events items
events_of _ = none

abbrev pub is_destination : Option Json → Text → Bool
is_destination (some (string s)) expected = text_eq s expected
is_destination _ expected = false

abbrev pub validate_payload : Option Json → Text → Option (List VerifiedEventData)
unfolding events_of
validate_payload (some (object fs)) expected =
    if is_destination (get (codes "destination") fs) expected
    then events_of (get (codes "events") fs)
    else none
validate_payload _ expected = none

-- `WebhookPayloadValidator.validate`
unfoldable pub validate : (List ℕ → Option Json) → List ℕ → Text → Option (List VerifiedEventData)
unfolding validate_payload
validate loads raw_body expected =
    if ltb max_raw_body_bytes (length raw_body)
    then none
    else validate_payload (loads raw_body) expected
