-- ===== src/Delivery/Gateway.antt =====
-- backend/delivery/gateway.py: the push of a message to LINE, and what its answer says about the
-- delivery. The LINE client, with the construction of its models, is a parameter.
pub mod Certain
pub mod Capability
pub mod Examples
use line_message_playground.Prelude.{
  ℕ, zero, suc, ◌+◌, Bool, true, false, ◌&&◌, ◌||◌, not, Option, none, some, List, [], ◌∷◌, ◌++◌,
  ◌==◌, ltb, leb, if◌then◌else◌, map,
}
use line_message_playground.Prelude.Text.{Text, text_eq, codes}
use line_message_playground.Prelude.Rows.{exists}
use line_message_playground.Delivery.Types.{
  Uuid, RejectedPushFailureType, invalid_request, authentication, permission, conflict,
  rate_limited, service_unknown, timeout_unknown, response_unknown, PushLinkedRecipientCommand,
  LinePushResult, push_accepted, push_rejected, push_unknown,
}
use line_message_playground.Delivery.Fingerprint.{uuid_text}

-- What the gateway tells apart among exceptions. `new_connection` is urllib3's NewConnectionError.
pub data ErrorClass : Type 0 where
  timeout_error urllib3_timeout new_connection connection_error other_error : ErrorClass

-- The exceptions in memory by their identities: the class of each, and the exception that its
-- `reason` is, if it is one that can be read.
pub record Errors : Type 0 where
  pub class_of : ℕ → ErrorClass
  pub reason : ℕ → Option ℕ

abbrev pub next_error : Errors → Option ℕ → List ℕ → ℕ → List ℕ
next_error errors none seen fuel = []
next_error errors (some current) seen zero = []
next_error errors (some current) seen (suc fuel) =
    let rest = next_error errors (errors.reason current) (current ∷ seen) fuel in
    if exists (λ id. id == current) seen then [] else current ∷ rest

-- `_linked_error_chain`
unfoldable pub linked_error_chain : Errors → ℕ → List ℕ
linked_error_chain errors error = next_error errors (some error) [] 4

abbrev pub is_timeout : ErrorClass → Bool
is_timeout timeout_error = true
is_timeout urllib3_timeout = true
is_timeout _ = false

abbrev pub is_connection : ErrorClass → Bool
is_connection new_connection = true
is_connection connection_error = true
is_connection _ = false

-- `_is_linked_timeout_error`
unfoldable pub is_linked_timeout_error : Errors → ℕ → Bool
unfolding linked_error_chain
is_linked_timeout_error errors error =
    exists (λ id. is_timeout (errors.class_of id)) (linked_error_chain errors error)

-- `_is_connection_error`
unfoldable pub is_connection_error : Errors → ℕ → Bool
unfolding linked_error_chain
is_connection_error errors error =
    exists (λ id. is_connection (errors.class_of id)) (linked_error_chain errors error)

-- What the iteration over headers gives: a text under a text, something else, or an exception.
pub data HeaderItem : Type 0 where
  text_header : Text → Text → HeaderItem
  other_header failing_header : HeaderItem

-- `str.lower` on ASCII; no other letter has an ASCII letter of the two names below as its lower case.
abbrev pub lower_char : ℕ → ℕ
lower_char c = if leb 65 c && leb c 90 then c + 32 else c

abbrev pub lower : Text → Text
lower = map lower_char

abbrev pub is_nonempty_text : Text → Bool
is_nonempty_text [] = false
is_nonempty_text (c ∷ s) = true

abbrev pub find_header : Text → List HeaderItem → Option Text
find_header lowered [] = none
find_header lowered (failing_header ∷ items) = none
find_header lowered (other_header ∷ items) = find_header lowered items
find_header lowered (text_header key value ∷ items) =
    let rest = find_header lowered items in
    if text_eq (lower key) lowered && is_nonempty_text value then some value else rest

-- `_linked_header`; nothing stands for headers that are empty or have no items.
unfoldable pub linked_header : Option (List HeaderItem) → Text → Option Text
linked_header none name = none
linked_header (some items) name = find_header (lower name) items

-- A status that is not a number that HTTP uses is nothing.
abbrev pub Status : Type 0
Status = Option ℕ

abbrev pub Headers : Type 0
Headers = Option (List HeaderItem)

abbrev pub rejected_failure : ℕ → RejectedPushFailureType
rejected_failure status =
    if status == 400
    then invalid_request
    else if status == 401
    then authentication
    else if status == 403
    then permission
    else if status == 409
    then conflict
    else if status == 429
    then rate_limited
    else invalid_request

abbrev pub map_status : Status → LinePushResult
map_status none = push_unknown response_unknown
map_status (some status) =
    if leb 400 status && ltb status 500
    then push_rejected (rejected_failure status)
    else if leb 500 status && ltb status 600
    then push_unknown service_unknown
    else push_unknown response_unknown

abbrev pub is_status : ℕ → Status → Bool
is_status expected none = false
is_status expected (some status) = status == expected

abbrev pub accepted_or : Option Text → Bool → LinePushResult → LinePushResult
accepted_or (some id) true otherwise = push_accepted none (some id)
accepted_or _ _ otherwise = otherwise

-- `_map_http_status`
unfoldable pub map_http_status : Status → Headers → Bool → LinePushResult
unfolding linked_header
map_http_status status headers allow_accepted_conflict =
    accepted_or (linked_header headers (codes "X-Line-Accepted-Request-Id"))
      (allow_accepted_conflict && is_status 409 status) (map_status status)

-- What the client returns: a tuple, an object, or something whose parts cannot be read.
pub data Response : Type 0 where
  short_tuple unreadable_response : Response
  tuple_response object_response : Status → Headers → Response

abbrev pub map_parts : Status → Headers → LinePushResult
unfolding linked_header map_http_status
map_parts status headers =
    if is_status 200 status
    then push_accepted (linked_header headers (codes "X-Line-Request-Id")) none
    else map_http_status status headers false

-- `_map_response`
unfoldable pub map_response : Response → LinePushResult
unfolding map_parts
map_response short_tuple = push_unknown response_unknown
map_response unreadable_response = push_unknown response_unknown
map_response (tuple_response status headers) = map_parts status headers
map_response (object_response status headers) = map_parts status headers

abbrev pub map_answer : Option (Status × Headers) → LinePushResult
unfolding map_http_status
map_answer none = push_unknown response_unknown
map_answer (some (status, headers)) = map_http_status status headers true

-- `_map_api_exception`; nothing stands for attributes that cannot be read.
unfoldable pub map_api_exception : Errors → ℕ → Option (Status × Headers) → LinePushResult
unfolding is_linked_timeout_error is_connection_error map_answer
map_api_exception errors error answer =
    if is_linked_timeout_error errors error
    then push_unknown timeout_unknown
    else if is_connection_error errors error
    then push_unknown service_unknown
    else map_answer answer

-- `_map_unexpected`
unfoldable pub map_unexpected : Errors → ℕ → LinePushResult
unfolding is_linked_timeout_error is_connection_error
map_unexpected errors error =
    if is_linked_timeout_error errors error
    then push_unknown timeout_unknown
    else if is_connection_error errors error
    then push_unknown service_unknown
    else push_unknown response_unknown

pub data LineMessage : Type 0 where
  text_message : Text → LineMessage
  buttons_message : Text → Text → Text → Text → LineMessage

pub record PushRequest : Type 0 where
  pub access_token : Text
  pub to : Text
  pub messages : List LineMessage
  pub retry_key : Text

-- What becomes of a call of the client.
pub data CallResult : Type 0 where
  returned : Response → CallResult
  api_exception : Errors → ℕ → Option (Status × Headers) → CallResult
  raised : Errors → ℕ → CallResult

abbrev pub receipt_action_prefix : Text
receipt_action_prefix = codes "v1:delivery.received:"

-- The alternative text, the text, the label and the data of the button that confirms a receipt.
abbrev pub receipt_messages : Option Text → List LineMessage
receipt_messages none = []
receipt_messages (some capability) =
    buttons_message (codes "受取確認") (codes "受け取り後にボタンを押してください。") (codes "受け取りました")
      (receipt_action_prefix ++ capability)
    ∷ []

abbrev pub push_request : PushLinkedRecipientCommand → PushRequest
push_request command = record {
  access_token = command.access_token;
  to = command.line_subject;
  messages = text_message command.text ∷ receipt_messages command.receipt_capability;
  retry_key = uuid_text command.operation_id;
}

abbrev pub map_call : CallResult → LinePushResult
unfolding map_response map_api_exception map_unexpected
map_call (returned response) = map_response response
map_call (api_exception errors error answer) = map_api_exception errors error answer
map_call (raised errors error) = map_unexpected errors error

-- `LINEChannelPushGateway.push`
unfoldable pub push : (PushRequest → CallResult) → PushLinkedRecipientCommand → LinePushResult
unfolding map_call
push call command = map_call (call (push_request command))
