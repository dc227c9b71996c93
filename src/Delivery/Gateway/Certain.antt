-- ===== src/Delivery/Gateway/Certain.antt =====
-- What a result of a push says about LINE's answer.
use line_message_playground.Prelude.{
  ℕ, Bool, true, false, ◌&&◌, ◌||◌, Option, none, some, is_some, ltb, leb, ◌≡◌, refl, ◌⊎◌, inl, inr,
  Bool-cases, Option-cases, arith,
}
use line_message_playground.Prelude.Text.{codes}
use line_message_playground.Delivery.Types.{
  PushLinkedRecipientCommand, LinePushResult, push_accepted, push_rejected, push_unknown,
}
use line_message_playground.Delivery.Gateway.{
  Errors, linked_header, Status, Headers, map_status, is_status, map_http_status, Response,
  short_tuple, unreadable_response, tuple_response, object_response, map_parts, map_response,
  map_answer, map_api_exception, is_linked_timeout_error, is_connection_error, map_unexpected,
  PushRequest, CallResult, returned, api_exception, raised, push_request, map_call, push,
}

abbrev pub status_of : Option (Status × Headers) → Status
status_of none = none
status_of (some (status, headers)) = status

abbrev pub response_status : Response → Status
response_status short_tuple = none
response_status unreadable_response = none
response_status (tuple_response status headers) = status
response_status (object_response status headers) = status

-- The HTTP status of LINE's answer, where there was one.
abbrev pub answered : CallResult → Status
answered (returned response) = response_status response
answered (api_exception errors error answer) = status_of answer
answered (raised errors error) = none

-- The exception tells of a timeout or of a connection that broke.
abbrev pub interrupted : CallResult → Bool
interrupted (returned response) = false
interrupted (api_exception errors error answer) =
    is_linked_timeout_error errors error || is_connection_error errors error
interrupted (raised errors error) = true

abbrev pub is_client_error : Status → Bool
is_client_error none = false
is_client_error (some status) = leb 400 status && ltb status 500

-- What each result means for the call that it came from.
abbrev pub Explains : CallResult → LinePushResult → Type 0
Explains call (push_accepted request_id accepted_id) =
    (is_status 200 (answered call) ≡ true)
    ⊎ ((is_status 409 (answered call) ≡ true) × (is_some accepted_id ≡ true))
Explains call (push_rejected failure) =
    (is_client_error (answered call) ≡ true) × (interrupted call ≡ false)
Explains call (push_unknown failure) =
    (interrupted call ≡ true) ⊎ (is_client_error (answered call) ≡ false)

map_status-Explains :
    (call : CallResult) (status : Status)
    → answered call ≡ status
    → interrupted call ≡ false
    → Explains call (map_status status)
map_status-Explains call none h i = inr (rw h refl)
map_status-Explains call (some n) h i = elim (Bool-cases (leb 400 n && ltb n 500)) [
  | inl e ↦ rw (e, h) (e, i)
  | inr e ↦ rw e (elim (Bool-cases (leb 500 n && ltb n 600)) [
    | inl f ↦ rw (f, h) (inr e)
    | inr f ↦ rw (f, h) (inr e)
  ])
]

map_http_status-Explains :
    (call : CallResult) (status : Status) (headers : Headers) (allow : Bool)
    → answered call ≡ status
    → interrupted call ≡ false
    → Explains call (map_http_status status headers allow)
unfolding map_http_status
map_http_status-Explains call status headers allow h i =
    elim (Option-cases (linked_header headers (codes "X-Line-Accepted-Request-Id"))) [
      | inl e ↦ rw e (map_status-Explains call status h i)
      | inr (id, e) ↦ rw e (elim (Bool-cases (allow && is_status 409 status)) [
        | inl f ↦ rw (f, h) (inr (ground arith, refl))
        | inr f ↦ rw f (map_status-Explains call status h i)
      ])
    ]

map_parts-Explains :
    (response : Response) (status : Status) (headers : Headers)
    → response_status response ≡ status
    → Explains (returned response) (map_parts status headers)
unfolding map_parts
map_parts-Explains response status headers h = elim (Bool-cases (is_status 200 status)) [
  | inl e ↦ rw (e, h) (inl e)
  | inr e ↦ rw e (map_http_status-Explains (returned response) status headers false h refl)
]

map_response-Explains : (response : Response) → Explains (returned response) (map_response response)
unfolding map_response
map_response-Explains short_tuple = inr refl
map_response-Explains unreadable_response = inr refl
map_response-Explains (tuple_response s h) = map_parts-Explains (tuple_response s h) s h refl
map_response-Explains (object_response s h) = map_parts-Explains (object_response s h) s h refl

map_answer-Explains :
    (errors : Errors) (error : ℕ) (answer : Option (Status × Headers))
    → interrupted (api_exception errors error answer) ≡ false
    → Explains (api_exception errors error answer) (map_answer answer)
unfolding map_answer
map_answer-Explains errors error none i = inr refl
map_answer-Explains errors error (some (status, headers)) i =
    map_http_status-Explains (api_exception errors error (some (status, headers))) status headers
      true refl i

map_api_exception-Explains :
    (errors : Errors) (error : ℕ) (answer : Option (Status × Headers))
    → Explains (api_exception errors error answer) (map_api_exception errors error answer)
unfolding map_api_exception
map_api_exception-Explains errors error answer =
    elim (Bool-cases (is_linked_timeout_error errors error)) [
      | inl e ↦ rw e (inl (ground arith))
      | inr e ↦ rw e (elim (Bool-cases (is_connection_error errors error)) [
        | inl f ↦ rw f (inl (ground arith))
        | inr f ↦ rw f (map_answer-Explains errors error answer (ground arith))
      ])
    ]

map_unexpected-Explains :
    (errors : Errors) (error : ℕ) → Explains (raised errors error) (map_unexpected errors error)
unfolding map_unexpected
map_unexpected-Explains errors error = elim (Bool-cases (is_linked_timeout_error errors error)) [
  | inl e ↦ rw e (inl refl)
  | inr e ↦ elim (Bool-cases (is_connection_error errors error)) [
    | inl f ↦ rw (e, f) (inl refl)
    | inr f ↦ rw (e, f) (inl refl)
  ]
]

map_call-Explains : (call : CallResult) → Explains call (map_call call)
unfolding map_call
map_call-Explains (returned response) = map_response-Explains response
map_call-Explains (api_exception errors error answer) =
    map_api_exception-Explains errors error answer
map_call-Explains (raised errors error) = map_unexpected-Explains errors error

-- Whatever the client does: a push that is reported as accepted was answered with the status 200, or
-- with 409 and the id of an accepted request; one reported as rejected was answered with a status from
-- 400 to 499 and not interrupted by a timeout or a connection error; and one reported as unknown was
-- interrupted or not answered with a status from 400 to 499.
pub push-Explains :
    (call : PushRequest → CallResult) (command : PushLinkedRecipientCommand)
    → Explains (call (push_request command)) (push call command)
unfolding push
push-Explains call command = map_call-Explains (call (push_request command))
