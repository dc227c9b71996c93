-- ===== src/Webhook/Verification/Bounds.antt =====
-- What an accepted payload looks like.
use line_message_playground.Prelude.{
  ℕ, suc, ◌≤◌, ◌≡◌, refl, Bool, true, Option, none, some, List, [], ◌∷◌, ltb, leb, length, All,
  arith, Bool-cases, inl, inr, ap, subst,
}
use line_message_playground.Prelude.Text.{Text, codes}
use line_message_playground.Webhook.Json.{
  Json, null, boolean, whole, negative, float, string, array, object, Items, no_items, item, Fields,
  get, count,
}
use line_message_playground.Webhook.Types.{VerifiedEventData}
use line_message_playground.Webhook.Verification.{
  max_raw_body_bytes, max_events, max_timestamp_ms, between, is_event_id, event_id_of,
  event_type_of, occurred_at_of, is_redelivery_of, event_of, validate_event, event_before,
  validate_events, events_of, is_destination, validate_payload, validate,
}

-- What the rest of the code relies on.
pub record IsVerified (e : VerifiedEventData) : Type 0 where
  pub id_length : length e.webhook_event_id ≡ 26
  pub type_length : length e.event_type ≤ 255
  pub time : e.occurred_at_ms ≤ max_timestamp_ms

-- What comes from a value, if anything, has a property.
abbrev Gives {ℓ} : {A : Type ℓ} → (A → Type 0) → Option A → Type 0
Gives P none = Unit
Gives P (some a) = P a

is_event_id-length : (s : Text) → is_event_id s ≡ true → length s ≡ 26
unfolding is_event_id
is_event_id-length [] h = cc
is_event_id-length (c ∷ s) h = ground arith

event_id_of-length : (o : Option Json) → Gives (λ s. length s ≡ 26) (event_id_of o)
unfolding event_id_of
event_id_of-length none = tt
event_id_of-length (some null) = tt
event_id_of-length (some (boolean b)) = tt
event_id_of-length (some (whole n)) = tt
event_id_of-length (some (negative n)) = tt
event_id_of-length (some (float s)) = tt
event_id_of-length (some (array xs)) = tt
event_id_of-length (some (object fs)) = tt
event_id_of-length (some (string s)) = elim (Bool-cases (is_event_id s)) [
  | inl e ↦ rw e (is_event_id-length s e)
  | inr e ↦ rw e tt
]

event_type_of-length : (o : Option Json) → Gives (λ s. length s ≤ 255) (event_type_of o)
event_type_of-length none = tt
event_type_of-length (some null) = tt
event_type_of-length (some (boolean b)) = tt
event_type_of-length (some (whole n)) = tt
event_type_of-length (some (negative n)) = tt
event_type_of-length (some (float s)) = tt
event_type_of-length (some (array xs)) = tt
event_type_of-length (some (object fs)) = tt
event_type_of-length (some (string s)) = elim (Bool-cases (between 1 255 (length s))) [
  | inl e ↦ rw e (ground arith)
  | inr e ↦ rw e tt
]

occurred_at_of-bound : (o : Option Json) → Gives (λ n. n ≤ max_timestamp_ms) (occurred_at_of o)
occurred_at_of-bound none = tt
occurred_at_of-bound (some null) = tt
occurred_at_of-bound (some (boolean b)) = tt
occurred_at_of-bound (some (whole n)) = elim (Bool-cases (leb n max_timestamp_ms)) [
  | inl e ↦ rw e (ground arith)
  | inr e ↦ rw e tt
]
occurred_at_of-bound (some (negative n)) = tt
occurred_at_of-bound (some (float s)) = tt
occurred_at_of-bound (some (array xs)) = tt
occurred_at_of-bound (some (object fs)) = tt
occurred_at_of-bound (some (string s)) = tt

event_of-IsVerified :
    (i t : Option Text) (n : Option ℕ) (b : Option Bool) (fs : Fields)
    → Gives (λ s. length s ≡ 26) i
    → Gives (λ s. length s ≤ 255) t
    → Gives (λ m. m ≤ max_timestamp_ms) n
    → Gives IsVerified (event_of i t n b fs)
event_of-IsVerified none t n b fs h k l = tt
event_of-IsVerified (some i) none n b fs h k l = tt
event_of-IsVerified (some i) (some t) none b fs h k l = tt
event_of-IsVerified (some i) (some t) (some n) none fs h k l = tt
event_of-IsVerified (some i) (some t) (some n) (some b) fs h k l = record {
  id_length = h;
  type_length = k;
  time = l;
}

validate_event-IsVerified : (v : Json) → Gives IsVerified (validate_event v)
unfolding validate_event
validate_event-IsVerified (object fs) =
    event_of-IsVerified _ _ _ (is_redelivery_of (get (codes "deliveryContext") fs)) fs
      (event_id_of-length (get (codes "webhookEventId") fs))
      (event_type_of-length (get (codes "type") fs))
      (occurred_at_of-bound (get (codes "timestamp") fs))
validate_event-IsVerified null = tt
validate_event-IsVerified (boolean b) = tt
validate_event-IsVerified (whole n) = tt
validate_event-IsVerified (negative n) = tt
validate_event-IsVerified (float s) = tt
validate_event-IsVerified (string s) = tt
validate_event-IsVerified (array xs) = tt

-- All events are verified, and they are as many as the items.
abbrev AllVerified : ℕ → List VerifiedEventData → Type 0
AllVerified n es = All IsVerified es × (length es ≡ n)

event_before-AllVerified :
    (o : Option VerifiedEventData) (n : ℕ) (p : Option (List VerifiedEventData))
    → Gives IsVerified o
    → Gives (AllVerified n) p
    → Gives (AllVerified (suc n)) (event_before o p)
event_before-AllVerified none n p h k = tt
event_before-AllVerified (some e) n none h k = tt
event_before-AllVerified (some e) n (some es) h k = ((h, k.0), ap suc k.1)

validate_events-AllVerified : (xs : Items) → Gives (AllVerified (count xs)) (validate_events xs)
unfolding validate_events
validate_events-AllVerified no_items = (tt, refl)
validate_events-AllVerified (item v rest) =
    event_before-AllVerified (validate_event v) (count rest) (validate_events rest)
      (validate_event-IsVerified v) (validate_events-AllVerified rest)

abbrev Bounded : List VerifiedEventData → Type 0
Bounded es = All IsVerified es × (length es ≤ 10)

few :
    (n : ℕ) (p : Option (List VerifiedEventData))
    → n ≤ 10
    → Gives (AllVerified n) p
    → Gives Bounded p
few n none h k = tt
few n (some es) h k = (k.0, omega (arith, k.1))

events_of-Bounded : (o : Option Json) → Gives Bounded (events_of o)
unfolding events_of
events_of-Bounded none = tt
events_of-Bounded (some null) = tt
events_of-Bounded (some (boolean b)) = tt
events_of-Bounded (some (whole n)) = tt
events_of-Bounded (some (negative n)) = tt
events_of-Bounded (some (float s)) = tt
events_of-Bounded (some (string s)) = tt
events_of-Bounded (some (object fs)) = tt
events_of-Bounded (some (array xs)) = elim (Bool-cases (ltb max_events (count xs))) [
  | inl e ↦ rw e tt
  | inr e ↦
      rw e (few (count xs) (validate_events xs) (ground arith) (validate_events-AllVerified xs))
]

validate_payload-Bounded :
    (o : Option Json) (expected : Text) → Gives Bounded (validate_payload o expected)
unfolding validate_payload
validate_payload-Bounded none expected = tt
validate_payload-Bounded (some null) expected = tt
validate_payload-Bounded (some (boolean b)) expected = tt
validate_payload-Bounded (some (whole n)) expected = tt
validate_payload-Bounded (some (negative n)) expected = tt
validate_payload-Bounded (some (float s)) expected = tt
validate_payload-Bounded (some (string s)) expected = tt
validate_payload-Bounded (some (array xs)) expected = tt
validate_payload-Bounded (some (object fs)) expected =
    elim (Bool-cases (is_destination (get (codes "destination") fs) expected)) [
      | inl e ↦ rw e (events_of-Bounded (get (codes "events") fs))
      | inr e ↦ rw e tt
    ]

-- A body that is accepted has at most ten events, and each has an id of 26 characters, a type of at
-- most 255 and a time below 2^63, so that it fits the columns of its receipt.
pub validate-Bounded :
    (loads : List ℕ → Option Json) (raw_body : List ℕ) (expected : Text)
    (es : List VerifiedEventData)
    → validate loads raw_body expected ≡ some es
    → All IsVerified es × (length es ≤ 10)
unfolding validate
validate-Bounded loads raw_body expected es h = subst (Gives Bounded) h checked
  where
    checked : Gives Bounded (validate loads raw_body expected)
    checked = elim (Bool-cases (ltb max_raw_body_bytes (length raw_body))) [
      | inl e ↦ rw e tt
      | inr e ↦ rw e (validate_payload-Bounded (loads raw_body) expected)
    ]
