-- ===== src/Account/Targets.antt =====
-- backend/lineaccounts/delivery_repositories.py: DeliveryTargetDirectory, over the tables of
-- backend/lineaccounts/models.py and backend/linechannels/models.py that it reads. A table is in the
-- order of its public ids. SHA-256 and the ISO text of a time in UTC are parameters.
pub mod Listed
pub mod Examples
use line_message_playground.Prelude.{
  ℕ, Bool, true, false, ◌&&◌, ◌||◌, not, Option, none, some, List, [], ◌∷◌, ◌++◌, ◌==◌,
  if◌then◌else◌, map, Result, ok, err,
}
use line_message_playground.Prelude.Text.{Text, text_eq, codes}
use line_message_playground.Prelude.Rows.{first}
use line_message_playground.Delivery.Types.{
  Uuid, Digest, Time, FriendshipState, friend, not_friend, unknown, is_friend,
  TargetUnavailableReason, target_not_available, channel_inactive, recipient_disabled,
  friendship_unknown, no_deliverable_recipient, LinkedTargetSnapshot, LiveDeliveryTarget, Raised,
  value_error,
}
use line_message_playground.Delivery.Fingerprint.{uuid_text, length_prefixed}
use line_message_playground.Delivery.Service.{TargetResolution, live, target_unavailable}

pub record LineIdentity : Type 0 where
  pub pk : ℕ
  pub public_id : Uuid
  pub provider_id : Text
  pub subject : Text
  pub display_name : Text

pub record LineChannel : Type 0 where
  pub pk : ℕ
  pub public_id : Uuid
  pub provider_id : Text
  pub label : Text
  pub is_active : Bool
  pub updated_at : Time

pub record DeliveryRecipient : Type 0 where
  pub public_id : Uuid
  pub identity : ℕ
  pub line_channel : ℕ
  pub enabled : Bool
  pub friendship_state : FriendshipState
  pub updated_at : Time

-- The tables. The owner account is one row: whether it is active, and its identity.
pub record Accounts : Type 0 where
  pub account_is_active : Bool
  pub account_identity : Option ℕ
  pub identities : List LineIdentity
  pub channels : List LineChannel
  pub recipients : List DeliveryRecipient

pub record DeliveryChannelChoice : Type 0 where
  pub channel_public_id : Uuid
  pub label : Text
  pub active : Bool
  pub available : Bool
  pub unavailable_reason : Option TargetUnavailableReason

pub record DeliveryRecipientChoice : Type 0 where
  pub recipient_public_id : Uuid
  pub display_name : Text
  pub enabled : Bool
  pub friendship_state : FriendshipState
  pub available : Bool
  pub unavailable_reason : Option TargetUnavailableReason

abbrev pub is_nonempty : Text → Bool
is_nonempty [] = false
is_nonempty (c ∷ s) = true

abbrev pub is_identity : ℕ → Option ℕ → Bool
is_identity pk none = false
is_identity pk (some identity) = identity == pk

-- The account of the identity is there and active.
abbrev pub is_active_owner : Accounts → LineIdentity → Bool
is_active_owner db i = db.account_is_active && is_identity i.pk db.account_identity

abbrev pub owner_identity_row : Accounts → Uuid → Option LineIdentity
owner_identity_row db owner =
    first (λ i. i.public_id == owner && is_active_owner db i) db.identities

abbrev pub filtered {ℓ} : {A : Type ℓ} → (A → Bool) → List A → List A
filtered test [] = []
filtered test (x ∷ xs) = let rest = filtered test xs in if test x then x ∷ rest else rest

abbrev pub channel_choice : LineChannel → DeliveryChannelChoice
channel_choice c = record {
  channel_public_id = c.public_id;
  label = c.label;
  active = c.is_active;
  available = c.is_active;
  unavailable_reason = if c.is_active then none else some channel_inactive;
}

abbrev pub channels_of : Option LineIdentity → List LineChannel → List LineChannel
channels_of none channels = []
channels_of (some i) channels = filtered (λ c. text_eq c.provider_id i.provider_id) channels

-- `list_channels`, of channels with labels.
unfoldable pub list_channels : Accounts → Uuid → List DeliveryChannelChoice
list_channels db owner = map channel_choice (channels_of (owner_identity_row db owner) db.channels)

-- The identity and the channel of a recipient, by its foreign keys.
abbrev pub both_rows :
    Option LineIdentity → Option LineChannel → Option (LineIdentity × LineChannel)
both_rows (some i) (some c) = some (i, c)
both_rows _ _ = none

abbrev pub joined : Accounts → DeliveryRecipient → Option (LineIdentity × LineChannel)
joined db r =
    both_rows (first (λ i. i.pk == r.identity) db.identities)
      (first (λ c. c.pk == r.line_channel) db.channels)

abbrev pub matches_rows : Accounts → Uuid → Uuid → Option (LineIdentity × LineChannel) → Bool
matches_rows db owner channel none = false
matches_rows db owner channel (some (i, c)) =
    i.public_id == owner
    && (is_active_owner db i && (c.public_id == channel && text_eq c.provider_id i.provider_id))

-- The conditions that `list_recipients` and `resolve` share.
abbrev pub matches : Accounts → Uuid → Uuid → DeliveryRecipient → Bool
matches db owner channel r = matches_rows db owner channel (joined db r)

-- `_recipient_unavailable_reason`
unfoldable pub recipient_unavailable_reason :
    Bool → Bool → FriendshipState → Option TargetUnavailableReason
recipient_unavailable_reason false enabled state = some channel_inactive
recipient_unavailable_reason true false state = some recipient_disabled
recipient_unavailable_reason true true not_friend = some TargetUnavailableReason.not_friend
recipient_unavailable_reason true true unknown = some friendship_unknown
recipient_unavailable_reason true true friend = none

abbrev pub is_deliverable : Bool → Bool → FriendshipState → Bool
is_deliverable channel_active enabled state = channel_active && enabled && is_friend state

abbrev pub choice_of :
    DeliveryRecipient → Option (LineIdentity × LineChannel) → Result Raised DeliveryRecipientChoice
unfolding recipient_unavailable_reason
choice_of r none = err value_error
choice_of r (some (i, c)) =
    if is_nonempty i.display_name
    then ok (record {
      recipient_public_id = r.public_id;
      display_name = i.display_name;
      enabled = r.enabled;
      friendship_state = r.friendship_state;
      available = is_deliverable c.is_active r.enabled r.friendship_state;
      unavailable_reason = recipient_unavailable_reason c.is_active r.enabled r.friendship_state;
    })
    else err value_error

abbrev pub and_then :
    Result Raised DeliveryRecipientChoice
    → Result Raised (List DeliveryRecipientChoice)
    → Result Raised (List DeliveryRecipientChoice)
and_then (err e) rest = err e
and_then (ok c) (err e) = err e
and_then (ok c) (ok cs) = ok (c ∷ cs)

unfoldable pub choices_of :
    Accounts → List DeliveryRecipient → Result Raised (List DeliveryRecipientChoice)
unfolding choice_of
choices_of db [] = ok []
choices_of db (r ∷ rs) = and_then (choice_of r (joined db r)) (choices_of db rs)

pub data RecipientList : Type 0 where
  recipient_choices : List DeliveryRecipientChoice → RecipientList
  no_recipients : TargetUnavailableReason → RecipientList

abbrev pub list_found : Result Raised (List DeliveryRecipientChoice) → Result Raised RecipientList
list_found (err e) = err e
list_found (ok []) = ok (no_recipients no_deliverable_recipient)
list_found (ok (c ∷ cs)) = ok (recipient_choices (c ∷ cs))

abbrev pub is_listed :
    Accounts → Uuid → Uuid → LineIdentity → LineChannel → DeliveryRecipient → Bool
is_listed db owner channel i c r =
    r.identity == i.pk && (r.line_channel == c.pk && matches db owner channel r)

abbrev pub list_for :
    Accounts → Uuid → Uuid → Option LineIdentity → Option LineChannel → Result Raised RecipientList
unfolding choices_of
list_for db owner channel (some i) (some c) =
    list_found (choices_of db (filtered (is_listed db owner channel i c) db.recipients))
list_for db owner channel _ _ = ok (no_recipients target_not_available)

abbrev pub channel_row : Accounts → Uuid → Option LineIdentity → Option LineChannel
channel_row db channel none = none
channel_row db channel (some i) =
    first (λ c. c.public_id == channel && text_eq c.provider_id i.provider_id) db.channels

-- `list_recipients`
unfoldable pub list_recipients : Accounts → Uuid → Uuid → Result Raised RecipientList
unfolding list_for
list_recipients db owner channel =
    let i = owner_identity_row db owner in list_for db owner channel i (channel_row db channel i)

abbrev pub friendship_text : FriendshipState → Text
friendship_text friend = codes "friend"
friendship_text not_friend = codes "not_friend"
friendship_text unknown = codes "unknown"

abbrev pub flag : Bool → Text
flag b = if b then codes "1" else codes "0"

unfoldable pub join_parts : List Text → List ℕ
unfolding length_prefixed
join_parts [] = []
join_parts (part ∷ parts) = length_prefixed part ++ join_parts parts

module _ (sha256 : List ℕ → Digest) (isoformat : Time → Text) where
  -- `build_target_revision`
  unfoldable pub build_target_revision : LineIdentity → LineChannel → DeliveryRecipient → Digest
  unfolding join_parts uuid_text
  build_target_revision i c r = sha256 (
      join_parts (
        codes "v1"
        ∷ uuid_text i.public_id
        ∷ uuid_text c.public_id
        ∷ i.provider_id
        ∷ flag c.is_active
        ∷ isoformat c.updated_at
        ∷ uuid_text r.public_id
        ∷ flag r.enabled
        ∷ friendship_text r.friendship_state
        ∷ isoformat r.updated_at
        ∷ []))

  -- The checks of the constructors that the field types leave open.
  abbrev pub target_of :
      DeliveryRecipient → Option (LineIdentity × LineChannel) → Result Raised TargetResolution
  unfolding build_target_revision
  target_of r none = ok (target_unavailable target_not_available)
  target_of r (some (i, c)) =
      if is_nonempty c.label && (is_nonempty i.provider_id && is_nonempty i.subject)
      then ok (
          live (record {
            owner_identity = i.public_id;
            provider_id = i.provider_id;
            snapshot = record {
              channel_public_id = c.public_id;
              channel_label = c.label;
              recipient_public_id = r.public_id;
              channel_active = c.is_active;
              recipient_enabled = r.enabled;
              friendship_state = r.friendship_state;
            };
            revision = build_target_revision i c r;
            line_subject = i.subject;
            delivery_available = is_deliverable c.is_active r.enabled r.friendship_state;
          }))
      else err value_error

  abbrev pub resolve_found : Accounts → Option DeliveryRecipient → Result Raised TargetResolution
  unfolding target_of
  resolve_found db none = ok (target_unavailable target_not_available)
  resolve_found db (some r) = target_of r (joined db r)

  -- `resolve`
  unfoldable pub resolve : Accounts → Uuid → Uuid → Uuid → Result Raised TargetResolution
  unfolding resolve_found
  resolve db owner channel recipient =
      resolve_found db
        (first (λ r. r.public_id == recipient && matches db owner channel r) db.recipients)
