-- ===== src/Account/Targets/Examples.antt =====
-- Runs of the target directory at concrete inputs.
use line_message_playground.Prelude.{true, false, none, some, [], ◌∷◌, length, ◌≡◌, refl, All, ok}
use line_message_playground.Prelude.Text.{Text, codes}
use line_message_playground.Delivery.Types.{Time, friend, not_friend, target_not_available}
use line_message_playground.Delivery.Service.{target_unavailable}
use line_message_playground.Account.Targets.{
  LineIdentity, LineChannel, DeliveryRecipient, Accounts, DeliveryRecipientChoice,
  recipient_choices, recipient_unavailable_reason, list_channels, list_recipients, resolve,
  choices_of,
}
use line_message_playground.Account.Targets.Listed.{Agrees, list_recipients-resolve}

abbrev anna : LineIdentity
anna = record {
  pk = 1;
  public_id = 100;
  provider_id = codes "p";
  subject = codes "U1";
  display_name = codes "Anna";
}

abbrev family : LineChannel
family = record {
  pk = 2;
  public_id = 200;
  provider_id = codes "p";
  label = codes "Family";
  is_active = true;
  updated_at = 5;
}

abbrev ready : DeliveryRecipient
ready = record {
  public_id = 300;
  identity = 1;
  line_channel = 2;
  enabled = true;
  friendship_state = friend;
  updated_at = 6;
}

abbrev left : DeliveryRecipient
left = record ready { public_id = 301; friendship_state = not_friend }

abbrev db : Accounts
db = record {
  account_is_active = true;
  account_identity = some 1;
  identities = anna ∷ [];
  channels = family ∷ record family { pk = 3; public_id = 201; provider_id = codes "q" } ∷ [];
  recipients = ready ∷ left ∷ [];
}

abbrev choice : DeliveryRecipientChoice
choice = record {
  recipient_public_id = 300;
  display_name = codes "Anna";
  enabled = true;
  friendship_state = friend;
  available = true;
  unavailable_reason = none;
}

abbrev left_choice : DeliveryRecipientChoice
unfolding recipient_unavailable_reason
left_choice = record choice {
  recipient_public_id = 301;
  friendship_state = not_friend;
  available = false;
  unavailable_reason = recipient_unavailable_reason true true not_friend;
}

abbrev text_of_time : Time → Text
text_of_time t = t ∷ []

lists : list_recipients db 100 200 ≡ ok (recipient_choices (choice ∷ left_choice ∷ []))
unfolding list_recipients choices_of left_choice
lists = refl

-- A channel of another provider is not the owner's.
other_provider :
    resolve length text_of_time db 100 201 300 ≡ ok (target_unavailable target_not_available)
unfolding resolve
other_provider = refl

one_channel : length (list_channels db 100) ≡ 1
unfolding list_channels
one_channel = refl

list_recipients-resolve_example :
    All
      (λ c. Agrees (resolve length text_of_time db 100 200 c.recipient_public_id) c)
      (choice ∷ left_choice ∷ [])
unfolding list_recipients choices_of left_choice
list_recipients-resolve_example =
    list_recipients-resolve length text_of_time db 100 200 (choice ∷ left_choice ∷ []) refl refl
      (refl, (refl, tt)) refl
