-- ===== src/Delivery/Gateway/Capability.antt =====
-- The way of a receipt capability: created, sent in a button, and read from the postback.
use line_message_playground.Prelude.{
  ℕ, ◌+◌, ◌*◌, ◌/◌, ◌%◌, ◌≤◌, true, some, List, [], ◌∷◌, ◌++◌, ◌==◌, ==_iff, length, ◌≡◌, refl,
  subst, ap, ◌∙◌, Bool-cases, inl, inr, Result, ok, err, arith,
}
use line_message_playground.Prelude.Text.{Text, codes}
use line_message_playground.Prelude.Rows.{all}
use line_message_playground.Webhook.Types.{VerifiedWebhookEvent, HandlerExecutionContext}
use line_message_playground.Delivery.Types.{Time, Digest, ReceiptCapabilityCandidate, Raised}
use line_message_playground.Delivery.Formatter.{count_utf16_code_units}
use line_message_playground.Delivery.Fingerprint.Bytes.{is_ascii, utf8-ascii}
use line_message_playground.Delivery.Receipt.{
  base64_char, urlsafe_base64, create_capability, capability_entropy_bytes, receipt_command,
}
use line_message_playground.Delivery.Repository.{Runtime}
use line_message_playground.Delivery.Gateway.{receipt_action_prefix}
use line_message_playground.Interaction.Types.{
  ParsedPostbackInteraction, parsed_postback, VerifiedInteractionChannel, VerifiedInteractionUser,
}
use line_message_playground.Interaction.Parsing.{
  parse, is_line_user_id, valid_utf16_length, is_action_name,
}
use line_message_playground.Interaction.Parsing.Postback.{
  postback_data, postback_event, parse-postback_event,
}
use line_message_playground.Interaction.Service.{Services, action_command}

base64_char-ascii : (d : ℕ) → is_ascii (base64_char d) ≡ true
base64_char-ascii d = ground arith

urlsafe_base64-ascii : (bytes : List ℕ) → all is_ascii (urlsafe_base64 bytes) ≡ true
unfolding urlsafe_base64
urlsafe_base64-ascii [] = refl
urlsafe_base64-ascii (a ∷ []) = rw (base64_char-ascii (a / 4), base64_char-ascii (a % 4 * 16)) refl
urlsafe_base64-ascii (a ∷ b ∷ []) =
    rw
      (
        base64_char-ascii (a / 4),
        base64_char-ascii (a % 4 * 16 + b / 16),
        base64_char-ascii (b % 16 * 4),
      )
      refl
urlsafe_base64-ascii (a ∷ b ∷ c ∷ rest) =
    rw
      (
        base64_char-ascii (a / 4),
        base64_char-ascii (a % 4 * 16 + b / 16),
        base64_char-ascii (b % 16 * 4 + c / 64),
        base64_char-ascii (c % 64),
      )
      (urlsafe_base64-ascii rest)

urlsafe_base64-length : (bytes : List ℕ) → 3 * length (urlsafe_base64 bytes) ≤ 4 * length bytes + 2
unfolding urlsafe_base64
urlsafe_base64-length [] = omega arith
urlsafe_base64-length (a ∷ []) = omega arith
urlsafe_base64-length (a ∷ b ∷ []) = omega arith
urlsafe_base64-length (a ∷ b ∷ c ∷ rest) = omega (arith, urlsafe_base64-length rest)

count_utf16-ascii : (s : Text) → all is_ascii s ≡ true → count_utf16_code_units s ≡ some (length s)
unfolding count_utf16_code_units
count_utf16-ascii [] h = refl
count_utf16-ascii (c ∷ s) h = rw (count_utf16-ascii s (ground arith)) (ground arith)

-- The data of the button is that of a postback.
prefix-postback_data :
    (capability : Text)
    → receipt_action_prefix ++ capability ≡ postback_data (codes "delivery.received") capability
unfolding postback_data
prefix-postback_data capability = refl

short_data :
    (capability : Text)
    → all is_ascii capability ≡ true
    → length capability ≤ 43
    → valid_utf16_length (receipt_action_prefix ++ capability) 1 300 ≡ true
unfolding valid_utf16_length
short_data capability h n =
    rw (count_utf16-ascii (receipt_action_prefix ++ capability) h) (ground arith)

-- What a created capability is.
record IsCapability (sha256 : List ℕ → Digest) (c : ReceiptCapabilityCandidate) : Type 0 where
  pub ascii : all is_ascii c.capability ≡ true
  pub short : length c.capability ≤ 43
  pub digest : sha256 c.capability ≡ c.commitment.digest

short_capability :
    (entropy : List ℕ)
    → length entropy ≡ capability_entropy_bytes
    → length (urlsafe_base64 entropy) ≤ 43
short_capability entropy h = omega (arith, h, urlsafe_base64-length entropy)

abbrev Creates : (List ℕ → Digest) → Result Raised ReceiptCapabilityCandidate → Type 0
Creates sha256 (ok c) = IsCapability sha256 c
Creates sha256 (err e) = Unit

create_capability-Creates :
    (sha256 : List ℕ → Digest) (entropy : List ℕ) (expires : Time)
    → Creates sha256 (create_capability sha256 (ok entropy) expires)
unfolding create_capability
create_capability-Creates sha256 entropy expires =
    elim (Bool-cases (length entropy == capability_entropy_bytes)) [
      | inl e ↦ rw e (record {
        ascii = urlsafe_base64-ascii entropy;
        short = short_capability entropy ((==_iff (length entropy) capability_entropy_bytes).0 e);
        digest = refl;
      })
      | inr e ↦ rw e tt
    ]

-- A capability that was created from random bytes, sent as the data of the button, and pressed by a
-- user whose id and reply token have their form: the postback is read as the action
-- "delivery.received", and the digest that the receipt handler then looks for is the one that was
-- stored for the capability.
pub capability_returns :
    (rt : Runtime) (entropy : List ℕ) (expires : Time) (candidate : ReceiptCapabilityCandidate)
    (s : Services) (event : VerifiedWebhookEvent) (context : HandlerExecutionContext)
    (channel : VerifiedInteractionChannel) (user : VerifiedInteractionUser)
    (subject reply_token : Text) (occurred_at : Time)
    → create_capability rt.sha256 (ok entropy) expires ≡ ok candidate
    → event.event_type ≡ codes "postback"
    → event.event_data
      ≡ postback_event subject reply_token (receipt_action_prefix ++ candidate.capability)
    → is_line_user_id subject ≡ true
    → valid_utf16_length reply_token 1 512 ≡ true
    → (p : ParsedPostbackInteraction) × (parse event ≡ parsed_postback p)
      × (p.action_name ≡ codes "delivery.received")
      × ((receipt_command rt
            (action_command s event context p channel user)
            occurred_at).capability_digest
          ≡ candidate.commitment.digest)
unfolding is_action_name postback_data
capability_returns rt entropy expires c s event context channel user subject t occurred h e d u v =
    let is = subst (Creates rt.sha256) h (create_capability-Creates rt.sha256 entropy expires) in
    (
      record {
        subject = subject;
        reply_token = t;
        action_name = codes "delivery.received";
        payload = c.capability;
      },
      parse-postback_event event subject t (codes "delivery.received") c.capability e d u v
          (short_data c.capability is.ascii is.short) refl,
      refl,
      ap rt.sha256 (utf8-ascii c.capability is.ascii) ∙ is.digest,
    )
