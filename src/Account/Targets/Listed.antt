-- ===== src/Account/Targets/Listed.antt =====
-- The list of recipients against the resolution of each.
use line_message_playground.Prelude.{
  ℕ, Bool, true, false, ◌&&◌, not, Option, none, some, is_none, List, [], ◌∷◌, ◌==◌, if◌then◌else◌,
  Result, ok, err, ◌≡◌, refl, sym, subst, All, Bool-cases, inl, inr, arith,
}
use line_message_playground.Prelude.Text.{Text}
use line_message_playground.Prelude.Rows.{first, exists, all, first-all}
use line_message_playground.Delivery.Types.{
  Uuid, Digest, Time, FriendshipState, friend, not_friend, unknown, live_target_valid, Raised,
}
use line_message_playground.Delivery.Service.{TargetResolution, live, target_unavailable}
use line_message_playground.Account.Targets.{
  LineIdentity, LineChannel, DeliveryRecipient, Accounts, DeliveryRecipientChoice, is_nonempty,
  owner_identity_row, filtered, both_rows, joined, matches_rows, matches,
  recipient_unavailable_reason, is_deliverable, choice_of, and_then, choices_of, RecipientList,
  recipient_choices, no_recipients, list_found, is_listed, list_for, channel_row, list_recipients,
  target_of, resolve_found, resolve,
}

abbrev pub has_public_id : Uuid → DeliveryRecipient → Bool
has_public_id id r = r.public_id == id

-- The unique column.
abbrev pub IsUnique : List DeliveryRecipient → Type 0
IsUnique [] = Unit
IsUnique (r ∷ rs) = (exists (has_public_id r.public_id) rs ≡ false) × IsUnique rs

-- What the choice says of the recipient is what its resolution says: it is there, and can be
-- delivered to or not; it has a reason exactly if it cannot.
abbrev pub Agrees : Result Raised TargetResolution → DeliveryRecipientChoice → Type 0
Agrees (ok (live t)) c =
    (t.delivery_available ≡ c.available)
    × (t.snapshot.recipient_enabled ≡ c.enabled)
    × (t.snapshot.friendship_state ≡ c.friendship_state)
    × (is_none c.unavailable_reason ≡ c.available)
    × (live_target_valid t ≡ true)
Agrees (ok (target_unavailable r)) c = ⊥
Agrees (err e) c = ⊥

reason-deliverable :
    (active enabled : Bool) (state : FriendshipState)
    → is_none (recipient_unavailable_reason active enabled state)
      ≡ is_deliverable active enabled state
unfolding recipient_unavailable_reason
reason-deliverable false enabled state = refl
reason-deliverable true false state = refl
reason-deliverable true true friend = refl
reason-deliverable true true not_friend = refl
reason-deliverable true true unknown = refl

-- The first row that the test finds among rows with unique ids.
abbrev IsFound : (DeliveryRecipient → Bool) → List DeliveryRecipient → DeliveryRecipient → Type 0
IsFound test rows r =
    (first (λ x. x.public_id == r.public_id && test x) rows ≡ some r) × (test r ≡ true)

filtered-apart :
    (test : DeliveryRecipient → Bool) (x : DeliveryRecipient) (rows : List DeliveryRecipient)
    → exists (has_public_id x.public_id) rows ≡ false
    → All (λ r. (x.public_id == r.public_id) ≡ false) (filtered test rows)
filtered-apart test x [] h = tt
filtered-apart test x (r ∷ rows) h = elim (Bool-cases (test r)) [
  | inl e ↦ rw e (ground arith, filtered-apart test x rows (ground arith))
  | inr e ↦ rw e (filtered-apart test x rows (ground arith))
]

still-IsFound :
    (test : DeliveryRecipient → Bool) (x : DeliveryRecipient) (rows rs : List DeliveryRecipient)
    → All (λ r. (x.public_id == r.public_id) ≡ false) rs
    → All (IsFound test rows) rs
    → All (IsFound test (x ∷ rows)) rs
still-IsFound test x rows [] a f = tt
still-IsFound test x rows (r ∷ rs) (n, a) ((p, q), f) =
    ((rw n p, q), still-IsFound test x rows rs a f)

filtered-IsFound :
    (test narrow : DeliveryRecipient → Bool) (rows : List DeliveryRecipient)
    → ((r : DeliveryRecipient) → narrow r ≡ true → test r ≡ true)
    → IsUnique rows
    → All (IsFound test rows) (filtered narrow rows)
filtered-IsFound test narrow [] i u = tt
filtered-IsFound test narrow (x ∷ rows) i (n, u) =
    let rest =
      still-IsFound test x rows (filtered narrow rows) (filtered-apart narrow x rows n)
        (filtered-IsFound test narrow rows i u) in
    elim (Bool-cases (narrow x)) [
      | inl e ↦ rw e ((rw (own x.public_id, i x e) refl, i x e), rest)
      | inr e ↦ rw e rest
    ]
  where
    own : (n : ℕ) → (n == n) ≡ true
    own n = ground arith

abbrev ChoiceAgrees :
    Result Raised TargetResolution → Result Raised DeliveryRecipientChoice → Type 0
ChoiceAgrees target (ok c) = Agrees target c
ChoiceAgrees target (err e) = Unit

abbrev identity_ok : LineIdentity → Bool
identity_ok i = is_nonempty i.provider_id && is_nonempty i.subject

abbrev label_ok : LineChannel → Bool
label_ok c = is_nonempty c.label

module _ (sha256 : List ℕ → Digest) (isoformat : Time → Text) where
  target_valid : (b : Bool) → (if b then b else not b) ≡ true
  target_valid true = refl
  target_valid false = refl

  target_of-ChoiceAgrees :
      (r : DeliveryRecipient) (i : LineIdentity) (c : LineChannel)
      → label_ok c ≡ true
      → identity_ok i ≡ true
      → ChoiceAgrees (target_of sha256 isoformat r (some (i, c))) (choice_of r (some (i, c)))
  unfolding target_of choice_of
  target_of-ChoiceAgrees r i c l p = elim (Bool-cases (is_nonempty i.display_name)) [
    | inl e ↦
        rw (l, p, e)
          (
            refl,
            refl,
            refl,
            reason-deliverable c.is_active r.enabled r.friendship_state,
            target_valid (is_deliverable c.is_active r.enabled r.friendship_state),
          )
    | inr e ↦ rw e tt
  ]

  module _ (db : Accounts) (owner channel : Uuid)
      (identities : all identity_ok db.identities ≡ true)
      (labels : all label_ok db.channels ≡ true) where
    rows-ChoiceAgrees :
        (r : DeliveryRecipient) (oi : Option LineIdentity) (oc : Option LineChannel)
        → first (λ i. i.pk == r.identity) db.identities ≡ oi
        → first (λ c. c.pk == r.line_channel) db.channels ≡ oc
        → matches_rows db owner channel (both_rows oi oc) ≡ true
        → ChoiceAgrees
            (target_of sha256 isoformat r (both_rows oi oc))
            (choice_of r (both_rows oi oc))
    rows-ChoiceAgrees r none oc f g m = cc
    rows-ChoiceAgrees r (some i) none f g m = cc
    rows-ChoiceAgrees r (some i) (some c) f g m =
        target_of-ChoiceAgrees r i c
          (first-all (λ x. x.pk == r.line_channel) label_ok db.channels c g labels)
          (first-all (λ x. x.pk == r.identity) identity_ok db.identities i f identities)

    found-ChoiceAgrees :
        (r : DeliveryRecipient)
        → IsFound (matches db owner channel) db.recipients r
        → ChoiceAgrees
            (resolve sha256 isoformat db owner channel r.public_id)
            (choice_of r (joined db r))
    unfolding resolve resolve_found
    found-ChoiceAgrees r (f, m) = rw f (
        rows-ChoiceAgrees r (first (λ i. i.pk == r.identity) db.identities)
          (first (λ c. c.pk == r.line_channel) db.channels) refl refl m)

    -- Each choice agrees with the resolution of its recipient.
    abbrev pub ListAgrees : List DeliveryRecipientChoice → Type 0
    ListAgrees cs =
        All (λ c. Agrees (resolve sha256 isoformat db owner channel c.recipient_public_id) c) cs

    abbrev ChoicesAgree : Result Raised (List DeliveryRecipientChoice) → Type 0
    ChoicesAgree (ok cs) = ListAgrees cs
    ChoicesAgree (err e) = Unit

    -- The choice is of the recipient.
    abbrev IsOf : DeliveryRecipient → Result Raised DeliveryRecipientChoice → Type 0
    IsOf r (ok c) = c.recipient_public_id ≡ r.public_id
    IsOf r (err e) = Unit

    choice_of-IsOf :
        (r : DeliveryRecipient) (o : Option (LineIdentity × LineChannel)) → IsOf r (choice_of r o)
    unfolding choice_of
    choice_of-IsOf r none = tt
    choice_of-IsOf r (some (i, c)) = elim (Bool-cases (is_nonempty i.display_name)) [
      | inl e ↦ rw e refl
      | inr e ↦ rw e tt
    ]

    and_then-ChoicesAgree :
        (r : DeliveryRecipient) (a : Result Raised DeliveryRecipientChoice)
        (b : Result Raised (List DeliveryRecipientChoice))
        → IsOf r a
        → ChoiceAgrees (resolve sha256 isoformat db owner channel r.public_id) a
        → ChoicesAgree b
        → ChoicesAgree (and_then a b)
    and_then-ChoicesAgree r (err e) b i h k = tt
    and_then-ChoicesAgree r (ok c) (err e) i h k = tt
    and_then-ChoicesAgree r (ok c) (ok cs) i h k =
        (subst (λ id. Agrees (resolve sha256 isoformat db owner channel id) c) (sym i) h, k)

    choices_of-ChoicesAgree :
        (rs : List DeliveryRecipient)
        → All (IsFound (matches db owner channel) db.recipients) rs
        → ChoicesAgree (choices_of db rs)
    unfolding choices_of
    choices_of-ChoicesAgree [] a = tt
    choices_of-ChoicesAgree (r ∷ rs) (f, a) =
        and_then-ChoicesAgree r (choice_of r (joined db r)) (choices_of db rs)
          (choice_of-IsOf r (joined db r)) (found-ChoiceAgrees r f) (choices_of-ChoicesAgree rs a)

    abbrev RecipientsAgree : Result Raised RecipientList → Type 0
    RecipientsAgree (ok (recipient_choices cs)) = ListAgrees cs
    RecipientsAgree (ok (no_recipients r)) = Unit
    RecipientsAgree (err e) = Unit

    list_found-RecipientsAgree :
        (a : Result Raised (List DeliveryRecipientChoice))
        → ChoicesAgree a
        → RecipientsAgree (list_found a)
    list_found-RecipientsAgree (err e) h = tt
    list_found-RecipientsAgree (ok []) h = tt
    list_found-RecipientsAgree (ok (c ∷ cs)) h = h

    list_for-RecipientsAgree :
        (i : Option LineIdentity) (c : Option LineChannel)
        → IsUnique db.recipients
        → RecipientsAgree (list_for db owner channel i c)
    unfolding list_for
    list_for-RecipientsAgree none c u = tt
    list_for-RecipientsAgree (some i) none u = tt
    list_for-RecipientsAgree (some i) (some c) u =
        let rs = filtered (is_listed db owner channel i c) db.recipients in
        list_found-RecipientsAgree (choices_of db rs) (
          choices_of-ChoicesAgree rs (
            filtered-IsFound (matches db owner channel) (is_listed db owner channel i c)
              db.recipients
              (λ r e.
                listed-matches (r.identity == i.pk) (r.line_channel == c.pk)
                  (matches db owner channel r) e)
              u))
      where
        listed-matches : (a b m : Bool) → (a && (b && m)) ≡ true → m ≡ true
        listed-matches true true true h = refl
        listed-matches true true false h = h
        listed-matches true false m h = cc
        listed-matches false b m h = cc

-- In tables whose recipients have unique public ids, whose channels have labels and whose identities
-- have a provider and a subject: every recipient that the list of a channel offers is resolved, and
-- the list says of it what the resolved target says: whether it is enabled, its friendship, whether it
-- can be delivered to, and a reason exactly if it cannot; and the target passes the checks of its type.
pub list_recipients-resolve :
    (sha256 : List ℕ → Digest) (isoformat : Time → Text) (db : Accounts) (owner channel : Uuid)
    (cs : List DeliveryRecipientChoice)
    → all (λ i. is_nonempty i.provider_id && is_nonempty i.subject) db.identities ≡ true
    → all (λ c. is_nonempty c.label) db.channels ≡ true
    → IsUnique db.recipients
    → list_recipients db owner channel ≡ ok (recipient_choices cs)
    → All (λ c. Agrees (resolve sha256 isoformat db owner channel c.recipient_public_id) c) cs
unfolding list_recipients
list_recipients-resolve sha256 isoformat db owner channel cs identities labels u h =
    let i = owner_identity_row db owner in
    subst (RecipientsAgree sha256 isoformat db owner channel identities labels) h (
      list_for-RecipientsAgree sha256 isoformat db owner channel identities labels i
        (channel_row db channel i) u)
