-- ===== src/Delivery/Repository/Stored.antt =====
-- `accept`: what is stored for an operation stays, and answers every later command of it.
use line_message_playground.Prelude.{
  ℕ, ◌≡◌, refl, ◌∙◌, ap, false, Bool, Option, some, none, ◌==◌, ==_iff, if◌then◌else◌, is_some,
  List, ok,
}
use line_message_playground.Prelude.Rows.{first, exists, first-append_none}
use line_message_playground.Prelude.Text.{Text}
use line_message_playground.Delivery.Types.{
  Uuid, Digest, Time, AcceptedDeliveryCommand, attempt_conflict, TargetMode, linked_recipient,
  AttemptFinalizationResult, line_push, push_accepted, push_rejected, push_unknown,
  pre_push_failure,
}
use line_message_playground.Delivery.Store.{Attempt, AttemptDb, Others, conflicts}
use line_message_playground.Delivery.Repository.{
  Runtime, snapshot, classify_operation, expected_fingerprint, accept,
}
use line_message_playground.Delivery.Row.{
  FenceStatus, locked, new_attempt, existing_if_ok, accepted_if_ok, of_operation, commitment_digest,
  commitment_expiry, terminal_values, expired_values, receipt_values,
}
use line_message_playground.Delivery.Repository.Accept.{
  stored, with_row, store_attempt_lem, accept-found, of_operation-Survives,
}
use line_message_playground.Delivery.Repository.Writes.{
  Write, writes, Stays, Survives, writes-Stays,
}

-- What a row says of its command, in the columns that only `accept` sets.
pub record Contents : Type 0 where
  pub subject : Text
  pub body : Text
  pub formatted_text : Text
  pub request_fingerprint : Digest
  pub target_mode : TargetMode
  pub owner_principal_slot : ℕ
  pub owner_identity_public_id : Option Uuid
  pub channel_public_id : Option Uuid
  pub channel_label_snapshot : Option Text
  pub recipient_public_id : Option Uuid
  pub accepted_at : Time
  pub receipt_requested : Bool
  pub receipt_expires_at : Option Time
  pub receipt_token_digest : Option Digest

abbrev pub contents : Attempt → Contents
contents a = record {
  subject = a.subject;
  body = a.body;
  formatted_text = a.formatted_text;
  request_fingerprint = a.request_fingerprint;
  target_mode = a.target_mode;
  owner_principal_slot = a.owner_principal_slot;
  owner_identity_public_id = a.owner_identity_public_id;
  channel_public_id = a.channel_public_id;
  channel_label_snapshot = a.channel_label_snapshot;
  recipient_public_id = a.recipient_public_id;
  accepted_at = a.accepted_at;
  receipt_requested = a.receipt_requested;
  receipt_expires_at = a.receipt_expires_at;
  receipt_token_digest = a.receipt_token_digest;
}

-- What the columns are to be.
abbrev pub ordered : AcceptedDeliveryCommand → Time → Contents
ordered command t = record {
  subject = command.message.subject;
  body = command.message.body;
  formatted_text = command.message.formatted_text;
  request_fingerprint = command.request_fingerprint;
  target_mode = linked_recipient;
  owner_principal_slot = command.owner;
  owner_identity_public_id = some command.owner_identity;
  channel_public_id = some command.target.channel_public_id;
  channel_label_snapshot = some command.target.channel_label;
  recipient_public_id = some command.target.recipient_public_id;
  accepted_at = t;
  receipt_requested = is_some command.receipt_commitment;
  receipt_expires_at = commitment_expiry command.receipt_commitment;
  receipt_token_digest = commitment_digest command.receipt_commitment;
}

-- The row is of the command that was accepted at the time.
abbrev pub IsOf : AcceptedDeliveryCommand → Time → Attempt → Type 0
IsOf command t a = contents a ≡ ordered command t

terminal_values-contents :
    (result : AttemptFinalizationResult) (t : Time) (a : Attempt)
    → contents (terminal_values result t a) ≡ contents a
unfolding terminal_values
terminal_values-contents (line_push (push_accepted i j)) t a = refl
terminal_values-contents (line_push (push_rejected i)) t a = refl
terminal_values-contents (line_push (push_unknown i)) t a = refl
terminal_values-contents (pre_push_failure i) t a = refl

IsOf-Survives :
    (command : AcceptedDeliveryCommand) (t : Time)
    → Survives (of_operation command) (IsOf command t)
unfolding expired_values receipt_values
IsOf-Survives command t =
    let s = of_operation-Survives command in
    record {
      same_ended = s.same_ended;
      same_expired = s.same_expired;
      same_confirmed = s.same_confirmed;
      on_ended = λ r u a w p. terminal_values-contents r u a ∙ p;
      on_expired = λ u a w p. p;
      on_confirmed = λ c a e p. p;
    }

module _ (rt : Runtime) (fence fence' : Uuid → FenceStatus) (others others' : Others)
    (command command' : AcceptedDeliveryCommand) (t t' now now' : Time) (db : AttemptDb)
    (ws : List Write) (genuine : command.request_fingerprint ≡ expected_fingerprint rt command)
    (genuine' : command'.request_fingerprint ≡ expected_fingerprint rt command')
    (unused : first (of_operation command) db.rows ≡ none)
    (fenced : fence command.target.channel_public_id ≡ locked)
    (still_unused : first (of_operation command) (others 0 db).rows ≡ none)
    (no_conflict : exists (conflicts (stored command t (others 0 db))) (others 0 db).rows ≡ false)
    (same : command'.operation_id ≡ command.operation_id) where
  abbrev first_table : AttemptDb
  first_table = with_row (stored command t (others 0 db)) (others 0 db)

  accepted_first : accept rt fence others command t now db ≡ (
    accepted_if_ok (others 0 db).next_pk (snapshot rt (stored command t (others 0 db)) t),
    first_table,
  )
  accepted_first =
      accept-found rt fence others command t now db genuine
      ∙ rw (unused, fenced, store_attempt_lem rt others command t now (others 0 db), no_conflict)

  kept : Stays (of_operation command) (IsOf command t) first_table
  unfolding new_attempt
  kept = (
    stored command t (others 0 db),
    first-append_none (of_operation command) (others 0 db).rows (stored command t (others 0 db))
          still_unused
        ∙ rw ((==_iff command.operation_id command.operation_id).1 refl),
    refl,
  )

  -- A command with a genuine fingerprint whose operation has no row, whose channel is there and whose
  -- row conflicts with none that the others have stored by then is stored, and answered unless its
  -- snapshot raises. From then on its operation is taken: after any writes of the repository's
  -- methods its row still holds the command's message, its fingerprint, owner, channel, recipient and
  -- receipt and the time it was accepted, and a command of that operation with a genuine fingerprint,
  -- whatever the fence and the other requests do, leaves the table alone, and gets that row if it is
  -- the same request and a conflict if it is another.
  pub accept_once :
      ((accept rt fence others command t now db).0
        ≡ accepted_if_ok (others 0 db).next_pk (snapshot rt (stored command t (others 0 db)) t))
      × ((a : Attempt) × IsOf command t a
          × (let later = writes ws (accept rt fence others command t now db).1 in
              accept rt fence' others' command' t' now' later ≡ (
                if command.request_fingerprint == command'.request_fingerprint
                    then existing_if_ok (snapshot rt a t')
                    else ok attempt_conflict,
                later,
              )))
  unfolding classify_operation
  accept_once =
      let (a, found, is) =
        writes-Stays (of_operation command) (IsOf command t) (IsOf-Survives command t) ws
          first_table kept in
      (
        ap (λ x. x.0) accepted_first,
        (
          a,
          is,
          rw accepted_first (
              accept-found rt fence' others' command' t' now' (writes ws first_table) genuine'
              ∙ rw (same, found) (rw (ap (λ (c : Contents). c.request_fingerprint) is) refl)),
        ),
      )
