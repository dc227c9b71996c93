-- ===== src/Delivery/Repository/Accept.antt =====
-- `accept`: one attempt for one operation, and for one request at a time.
use line_message_playground.Prelude.{
  ℕ, ◌+◌, ◌≡◌, ◌≢◌, refl, ◌∙◌, ap, Bool, true, false, Option, some, none, ◌==◌, ==_iff,
  if◌then◌else◌, inl, inr, Bool-cases, Option-cases, ◌⊎◌, sym, arith, ok, err, List, [], ◌∷◌, ◌++◌,
}
use line_message_playground.Prelude.Rows.{first, exists}
use line_message_playground.Delivery.Types.{
  Uuid, Time, integrity_error, AcceptedDeliveryCommand, AttemptFinalizationResult, line_push,
  push_accepted, push_rejected, push_unknown, pre_push_failure,
}
use line_message_playground.Delivery.Formatter.{format_message}
use line_message_playground.Prelude.Text.{Text}
use line_message_playground.Delivery.Store.{
  Attempt, AttemptDb, Others, check_constraints, valid_target, valid_state, valid_receipt,
  column_eq, conflicts, create,
}
use line_message_playground.Delivery.Repository.{
  Runtime, snapshot, classify_operation, who_was_first, after_integrity_error, after_create,
  store_attempt, expected_fingerprint, accept_fenced, accept_found, accept,
}
use line_message_playground.Delivery.Repository.Writes.{Write, writes, Survives, writes-Stays}
use line_message_playground.Delivery.Row.{
  terminal_values, expired_values, receipt_values, FenceStatus, locked, channel_not_found,
  fence_failed, new_attempt, existing_if_ok, accepted_if_ok, of_operation, of_request,
  commitment_digest,
}

new_attempt-check :
    (command : AcceptedDeliveryCommand) (t : Time) (k : ℕ)
    → check_constraints (record (new_attempt command t) { pk = k }) ≡ true
unfolding new_attempt check_constraints valid_target valid_state valid_receipt
new_attempt-check command t k = ground arith

-- The row as it is stored.
abbrev pub stored : AcceptedDeliveryCommand → Time → AttemptDb → Attempt
stored command t db = record (new_attempt command t) { pk = db.next_pk }

abbrev pub with_row : Attempt → AttemptDb → AttemptDb
with_row a db = record { rows = db.rows ++ a ∷ []; next_pk = db.next_pk + 1 }

create-new_attempt :
    (command : AcceptedDeliveryCommand) (t : Time) (db : AttemptDb)
    → create (new_attempt command t) db ≡ (
        if exists (conflicts (stored command t db)) db.rows
        then (err integrity_error, db)
        else (ok (stored command t db), with_row (stored command t db) db))
unfolding create
create-new_attempt command t db = rw (new_attempt-check command t db.next_pk) (ground arith)

-- A row in the way has the operation, the active request or the receipt token of the new one.
conflict_cause :
    (command : AcceptedDeliveryCommand) (t : Time) (k : ℕ) (rows : List Attempt)
    → exists (conflicts (record (new_attempt command t) { pk = k })) rows ≡ true
    → first (of_operation command) rows ≡ none
    → first (of_request command) rows ≡ none
    → exists
        (λ a. column_eq a.receipt_token_digest (commitment_digest command.receipt_commitment))
        rows
      ≡ true
unfolding conflicts new_attempt
conflict_cause command t k [] h p q = cc
conflict_cause command t k (a ∷ rows) h p q = ground (arith, conflict_cause command t k rows)

format_message_raises :
    (rt : Runtime) (subject body : Text)
    → format_message rt.is_space rt.message_digest subject body ≢ err integrity_error
unfolding format_message
format_message_raises rt subject body h = ground arith

pub snapshot_raises :
    (rt : Runtime) (a : Attempt) (now : Time) → snapshot rt a now ≢ err integrity_error
unfolding snapshot
snapshot_raises rt a now h = ground (arith, format_message_raises rt a.subject a.body)

existing_raises :
    (rt : Runtime) (a : Attempt) (now : Time)
    → existing_if_ok (snapshot rt a now) ≢ err integrity_error
existing_raises rt a now h = ground (arith, snapshot_raises rt a now)

classify_operation_raises :
    (rt : Runtime) (a : Attempt) (command : AcceptedDeliveryCommand) (now : Time)
    → classify_operation rt a command now ≢ err integrity_error
unfolding classify_operation
classify_operation_raises rt a command now h = ground (arith, existing_raises rt a now)

store_attempt-create :
    (rt : Runtime) (others : Others) (command : AcceptedDeliveryCommand) (t now : Time)
    (db : AttemptDb)
    → store_attempt rt others command t now db
      ≡ after_create rt others command t now (create (new_attempt command t) db)
unfolding store_attempt
store_attempt-create rt others command t now db = refl

-- The row is stored exactly where no other row is in its way; otherwise who is in the way answers.
pub store_attempt_lem :
    (rt : Runtime) (others : Others) (command : AcceptedDeliveryCommand) (t now : Time)
    (db : AttemptDb)
    → store_attempt rt others command t now db ≡ (
        if exists (conflicts (stored command t db)) db.rows
        then after_integrity_error rt others command now db
        else (
          accepted_if_ok db.next_pk (snapshot rt (stored command t db) t),
          with_row (stored command t db) db,
        ))
store_attempt_lem rt others command t now db =
    store_attempt-create rt others command t now db
    ∙ ap (after_create rt others command t now) (create-new_attempt command t db)
    ∙ branch (exists (conflicts (stored command t db)) db.rows)
  where
    branch :
        (b : Bool)
        → after_create rt others command t now (
            if b
            then (err integrity_error, db)
            else (ok (stored command t db), with_row (stored command t db) db))
          ≡ (if b then after_integrity_error rt others command now db else (
            accepted_if_ok db.next_pk (snapshot rt (stored command t db) t),
            with_row (stored command t db) db,
          ))
    branch true = refl
    branch false = refl

some_not_none : {a : Attempt} → ◌≢◌ {A = Option Attempt} (some a) none
some_not_none h = cc

pub terminal_values-operation_id :
    (result : AttemptFinalizationResult) (t : Time) (a : Attempt)
    → (terminal_values result t a).operation_id ≡ a.operation_id
unfolding terminal_values
terminal_values-operation_id (line_push (push_accepted i j)) t a = refl
terminal_values-operation_id (line_push (push_rejected i)) t a = refl
terminal_values-operation_id (line_push (push_unknown i)) t a = refl
terminal_values-operation_id (pre_push_failure i) t a = refl

pub of_operation-Survives :
    (command : AcceptedDeliveryCommand) → Survives (of_operation command) (λ x. Unit)
unfolding expired_values receipt_values
of_operation-Survives command = record {
  same_ended =
      λ r t a. ap (λ (i : ℕ). i == command.operation_id) (terminal_values-operation_id r t a);
  same_expired = λ t a. refl;
  same_confirmed = λ c a. refl;
  on_ended = λ r t a u p. tt;
  on_expired = λ t a u p. tt;
  on_confirmed = λ c a e p. tt;
}

module _ (rt : Runtime) (fence : Uuid → FenceStatus) (others : Others)
    (command : AcceptedDeliveryCommand) (t now : Time) (db : AttemptDb)
    (genuine : command.request_fingerprint ≡ expected_fingerprint rt command) where
  pub accept-found :
      accept rt fence others command t now db
      ≡ accept_found rt fence others command t now db (first (of_operation command) db.rows)
  unfolding accept
  accept-found =
      rw ((==_iff command.request_fingerprint (expected_fingerprint rt command)).1 genuine)

  accepted_raises : (k : ℕ) (a : Attempt) → accepted_if_ok k (snapshot rt a t) ≢ err integrity_error
  accepted_raises k a h = ground (arith, snapshot_raises rt a t)

  who_was_first-answers :
      (a b : Option Attempt)
      → (a ≡ none → b ≡ none → ⊥)
      → who_was_first rt command now a b ≢ err integrity_error
  who_was_first-answers (some a) b h e = classify_operation_raises rt a command now e
  who_was_first-answers none (some b) h e = existing_raises rt b now e
  who_was_first-answers none none h e = h refl refl

  module _ (ws : List Write) (here : others 1 (others 0 db) ≡ writes ws (others 0 db))
      (fresh : exists
          (λ a. column_eq a.receipt_token_digest (commitment_digest command.receipt_commitment))
          (others 0 db).rows
        ≡ false)
      (still : (first (of_request command) (others 0 db).rows ≡ none)
        ⊎ (first (of_request command) (others 2 (others 1 (others 0 db))).rows ≢ none)) where
    -- A row of the operation is not lost before it is read again.
    operation_left :
        first (of_operation command) (others 1 (others 0 db)).rows ≡ none
        → first (of_operation command) (others 0 db).rows ≡ none
    operation_left e = elim (Option-cases (first (of_operation command) (others 0 db).rows)) [
      | inl p ↦ p
      | inr (a, p) ↦
          let (b, q, u) =
            writes-Stays (of_operation command) (λ x. Unit) (of_operation-Survives command) ws
              (others 0 db) (a, p, tt) in
          absurd (
            some_not_none
              (sym q ∙ ap (λ (d : AttemptDb). first (of_operation command) d.rows) (sym here) ∙ e))
    ]

    no_conflict_left :
        exists (conflicts (stored command t (others 0 db))) (others 0 db).rows ≡ true
        → first (of_operation command) (others 1 (others 0 db)).rows ≡ none
        → first (of_request command) (others 2 (others 1 (others 0 db))).rows ≡ none
        → ⊥
    no_conflict_left h p q = elim still [
      | inr s ↦ s q
      | inl s ↦
          let bad : _ =
            conflict_cause command t (others 0 db).next_pk (others 0 db).rows h (operation_left p)
              s in
          cc (fresh, bad)
    ]

    store_raises : (store_attempt rt others command t now (others 0 db)).0 ≢ err integrity_error
    store_raises e =
        elim (Bool-cases (exists (conflicts (stored command t (others 0 db))) (others 0 db).rows)) [
          | inl h ↦
              who_was_first-answers (first (of_operation command) (others 1 (others 0 db)).rows)
                (first (of_request command) (others 2 (others 1 (others 0 db))).rows)
                (no_conflict_left h)
                (rw (store_attempt_lem rt others command t now (others 0 db), h) at e)
          | inr h ↦
              accepted_raises (others 0 db).next_pk (stored command t (others 0 db))
                (rw (store_attempt_lem rt others command t now (others 0 db), h) at e)
        ]

    fenced_raises :
        (f : FenceStatus) → (accept_fenced rt others command t now db f).0 ≢ err integrity_error
    fenced_raises locked e = store_raises e
    fenced_raises channel_not_found e = cc
    fenced_raises (fence_failed code) e = cc

    found_raises :
        (o : Option Attempt)
        → (accept_found rt fence others command t now db o).0 ≢ err integrity_error
    found_raises (some a) e = classify_operation_raises rt a command t e
    found_raises none e = fenced_raises (fence command.target.channel_public_id) e

    -- Two requests for one operation, or for one message to one recipient, may race. Whatever the
    -- others have stored before its own row, and any writes of the repository's methods before it
    -- reads again, `accept` does not let the database's integrity error through, as long as the
    -- request's fingerprint is genuine, no row has its receipt token, and an attempt that is active
    -- with its fingerprint when the row is refused, if there is one, is still there at the last reading.
    pub accept_race : (accept rt fence others command t now db).0 ≢ err integrity_error
    accept_race e = found_raises (first (of_operation command) db.rows) (rw accept-found at e)
