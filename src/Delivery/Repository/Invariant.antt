-- ===== src/Delivery/Repository/Invariant.antt =====
-- The tables that the repository's methods reach, and that no update of theirs is refused there.
use line_message_playground.Prelude.{
  ℕ, zero, suc, ◌≡◌, ◌≢◌, refl, Bool, true, Option, some, none, [], List, inl, inr, Bool-cases,
  arith, Result, ok, err, ltb, length, ◌==◌,
}
use line_message_playground.Prelude.Rows.{first, count_where, update_where}
use line_message_playground.Delivery.Types.{
  Uuid, Time, AttemptFinalizationResult, ConfirmReceiptCommand, DeliverySnapshot, ReceiptResult,
  Raised, receipt_rejected, ReceiptRejectionReason, integrity_error,
}
use line_message_playground.Delivery.Store.{Attempt, AttemptDb, Others, check_constraints, update}
use line_message_playground.Delivery.Repository.{
  Runtime, snapshot, get_snapshot, read_back, finalize, found_for_owner, get_for_owner,
  answer_receipt, reread, after_receipt_update, confirm_found, confirm_receipt,
}
use line_message_playground.Delivery.Row.{
  Classified, refused, already_confirmed, undecided, classify_receipt, overdue, owned, overdue_row,
  expired_values, receipt_values, terminal_values, unfinished, awaiting, has_pk, has_token, found,
  lift_some, unchanged_if_ok, recorded_if_ok,
}
use line_message_playground.Delivery.Repository.Accept.{snapshot_raises}
use line_message_playground.Delivery.Repository.Constraints.{
  Checked, update_goes_through, terminal_values-check, expired_values-check, receipt_values-check,
}
use line_message_playground.Delivery.Repository.Writes.{Write, writes, writes-Checked}

abbrev pub new_table : AttemptDb
new_table = record { rows = []; next_pk = 1 }

found_raises :
    (r : Result Raised DeliverySnapshot × AttemptDb)
    → r.0 ≢ err integrity_error
    → (found r).0 ≢ err integrity_error
found_raises (ok s, db) h e = cc
found_raises (err x, db) h e = h (ground arith)

module _ (rt : Runtime) (others : Others) where
  get_snapshot_raises :
      (k : ℕ) (now : Time) (db : AttemptDb) → get_snapshot rt k now db ≢ err integrity_error
  unfolding get_snapshot
  get_snapshot_raises k now db = go (first (has_pk k) db.rows)
    where
      go :
          (o : Option Attempt)
          → ◌≢◌ {A = Result Raised DeliverySnapshot}
              (elim o [ none ↦ err Raised.does_not_exist | some a ↦ snapshot rt a now ])
              (err integrity_error)
      go none e = cc
      go (some a) e = snapshot_raises rt a now e

  -- An update that keeps the constraints is not refused, and the row is read back.
  read_back_raises :
      (k : ℕ) (now : Time) (test : Attempt → Bool) (f : Attempt → Attempt) (db : AttemptDb)
      → ((a : Attempt)
          → test a ≡ true
          → check_constraints a ≡ true
          → check_constraints (f a) ≡ true)
      → Checked db
      → (read_back rt others k now (update test f db)).0 ≢ err integrity_error
  read_back_raises k now test f db keep c = rw (update_goes_through test f db keep c) (λ e.
      get_snapshot_raises k now (others 1 (record db { rows = update_where test f db.rows })) e)

  finalize_raises :
      (k : ℕ) (result : AttemptFinalizationResult) (t now : Time) (db : AttemptDb)
      → Checked db
      → (finalize rt others k result t now db).0 ≢ err integrity_error
  unfolding finalize
  finalize_raises zero result t now db c = λ e. cc
  finalize_raises (suc k) result t now db c =
      read_back_raises (suc k) now (unfinished (suc k)) (terminal_values result t) db
        (λ a h. terminal_values-check result t a (ground arith)) c

  get_for_owner_raises :
      (slot : ℕ) (operation_id : Uuid) (now : Time) (db : AttemptDb)
      → Checked (others 0 db)
      → (get_for_owner rt others slot operation_id now db).0 ≢ err integrity_error
  unfolding get_for_owner
  get_for_owner_raises zero operation_id now db c = λ e. cc
  get_for_owner_raises (suc slot) operation_id now db c =
      go (first (owned (suc slot) operation_id) db.rows)
    where
      quiet :
          (r : Result Raised DeliverySnapshot)
          → r ≢ err integrity_error
          → lift_some r ≢ err integrity_error
      quiet (ok s) h e = cc
      quiet (err x) h e = h (ground arith)

      go :
          (o : Option Attempt)
          → (found_for_owner rt others (suc slot) operation_id now db o).0 ≢ err integrity_error
      go none = λ e. cc
      go (some a) = elim (Bool-cases (overdue now a)) [
        | inl e ↦ rw e (
            found_raises
              (read_back rt others a.pk now (
                update (overdue_row a.pk (suc slot) operation_id now) (expired_values now)
                  (others 0 db)))
              (read_back_raises a.pk now (overdue_row a.pk (suc slot) operation_id now)
                (expired_values now) (others 0 db)
                (λ x h. expired_values-check now x (ground arith)) c))
        | inr e ↦ rw e (quiet (snapshot rt a now) (λ h. snapshot_raises rt a now h))
      ]

  unchanged_raises :
      (a : Attempt) (now : Time) → unchanged_if_ok (snapshot rt a now) ≢ err integrity_error
  unchanged_raises a now e = ground (arith, snapshot_raises rt a now)

  recorded_raises :
      (a : Attempt) (now : Time) → recorded_if_ok (snapshot rt a now) ≢ err integrity_error
  recorded_raises a now e = ground (arith, snapshot_raises rt a now)

  answer_raises :
      (c : Classified) (a : Attempt) (now : Time) (r : Result Raised ReceiptResult × AttemptDb)
      (db : AttemptDb)
      → r.0 ≢ err integrity_error
      → (answer_receipt rt c a now r db).0 ≢ err integrity_error
  answer_raises (refused reason) a now r db h e = cc
  answer_raises already_confirmed a now r db h e = unchanged_raises a now e
  answer_raises undecided a now r db h e = h e

  reread_raises :
      (command : ConfirmReceiptCommand) (n : ℕ) (now : Time) (o : Option Attempt) (db : AttemptDb)
      → (reread rt command n now o db).0 ≢ err integrity_error
  reread_raises command n now none db = λ e. cc
  reread_raises command n now (some a) db = elim (Bool-cases (n == 1)) [
    | inl e ↦ rw e (recorded_raises a now)
    | inr e ↦ rw e (
        answer_raises (classify_receipt a command) a now
          (ok (receipt_rejected ReceiptRejectionReason.invalid), db) db (λ h. cc))
  ]

  confirm_receipt_raises :
      (command : ConfirmReceiptCommand) (now : Time) (db : AttemptDb)
      → Checked (others 0 db)
      → (confirm_receipt rt others command now db).0 ≢ err integrity_error
  unfolding confirm_receipt
  confirm_receipt_raises command now db c =
      elim (Bool-cases (ltb 26 (length command.webhook_event_id))) [
        | inl e ↦ rw e (λ h. cc)
        | inr e ↦ rw e (go (first (has_token command.capability_digest) db.rows))
      ]
    where
      after :
          (k : ℕ)
          → (after_receipt_update rt others command k now
              (update (awaiting k command) (receipt_values command) (others 0 db))).0
            ≢ err integrity_error
      after k =
          rw
            (update_goes_through (awaiting k command) (receipt_values command) (others 0 db)
              (λ a h. receipt_values-check command a (ground arith)) c)
            (reread_raises command (count_where (awaiting k command) (others 0 db).rows) now _ _)

      go : (o : Option Attempt) → (confirm_found rt others command now db o).0 ≢ err integrity_error
      go none = λ e. cc
      go (some a) = answer_raises (classify_receipt a command) a now _ db (after a.pk)

-- In any table that the writes of the repository's methods reach from the empty one, and with any
-- such writes of other requests while a method runs, the database refuses none of the updates of
-- `finalize`, `get_for_owner` and `confirm_receipt`: none of them raises an integrity error, for any
-- arguments and at any time.
pub never_refused :
    (rt : Runtime) (ws : List Write) (during : ℕ → List Write) (k slot : ℕ)
    (result : AttemptFinalizationResult) (operation_id : Uuid) (command : ConfirmReceiptCommand)
    (t now : Time)
    → let db = writes ws new_table in
      let others : Others = λ i d. writes (during i) d in
      ((finalize rt others k result t now db).0 ≢ err integrity_error)
      × ((get_for_owner rt others slot operation_id now db).0 ≢ err integrity_error)
      × ((confirm_receipt rt others command now db).0 ≢ err integrity_error)
never_refused rt ws during k slot result operation_id command t now =
    let db : AttemptDb = writes ws new_table in
    let others : Others = λ i d. writes (during i) d in
    let c : Checked db = writes-Checked ws new_table refl in
    let c' : Checked (others 0 db) = writes-Checked (during 0) db c in
    (
      finalize_raises rt others k result t now db c,
      get_for_owner_raises rt others slot operation_id now db c',
      confirm_receipt_raises rt others command now db c',
    )
