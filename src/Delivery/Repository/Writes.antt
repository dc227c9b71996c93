-- ===== src/Delivery/Repository/Writes.antt =====
-- The writes of the repository's methods, each in one statement of the database, and what no sequence
-- of them can change in a row. With them the commits of other requests are written out.
use line_message_playground.Prelude.{
  ℕ, ◌+◌, ◌≡◌, refl, ◌∙◌, Bool, true, false, some, List, [], ◌∷◌, ◌++◌, if◌then◌else◌, inl, inr,
  Bool-cases, by_test, arith, not, ◌&&◌, Result, ok, err,
}
use line_message_playground.Prelude.Rows.{
  first, all-append, first-append_some, first-update_where, exists, all, count_where, update_where,
}
use line_message_playground.Delivery.Types.{
  Uuid, Time, AcceptedDeliveryCommand, AttemptFinalizationResult, ConfirmReceiptCommand, Raised,
  integrity_error,
}
use line_message_playground.Delivery.Store.{
  Attempt, AttemptDb, is_processing, check_constraints, conflicts, create, update,
}
use line_message_playground.Delivery.Repository.Constraints.{Checked}
use line_message_playground.Delivery.Row.{
  new_attempt, terminal_values, expired_values, receipt_values, receipt_open, unfinished,
  overdue_row, awaiting,
}

pub data Write : Type 0 where
  created : AcceptedDeliveryCommand → Time → Write
  ended : ℕ → AttemptFinalizationResult → Time → Write
  timed_out : ℕ → ℕ → Uuid → Time → Write
  confirmed : ℕ → ConfirmReceiptCommand → Write

abbrev pub write : Write → AttemptDb → AttemptDb
write (created command t) db = (create (new_attempt command t) db).1
write (ended k result t) db = (update (unfinished k) (terminal_values result t) db).1
write (timed_out k slot operation_id t) db =
    (update (overdue_row k slot operation_id t) (expired_values t) db).1
write (confirmed k command) db = (update (awaiting k command) (receipt_values command) db).1

abbrev pub writes : List Write → AttemptDb → AttemptDb
writes [] db = db
writes (x ∷ rest) db = writes rest (write x db)

-- The query finds a row, and what it finds is as `P` says.
abbrev pub Stays : (Attempt → Bool) → (Attempt → Type 0) → AttemptDb → Type 0
Stays q P db = (a : Attempt) × (first q db.rows ≡ some a) × P a

-- No write of the methods changes what the query finds, or takes a row out of `P`.
pub record Survives (q : Attempt → Bool) (P : Attempt → Type 0) : Type 0 where
  pub same_ended :
      (r : AttemptFinalizationResult) (t : Time) (a : Attempt) → q (terminal_values r t a) ≡ q a
  pub same_expired : (t : Time) (a : Attempt) → q (expired_values t a) ≡ q a
  pub same_confirmed : (c : ConfirmReceiptCommand) (a : Attempt) → q (receipt_values c a) ≡ q a
  pub on_ended :
      (r : AttemptFinalizationResult) (t : Time) (a : Attempt)
      → is_processing a.status ≡ true
      → P a
      → P (terminal_values r t a)
  pub on_expired :
      (t : Time) (a : Attempt) → is_processing a.status ≡ true → P a → P (expired_values t a)
  pub on_confirmed :
      (c : ConfirmReceiptCommand) (a : Attempt)
      → receipt_open c a ≡ true
      → P a
      → P (receipt_values c a)

module _ (q : Attempt → Bool) (P : Attempt → Type 0) where
  update-Stays :
      (test : Attempt → Bool) (f : Attempt → Attempt) (db : AttemptDb)
      → ((a : Attempt) → q (f a) ≡ q a)
      → ((a : Attempt) → test a ≡ true → P a → P (f a))
      → Stays q P db
      → Stays q P (update test f db).1
  unfolding update
  update-Stays test f db same on (a, e, p) =
      go (all check_constraints (update_where test f db.rows))
    where
      found : first q (update_where test f db.rows) ≡ some (if test a then f a else a)
      found = first-update_where test f q db.rows same ∙ rw e refl

      kept : P (if test a then f a else a)
      kept = elim (Bool-cases (test a)) [ inl h ↦ rw h (on a h p) | inr h ↦ rw h p ]

      go :
          (b : Bool)
          → let r : Result Raised ℕ × AttemptDb =
              (if b
                then (
                  ok (count_where test db.rows),
                  record db { rows = update_where test f db.rows },
                )
                else (err integrity_error, db)) in
            Stays q P r.1
      go true = (if test a then f a else a, found, kept)
      go false = (a, e, p)

  create-Stays : (row : Attempt) (db : AttemptDb) → Stays q P db → Stays q P (create row db).1
  unfolding create
  create-Stays row db (a, e, p) =
      go (check_constraints stored_row && not (exists (conflicts stored_row) db.rows))
    where
      stored_row : Attempt
      stored_row = record row { pk = db.next_pk }

      go :
          (b : Bool)
          → let r : Result Raised Attempt × AttemptDb =
              (if b
                then (
                  ok (record row { pk = db.next_pk }),
                  record {
                    rows = db.rows ++ record row { pk = db.next_pk } ∷ [];
                    next_pk = db.next_pk + 1;
                  },
                )
                else (err integrity_error, db)) in
            Stays q P r.1
      go true = (a, first-append_some q db.rows (record row { pk = db.next_pk }) a e, p)
      go false = (a, e, p)

  write-Stays : Survives q P → (x : Write) (db : AttemptDb) → Stays q P db → Stays q P (write x db)
  write-Stays s (created command t) db h = create-Stays (new_attempt command t) db h
  write-Stays s (ended k result t) db h =
      update-Stays (unfinished k) (terminal_values result t) db (s.same_ended result t)
        (λ a e p. s.on_ended result t a (ground arith) p) h
  write-Stays s (timed_out k slot operation_id t) db h =
      update-Stays (overdue_row k slot operation_id t) (expired_values t) db (s.same_expired t)
        (λ a e p. s.on_expired t a (ground arith) p) h
  write-Stays s (confirmed k command) db h =
      update-Stays (awaiting k command) (receipt_values command) db (s.same_confirmed command)
        (λ a e p. s.on_confirmed command a (ground arith) p) h

  -- What survives every write survives any sequence of them.
  pub writes-Stays :
      Survives q P → (xs : List Write) (db : AttemptDb) → Stays q P db → Stays q P (writes xs db)
  writes-Stays s [] db h = h
  writes-Stays s (x ∷ rest) db h = writes-Stays s rest (write x db) (write-Stays s x db h)

update-Checked :
    (test : Attempt → Bool) (f : Attempt → Attempt) (db : AttemptDb)
    → Checked db
    → Checked (update test f db).1
unfolding update
update-Checked test f db c =
    by_test (λ (r : Result Raised ℕ × AttemptDb). Checked r.1)
      (all check_constraints (update_where test f db.rows)) _ _ (λ e. e) (λ e. c)

create-Checked : (row : Attempt) (db : AttemptDb) → Checked db → Checked (create row db).1
unfolding create
create-Checked row db c =
    by_test (λ (r : Result Raised Attempt × AttemptDb). Checked r.1)
      (check_constraints (record row { pk = db.next_pk })
        && not (exists (conflicts (record row { pk = db.next_pk })) db.rows))
      _ _
      (λ e. all-append check_constraints db.rows (record row { pk = db.next_pk }) c (ground arith))
      (λ e. c)

-- The writes keep the table's constraints.
pub writes-Checked : (xs : List Write) (db : AttemptDb) → Checked db → Checked (writes xs db)
writes-Checked [] db c = c
writes-Checked (created command t ∷ rest) db c =
    writes-Checked rest (write (created command t) db) (create-Checked (new_attempt command t) db c)
writes-Checked (ended k result t ∷ rest) db c =
    writes-Checked rest (write (ended k result t) db)
      (update-Checked (unfinished k) (terminal_values result t) db c)
writes-Checked (timed_out k slot operation_id t ∷ rest) db c =
    writes-Checked rest (write (timed_out k slot operation_id t) db)
      (update-Checked (overdue_row k slot operation_id t) (expired_values t) db c)
writes-Checked (confirmed k command ∷ rest) db c =
    writes-Checked rest (write (confirmed k command) db)
      (update-Checked (awaiting k command) (receipt_values command) db c)
