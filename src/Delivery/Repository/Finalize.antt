-- ===== src/Delivery/Repository/Finalize.antt =====
-- What `finalize` does to an attempt: the first result that is stored stays.
use line_message_playground.Prelude.{
  suc, ◌≡◌, refl, true, false, some, if◌then◌else◌, inl, inr, Bool-cases, arith, ap, ◌∙◌, ◌==◌, ℕ,
  Result, ok, List, [], ◌∷◌,
}
use line_message_playground.Prelude.Rows.{
  first, first-passes, exists, count_where, update_where, first-update_where, all-update_where,
  update_where-none,
}
use line_message_playground.Delivery.Types.{
  Time, AttemptFinalizationResult, line_push, push_accepted, push_rejected, push_unknown,
  pre_push_failure, DeliverySnapshot, Raised,
}
use line_message_playground.Delivery.Store.{
  Attempt, AttemptDb, is_processing, check_constraints, update,
}
use line_message_playground.Delivery.Repository.{
  Runtime, snapshot, get_snapshot, read_back, finalize,
}
use line_message_playground.Delivery.Row.{terminal_values, has_pk, unfinished}
use line_message_playground.Delivery.Repository.Constraints.{
  Checked, update_goes_through, terminal_values-check,
}

-- The row after `finalize`: a row that has ended is left alone.
abbrev pub settled : AttemptFinalizationResult → Time → Attempt → Attempt
settled result t a = if is_processing a.status then terminal_values result t a else a

abbrev pub settled_db : ℕ → AttemptFinalizationResult → Time → AttemptDb → AttemptDb
settled_db k result t db = record db {
  rows = update_where (unfinished k) (terminal_values result t) db.rows;
}

pub terminal_values-pk :
    (result : AttemptFinalizationResult) (t : Time) (a : Attempt)
    → (terminal_values result t a).pk ≡ a.pk
unfolding terminal_values
terminal_values-pk (line_push (push_accepted i j)) t a = refl
terminal_values-pk (line_push (push_rejected i)) t a = refl
terminal_values-pk (line_push (push_unknown i)) t a = refl
terminal_values-pk (pre_push_failure i) t a = refl

pub terminal_values-ends :
    (result : AttemptFinalizationResult) (t : Time) (a : Attempt)
    → is_processing (terminal_values result t a).status ≡ false
unfolding terminal_values
terminal_values-ends (line_push (push_accepted i j)) t a = refl
terminal_values-ends (line_push (push_rejected i)) t a = refl
terminal_values-ends (line_push (push_unknown i)) t a = refl
terminal_values-ends (pre_push_failure i) t a = refl

module _ (k : ℕ) (result : AttemptFinalizationResult) (t : Time) where
  unfinished_check :
      (a : Attempt)
      → unfinished k a ≡ true
      → check_constraints a ≡ true
      → check_constraints (terminal_values result t a) ≡ true
  unfinished_check a h c = terminal_values-check result t a (ground arith) c

  pub first-settled_db :
      (db : AttemptDb) (a : Attempt)
      → first (has_pk k) db.rows ≡ some a
      → first (has_pk k) (settled_db k result t db).rows ≡ some (settled result t a)
  first-settled_db db a h =
      first-update_where (unfinished k) (terminal_values result t) (has_pk k) db.rows
        (λ r. ap (λ (p : ℕ). p == k) (terminal_values-pk result t r))
      ∙ rw h (ground (arith, first-passes (has_pk k) db.rows a h))

  pub update-settled_db :
      (db : AttemptDb)
      → Checked db
      → update (unfinished k) (terminal_values result t) db
        ≡ (ok (count_where (unfinished k) db.rows), settled_db k result t db)
  update-settled_db db c =
      update_goes_through (unfinished k) (terminal_values result t) db unfinished_check c

  pub Checked-settled_db : (db : AttemptDb) → Checked db → Checked (settled_db k result t db)
  Checked-settled_db db c =
      all-update_where (unfinished k) (terminal_values result t) check_constraints db.rows
        unfinished_check c

  -- After it no row of this number is unfinished.
  pub none_unfinished :
      (rows : List Attempt)
      → exists (unfinished k) (update_where (unfinished k) (terminal_values result t) rows) ≡ false
  none_unfinished [] = refl
  none_unfinished (a ∷ rows) = ground (arith, none_unfinished rows, terminal_values-ends result t a)

settled-settled :
    (result result' : AttemptFinalizationResult) (t t' : Time) (a : Attempt)
    → settled result' t' (settled result t a) ≡ settled result t a
settled-settled result result' t t' a = elim (Bool-cases (is_processing a.status)) [
  | inl p ↦ rw p (rw (terminal_values-ends result t a))
  | inr p ↦ rw p (rw p)
]

settled_db-settled_db :
    (k : ℕ) (result result' : AttemptFinalizationResult) (t t' : Time) (db : AttemptDb)
    → settled_db k result' t' (settled_db k result t db) ≡ settled_db k result t db
settled_db-settled_db k result result' t t' db =
    ap (λ (rows : List Attempt). record db { rows = rows })
      (update_where-none (unfinished k) (terminal_values result' t')
        (update_where (unfinished k) (terminal_values result t) db.rows)
        (none_unfinished k result t db.rows))

pub get_snapshot-first :
    (rt : Runtime) (k : ℕ) (now : Time) (db : AttemptDb) (a : Attempt)
    → first (has_pk k) db.rows ≡ some a
    → get_snapshot rt k now db ≡ snapshot rt a now
unfolding get_snapshot
get_snapshot-first rt k now db a h = rw (h, get_snapshot)

module _ (rt : Runtime) where
  -- `finalize` of an attempt that exists never raises an integrity error: it ends the row if it is
  -- still processing, leaves every other row alone, and answers with the row as it stands then.
  pub finalize_settles :
      (k : ℕ) (result : AttemptFinalizationResult) (t now : Time) (db : AttemptDb) (a : Attempt)
      → Checked db
      → first (has_pk (suc k)) db.rows ≡ some a
      → finalize rt (λ i d. d) (suc k) result t now db
        ≡ (snapshot rt (settled result t a) now, settled_db (suc k) result t db)
  unfolding finalize
  finalize_settles k result t now db a c h =
      ap (read_back rt (λ i d. d) (suc k) now) (update-settled_db (suc k) result t db c)
      ∙ rw (
          get_snapshot-first rt (suc k) now (settled_db (suc k) result t db) (settled result t a)
            (first-settled_db (suc k) result t db a h))

  -- In a table that satisfies the constraints, for an attempt that exists, the first result wins: after
  -- one `finalize`, a second one with any result and at any time leaves the table as it is and answers
  -- with the row that the first one left.
  pub finalize-first_wins :
      (k : ℕ) (result result' : AttemptFinalizationResult) (t t' now now' : Time) (db : AttemptDb)
      (a : Attempt)
      → Checked db
      → first (has_pk (suc k)) db.rows ≡ some a
      → finalize rt
          (λ i d. d)
          (suc k)
          result'
          t'
          now'
          (finalize rt (λ i d. d) (suc k) result t now db).1
        ≡ (
          snapshot rt (settled result t a) now',
          (finalize rt (λ i d. d) (suc k) result t now db).1,
        )
  finalize-first_wins k result result' t t' now now' db a c h =
      rw (finalize_settles k result t now db a c h) (
        finalize_settles k result' t' now' (settled_db (suc k) result t db) (settled result t a)
          (Checked-settled_db (suc k) result t db c) (first-settled_db (suc k) result t db a h)
        ∙ twice)
    where
      twice :
          ◌≡◌ {A = Result Raised DeliverySnapshot × AttemptDb}
            (
              snapshot rt (settled result' t' (settled result t a)) now',
              settled_db (suc k) result' t' (settled_db (suc k) result t db),
            )
            (snapshot rt (settled result t a) now', settled_db (suc k) result t db)
      twice = λ i. (
        snapshot rt (settled-settled result result' t t' a i) now',
        settled_db-settled_db (suc k) result result' t t' db i,
      )
