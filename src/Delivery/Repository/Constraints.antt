-- ===== src/Delivery/Repository/Constraints.antt =====
-- The writes of the repository keep the table's constraints, so that none of them raises
-- `IntegrityError`.
use line_message_playground.Prelude.{◌≡◌, refl, true, Bool, ok, arith}
use line_message_playground.Prelude.Rows.{all, count_where, update_where, all-update_where}
use line_message_playground.Delivery.Types.{
  Time, AttemptFinalizationResult, line_push, push_accepted, push_rejected, push_unknown,
  pre_push_failure, ConfirmReceiptCommand,
}
use line_message_playground.Delivery.Store.{
  Attempt, AttemptDb, is_processing, check_constraints, valid_target, valid_state, valid_receipt,
  update,
}
use line_message_playground.Delivery.Row.{
  terminal_values, expired_values, receipt_values, receipt_open, overdue,
}

abbrev pub Checked : AttemptDb → Type 0
Checked db = all check_constraints db.rows ≡ true

module _ (test : Attempt → Bool) (f : Attempt → Attempt) (db : AttemptDb) where
  -- An update whose values satisfy the constraints goes through.
  pub update_goes_through :
      ((a : Attempt) → test a ≡ true → check_constraints a ≡ true → check_constraints (f a) ≡ true)
      → Checked db
      → update test f db
        ≡ (ok (count_where test db.rows), record db { rows = update_where test f db.rows })
  unfolding update
  update_goes_through keep h = rw (all-update_where test f check_constraints db.rows keep h) refl

pub terminal_values-check :
    (result : AttemptFinalizationResult) (t : Time) (a : Attempt)
    → is_processing a.status ≡ true
    → check_constraints a ≡ true
    → check_constraints (terminal_values result t a) ≡ true
unfolding check_constraints valid_target valid_state valid_receipt terminal_values
terminal_values-check (line_push (push_accepted i j)) t a p h = ground arith
terminal_values-check (line_push (push_rejected i)) t a p h = ground arith
terminal_values-check (line_push (push_unknown i)) t a p h = ground arith
terminal_values-check (pre_push_failure i) t a p h = ground arith

pub expired_values-check :
    (t : Time) (a : Attempt)
    → overdue t a ≡ true
    → check_constraints a ≡ true
    → check_constraints (expired_values t a) ≡ true
unfolding check_constraints valid_target valid_state valid_receipt expired_values
expired_values-check t a p h = ground arith

pub receipt_values-check :
    (command : ConfirmReceiptCommand) (a : Attempt)
    → receipt_open command a ≡ true
    → check_constraints a ≡ true
    → check_constraints (receipt_values command a) ≡ true
unfolding check_constraints valid_target valid_state valid_receipt receipt_values receipt_open
receipt_values-check command a p h = ground arith
