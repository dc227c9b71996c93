-- ===== src/Delivery/Repository/Receipts.antt =====
-- `confirm_receipt`: a receipt is recorded once, and whoever comes second is told so.
use line_message_playground.Prelude.{
  List, ℕ, ◌≡◌, refl, ◌∙◌, is_none, ap, true, false, some, ==_iff, length, ltb, if◌then◌else◌, inl,
  inr, Bool-cases, arith, ok,
}
use line_message_playground.Prelude.Rows.{
  first, first-passes, update_where, first-update_where, update_where-none,
}
use line_message_playground.Prelude.Text.{Text}
use line_message_playground.Delivery.Types.{Time, linked_recipient, ConfirmReceiptCommand}
use line_message_playground.Delivery.Store.{
  Attempt, AttemptDb, Others, check_constraints, valid_receipt, update,
}
use line_message_playground.Delivery.Repository.{
  Runtime, snapshot, answer_receipt, after_receipt_update, confirm_found, confirm_receipt,
}
use line_message_playground.Delivery.Row.{
  receipt_values, receipt_open, classify_receipt, Classified, undecided, already_confirmed, has_pk,
  has_token, awaiting, unchanged_if_ok,
}
use line_message_playground.Delivery.Repository.Constraints.{
  Checked, update_goes_through, receipt_values-check,
}
use line_message_playground.Delivery.Repository.Keys.{Keyed, count-has_pk, exists-has_pk}

-- The row after the update of a receipt.
abbrev pub receipted : ConfirmReceiptCommand → Attempt → Attempt
receipted command b = if receipt_open command b then receipt_values command b else b

abbrev pub receipted_db : ℕ → ConfirmReceiptCommand → AttemptDb → AttemptDb
receipted_db k command db = record db {
  rows = update_where (awaiting k command) (receipt_values command) db.rows;
}

module _ (k : ℕ) (command : ConfirmReceiptCommand) (db : AttemptDb) (b : Attempt) (c : Checked db)
    (keyed : Keyed db) (here : first (has_pk k) db.rows ≡ some b) where
  awaiting_check :
      (a : Attempt)
      → awaiting k command a ≡ true
      → check_constraints a ≡ true
      → check_constraints (receipt_values command a) ≡ true
  awaiting_check a h = receipt_values-check command a (ground arith)

  update-receipted_db :
      update (awaiting k command) (receipt_values command) db
      ≡ (ok (if receipt_open command b then 1 else 0), receipted_db k command db)
  update-receipted_db =
      update_goes_through (awaiting k command) (receipt_values command) db awaiting_check c
      ∙ rw (count-has_pk (receipt_open command) k 1 db.next_pk db.rows b keyed here)

  pub first-receipted_db :
      first (has_pk k) (receipted_db k command db).rows ≡ some (receipted command b)
  unfolding receipt_values
  first-receipted_db =
      first-update_where (awaiting k command) (receipt_values command) (has_pk k) db.rows
        (λ r. refl)
      ∙ rw here (ground (arith, first-passes (has_pk k) db.rows b here))

  -- Where the row is not open, nothing is written.
  receipted_db-closed : receipt_open command b ≡ false → receipted_db k command db ≡ db
  receipted_db-closed e =
      ap (λ (rows : List Attempt). record db { rows = rows })
        (update_where-none (awaiting k command) (receipt_values command) db.rows
          (exists-has_pk (receipt_open command) k 1 db.next_pk db.rows b keyed here ∙ e))

pub confirm_receipt-short :
    (rt : Runtime) (others : Others) (command : ConfirmReceiptCommand) (now : Time) (db : AttemptDb)
    → ltb 26 (length command.webhook_event_id) ≡ false
    → confirm_receipt rt others command now db
      ≡ confirm_found rt others command now db (first (has_token command.capability_digest) db.rows)
unfolding confirm_receipt
confirm_receipt-short rt others command now db h = rw h

-- The row's receipt was asked for by this channel and recipient, and is confirmed, at a time and by an
-- event.
pub record IsConfirmed (command : ConfirmReceiptCommand) (at : Time) (event : Text) (a : Attempt)
    : Type 0 where
  pub mode : a.target_mode ≡ linked_recipient
  pub channel : a.channel_public_id ≡ some command.channel_public_id
  pub recipient : a.recipient_public_id ≡ some command.recipient_public_id
  pub requested : a.receipt_requested ≡ true
  pub confirmed_at : a.receipt_confirmed_at ≡ some at
  pub by_event : a.receipt_webhook_event_id ≡ some event

pub confirmed-closed :
    (command command' : ConfirmReceiptCommand) (at : Time) (event : Text) (a : Attempt)
    → IsConfirmed command at event a
    → receipt_open command' a ≡ false
unfolding receipt_open
confirmed-closed command command' at event a p = elim (Bool-cases (receipt_open command' a)) [
  | inr e ↦ e
  | inl e ↦ absurd (contradict p.confirmed_at (ground arith))
]
  where
    contradict : a.receipt_confirmed_at ≡ some at → is_none a.receipt_confirmed_at ≡ true → ⊥
    contradict h q = ground arith

pub confirmed-classified :
    (command command' : ConfirmReceiptCommand) (at : Time) (event : Text) (a : Attempt)
    → IsConfirmed command at event a
    → command'.channel_public_id ≡ command.channel_public_id
    → command'.recipient_public_id ≡ command.recipient_public_id
    → classify_receipt a command' ≡ already_confirmed
unfolding classify_receipt
confirmed-classified command command' at event a p c r =
    rw (p.mode, p.channel, p.recipient, p.requested, p.confirmed_at, c, r)
      (rw
        (
          (==_iff command.channel_public_id command.channel_public_id).1 refl,
          (==_iff command.recipient_public_id command.recipient_public_id).1 refl,
        )
        refl)

-- `confirm_receipt` where the first reading finds an undecided row `a`, the row is `b` once others have
-- committed, and it is `b'` when it is read again.
module _ (rt : Runtime) (others : Others) (command : ConfirmReceiptCommand) (now : Time)
    (db : AttemptDb) (a b : Attempt) (short : ltb 26 (length command.webhook_event_id) ≡ false)
    (found : first (has_token command.capability_digest) db.rows ≡ some a)
    (open_row : classify_receipt a command ≡ undecided) (c : Checked (others 0 db))
    (keyed : Keyed (others 0 db)) (here : first (has_pk a.pk) (others 0 db).rows ≡ some b) where
  -- The update reaches the row, or leaves the table as the others left it.
  pub reached :
      confirm_receipt rt others command now db
      ≡ after_receipt_update rt others command a.pk now
          (ok (if receipt_open command b then 1 else 0), receipted_db a.pk command (others 0 db))
  reached =
      confirm_receipt-short rt others command now db short
      ∙ ap (confirm_found rt others command now db) found
      ∙ ap
          (λ (x : Classified).
            answer_receipt rt x a now
              (after_receipt_update rt others command a.pk now
                (update (awaiting a.pk command) (receipt_values command) (others 0 db)))
              db)
          open_row
      ∙ ap (after_receipt_update rt others command a.pk now)
          (update-receipted_db a.pk command (others 0 db) b c keyed here)

  module _ (b' : Attempt) (at : Time) (event : Text) (first_one : IsConfirmed command at event b)
      (again : first (has_pk a.pk) (others 1 (others 0 db)).rows ≡ some b')
      (stays : IsConfirmed command at event b') where
    -- A token finds an undecided row, and another request's confirmation of the same channel and
    -- recipient is committed before the update comes to the row. In a table that satisfies the
    -- constraints and has ascending keys, with an event id of at most 26 characters, nothing is
    -- written then, and the answer is that the receipt was confirmed already, with the row as it is
    -- read again.
    pub confirm_receipt_race :
        confirm_receipt rt others command now db
        ≡ (unchanged_if_ok (snapshot rt b' now), others 1 (others 0 db))
    confirm_receipt_race =
        let closed : receipt_open command b ≡ false =
          confirmed-closed command command at event b first_one in
        reached
        ∙ rw (closed, receipted_db-closed a.pk command (others 0 db) b c keyed here closed)
            (rw (again, confirmed-classified command command at event b' stays refl refl) refl)

pub open-of_undecided :
    (command : ConfirmReceiptCommand) (a : Attempt)
    → check_constraints a ≡ true
    → has_token command.capability_digest a ≡ true
    → classify_receipt a command ≡ undecided
    → receipt_open command a ≡ true
unfolding classify_receipt receipt_open check_constraints valid_receipt
open-of_undecided command a c h u = ground arith

pub undecided-IsConfirmed :
    (command : ConfirmReceiptCommand) (a : Attempt)
    → classify_receipt a command ≡ undecided
    → IsConfirmed command command.occurred_at command.webhook_event_id (receipt_values command a)
unfolding classify_receipt receipt_values
undecided-IsConfirmed command a u = record {
  mode = ground arith;
  channel = ground arith;
  recipient = ground arith;
  requested = ground arith;
  confirmed_at = refl;
  by_event = refl;
}
