-- ===== src/Delivery/Repository/Receipted.antt =====
-- `confirm_receipt`: a recorded receipt stays, with its time and its event, whatever comes after it.
use line_message_playground.Prelude.{
  ℕ, ◌≡◌, refl, sym, ◌∙◌, ap, subst, true, false, some, ==_iff, length, ltb, ◌==◌, List,
}
use line_message_playground.Prelude.Text.{Text}
use line_message_playground.Prelude.Rows.{first, first-all, first-passes, first-update_where}
use line_message_playground.Delivery.Types.{
  Time, ConfirmReceiptCommand, AttemptFinalizationResult, line_push, push_accepted, push_rejected,
  push_unknown, pre_push_failure,
}
use line_message_playground.Delivery.Store.{Attempt, AttemptDb, Others, check_constraints, update}
use line_message_playground.Delivery.Repository.{
  Runtime, snapshot, answer_receipt, after_receipt_update, confirm_found, confirm_receipt,
}
use line_message_playground.Delivery.Row.{
  Classified, already_confirmed, terminal_values, expired_values, receipt_values, receipt_open,
  classify_receipt, undecided, has_pk, has_token, awaiting, recorded_if_ok, unchanged_if_ok,
}
use line_message_playground.Delivery.Repository.Constraints.{Checked}
use line_message_playground.Delivery.Repository.Keys.{Keyed, first-has_pk}
use line_message_playground.Delivery.Repository.Finalize.{terminal_values-pk}
use line_message_playground.Delivery.Repository.Receipts.{
  receipted_db, first-receipted_db, confirm_receipt-short, IsConfirmed, confirmed-closed,
  confirmed-classified, reached, open-of_undecided, undecided-IsConfirmed,
}
use line_message_playground.Delivery.Repository.Writes.{
  Write, writes, Stays, Survives, writes-Stays,
}

module _ (command : ConfirmReceiptCommand) (at : Time) (event : Text) where
  copied-IsConfirmed :
      (a b : Attempt)
      → b.target_mode ≡ a.target_mode
      → b.channel_public_id ≡ a.channel_public_id
      → b.recipient_public_id ≡ a.recipient_public_id
      → b.receipt_requested ≡ a.receipt_requested
      → b.receipt_confirmed_at ≡ a.receipt_confirmed_at
      → b.receipt_webhook_event_id ≡ a.receipt_webhook_event_id
      → IsConfirmed command at event a
      → IsConfirmed command at event b
  copied-IsConfirmed a b m c r q t e p = record {
    mode = m ∙ p.mode;
    channel = c ∙ p.channel;
    recipient = r ∙ p.recipient;
    requested = q ∙ p.requested;
    confirmed_at = t ∙ p.confirmed_at;
    by_event = e ∙ p.by_event;
  }

  ended-IsConfirmed :
      (result : AttemptFinalizationResult) (t : Time) (a : Attempt)
      → IsConfirmed command at event a
      → IsConfirmed command at event (terminal_values result t a)
  unfolding terminal_values
  ended-IsConfirmed (line_push (push_accepted i j)) t a p =
      copied-IsConfirmed a (terminal_values (line_push (push_accepted i j)) t a) refl refl refl refl
        refl refl p
  ended-IsConfirmed (line_push (push_rejected i)) t a p =
      copied-IsConfirmed a (terminal_values (line_push (push_rejected i)) t a) refl refl refl refl
        refl refl p
  ended-IsConfirmed (line_push (push_unknown i)) t a p =
      copied-IsConfirmed a (terminal_values (line_push (push_unknown i)) t a) refl refl refl refl
        refl refl p
  ended-IsConfirmed (pre_push_failure i) t a p =
      copied-IsConfirmed a (terminal_values (pre_push_failure i) t a) refl refl refl refl refl refl
        p

  expired-IsConfirmed :
      (t : Time) (a : Attempt)
      → IsConfirmed command at event a
      → IsConfirmed command at event (expired_values t a)
  unfolding expired_values
  expired-IsConfirmed t a p =
      copied-IsConfirmed a (expired_values t a) refl refl refl refl refl refl p

  receipt_values-IsConfirmed :
      (other : ConfirmReceiptCommand) (a : Attempt)
      → receipt_open other a ≡ true
      → IsConfirmed command at event a
      → IsConfirmed command at event (receipt_values other a)
  receipt_values-IsConfirmed other a e p =
      let closed : _ = confirmed-closed command other at event a p in cc (closed, e)

  row-Survives : (k : ℕ) → Survives (has_pk k) (IsConfirmed command at event)
  unfolding expired_values receipt_values
  row-Survives k = record {
    same_ended = λ r t a. ap (λ (p : ℕ). p == k) (terminal_values-pk r t a);
    same_expired = λ t a. refl;
    same_confirmed = λ c a. refl;
    on_ended = λ r t a u p. ended-IsConfirmed r t a p;
    on_expired = λ t a u p. expired-IsConfirmed t a p;
    on_confirmed = receipt_values-IsConfirmed;
  }

  token-Survives : (digest : ℕ) → Survives (has_token digest) (IsConfirmed command at event)
  unfolding terminal_values expired_values receipt_values
  token-Survives digest = record {
    same_ended = same;
    same_expired = λ t a. refl;
    same_confirmed = λ c a. refl;
    on_ended = λ r t a u p. ended-IsConfirmed r t a p;
    on_expired = λ t a u p. expired-IsConfirmed t a p;
    on_confirmed = receipt_values-IsConfirmed;
  }
    where
      same :
          (r : AttemptFinalizationResult) (t : Time) (a : Attempt)
          → has_token digest (terminal_values r t a) ≡ has_token digest a
      same (line_push (push_accepted i j)) t a = refl
      same (line_push (push_rejected i)) t a = refl
      same (line_push (push_unknown i)) t a = refl
      same (pre_push_failure i) t a = refl

-- A later confirmation by the same recipient of the same channel.
pub record IsRepeated (command command' : ConfirmReceiptCommand) : Type 0 where
  pub token : command'.capability_digest ≡ command.capability_digest
  pub channel : command'.channel_public_id ≡ command.channel_public_id
  pub recipient : command'.recipient_public_id ≡ command.recipient_public_id
  pub short : ltb 26 (length command'.webhook_event_id) ≡ false

confirmed_already :
    (rt : Runtime) (others : Others) (command : ConfirmReceiptCommand) (now : Time) (db : AttemptDb)
    (a : Attempt)
    → ltb 26 (length command.webhook_event_id) ≡ false
    → first (has_token command.capability_digest) db.rows ≡ some a
    → classify_receipt a command ≡ already_confirmed
    → confirm_receipt rt others command now db ≡ (unchanged_if_ok (snapshot rt a now), db)
confirmed_already rt others command now db a short found classified =
    confirm_receipt-short rt others command now db short
    ∙ ap (confirm_found rt others command now db) found
    ∙ ap
        (λ (x : Classified).
          answer_receipt rt x a now
            (after_receipt_update rt others command a.pk now
              (update (awaiting a.pk command) (receipt_values command) (others 0 db)))
            db)
        classified

module _ (rt : Runtime) (during : ℕ → List Write) (ws : List Write) (others' : Others)
    (command command' : ConfirmReceiptCommand) (now now' : Time) (db : AttemptDb) (a b : Attempt)
    (short : ltb 26 (length command.webhook_event_id) ≡ false)
    (found : first (has_token command.capability_digest) db.rows ≡ some a)
    (open_row : classify_receipt a command ≡ undecided) (c : Checked (writes (during 0) db))
    (keyed : Keyed (writes (during 0) db))
    (there : first (has_token command.capability_digest) (writes (during 0) db).rows ≡ some b)
    (same_row : b.pk ≡ a.pk) (still_open : classify_receipt b command ≡ undecided) where
  abbrev others : Others
  others = λ i d. writes (during i) d

  -- The row that is confirmed.
  abbrev Confirmed : Attempt → Type 0
  Confirmed = IsConfirmed command command.occurred_at command.webhook_event_id

  abbrev first_table : AttemptDb
  first_table = writes (during 1) (receipted_db a.pk command (writes (during 0) db))

  is_open : receipt_open command b ≡ true
  is_open =
      open-of_undecided command b
        (first-all (has_token command.capability_digest) check_constraints
          (writes (during 0) db).rows b there c)
        (first-passes (has_token command.capability_digest) (writes (during 0) db).rows b there)
        still_open

  keyed_row : first (has_pk a.pk) (writes (during 0) db).rows ≡ some b
  keyed_row =
      subst (λ k. first (has_pk k) (writes (during 0) db).rows ≡ some b) same_row
        (first-has_pk (has_token command.capability_digest) 1 (writes (during 0) db).next_pk
          (writes (during 0) db).rows b keyed there)

  read_again : Stays (has_pk a.pk) Confirmed first_table
  read_again =
      writes-Stays (has_pk a.pk) Confirmed
        (row-Survives command command.occurred_at command.webhook_event_id a.pk) (during 1)
        (receipted_db a.pk command (writes (during 0) db))
        (
          receipt_values command b,
          first-receipted_db a.pk command (writes (during 0) db) b c keyed keyed_row
              ∙ rw is_open refl,
          undecided-IsConfirmed command b still_open,
        )

  recorded :
      confirm_receipt rt others command now db
      ≡ (recorded_if_ok (snapshot rt read_again.0 now), first_table)
  recorded =
      reached rt others command now db a b short found open_row c keyed keyed_row
      ∙ rw (is_open, read_again.1) refl

  by_token : Stays (has_token command.capability_digest) Confirmed (writes ws first_table)
  unfolding receipt_values
  by_token =
      let keeps =
        token-Survives command command.occurred_at command.webhook_event_id
          command.capability_digest in
      let q = has_token command.capability_digest in
      writes-Stays q Confirmed keeps ws first_table (
        writes-Stays q Confirmed keeps (during 1) (receipted_db a.pk command (writes (during 0) db))
          (
            receipt_values command b,
            first-update_where (awaiting a.pk command) (receipt_values command) q
                  (writes (during 0) db).rows (λ r. refl)
                ∙ rw there (rw (is_open, (==_iff b.pk a.pk).1 same_row) refl),
            undecided-IsConfirmed command b still_open,
          ))

  -- A token finds an undecided row, and finds it undecided still when the update comes to it, in a
  -- table that satisfies the constraints and has ascending keys; the event id has at most 26
  -- characters. Then, with any writes of the repository's methods before the update and before the row
  -- is read again, the receipt is recorded, with the time and the event of the command. After any
  -- further writes, a confirmation of the same token, channel and recipient with an event id of at most
  -- 26 characters, whatever its time and event and whatever the other requests do, writes nothing and
  -- answers that the receipt is unchanged, with the time and the event of the first.
  pub confirm_receipt_once :
      IsRepeated command command'
      → ((x : Attempt) × IsConfirmed command command.occurred_at command.webhook_event_id x
          × ((confirm_receipt rt (λ i d. writes (during i) d) command now db).0
              ≡ recorded_if_ok (snapshot rt x now)))
        × ((y : Attempt) × IsConfirmed command command.occurred_at command.webhook_event_id y
            × (let later =
                  writes ws (confirm_receipt rt (λ i d. writes (during i) d) command now db).1 in
                confirm_receipt rt others' command' now' later
                ≡ (unchanged_if_ok (snapshot rt y now'), later)))
  confirm_receipt_once r = (
    (read_again.0, read_again.2, ap (λ x. x.0) recorded),
    (
      by_token.0,
      by_token.2,
      rw recorded (
          confirmed_already rt others' command' now' (writes ws first_table) by_token.0 r.short
            (subst (λ (d : ℕ). first (has_token d) (writes ws first_table).rows ≡ some by_token.0)
              (sym r.token) by_token.1)
            (confirmed-classified command command' command.occurred_at command.webhook_event_id
              by_token.0 by_token.2 r.channel r.recipient)),
    ),
  )
