-- ===== src/Delivery/Examples.antt =====
-- The theorems on the table of attempts at concrete rows.
use line_message_playground.Prelude.{
  zero, suc, ◌≡◌, refl, false, some, none, arith, ◌≢◌, ok, err, if◌then◌else◌, ◌==◌, List, [], ◌∷◌,
  inl,
}
use line_message_playground.Prelude.Text.{codes}
use line_message_playground.Prelude.Rows.{exists, first}
use line_message_playground.Delivery.Types.{
  line_push, push_accepted, push_rejected, rate_limited, integrity_error, DeliverySnapshot,
  attempt_conflict,
}
use line_message_playground.Delivery.Data.{runtime, row, one_row, empty, accepted, receipt}
use line_message_playground.Delivery.Store.{
  Attempt, Others, create, update, check_constraints, valid_target, valid_state, valid_receipt,
  conflicts,
}
use line_message_playground.Delivery.Fingerprint.{build_request_fingerprint}
use line_message_playground.Delivery.Formatter.{format_message}
use line_message_playground.Delivery.Repository.{
  finalize, snapshot, expected_fingerprint, store_attempt, accept, confirm_receipt, get_for_owner,
}
use line_message_playground.Delivery.Row.{
  locked, classify_receipt, undecided, accepted_if_ok, existing_if_ok, recorded_if_ok,
  unchanged_if_ok, lift_some, has_pk, new_attempt, terminal_values,
}
use line_message_playground.Delivery.Repository.Finalize.{finalize-first_wins, settled}
use line_message_playground.Delivery.Repository.Constraints.{Checked}
use line_message_playground.Delivery.Repository.Snapshot.{snapshot_total, IsPresentable, Shows}
use line_message_playground.Delivery.Repository.Accept.{accept_race, stored}
use line_message_playground.Delivery.Repository.Stored.{accept_once, IsOf}
use line_message_playground.Delivery.Repository.Receipts.{confirm_receipt_race, IsConfirmed}
use line_message_playground.Delivery.Repository.Receipted.{confirm_receipt_once, IsRepeated}
use line_message_playground.Delivery.Repository.Writes.{Write, created, ended, writes}
use line_message_playground.Delivery.Repository.Invariant.{never_refused, new_table}
use line_message_playground.Delivery.Repository.Keys.{Keyed}
use line_message_playground.Delivery.Repository.Expiry.{get_for_owner_race, Ends}

one_row-Checked : Checked one_row
unfolding check_constraints valid_target valid_state valid_receipt
one_row-Checked = refl

one_row-Keyed : Keyed one_row
one_row-Keyed = (omega arith, omega arith)

finalize-first_wins_example :
    finalize runtime
      (λ i d. d)
      1
      (line_push (push_rejected rate_limited))
      300
      301
      (finalize runtime (λ i d. d) 1 (line_push (push_accepted none none)) 200 201 one_row).1
    ≡ (
      snapshot runtime (settled (line_push (push_accepted none none)) 200 row) 301,
      (finalize runtime (λ i d. d) 1 (line_push (push_accepted none none)) 200 201 one_row).1,
    )
finalize-first_wins_example =
    finalize-first_wins runtime 0 (line_push (push_accepted none none))
      (line_push (push_rejected rate_limited)) 200 300 201 301 one_row row one_row-Checked refl

presentable : IsPresentable runtime row
unfolding format_message
presentable = record {
  owner = omega arith;
  label = refl;
  request_id = refl;
  accepted_request_id = refl;
  event_id = refl;
  message = (_, refl);
}

snapshot_total_example :
    (s : DeliverySnapshot) × (snapshot runtime row 500 ≡ ok s) × Shows row 500 s
unfolding check_constraints valid_target valid_state valid_receipt
snapshot_total_example = snapshot_total runtime row 500 refl presentable

genuine : accepted.request_fingerprint ≡ expected_fingerprint runtime accepted
unfolding expected_fingerprint
genuine = refl

accept_race_example :
    (accept runtime (λ c. locked) (λ i db. empty) accepted 100 101 empty).0 ≢ err integrity_error
accept_race_example =
    accept_race runtime (λ c. locked) (λ i db. empty) accepted 100 101 empty genuine [] refl refl
      (inl refl)

-- The same request under another operation is stored by another process before the row of `accepted`
-- is, and ended before `accepted` reads who was first.
abbrev ended_between : Others
ended_between zero db =
    (create (record (new_attempt accepted 90) { operation_id = 6; receipt_token_digest = some 44 })
      db).1
ended_between (suc i) db = writes (ended 1 (line_push (push_accepted none none)) 99 ∷ []) db

-- The database's integrity error is raised again.
raised_again :
    (accept runtime (λ c. locked) ended_between accepted 100 101 empty).0 ≡ err integrity_error
unfolding accept expected_fingerprint create update check_constraints valid_target valid_state
    valid_receipt conflicts new_attempt terminal_values store_attempt build_request_fingerprint
raised_again = refl

unused : exists (conflicts (stored accepted 100 empty)) empty.rows ≡ false
unused = refl

-- What others write meanwhile.
abbrev settled_meanwhile : List Write
settled_meanwhile = ended 1 (line_push (push_accepted none none)) 300 ∷ []

accept_once_example :
    ((accept runtime (λ c. locked) (λ i d. d) accepted 100 101 empty).0
      ≡ accepted_if_ok 1 (snapshot runtime (stored accepted 100 empty) 100))
    × ((a : Attempt) × IsOf accepted 100 a
        × (let later =
              writes settled_meanwhile
                (accept runtime (λ c. locked) (λ i d. d) accepted 100 101 empty).1 in
            accept runtime (λ c. locked) (λ i d. d) accepted 400 401 later ≡ (
              if accepted.request_fingerprint == accepted.request_fingerprint
                  then existing_if_ok (snapshot runtime a 400)
                  else ok attempt_conflict,
              later,
            )))
accept_once_example =
    accept_once runtime (λ c. locked) (λ c. locked) (λ i d. d) (λ i d. d) accepted accepted 100 400
      101 401 empty settled_meanwhile genuine genuine refl refl refl unused refl

undecided_row : classify_receipt row receipt ≡ undecided
unfolding classify_receipt
undecided_row = refl

-- The row with a receipt that another event confirmed.
abbrev confirmed_row : Attempt
confirmed_row = record row {
  receipt_confirmed_at = some 450;
  receipt_webhook_event_id = some (codes "first");
}

abbrev confirmed_first : Others
confirmed_first zero db = record { rows = confirmed_row ∷ []; next_pk = 2 }
confirmed_first (suc i) db = db

confirmed_row-Checked : Checked (confirmed_first 0 one_row)
unfolding check_constraints valid_target valid_state valid_receipt
confirmed_row-Checked = refl

confirmed_row-IsConfirmed : IsConfirmed receipt 450 (codes "first") confirmed_row
confirmed_row-IsConfirmed = record {
  mode = refl;
  channel = refl;
  recipient = refl;
  requested = refl;
  confirmed_at = refl;
  by_event = refl;
}

confirm_receipt_race_example : confirm_receipt runtime confirmed_first receipt 600 one_row ≡ (
  unchanged_if_ok (snapshot runtime confirmed_row 600),
  confirmed_first 1 (confirmed_first 0 one_row),
)
confirm_receipt_race_example =
    confirm_receipt_race runtime confirmed_first receipt 600 one_row row confirmed_row refl refl
      undecided_row confirmed_row-Checked one_row-Keyed refl confirmed_row 450 (codes "first")
      confirmed_row-IsConfirmed refl confirmed_row-IsConfirmed

IsRepeated-receipt : IsRepeated receipt receipt
IsRepeated-receipt = record { token = refl; channel = refl; recipient = refl; short = refl }

confirm_receipt_once_example :
    ((x : Attempt) × IsConfirmed receipt 500 (codes "event") x
      × ((confirm_receipt runtime (λ i d. d) receipt 600 one_row).0
          ≡ recorded_if_ok (snapshot runtime x 600)))
    × ((y : Attempt) × IsConfirmed receipt 500 (codes "event") y
        × (let later =
              writes settled_meanwhile (confirm_receipt runtime (λ i d. d) receipt 600 one_row).1 in
            confirm_receipt runtime (λ i d. d) receipt 700 later
            ≡ (unchanged_if_ok (snapshot runtime y 700), later)))
confirm_receipt_once_example =
    confirm_receipt_once runtime (λ i. []) settled_meanwhile (λ i d. d) receipt receipt 600 700
      one_row row row refl refl undecided_row one_row-Checked one_row-Keyed refl refl undecided_row
      IsRepeated-receipt

get_for_owner_race_example :
    (b : Attempt) × (first (has_pk 1) (writes [] one_row).rows ≡ some b)
    × (y : Attempt) × Ends 40000000 b y
    × ((get_for_owner runtime (λ i d. writes [] d) 1 5 40000000 one_row).0
        ≡ lift_some (snapshot runtime y 40000000))
get_for_owner_race_example =
    get_for_owner_race runtime (λ i. []) 0 5 40000000 one_row row refl refl one_row-Checked
      one_row-Keyed

never_refused_example :
    ((finalize runtime
        (λ i d. writes settled_meanwhile d)
        1
        (line_push (push_accepted none none))
        200
        201
        (writes (created accepted 100 ∷ []) new_table)).0
      ≢ err integrity_error)
    × ((get_for_owner runtime
          (λ i d. writes settled_meanwhile d)
          1
          5
          201
          (writes (created accepted 100 ∷ []) new_table)).0
        ≢ err integrity_error)
    × ((confirm_receipt runtime
          (λ i d. writes settled_meanwhile d)
          receipt
          201
          (writes (created accepted 100 ∷ []) new_table)).0
        ≢ err integrity_error)
never_refused_example =
    never_refused runtime (created accepted 100 ∷ []) (λ i. settled_meanwhile) 1 1
      (line_push (push_accepted none none)) 5 receipt 200 201
