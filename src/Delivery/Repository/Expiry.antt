-- ===== src/Delivery/Repository/Expiry.antt =====
-- `get_for_owner`: an attempt whose time is over is ended as unknown, unless another request was first.
use line_message_playground.Prelude.{
  ℕ, suc, ◌≡◌, refl, ◌∙◌, ap, true, false, Option, some, if◌then◌else◌, ◌==◌, leb, inl, inr, ◌⊎◌,
  Bool-cases, arith, List,
}
use line_message_playground.Prelude.Rows.{first, first-passes, update_where, first-update_where}
use line_message_playground.Delivery.Types.{
  Uuid, Time, DeliveryStatus, DeliveryFailureType, processing_expired, AttemptFinalizationResult,
  line_push, push_accepted, push_rejected, push_unknown, pre_push_failure,
}
use line_message_playground.Delivery.Store.{
  Attempt, AttemptDb, Others, is_processing, check_constraints,
}
use line_message_playground.Delivery.Repository.{
  Runtime, snapshot, read_back, get_for_owner, found_for_owner,
}
use line_message_playground.Delivery.Row.{
  terminal_values, expired_values, receipt_values, overdue, overdue_row, owned, has_pk, found,
  lift_some,
}
use line_message_playground.Delivery.Repository.Constraints.{
  Checked, update_goes_through, expired_values-check,
}
use line_message_playground.Delivery.Repository.Keys.{Keyed, first-has_pk}
use line_message_playground.Delivery.Repository.Finalize.{get_snapshot-first, terminal_values-pk}
use line_message_playground.Delivery.Repository.Writes.{
  Write, writes, writes-Checked, Stays, Survives, writes-Stays,
}

-- The row has ended, in this way.
abbrev pub Ended : DeliveryStatus → Option DeliveryFailureType → Option Time → Attempt → Type 0
Ended status failure at a =
    (is_processing a.status ≡ false)
    × (a.status ≡ status)
    × (a.failure_type ≡ failure)
    × (a.completed_at ≡ at)

Ended-Survives :
    (k : ℕ) (status : DeliveryStatus) (failure : Option DeliveryFailureType) (at : Option Time)
    → Survives (has_pk k) (Ended status failure at)
unfolding expired_values receipt_values
Ended-Survives k status failure at = record {
  same_ended = λ r t a. ap (λ (p : ℕ). p == k) (terminal_values-pk r t a);
  same_expired = λ t a. refl;
  same_confirmed = λ c a. refl;
  on_ended = λ r t a u p. let q : _ = p.0 in absurd (both a q u);
  on_expired = λ t a u p. let q : _ = p.0 in absurd (both a q u);
  on_confirmed = λ c a e p. p;
}
  where
    both : (a : Attempt) → is_processing a.status ≡ false → is_processing a.status ≡ true → ⊥
    both a q u = cc

-- The row is of the owner's operation, and its time is over.
abbrev Late : ℕ → Uuid → Time → Attempt → Type 0
Late slot operation_id now a =
    (owned slot operation_id a ≡ true) × (leb a.processing_expires_at now ≡ true)

Late-Survives :
    (k slot : ℕ) (operation_id : Uuid) (now : Time)
    → Survives (has_pk k) (Late slot operation_id now)
unfolding terminal_values expired_values receipt_values
Late-Survives k slot operation_id now = record {
  same_ended = λ r t a. ap (λ (p : ℕ). p == k) (terminal_values-pk r t a);
  same_expired = λ t a. refl;
  same_confirmed = λ c a. refl;
  on_ended = λ r t a u p. still r t a p;
  on_expired = λ t a u p. p;
  on_confirmed = λ c a e p. p;
}
  where
    still :
        (r : AttemptFinalizationResult) (t : Time) (a : Attempt)
        → Late slot operation_id now a
        → Late slot operation_id now (terminal_values r t a)
    still (line_push (push_accepted i j)) t a p = p
    still (line_push (push_rejected i)) t a p = p
    still (line_push (push_unknown i)) t a p = p
    still (pre_push_failure i) t a p = p

-- The row after the check of its time.
abbrev timed_out : Time → Attempt → Attempt
timed_out now a = if overdue now a then expired_values now a else a

-- How a late row ends: as unknown, or as it had ended before.
abbrev pub Ends : Time → Attempt → Attempt → Type 0
Ends now b y =
    ((is_processing b.status ≡ true)
      × Ended DeliveryStatus.unknown (some processing_expired) (some now) y)
    ⊎ ((is_processing b.status ≡ false) × Ended b.status b.failure_type b.completed_at y)

timed_out-Ends :
    (slot : ℕ) (operation_id : Uuid) (now : Time) (b : Attempt)
    → Late slot operation_id now b
    → Ends now b (timed_out now b)
unfolding expired_values
timed_out-Ends slot operation_id now b l = elim (Bool-cases (is_processing b.status)) [
  | inl e ↦ inl (e, rw (e, l.1) (refl, refl, refl, refl))
  | inr e ↦ inr (e, rw e (e, refl, refl, refl))
]

-- What has ended is read again as it ended.
Ends-writes :
    (k : ℕ) (now : Time) (ws : List Write) (db : AttemptDb) (b x : Attempt)
    → first (has_pk k) db.rows ≡ some x
    → Ends now b x
    → Stays (has_pk k) (Ends now b) (writes ws db)
Ends-writes k now ws db b x f (inl (e, p)) =
    let P = Ended DeliveryStatus.unknown (some processing_expired) (some now) in
    let (y, g, q) =
      writes-Stays (has_pk k) P
        (Ended-Survives k DeliveryStatus.unknown (some processing_expired) (some now)) ws db
        (x, f, p) in
    (y, g, inl (e, q))
Ends-writes k now ws db b x f (inr (e, p)) =
    let (y, g, q) =
      writes-Stays (has_pk k) (Ended b.status b.failure_type b.completed_at)
        (Ended-Survives k b.status b.failure_type b.completed_at) ws db (x, f, p) in
    (y, g, inr (e, q))

module _ (rt : Runtime) (during : ℕ → List Write) (slot : ℕ) (operation_id : Uuid) (now : Time)
    (db : AttemptDb) (a : Attempt) (there : first (owned (suc slot) operation_id) db.rows ≡ some a)
    (late : overdue now a ≡ true) (c : Checked db) (keyed : Keyed db) where
  abbrev then_db : AttemptDb
  then_db = writes (during 0) db

  row_then : Stays (has_pk a.pk) (Late (suc slot) operation_id now) then_db
  row_then =
      writes-Stays (has_pk a.pk) (Late (suc slot) operation_id now)
        (Late-Survives a.pk (suc slot) operation_id now) (during 0) db
        (
          a,
          first-has_pk (owned (suc slot) operation_id) 1 db.next_pk db.rows a keyed there,
          (first-passes (owned (suc slot) operation_id) db.rows a there, ground arith),
        )

  row_check :
      (x : Attempt)
      → overdue_row a.pk (suc slot) operation_id now x ≡ true
      → check_constraints x ≡ true
      → check_constraints (expired_values now x) ≡ true
  row_check x h = expired_values-check now x (ground arith)

  abbrev expired_db : AttemptDb
  expired_db = record then_db {
    rows =
        update_where (overdue_row a.pk (suc slot) operation_id now) (expired_values now)
          then_db.rows;
  }

  first-expired_db :
      (b : Attempt)
      → first (has_pk a.pk) then_db.rows ≡ some b
      → owned (suc slot) operation_id b ≡ true
      → first (has_pk a.pk) expired_db.rows ≡ some (timed_out now b)
  unfolding expired_values
  first-expired_db b here same =
      first-update_where (overdue_row a.pk (suc slot) operation_id now) (expired_values now)
        (has_pk a.pk) then_db.rows (λ r. refl)
      ∙ rw here (ground (arith, first-passes (has_pk a.pk) then_db.rows b here))

  read_again : Stays (has_pk a.pk) (Ends now row_then.0) (writes (during 1) expired_db)
  read_again =
      let (b, here, l) = row_then in
      Ends-writes a.pk now (during 1) expired_db b (timed_out now b) (first-expired_db b here l.0)
        (timed_out-Ends (suc slot) operation_id now b l)

  answered :
      get_for_owner rt (λ i d. writes (during i) d) (suc slot) operation_id now db
      ≡ (lift_some (snapshot rt read_again.0 now), writes (during 1) expired_db)
  unfolding get_for_owner
  answered =
      let others : Others = λ i d. writes (during i) d in
      ap (found_for_owner rt others (suc slot) operation_id now db) there
      ∙ rw late (
          ap (λ x. found (read_back rt others a.pk now x))
            (update_goes_through (overdue_row a.pk (suc slot) operation_id now) (expired_values now)
              then_db row_check (writes-Checked (during 0) db c))
          ∙ rw
              (get_snapshot-first rt a.pk now (writes (during 1) expired_db) read_again.0
                read_again.1)
              refl)

  -- An attempt of the owner that is overdue when it is read, in a table that satisfies the constraints
  -- and has ascending keys, has ended when it is answered, with any writes of the repository's methods
  -- before the update and before it is read again: as unknown, expired, and completed now, if it is
  -- still processing when the update comes to it, and otherwise with the status, failure and time of
  -- completion that another request gave it.
  pub get_for_owner_race :
      (b : Attempt) × (first (has_pk a.pk) (writes (during 0) db).rows ≡ some b)
      × (y : Attempt) × Ends now b y
      × ((get_for_owner rt (λ i d. writes (during i) d) (suc slot) operation_id now db).0
          ≡ lift_some (snapshot rt y now))
  get_for_owner_race = (row_then.0, row_then.1, read_again.0, read_again.2, ap (λ x. x.0) answered)
