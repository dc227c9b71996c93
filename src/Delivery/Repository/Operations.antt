-- ===== src/Delivery/Repository/Operations.antt =====
-- What the repository's methods do to the set of operations that have a row.
use line_message_playground.Prelude.{
  ℕ, zero, suc, ◌≡◌, ◌≢◌, refl, ◌∙◌, ap, sym, subst, Bool, true, false, Option, some, none, ◌==◌,
  ==_iff, List, [], ◌∷◌, ◌++◌, if◌then◌else◌, inl, inr, Bool-cases, arith, Result, ok, err,
}
use line_message_playground.Prelude.Rows.{first, exists, all, count_where, update_where}
use line_message_playground.Delivery.Types.{
  Uuid, Time, AcceptedDeliveryCommand, AttemptAcceptResult, attempt_accepted,
  AttemptFinalizationResult, DeliverySnapshot, Raised, value_error, integrity_error,
}
use line_message_playground.Delivery.Store.{
  Attempt, AttemptDb, Others, check_constraints, conflicts, update,
}
use line_message_playground.Delivery.Repository.{
  Runtime, snapshot, classify_operation, who_was_first, after_integrity_error, store_attempt,
  accept_fenced, accept_found, accept, expected_fingerprint, finalize, read_back,
}
use line_message_playground.Delivery.Row.{
  FenceStatus, locked, channel_not_found, fence_failed, existing_if_ok, accepted_if_ok,
  of_operation, of_request, terminal_values, unfinished, new_attempt,
}
use line_message_playground.Delivery.Repository.Accept.{
  stored, with_row, store_attempt_lem, terminal_values-operation_id,
}

-- The operation has a row.
abbrev pub Taken : Uuid → AttemptDb → Type 0
Taken operation_id db = exists (λ (a : Attempt). a.operation_id == operation_id) db.rows ≡ true

first-of_exists :
    (p : Attempt → Bool) (rows : List Attempt)
    → exists p rows ≡ true
    → (a : Attempt) × (first p rows ≡ some a)
first-of_exists p [] h = cc
first-of_exists p (a ∷ rows) h = elim (Bool-cases (p a)) [
  | inl e ↦ (a, rw e)
  | inr e ↦ let (b, q) = first-of_exists p rows (ground arith) in (b, rw e q)
]

exists-append :
    (p : Attempt → Bool) (rows : List Attempt) (a : Attempt)
    → p a ≡ true
    → exists p (rows ++ a ∷ []) ≡ true
exists-append p [] a h = ground arith
exists-append p (r ∷ rows) a h = ground (arith, exists-append p rows a)

exists-update_where :
    (p test : Attempt → Bool) (f : Attempt → Attempt) (rows : List Attempt)
    → ((a : Attempt) → p (f a) ≡ p a)
    → exists p (update_where test f rows) ≡ exists p rows
exists-update_where p test f [] h = refl
exists-update_where p test f (r ∷ rows) h = ground (arith, h r, exists-update_where p test f rows)

-- A result of `accept` with the table after it: a new attempt has its row there.
abbrev pub NewHasRow :
    AcceptedDeliveryCommand → Result Raised AttemptAcceptResult × AttemptDb → Type 0
NewHasRow command (r, db) =
    (k : ℕ) (s : DeliverySnapshot) → r ≡ ok (attempt_accepted k s) → Taken command.operation_id db

existing_not_new :
    (r : Result Raised DeliverySnapshot) (k : ℕ) (s : DeliverySnapshot)
    → existing_if_ok r ≢ ok (attempt_accepted k s)
existing_not_new (ok s') k s h = cc
existing_not_new (err e) k s h = cc

classify_not_new :
    (rt : Runtime) (a : Attempt) (command : AcceptedDeliveryCommand) (now : Time) (k : ℕ)
    (s : DeliverySnapshot)
    → classify_operation rt a command now ≢ ok (attempt_accepted k s)
unfolding classify_operation
classify_not_new rt a command now k s h = ground (arith, existing_not_new (snapshot rt a now) k s)

module _ (rt : Runtime) (fence : Uuid → FenceStatus) (others : Others)
    (command : AcceptedDeliveryCommand) (t now : Time) (db : AttemptDb) where
  pub first_not_new :
      (a b : Option Attempt) (k : ℕ) (s : DeliverySnapshot)
      → who_was_first rt command now a b ≢ ok (attempt_accepted k s)
  first_not_new (some a) b k s h = classify_not_new rt a command now k s h
  first_not_new none (some b) k s h = existing_not_new (snapshot rt b now) k s h
  first_not_new none none k s h = cc

  stored_has_row : NewHasRow command (store_attempt rt others command t now (others 0 db))
  unfolding new_attempt
  stored_has_row =
      subst (NewHasRow command) (sym (store_attempt_lem rt others command t now (others 0 db)))
        (branch (exists (conflicts (stored command t (others 0 db))) (others 0 db).rows))
    where
      branch :
          (b : Bool)
          → NewHasRow command (
              if b then after_integrity_error rt others command now (others 0 db) else (
                accepted_if_ok
                    (others 0 db).next_pk
                    (snapshot rt (stored command t (others 0 db)) t),
                with_row (stored command t (others 0 db)) (others 0 db),
              ))
      branch true k s h = absurd (
          first_not_new (first (of_operation command) (others 1 (others 0 db)).rows)
            (first (of_request command) (others 2 (others 1 (others 0 db))).rows) k s h)
      branch false k s h =
          exists-append (λ a. a.operation_id == command.operation_id) (others 0 db).rows
            (stored command t (others 0 db))
            ((==_iff command.operation_id command.operation_id).1 refl)

  fenced_has_row :
      (f : FenceStatus) → NewHasRow command (accept_fenced rt others command t now db f)
  fenced_has_row locked k s h = stored_has_row k s h
  fenced_has_row channel_not_found k s h = cc
  fenced_has_row (fence_failed code) k s h = cc

  found_has_row :
      (o : Option Attempt) → NewHasRow command (accept_found rt fence others command t now db o)
  found_has_row (some a) k s h = absurd (classify_not_new rt a command t k s h)
  found_has_row none k s h = fenced_has_row (fence command.target.channel_public_id) k s h

  -- A newly accepted attempt has its row.
  pub accept_has_row : NewHasRow command (accept rt fence others command t now db)
  unfolding accept
  accept_has_row = branch (command.request_fingerprint == expected_fingerprint rt command)
    where
      branch :
          (b : Bool)
          → NewHasRow command (
              if b
              then accept_found rt fence others command t now db
                  (first (of_operation command) db.rows)
              else (err value_error, db))
      branch true k s h = found_has_row (first (of_operation command) db.rows) k s h
      branch false k s h = cc

  -- An operation that is taken gets no new attempt, and the table is left alone.
  pub accept-Taken :
      Taken command.operation_id db
      → ((accept rt fence others command t now db).1 ≡ db)
        × ((k : ℕ) (s : DeliverySnapshot)
            → (accept rt fence others command t now db).0 ≢ ok (attempt_accepted k s))
  unfolding accept
  accept-Taken h = branch (command.request_fingerprint == expected_fingerprint rt command)
    where
      one : (a : Attempt) × (first (of_operation command) db.rows ≡ some a)
      one = first-of_exists (of_operation command) db.rows h

      branch :
          (b : Bool)
          → let r : Result Raised AttemptAcceptResult × AttemptDb =
              (if b
                then accept_found rt fence others command t now db
                    (first (of_operation command) db.rows)
                else (err value_error, db)) in
            (r.1 ≡ db) × ((k : ℕ) (s : DeliverySnapshot) → r.0 ≢ ok (attempt_accepted k s))
      branch true = rw (one.1) (refl, λ k s e. classify_not_new rt one.0 command t k s e)
      branch false = (refl, λ k s e. cc)

update-Taken :
    (test : Attempt → Bool) (f : Attempt → Attempt) (db : AttemptDb) (operation_id : Uuid)
    → ((a : Attempt) → (f a).operation_id ≡ a.operation_id)
    → Taken operation_id db
    → Taken operation_id (update test f db).1
unfolding update
update-Taken test f db operation_id e h =
    branch (all check_constraints (update_where test f db.rows))
  where
    branch :
        (b : Bool)
        → let r : Result Raised ℕ × AttemptDb =
            (if b
              then (ok (count_where test db.rows), record db { rows = update_where test f db.rows })
              else (err integrity_error, db)) in
          Taken operation_id r.1
    branch true =
        exists-update_where (λ a. a.operation_id == operation_id) test f db.rows
          (λ a. ap (λ (i : ℕ). i == operation_id) (e a))
        ∙ h
    branch false = h

read_back-db :
    (rt : Runtime) (k : ℕ) (now : Time) (x : Result Raised ℕ × AttemptDb)
    → (read_back rt (λ i d. d) k now x).1 ≡ x.1
read_back-db rt k now (ok n, db) = refl
read_back-db rt k now (err e, db) = refl

-- `finalize` removes no operation.
pub finalize-Taken :
    (rt : Runtime) (k : ℕ) (result : AttemptFinalizationResult) (t now : Time) (db : AttemptDb)
    (operation_id : Uuid)
    → Taken operation_id db
    → Taken operation_id (finalize rt (λ i d. d) k result t now db).1
unfolding finalize
finalize-Taken rt zero result t now db operation_id h = h
finalize-Taken rt (suc k) result t now db operation_id h =
    rw (read_back-db rt (suc k) now (update (unfinished (suc k)) (terminal_values result t) db)) (
      update-Taken (unfinished (suc k)) (terminal_values result t) db operation_id
        (terminal_values-operation_id result t) h)
