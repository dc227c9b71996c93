-- ===== src/Channel/Rotation/Complete.antt =====
-- What a complete rotation leaves.
use line_message_playground.Prelude.{
  ℕ, Bool, true, false, Option, none, some, List, [], ◌∷◌, ◌==◌, ==_iff, Result, ok, err, ◌≡◌, refl,
  subst, All, Bool-cases, by_test, Option-cases, inl, inr, arith,
}
use line_message_playground.Prelude.Text.{Text}
use line_message_playground.Prelude.Rows.{exists, first}
use line_message_playground.Channel.Rotation.{
  Cipher, decrypt_pair_with_primary, CredentialRow, PersistenceFailure, has_id, verify_found,
  verify_row, Failures, is_of, set_default, RotationFailureCode, Progress, Environment,
  RotationSummary, RotationRaised, persistence_error, rotation_lock_error, empty_summary, is_empty,
  summary, process_all, verify_all, ids_of, released, verify_processed, rotate_locked, under_lock,
  rotate_all, rotation_busy, configuration_required,
}

set_default-empty :
    (id : ℕ) (o : Option RotationFailureCode) (failures : Failures)
    → is_empty (set_default id o failures) ≡ true
    → (o ≡ none) × (is_empty failures ≡ true)
set_default-empty id none failures h = (refl, h)
set_default-empty id (some code) [] h = cc
set_default-empty id (some code) (f ∷ rest) h = elim (Bool-cases (exists (is_of id) (f ∷ rest))) [
  | inl e ↦ ground arith
  | inr e ↦ ground arith
]

module _ (c : Cipher) (env : Environment) where
  verify_all-empty :
      (rows : List CredentialRow) (ids : List ℕ) (failures : Failures)
      → is_empty (verify_all c env rows ids failures) ≡ true
      → (is_empty failures ≡ true)
        × All (λ id. verify_row c (env.verification id) id rows ≡ none) ids
  unfolding verify_all
  verify_all-empty rows [] failures h = (h, tt)
  verify_all-empty rows (id ∷ ids) failures h =
      let o = verify_row c (env.verification id) id rows in
      let (e, rest) = verify_all-empty rows ids (set_default id o failures) h in
      let (n, f) = set_default-empty id o failures e in (f, (n, rest))

  -- The credentials that are found under the id are read with the primary key.
  abbrev pub IsUnderPrimary : ℕ → List CredentialRow → Type 0
  IsUnderPrimary id rows =
      (row : CredentialRow) × (secrets : Text × Text) × (first (has_id id) rows ≡ some row)
      × (decrypt_pair_with_primary c id row.credentials ≡ some secrets)

  verify_found-IsUnderPrimary :
      (id : ℕ) (rows : List CredentialRow) (o : Option CredentialRow)
      → first (has_id id) rows ≡ o
      → verify_found c id o ≡ none
      → IsUnderPrimary id rows
  unfolding verify_found
  verify_found-IsUnderPrimary id rows none f h = cc
  verify_found-IsUnderPrimary id rows (some row) f h =
      elim (Option-cases (decrypt_pair_with_primary c id row.credentials)) [
        | inl e ↦ cc
        | inr (secrets, e) ↦ (row, secrets, f, e)
      ]

  verify_row-IsUnderPrimary :
      (id : ℕ) (rows : List CredentialRow) (failure : Option PersistenceFailure)
      → verify_row c failure id rows ≡ none
      → IsUnderPrimary id rows
  unfolding verify_row
  verify_row-IsUnderPrimary id rows (some failure) h = cc
  verify_row-IsUnderPrimary id rows none h =
      verify_found-IsUnderPrimary id rows (first (has_id id) rows) refl h

  listed :
      (P : ℕ → Type 0) (id : ℕ) (rows : List CredentialRow)
      → All P (ids_of c env rows)
      → exists (has_id id) rows ≡ true
      → P id
  listed P id [] a h = cc
  listed P id (row ∷ rows) (p, a) h = elim (Bool-cases (row.public_id == id)) [
    | inl e ↦ subst P ((==_iff row.public_id id).0 e) p
    | inr e ↦ listed P id rows a (ground arith)
  ]

  abbrev Removable : List CredentialRow → Result RotationRaised RotationSummary → Type 0
  Removable rows (err e) = Unit
  Removable rows (ok s) =
      s.old_keys_removable ≡ true
      → (id : ℕ) → exists (has_id id) rows ≡ true
      → IsUnderPrimary id rows

  abbrev Leaves : Result RotationRaised RotationSummary × List CredentialRow → Type 0
  Leaves (r, rows) = Removable rows r

  verify_processed-Removable : (p : Progress) → Removable p.rows (verify_processed c env p)
  unfolding verify_processed
  verify_processed-Removable p =
      by_test (Removable p.rows) env.second_list_fails (err persistence_error)
        (ok (summary p (verify_all c env p.rows (ids_of c env p.rows) p.failures))) (λ f. tt)
        (λ f h id m. verify_row-IsUnderPrimary id p.rows (env.verification id) (
          listed (λ i. verify_row c (env.verification i) i p.rows ≡ none) id p.rows
            (verify_all-empty p.rows (ids_of c env p.rows) p.failures h).1 m))

  released-Removable :
      (rows : List CredentialRow) (r : Result RotationRaised RotationSummary)
      → Removable rows r
      → Removable rows (released c env r)
  released-Removable rows r h =
      by_test (Removable rows) env.release_fails (err rotation_lock_error) r (λ e. tt) (λ e. h)

  rotate_locked-Removable :
      (rows : List CredentialRow)
      → Removable (rotate_locked c env rows).1 (rotate_locked c env rows).0
  unfolding rotate_locked
  rotate_locked-Removable rows =
      let p =
        process_all c env (ids_of c env rows)
          (record { verified_count = 0; rotated_count = 0; failures = []; rows = rows }) in
      by_test Leaves env.first_list_fails (err persistence_error, rows)
        (verify_processed c env p, p.rows) (λ e. tt) (λ e. verify_processed-Removable p)

  under_lock-Removable :
      (lock : Option Bool) (rows : List CredentialRow)
      → Removable (under_lock c env lock rows).1 (under_lock c env lock rows).0
  unfolding under_lock
  under_lock-Removable none rows = tt
  under_lock-Removable (some false) rows =
      released-Removable rows (ok (empty_summary rotation_busy)) (λ h id m. cc)
  under_lock-Removable (some true) rows =
      released-Removable (rotate_locked c env rows).1 (rotate_locked c env rows).0
        (rotate_locked-Removable rows)

-- Whatever fails on the way: if a rotation reports that the old keys can be removed, then of every
-- channel that has credentials in the table it left, both secrets are read with the primary key alone.
pub rotate_all-removable :
    (c : Cipher) (env : Environment) (rows rows' : List CredentialRow) (s : RotationSummary)
    → rotate_all c env rows ≡ (ok s, rows')
    → s.old_keys_removable ≡ true
    → (id : ℕ) → exists (has_id id) rows' ≡ true
    → IsUnderPrimary c env id rows'
unfolding rotate_all
rotate_all-removable c env rows rows' s e h id m =
    subst (λ r. Removable c env r.1 r.0) e (whole rows) h id m
  where
    whole :
        (rows : List CredentialRow)
        → Removable c env (rotate_all c env rows).1 (rotate_all c env rows).0
    whole rows =
        by_test (Leaves c env) env.is_ready (under_lock c env env.lock rows)
          (ok (empty_summary configuration_required), rows)
          (λ e. under_lock-Removable c env env.lock rows) (λ e h id m. cc)
