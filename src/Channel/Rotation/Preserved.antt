-- ===== src/Channel/Rotation/Preserved.antt =====
-- The secrets of a channel over a rotation.
use line_message_playground.Prelude.{
  ℕ, Bool, true, false, ◌&&◌, Option, none, some, List, [], ◌∷◌, ◌==◌, ==_iff, if◌then◌else◌,
  Result, ok, err, ◌≡◌, refl, sym, ap, subst, ◌∙◌, ◌⊎◌, Bool-cases, by_test, inl, inr, arith,
}
use line_message_playground.Prelude.Text.{Text, text_eq, text_eq_iff}
use line_message_playground.Prelude.Rows.{first, count_where, update_where}
use line_message_playground.Channel.Rotation.{
  Cipher, EncryptedCredentialPair, RotationItemResult, item_verified, item_rotated, item_failed,
  same_pair, pair_of, rotated_pair, checked, rotate_read, check_rotated, process_primary,
  decrypt_pair, decrypt_pair_with_primary, process, CredentialRow, PersistenceFailure, has_id,
  with_credentials, settle_item, process_found, process_row, RowOutcome, row_verified, row_rotated,
  row_failed, counted, Progress, Environment, RotationSummary, RotationRaised, persistence_error,
  empty_summary, configuration_required, process_all, ids_of, verify_processed, rotate_locked,
  under_lock, rotate_all,
}

both : (a b : Bool) → (a && b) ≡ true → (a ≡ true) × (b ≡ true)
both true true h = (refl, refl)
both true false h = cc
both false b h = cc

same_pair-equal : (a b : Text × Text) → same_pair a b ≡ true → a ≡ b
same_pair-equal (a, b) (c, d) h =
    let (p, q) = both (text_eq a c) (text_eq b d) h in
    λ i. ((text_eq_iff a c).0 p i, (text_eq_iff b d).0 q i)

module _ (c : Cipher) (id : ℕ) where
  -- A pair takes the place of another, which the primary key did not read: it has the same secrets,
  -- and the primary key reads them.
  pub record Takes (p q : EncryptedCredentialPair) : Type 0 where
    pub secrets : Text × Text
    pub unread : decrypt_pair_with_primary c id p ≡ none
    pub before : decrypt_pair c id p ≡ some secrets
    pub after : decrypt_pair_with_primary c id q ≡ some secrets

  abbrev Rotates : EncryptedCredentialPair → RotationItemResult → Type 0
  Rotates p (item_rotated q) = Takes p q
  Rotates p item_verified = Unit
  Rotates p (item_failed code) = Unit

  checked-Rotates :
      (p q : EncryptedCredentialPair) (original : Text × Text) (o : Option (Text × Text))
      → decrypt_pair_with_primary c id p ≡ none
      → decrypt_pair c id p ≡ some original
      → decrypt_pair_with_primary c id q ≡ o
      → Rotates p (checked c id q original o)
  checked-Rotates p q original none u b a = tt
  checked-Rotates p q original (some verified) u b a =
      elim (Bool-cases (same_pair verified original)) [
        | inl e ↦ rw e (record {
          secrets = original;
          unread = u;
          before = b;
          after = a ∙ ap some (same_pair-equal verified original e);
        })
        | inr e ↦ rw e tt
      ]

  check_rotated-Rotates :
      (p : EncryptedCredentialPair) (original : Text × Text) (o : Option (Text × Text))
      → decrypt_pair_with_primary c id p ≡ none
      → decrypt_pair c id p ≡ some original
      → Rotates p (check_rotated c id original o)
  unfolding check_rotated
  check_rotated-Rotates p original none u b = tt
  check_rotated-Rotates p original (some q) u b =
      checked-Rotates p (pair_of c id q) original (decrypt_pair_with_primary c id (pair_of c id q))
        u b refl

  rotate_read-Rotates :
      (p : EncryptedCredentialPair) (o : Option (Text × Text))
      → decrypt_pair_with_primary c id p ≡ none
      → decrypt_pair c id p ≡ o
      → Rotates p (rotate_read c id p o)
  unfolding rotate_read
  rotate_read-Rotates p none u b = tt
  rotate_read-Rotates p (some original) u b =
      check_rotated-Rotates p original (rotated_pair c id p) u b

  process_primary-Rotates :
      (p : EncryptedCredentialPair) (o : Option (Text × Text))
      → decrypt_pair_with_primary c id p ≡ o
      → Rotates p (process_primary c id p o)
  unfolding process_primary
  process_primary-Rotates p (some s) u = tt
  process_primary-Rotates p none u = rotate_read-Rotates p (decrypt_pair c id p) u refl

  process-Rotates : (p : EncryptedCredentialPair) → Rotates p (process c id p)
  unfolding process
  process-Rotates p = process_primary-Rotates p (decrypt_pair_with_primary c id p) refl

-- The credentials of a channel: the same row still, or a row that takes its place.
abbrev pub IsKept : Cipher → ℕ → List CredentialRow → List CredentialRow → Type 0
IsKept c id rows rows' =
    (first (has_id id) rows' ≡ first (has_id id) rows)
    ⊎ ((r : CredentialRow) × (r' : CredentialRow) × (first (has_id id) rows ≡ some r)
        × (first (has_id id) rows' ≡ some r')
        × Takes c id r.credentials r'.credentials)

updated-other :
    (id other : ℕ) (q : EncryptedCredentialPair) (rows : List CredentialRow)
    → (id == other) ≡ false
    → first (has_id other) (update_where (has_id id) (with_credentials q) rows)
      ≡ first (has_id other) rows
updated-other id other q [] h = refl
updated-other id other q (row ∷ rows) h = elim (Bool-cases (row.public_id == id)) [
  | inl e ↦ let n = differ row.public_id id other e h in rw (e, n) (updated-other id other q rows h)
  | inr e ↦ elim (Bool-cases (row.public_id == other)) [
    | inl f ↦ rw (e, f) refl
    | inr f ↦ rw (e, f) (updated-other id other q rows h)
  ]
]
  where
    differ : (a b c : ℕ) → (a == b) ≡ true → (b == c) ≡ false → (a == c) ≡ false
    differ a b c p q = ground arith

updated-found :
    (id : ℕ) (q : EncryptedCredentialPair) (rows : List CredentialRow) (r : CredentialRow)
    → first (has_id id) rows ≡ some r
    → first (has_id id) (update_where (has_id id) (with_credentials q) rows)
      ≡ some (with_credentials q r)
updated-found id q [] r h = cc
updated-found id q (row ∷ rows) r h = elim (Bool-cases (row.public_id == id)) [
  | inl e ↦
      let h' = subst (λ b. (if b then some row else first (has_id id) rows) ≡ some r) e h in
      rw e (rw e (ap (λ o. elim o [ none ↦ none | some x ↦ some (with_credentials q x) ]) h'))
  | inr e ↦
      let h' = subst (λ b. (if b then some row else first (has_id id) rows) ≡ some r) e h in
      rw e (rw e (updated-found id q rows r h'))
]

module _ (c : Cipher) where
  updated-IsKept :
      (id other : ℕ) (q : EncryptedCredentialPair) (rows : List CredentialRow) (r : CredentialRow)
      → first (has_id id) rows ≡ some r
      → Takes c id r.credentials q
      → IsKept c other rows (update_where (has_id id) (with_credentials q) rows)
  updated-IsKept id other q rows r f t = elim (Bool-cases (id == other)) [
    | inl e ↦
        subst (λ o. IsKept c o rows (update_where (has_id id) (with_credentials q) rows))
          ((==_iff id other).0 e) (inr (r, with_credentials q r, f, updated-found id q rows r f, t))
    | inr e ↦ inl (updated-other id other q rows e)
  ]

  settle_item-IsKept :
      (id other : ℕ) (item : RotationItemResult) (rows : List CredentialRow) (r : CredentialRow)
      → first (has_id id) rows ≡ some r
      → Rotates c id r.credentials item
      → IsKept c other rows (settle_item id item rows).1
  settle_item-IsKept id other item_verified rows r f t = inl refl
  settle_item-IsKept id other (item_failed code) rows r f t = inl refl
  settle_item-IsKept id other (item_rotated q) rows r f t =
      elim (Bool-cases (count_where (has_id id) rows == 1)) [
        | inl e ↦ rw e (updated-IsKept id other q rows r f t)
        | inr e ↦ rw e (inl refl)
      ]

  process_found-IsKept :
      (id other : ℕ) (o : Option CredentialRow) (rows : List CredentialRow)
      → first (has_id id) rows ≡ o
      → IsKept c other rows (process_found c id o rows).1
  unfolding process_found
  process_found-IsKept id other none rows f = inl refl
  process_found-IsKept id other (some r) rows f =
      settle_item-IsKept id other (process c id r.credentials) rows r f
        (process-Rotates c id r.credentials)

  process_row-IsKept :
      (failure : Option PersistenceFailure) (id other : ℕ) (rows : List CredentialRow)
      → IsKept c other rows (process_row c failure id rows).1
  unfolding process_row
  process_row-IsKept (some failure) id other rows = inl refl
  process_row-IsKept none id other rows =
      process_found-IsKept id other (first (has_id id) rows) rows refl

  some_none : {A : Type 0} (x : Text × Text) → some x ≡ none → A
  some_none x h = cc

  IsKept-trans :
      (id : ℕ) (a b d : List CredentialRow) → IsKept c id a b → IsKept c id b d → IsKept c id a d
  IsKept-trans id a b d (inl p) (inl q) = inl (q ∙ p)
  IsKept-trans id a b d (inl p) (inr (r, r', f, g, t)) = inr (r, r', sym p ∙ f, g, t)
  IsKept-trans id a b d (inr (r, r', f, g, t)) (inl q) = inr (r, r', f, q ∙ g, t)
  IsKept-trans id a b d (inr (r, r', f, g, t)) (inr (u, u', f', g', t')) =
      let same =
        ap (λ o. elim o [ none ↦ none | some x ↦ decrypt_pair_with_primary c id x.credentials ])
          (sym g ∙ f') in
      some_none t.secrets (sym t.after ∙ same ∙ t'.unread)

  counted-rows :
      (id : ℕ) (o : RowOutcome × List CredentialRow) (p : Progress) → (counted id o p).rows ≡ o.1
  counted-rows id (row_verified, rows) p = refl
  counted-rows id (row_rotated, rows) p = refl
  counted-rows id (row_failed code, rows) p = refl

  module _ (env : Environment) where
    process_all-IsKept :
        (id : ℕ) (ids : List ℕ) (p : Progress) → IsKept c id p.rows (process_all c env ids p).rows
    unfolding process_all
    process_all-IsKept id [] p = inl refl
    process_all-IsKept id (i ∷ ids) p =
        let o = process_row c (env.processing i) i p.rows in
        let q = counted i o p in
        IsKept-trans id p.rows q.rows (process_all c env ids q).rows
          (subst (λ rows. IsKept c id p.rows rows) (sym (counted-rows i o p))
            (process_row-IsKept (env.processing i) i id p.rows))
          (process_all-IsKept id ids q)

    abbrev Keeps :
        ℕ → List CredentialRow → Result RotationRaised RotationSummary × List CredentialRow → Type 0
    Keeps id rows (r, rows') = IsKept c id rows rows'

    under_lock-IsKept :
        (id : ℕ) (lock : Option Bool) (rows : List CredentialRow)
        → IsKept c id rows (under_lock c env lock rows).1
    unfolding under_lock rotate_locked
    under_lock-IsKept id none rows = inl refl
    under_lock-IsKept id (some false) rows = inl refl
    under_lock-IsKept id (some true) rows =
        let p =
          process_all c env (ids_of c env rows)
            (record { verified_count = 0; rotated_count = 0; failures = []; rows = rows }) in
        by_test (Keeps id rows) env.first_list_fails (err persistence_error, rows)
          (verify_processed c env p, p.rows) (λ e. inl refl)
          (λ e.
            process_all-IsKept id (ids_of c env rows)
              (record { verified_count = 0; rotated_count = 0; failures = []; rows = rows }))

-- Whatever fails on the way, and whether or not the rotation ends: of every channel the table holds
-- the credentials it held, or, if the primary key did not read those, others that have the same two
-- secrets and that the primary key reads.
pub rotate_all-IsKept :
    (c : Cipher) (env : Environment) (rows : List CredentialRow) (id : ℕ)
    → IsKept c id rows (rotate_all c env rows).1
unfolding rotate_all
rotate_all-IsKept c env rows id =
    by_test (Keeps c env id rows) env.is_ready (under_lock c env env.lock rows)
      (ok (empty_summary configuration_required), rows)
      (λ e. under_lock-IsKept c env id env.lock rows) (λ e. inl refl)
