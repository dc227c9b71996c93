-- ===== src/Channel/Rotation.antt =====
-- backend/linechannels/rotation.py, rotation_item.py and rotation_repository.py: the credentials of
-- all channels come under the primary key. The cipher, the lock and what fails in the database are
-- parameters; the table is in the order of the channels' public ids.
pub mod Complete
pub mod Preserved
pub mod Examples
use line_message_playground.Prelude.{
  ℕ, suc, ◌+◌, Bool, true, false, ◌&&◌, not, Option, none, some, List, [], ◌∷◌, ◌++◌, ◌==◌,
  if◌then◌else◌, map, length, Result, ok, err,
}
use line_message_playground.Prelude.Text.{Text, text_eq}
use line_message_playground.Prelude.Rows.{exists, first, count_where, update_where}

pub data Purpose : Type 0 where
  access_token_purpose channel_secret_purpose : Purpose

pub record EncryptedCredentialPair : Type 0 where
  pub access_token : Text
  pub channel_secret : Text

-- Nothing stands for an exception, or a secret of the wrong type.
pub record Cipher : Type 0 where
  pub decrypt : Text → ℕ → Purpose → Option Text
  pub decrypt_with_primary : Text → ℕ → Purpose → Option Text
  pub rotate : Text → ℕ → Purpose → Option Text

pub data RotationFailureCode : Type 0 where
  credential_missing credential_unreadable verification_failed retryable storage_unavailable :
      RotationFailureCode

pub data RotationItemResult : Type 0 where
  item_verified : RotationItemResult
  item_rotated : EncryptedCredentialPair → RotationItemResult
  item_failed : RotationFailureCode → RotationItemResult

-- Both texts, or nothing; the second is not read where the first raises.
abbrev pub both_of : Option Text → Option Text → Option (Text × Text)
both_of (some a) (some b) = some (a, b)
both_of _ _ = none

abbrev pub same_pair : Text × Text → Text × Text → Bool
same_pair (a, b) (c, d) = text_eq a c && text_eq b d

module _ (c : Cipher) (public_id : ℕ) where
  -- `_decrypt_pair`
  unfoldable pub decrypt_pair : EncryptedCredentialPair → Option (Text × Text)
  decrypt_pair p =
      both_of (c.decrypt p.access_token public_id access_token_purpose)
        (c.decrypt p.channel_secret public_id channel_secret_purpose)

  unfoldable pub decrypt_pair_with_primary : EncryptedCredentialPair → Option (Text × Text)
  decrypt_pair_with_primary p =
      both_of (c.decrypt_with_primary p.access_token public_id access_token_purpose)
        (c.decrypt_with_primary p.channel_secret public_id channel_secret_purpose)

  abbrev pub rotated_pair : EncryptedCredentialPair → Option (Text × Text)
  rotated_pair p =
      both_of (c.rotate p.access_token public_id access_token_purpose)
        (c.rotate p.channel_secret public_id channel_secret_purpose)

  abbrev pub pair_of : Text × Text → EncryptedCredentialPair
  pair_of (a, b) = record { access_token = a; channel_secret = b }

  abbrev pub checked :
      EncryptedCredentialPair → Text × Text → Option (Text × Text) → RotationItemResult
  checked rotated original none = item_failed verification_failed
  checked rotated original (some verified) =
      if same_pair verified original then item_rotated rotated else item_failed verification_failed

  abbrev pub check_rotated : Text × Text → Option (Text × Text) → RotationItemResult
  unfolding decrypt_pair_with_primary
  check_rotated original none = item_failed verification_failed
  check_rotated original (some rotated) =
      checked (pair_of rotated) original (decrypt_pair_with_primary (pair_of rotated))

  abbrev pub rotate_read : EncryptedCredentialPair → Option (Text × Text) → RotationItemResult
  unfolding check_rotated
  rotate_read p none = item_failed credential_unreadable
  rotate_read p (some original) = check_rotated original (rotated_pair p)

  abbrev pub process_primary : EncryptedCredentialPair → Option (Text × Text) → RotationItemResult
  unfolding decrypt_pair rotate_read
  process_primary p (some secrets) = item_verified
  process_primary p none = rotate_read p (decrypt_pair p)

  -- `DefaultCredentialRotationItemProcessor.process`
  unfoldable pub process : EncryptedCredentialPair → RotationItemResult
  unfolding decrypt_pair_with_primary process_primary
  process p = process_primary p (decrypt_pair_with_primary p)

pub record CredentialRow : Type 0 where
  pub public_id : ℕ
  pub credentials : EncryptedCredentialPair

-- What a transaction raises: a `PersistenceError`, by its code, or any other exception.
pub data PersistenceFailure : Type 0 where
  unique_conflict retryable_failure unavailable_failure credentials_incomplete other_failure :
      PersistenceFailure

-- `_persistence_failure`, and the branch for other exceptions.
abbrev pub persistence_failure : PersistenceFailure → RotationFailureCode
persistence_failure unique_conflict = storage_unavailable
persistence_failure retryable_failure = retryable
persistence_failure unavailable_failure = storage_unavailable
persistence_failure credentials_incomplete = credential_missing
persistence_failure other_failure = storage_unavailable

abbrev pub has_id : ℕ → CredentialRow → Bool
has_id id row = row.public_id == id

abbrev pub with_credentials : EncryptedCredentialPair → CredentialRow → CredentialRow
with_credentials p row = record row { credentials = p }

pub data RowOutcome : Type 0 where
  row_verified row_rotated : RowOutcome
  row_failed : RotationFailureCode → RowOutcome

-- `replace_credentials_locked`: another number of rows than one raises, and rolls back.
abbrev pub replace_credentials :
    ℕ → EncryptedCredentialPair → List CredentialRow → RowOutcome × List CredentialRow
replace_credentials id p rows =
    if count_where (has_id id) rows == 1
    then (row_rotated, update_where (has_id id) (with_credentials p) rows)
    else (row_failed credential_missing, rows)

abbrev pub settle_item :
    ℕ → RotationItemResult → List CredentialRow → RowOutcome × List CredentialRow
settle_item id item_verified rows = (row_verified, rows)
settle_item id (item_failed code) rows = (row_failed code, rows)
settle_item id (item_rotated p) rows = replace_credentials id p rows

abbrev pub process_found :
    Cipher → ℕ → Option CredentialRow → List CredentialRow → RowOutcome × List CredentialRow
unfolding process
process_found c id none rows = (row_failed credential_missing, rows)
process_found c id (some row) rows = settle_item id (process c id row.credentials) rows

abbrev pub in_transaction :
    Option PersistenceFailure
    → RowOutcome × List CredentialRow
    → List CredentialRow
    → RowOutcome × List CredentialRow
in_transaction (some failure) result rows = (row_failed (persistence_failure failure), rows)
in_transaction none result rows = result

-- `_process_row`: what a read, a write or the end of the transaction raises, rolls it back.
unfoldable pub process_row :
    Cipher → Option PersistenceFailure → ℕ → List CredentialRow → RowOutcome × List CredentialRow
unfolding process_found
process_row c failure id rows =
    in_transaction failure (process_found c id (first (has_id id) rows) rows) rows

abbrev pub verify_found : Cipher → ℕ → Option CredentialRow → Option RotationFailureCode
unfolding decrypt_pair_with_primary
verify_found c id none = some credential_missing
verify_found c id (some row) = elim (decrypt_pair_with_primary c id row.credentials) [
  | none ↦ some credential_unreadable
  | some secrets ↦ none
]

-- `_verify_row`
unfoldable pub verify_row :
    Cipher → Option PersistenceFailure → ℕ → List CredentialRow → Option RotationFailureCode
unfolding verify_found
verify_row c (some failure) id rows = some (persistence_failure failure)
verify_row c none id rows = verify_found c id (first (has_id id) rows)

-- The failures, a dictionary: of each channel one, in the order in which they came.
abbrev pub Failures : Type 0
Failures = List (ℕ × RotationFailureCode)

abbrev pub is_of : ℕ → ℕ × RotationFailureCode → Bool
is_of id (failed, code) = failed == id

abbrev pub set_failure : ℕ → RotationFailureCode → Failures → Failures
set_failure id code failures =
    if exists (is_of id) failures
    then update_where (is_of id) (λ f. (id, code)) failures
    else failures ++ ((id, code) ∷ [])

abbrev pub set_default : ℕ → Option RotationFailureCode → Failures → Failures
set_default id none failures = failures
set_default id (some code) failures =
    if exists (is_of id) failures then failures else failures ++ ((id, code) ∷ [])

pub record Progress : Type 0 where
  pub verified_count : ℕ
  pub rotated_count : ℕ
  pub failures : Failures
  pub rows : List CredentialRow

abbrev pub counted : ℕ → RowOutcome × List CredentialRow → Progress → Progress
counted id (row_verified, rows) p = record p { verified_count = suc p.verified_count; rows = rows }
counted id (row_rotated, rows) p = record p { rotated_count = suc p.rotated_count; rows = rows }
counted id (row_failed code, rows) p = record p {
  failures = set_failure id code p.failures;
  rows = rows;
}

-- What the transactions of the two passes raise, by the id of their row.
pub record Environment : Type 0 where
  pub is_ready : Bool
  pub lock : Option Bool
  pub first_list_fails : Bool
  pub second_list_fails : Bool
  pub release_fails : Bool
  pub processing : ℕ → Option PersistenceFailure
  pub verification : ℕ → Option PersistenceFailure

pub data RotationStatus : Type 0 where
  rotation_complete rotation_incomplete rotation_busy configuration_required : RotationStatus

pub record RotationSummary : Type 0 where
  pub status : RotationStatus
  pub verified_count : ℕ
  pub rotated_count : ℕ
  pub failed_count : ℕ
  pub failures : Failures
  pub old_keys_removable : Bool

pub data RotationRaised : Type 0 where
  persistence_error rotation_lock_error : RotationRaised

-- `_empty_summary`
abbrev pub empty_summary : RotationStatus → RotationSummary
empty_summary status = record {
  status = status;
  verified_count = 0;
  rotated_count = 0;
  failed_count = 0;
  failures = [];
  old_keys_removable = false;
}

abbrev pub is_empty : Failures → Bool
is_empty [] = true
is_empty (f ∷ rest) = false

abbrev pub summary : Progress → Failures → RotationSummary
summary p failures = record {
  status = if is_empty failures then rotation_complete else rotation_incomplete;
  verified_count = p.verified_count;
  rotated_count = p.rotated_count;
  failed_count = length failures;
  failures = failures;
  old_keys_removable = is_empty failures;
}

module _ (c : Cipher) (env : Environment) where
  unfoldable pub process_all : List ℕ → Progress → Progress
  unfolding process_row
  process_all [] p = p
  process_all (id ∷ ids) p =
      process_all ids (counted id (process_row c (env.processing id) id p.rows) p)

  unfoldable pub verify_all : List CredentialRow → List ℕ → Failures → Failures
  unfolding verify_row
  verify_all rows [] failures = failures
  verify_all rows (id ∷ ids) failures =
      verify_all rows ids (set_default id (verify_row c (env.verification id) id rows) failures)

  -- `list_credential_public_ids`
  abbrev pub ids_of : List CredentialRow → List ℕ
  ids_of rows = map (λ row. row.public_id) rows

  abbrev pub released :
      Result RotationRaised RotationSummary → Result RotationRaised RotationSummary
  released r = if env.release_fails then err rotation_lock_error else r

  abbrev pub verify_processed : Progress → Result RotationRaised RotationSummary
  unfolding verify_all
  verify_processed p =
      if env.second_list_fails
      then err persistence_error
      else ok (summary p (verify_all p.rows (ids_of p.rows) p.failures))

  abbrev pub rotate_locked :
      List CredentialRow → Result RotationRaised RotationSummary × List CredentialRow
  unfolding process_all verify_processed
  rotate_locked rows =
      let p =
        process_all (ids_of rows)
          (record { verified_count = 0; rotated_count = 0; failures = []; rows = rows }) in
      if env.first_list_fails then (err persistence_error, rows) else (verify_processed p, p.rows)

  abbrev pub under_lock :
      Option Bool → List CredentialRow → Result RotationRaised RotationSummary × List CredentialRow
  unfolding rotate_locked
  under_lock none rows = (err rotation_lock_error, rows)
  under_lock (some false) rows = (released (ok (empty_summary rotation_busy)), rows)
  under_lock (some true) rows = (released (rotate_locked rows).0, (rotate_locked rows).1)

  -- `rotate_all`
  unfoldable pub rotate_all :
      List CredentialRow → Result RotationRaised RotationSummary × List CredentialRow
  unfolding under_lock
  rotate_all rows =
      if env.is_ready
      then under_lock env.lock rows
      else (ok (empty_summary configuration_required), rows)
