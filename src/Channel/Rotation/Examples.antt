-- ===== src/Channel/Rotation/Examples.antt =====
-- Runs of a rotation at concrete inputs.
use line_message_playground.Prelude.{
  ℕ, true, false, Option, none, some, List, [], ◌∷◌, ◌==◌, if◌then◌else◌, ◌≡◌, refl, ok,
}
use line_message_playground.Prelude.Text.{Text}
use line_message_playground.Channel.Rotation.{
  Cipher, CredentialRow, Environment, RotationSummary, rotation_complete, rotation_incomplete,
  rotate_all, decrypt_pair_with_primary, process, retryable_failure, retryable,
}
use line_message_playground.Channel.Rotation.Complete.{IsUnderPrimary, rotate_all-removable}
use line_message_playground.Channel.Rotation.Preserved.{IsKept, rotate_all-IsKept}

-- A ciphertext is the number of its key with the text; the primary key is the second.
abbrev read : Text → Option Text
read [] = none
read (key ∷ s) = some s

abbrev read_primary : Text → Option Text
read_primary [] = none
read_primary (key ∷ s) = if key == 2 then some s else none

abbrev encrypt_again : Text → Option Text
encrypt_again [] = none
encrypt_again (key ∷ s) = some (2 ∷ s)

abbrev cipher : Cipher
cipher = record {
  decrypt = λ s id purpose. read s;
  decrypt_with_primary = λ s id purpose. read_primary s;
  rotate = λ s id purpose. encrypt_again s;
}

abbrev environment : Environment
environment = record {
  is_ready = true;
  lock = some true;
  first_list_fails = false;
  second_list_fails = false;
  release_fails = false;
  processing = λ id. none;
  verification = λ id. none;
}

-- The write to the row of one channel fails.
abbrev failing : Environment
failing = record environment { processing = λ id. if id == 7 then some retryable_failure else none }

abbrev row : ℕ → ℕ → CredentialRow
row id key = record {
  public_id = id;
  credentials = record { access_token = key ∷ 5 ∷ []; channel_secret = key ∷ 6 ∷ [] };
}

abbrev old_rows : List CredentialRow
old_rows = row 4 1 ∷ row 7 1 ∷ row 9 2 ∷ []

abbrev new_rows : List CredentialRow
new_rows = row 4 2 ∷ row 7 2 ∷ row 9 2 ∷ []

abbrev complete_summary : RotationSummary
complete_summary = record {
  status = rotation_complete;
  verified_count = 1;
  rotated_count = 2;
  failed_count = 0;
  failures = [];
  old_keys_removable = true;
}

rotates : rotate_all cipher environment old_rows ≡ (ok complete_summary, new_rows)
unfolding rotate_all process decrypt_pair_with_primary
rotates = refl

fails : rotate_all cipher failing old_rows ≡ (
  ok (record complete_summary {
    status = rotation_incomplete;
    rotated_count = 1;
    failed_count = 1;
    failures = (7, retryable) ∷ [];
    old_keys_removable = false;
  }),
  row 4 2 ∷ row 7 1 ∷ row 9 2 ∷ [],
)
unfolding rotate_all process decrypt_pair_with_primary
fails = refl

rotate_all-removable_example : IsUnderPrimary cipher environment 7 new_rows
unfolding rotate_all process decrypt_pair_with_primary
rotate_all-removable_example =
    rotate_all-removable cipher environment old_rows new_rows complete_summary refl refl 7 refl

rotate_all-IsKept_example : IsKept cipher 7 old_rows (rotate_all cipher failing old_rows).1
rotate_all-IsKept_example = rotate_all-IsKept cipher failing old_rows 7
