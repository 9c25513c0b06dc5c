-- ===== src/Account/Passwords.antt =====
-- `validatePassword` of src/auth/password.ts, and `passwordSet`, `passwordIsSet`, `passwordClear`,
-- `passwordVerify`.
pub mod Lockout
use kody_celld.Prelude.{
  ℕ, ◌+◌, Bool, true, false, not, ◌||◌, Option, none, some, List, [], ◌∷◌, Text, same, leb, ltb,
  length, if◌then◌else◌,
}
use kody_celld.Table.{find, delete, update, exists}
use kody_celld.Act.{Act, ◌>>=◌, ◌>>◌, pure, throw, modify}
use kody_celld.Account.Defs.{
  CredentialRow, AttemptRow, Store, Error, password_too_short, password_too_long, signin_locked,
  Platform, signin_max_failures, signin_lock_ms, password_min_length, password_max_length,
}

unfoldable pub validate_password : Text → Act Store Error Text
validate_password password =
    if ltb (length password) password_min_length
    then throw password_too_short
    else if ltb password_max_length (length password)
    then throw password_too_long
    else pure password

abbrev pub is_credential_of : Text → CredentialRow → Bool
is_credential_of user_id row = same row.user_id user_id

-- INSERT … ON CONFLICT(user_id) DO UPDATE
unfoldable pub write_credential : (user_id hash : Text) (now : ℕ) → Store → Store
write_credential user_id hash now s = record s {
  credentials =
      if exists (is_credential_of user_id) s.credentials
      then update (is_credential_of user_id)
          (λ r. record r { password_hash = hash; updated_at = now }) s.credentials
      else record { user_id = user_id; password_hash = hash; updated_at = now } ∷ s.credentials;
}

unfoldable pub password_set :
    Platform → (salt : Text) (now : ℕ) (user_id password : Text) → Act Store Error (Unit {0})
unfolding validate_password write_credential
password_set p salt now user_id password = do
  valid ← validate_password password
  modify (write_credential user_id (p.hash_password salt valid) now)

unfoldable pub password_is_set : Text → Store → Bool
password_is_set user_id s = exists (is_credential_of user_id) s.credentials

unfoldable pub password_clear : Text → Store → Store
password_clear user_id s = record s {
  credentials = delete (is_credential_of user_id) s.credentials;
}

abbrev pub is_attempt_of : Text → AttemptRow → Bool
is_attempt_of email row = same row.email email

-- `attempt?.locked_until && Date.parse(attempt.locked_until) > now`
unfoldable pub is_locked : (now : ℕ) → Option AttemptRow → Bool
is_locked now none = false
is_locked now (some attempt) = elim attempt.locked_until [
  | none ↦ false
  | some until ↦ ltb now until
]

abbrev pub failures_of : Option AttemptRow → ℕ
failures_of none = 0
failures_of (some attempt) = attempt.failures

-- The row that a failed attempt leaves.
unfoldable pub failed_attempt : (now : ℕ) (email : Text) → Option AttemptRow → AttemptRow
failed_attempt now email attempt =
    let failures = failures_of attempt + 1 in
    if leb signin_max_failures failures
    then record { email = email; failures = 0; locked_until = some (now + signin_lock_ms) }
    else record { email = email; failures = failures; locked_until = none }

-- INSERT … ON CONFLICT(email) DO UPDATE, which writes every column but the key
unfoldable pub write_attempt : AttemptRow → Store → Store
write_attempt row s = record s {
  signin_attempts =
      if exists (is_attempt_of row.email) s.signin_attempts
      then update (is_attempt_of row.email) (λ r. row) s.signin_attempts
      else row ∷ s.signin_attempts;
}

-- `input.userId ? SELECT … : undefined`; an empty id is falsy.
unfoldable pub credential_of : Option Text → Store → Option CredentialRow
credential_of none s = none
credential_of (some []) s = none
credential_of (some (c ∷ cs)) s = find (is_credential_of (c ∷ cs)) s.credentials

pub record VerifyInput : Type 0 where
  pub email : Text
  pub user_id : Option Text
  pub password : Text

-- The branch of a right password for the row of an account.
unfoldable pub accept :
    Platform
    → (salt : Text) (now rehashed_at : ℕ) (email : Text) → CredentialRow
    → (password : Text) → Act Store Error Bool
unfolding password_set
accept p salt now rehashed_at email row password = do
  modify (λ s. record s { signin_attempts = delete (is_attempt_of email) s.signin_attempts })
  if p.password_needs_rehash row.password_hash
      then (do password_set p salt rehashed_at row.user_id password; pure true)
      else pure true

unfoldable pub refuse : (now : ℕ) (email : Text) → Option AttemptRow → Act Store Error Bool
unfolding failed_attempt write_attempt
refuse now email attempt = do modify (write_attempt (failed_attempt now email attempt)); pure false

-- `verifyPassword` runs on a dummy hash where there is no row; its result is then not used, so the
-- model does not run it.
unfoldable pub check_password :
    Platform
    → (salt : Text) (now rehashed_at : ℕ) (email password : Text) → Option AttemptRow
    → Option CredentialRow
    → Act Store Error Bool
unfolding accept refuse
check_password p salt now rehashed_at email password attempt none = refuse now email attempt
check_password p salt now rehashed_at email password attempt (some row) =
    if p.verify_password password row.password_hash
    then accept p salt now rehashed_at email row password
    else refuse now email attempt

unfoldable pub password_verify :
    Platform → (salt : Text) (now rehashed_at : ℕ) → VerifyInput → Act Store Error Bool
unfolding is_locked check_password credential_of
password_verify p salt now rehashed_at input s =
    let email = p.to_lower_case (p.trim input.email) in
    let attempt = find (is_attempt_of email) s.signin_attempts in
    if is_locked now attempt
    then throw signin_locked s
    else check_password p salt now rehashed_at email input.password attempt
        (credential_of input.user_id s) s
