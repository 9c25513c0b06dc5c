-- ===== src/Account/Passwords/Lockout.antt =====
-- The lockout of `passwordVerify`.
use kody_celld.Prelude.{
  ℕ, ◌+◌, ◌<◌, Bool, true, false, ◌≡◌, ◌⊎◌, refl, subst, ◌∙◌, ap, Option, none, some, List, [], ◌∷◌,
  Text, same_refl, length, All, arith, Bool-cases, inl, inr,
}
use kody_celld.Table.{find, update, exists}
use kody_celld.Act.{Act, Result, err}
use kody_celld.Account.Defs.{
  CredentialRow, AttemptRow, Store, Error, signin_locked, Platform, signin_max_failures,
  signin_lock_ms,
}
use kody_celld.Account.Passwords.{
  is_attempt_of, is_locked, failures_of, failed_attempt, write_attempt, credential_of,
  check_password, refuse, password_verify,
}

find_upsert :
    (row : AttemptRow) (rows : List AttemptRow)
    → exists (is_attempt_of row.email) rows ≡ true
    → find (is_attempt_of row.email) (update (is_attempt_of row.email) (λ r. row) rows) ≡ some row
unfolding find update exists
find_upsert row [] h = cc
find_upsert row (r ∷ rows) h = ground (arith, same_refl row.email, find_upsert row rows)

find-write_attempt :
    (row : AttemptRow) (s : Store)
    → find (is_attempt_of row.email) (write_attempt row s).signin_attempts ≡ some row
unfolding write_attempt
find-write_attempt row s = elim (Bool-cases (exists (is_attempt_of row.email) s.signin_attempts)) [
  | inl known ↦ rw known (find_upsert row s.signin_attempts known)
  | inr new ↦ rw new (unfold find in ground (arith, same_refl row.email))
]

find-write_attempt_at :
    (row : AttemptRow) (email : Text) (s : Store)
    → row.email ≡ email
    → find (is_attempt_of email) (write_attempt row s).signin_attempts ≡ some row
find-write_attempt_at row email s e =
    subst (λ x. find (is_attempt_of x) (write_attempt row s).signin_attempts ≡ some row) e
      (find-write_attempt row s)

failed_attempt-email :
    (now : ℕ) (email : Text) (a : Option AttemptRow) → (failed_attempt now email a).email ≡ email
unfolding failed_attempt
failed_attempt-email now email a = ground arith

credential_of-write_attempt :
    (user_id : Option Text) (row : AttemptRow) (s : Store)
    → credential_of user_id (write_attempt row s) ≡ credential_of user_id s
unfolding credential_of write_attempt
credential_of-write_attempt none row s = refl
credential_of-write_attempt (some []) row s = refl
credential_of-write_attempt (some (c ∷ cs)) row s = refl

-- One more failure below the limit, and at it.
failed_below :
    (now : ℕ) (email : Text) (a : Option AttemptRow)
    → failures_of a + 1 < signin_max_failures
    → ((t : ℕ) → is_locked t (some (failed_attempt now email a)) ≡ false)
      × (failures_of (some (failed_attempt now email a)) ≡ failures_of a + 1)
unfolding is_locked failed_attempt
failed_below now email a few = (λ t. ground arith, ground arith)

failed_at_limit :
    (now t : ℕ) (email : Text) (a : Option AttemptRow)
    → failures_of a + 1 ≡ signin_max_failures
    → t < now + signin_lock_ms
    → is_locked t (some (failed_attempt now email a)) ≡ true
unfolding is_locked failed_attempt
failed_at_limit now t email a limit early = ground arith

-- The password is wrong, or there is no account.
abbrev pub IsWrong : Platform → Text → Option CredentialRow → Type 0
IsWrong p password credential =
    (credential ≡ none)
    ⊎ ((row : CredentialRow) × (credential ≡ some row)
        × (p.verify_password password row.password_hash ≡ false))

module _ (p : Platform) (salt : Text) (rehashed_at : ℕ) where
  wrong-refuses :
      (now : ℕ) (email password : Text) (attempt : Option AttemptRow)
      (credential : Option CredentialRow)
      → IsWrong p password credential
      → check_password p salt now rehashed_at email password attempt credential
        ≡ refuse now email attempt
  unfolding check_password
  wrong-refuses now email password attempt none w = refl
  wrong-refuses now email password attempt (some row) w = ground (arith, w)

  -- Wrong guesses of one caller for one email, each with the clock reading of its call.
  module _ (input_email : Text) (user_id : Option Text) where
    abbrev email : Text
    email = p.to_lower_case (p.trim input_email)

    abbrev pub attempt_of : Store → Option AttemptRow
    attempt_of s = find (is_attempt_of email) s.signin_attempts

    abbrev pub guess : ℕ → Text → Store → Result Error Bool × Store
    guess now password =
        password_verify p salt now rehashed_at
          (record { email = input_email; user_id = user_id; password = password })

    unfoldable pub guesses : List (ℕ × Text) → Store → Store
    guesses [] s = s
    guesses ((now, password) ∷ rest) s = guesses rest (guess now password s).1

    guess-refuses :
        (now : ℕ) (password : Text) (s : Store)
        → is_locked now (attempt_of s) ≡ false
        → IsWrong p password (credential_of user_id s)
        → guess now password s ≡ refuse now email (attempt_of s) s
    unfolding password_verify
    guess-refuses now password s open_ wrong =
        rw (open_, password_verify)
          (ap (λ (m : Act Store Error Bool). m s)
            (wrong-refuses now email password (attempt_of s) (credential_of user_id s) wrong))

    -- A wrong guess counts one more failure, and changes no credential.
    after_wrong :
        (now : ℕ) (password : Text) (s : Store)
        → is_locked now (attempt_of s) ≡ false
        → IsWrong p password (credential_of user_id s)
        → (attempt_of (guess now password s).1 ≡ some (failed_attempt now email (attempt_of s)))
          × (credential_of user_id (guess now password s).1 ≡ credential_of user_id s)
    unfolding refuse
    after_wrong now password s open_ wrong = rw (guess-refuses now password s open_ wrong) (
      find-write_attempt_at _ email s (failed_attempt-email now email (attempt_of s)),
      credential_of-write_attempt user_id _ s,
    )

    locked_out :
        (now : ℕ) (password : Text) (s : Store)
        → is_locked now (attempt_of s) ≡ true
        → guess now password s ≡ (err signin_locked, s)
    unfolding password_verify
    locked_out now password s locked = rw (locked, password_verify)

    -- No lock is set.
    abbrev pub IsOpen : Option AttemptRow → Type 0
    IsOpen a = (now : ℕ) → is_locked now a ≡ false

    abbrev pub AllWrong : List (ℕ × Text) → Store → Type 0
    AllWrong gs s = All (λ g. IsWrong p g.1 (credential_of user_id s)) gs

    counted :
        (gs : List (ℕ × Text)) (s : Store)
        → IsOpen (attempt_of s)
        → length gs + failures_of (attempt_of s) < signin_max_failures
        → AllWrong gs s
        → IsOpen (attempt_of (guesses gs s))
          × (failures_of (attempt_of (guesses gs s)) ≡ length gs + failures_of (attempt_of s))
          × (credential_of user_id (guesses gs s) ≡ credential_of user_id s)
    unfolding guesses
    counted [] s open_ few wrong = (open_, omega arith, refl)
    counted ((now, password) ∷ gs) s open_ few wrong =
        let (count, same_credential) = after_wrong now password s (open_ now) wrong.0 in
        let (still_open, one_more) = failed_below now email (attempt_of s) (omega arith) in
        let (a, b, c) =
          counted gs (guess now password s).1 (λ t. rw count (still_open t))
            (rw (count, one_more) (omega arith)) (rw same_credential wrong.1) in
        (a, b ∙ rw (count, one_more) (omega arith), c ∙ same_credential)

    -- From an email with no failure on record, up to four wrong guesses set no lock. A fifth locks
    -- the email: until a quarter of an hour has passed since it, every call for the email throws,
    -- whatever its password, and writes nothing.
    pub lockout :
        (gs : List (ℕ × Text)) (now : ℕ) (password : Text) (s : Store)
        → attempt_of s ≡ none
        → length gs < signin_max_failures
        → AllWrong gs s
        → IsWrong p password (credential_of user_id s)
        → ((t : ℕ) → is_locked t (attempt_of (guesses gs s)) ≡ false)
          × (length gs + 1 ≡ signin_max_failures
              → (later : ℕ) (tried : Text) → later < now + signin_lock_ms
              → guess later tried (guess now password (guesses gs s)).1
                ≡ (err signin_locked, (guess now password (guesses gs s)).1))
    unfolding is_locked
    lockout gs now password s clean few wrong last_wrong =
        let (a, b, c) = counted gs s (λ t. rw clean refl) (rw clean (omega arith)) wrong in
        let (locked, _) = after_wrong now password (guesses gs s) (a now) (rw c last_wrong) in
        (
          a,
          λ five later tried early.
              locked_out later tried _
                (rw locked (failed_at_limit now later email _ (rw (b, clean) (omega arith)) early)),
        )
