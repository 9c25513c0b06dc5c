-- ===== src/Account/Defs.antt =====
-- The tables of `accountSchema` (and `tokens`, which the registry cell declares), and `purge`.
use kody_celld.Prelude.{ℕ, ◌*◌, Bool, Option, List, Text, leb}
use kody_celld.Table.{delete}

pub record CredentialRow : Type 0 where
  pub user_id : Text
  pub password_hash : Text
  pub updated_at : ℕ

pub data SigninTokenKind : Type 0 where
  invite magic reset : SigninTokenKind

-- A row's `kind` is any text: `signinTokenPeek` checks it, so a text of no kind is `none` here.
pub record SigninTokenRow : Type 0 where
  pub token_hash : Text
  pub user_id : Text
  pub kind : Option SigninTokenKind
  pub created_at : ℕ
  pub expires_at : ℕ

pub record SessionRow : Type 0 where
  pub id_hash : Text
  pub id : Text
  pub user_id : Text
  pub created_at : ℕ
  pub expires_at : ℕ
  pub last_seen_at : ℕ
  pub user_agent : Option Text

pub record AttemptRow : Type 0 where
  pub email : Text
  pub failures : ℕ
  pub locked_until : Option ℕ

pub record HandoffRow : Type 0 where
  pub jti : Text
  pub expires_at : ℕ

pub record TokenRow : Type 0 where
  pub token_hash : Text
  pub user_id : Text
  pub label : Text
  pub created_at : ℕ
  pub last_used_at : Option ℕ

pub record Store : Type 0 where
  pub credentials : List CredentialRow
  pub signin_tokens : List SigninTokenRow
  pub sessions : List SessionRow
  pub signin_attempts : List AttemptRow
  pub app_handoffs : List HandoffRow
  pub tokens : List TokenRow

-- A constructor for each `throw`; `constraint_failed` is SQLite's.
pub data Error : Type 0 where
  password_too_short password_too_long signin_locked constraint_failed : Error

-- What the store takes from the platform: SHA-256 as hex, PBKDF2 hashing (the first argument is the
-- random salt) with its check and its test for an old work factor, and two methods of strings.
pub record Platform : Type 0 where
  pub sha256_hex : Text → Text
  pub hash_password : Text → Text → Text
  pub verify_password : Text → Text → Bool
  pub password_needs_rehash : Text → Bool
  pub trim : Text → Text
  pub to_lower_case : Text → Text

abbrev pub invite_ttl_ms : ℕ
invite_ttl_ms = 7 * 24 * 60 * 60 * 1000

abbrev pub magic_link_ttl_ms : ℕ
magic_link_ttl_ms = 15 * 60 * 1000

abbrev pub signin_max_failures : ℕ
signin_max_failures = 5

abbrev pub signin_lock_ms : ℕ
signin_lock_ms = 15 * 60 * 1000

abbrev pub password_min_length : ℕ
password_min_length = 12

abbrev pub password_max_length : ℕ
password_max_length = 256

unfoldable pub purge : ℕ → Store → Store
purge now s = record s {
  signin_tokens = delete (λ t. leb t.expires_at now) s.signin_tokens;
  sessions = delete (λ t. leb t.expires_at now) s.sessions;
}
