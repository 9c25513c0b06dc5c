-- ===== src/Account.antt =====
-- The sign-in state of src/auth/account-store.ts: passwords with a lockout, one-time links, browser
-- sessions, app handoffs and API tokens.
pub mod Defs
pub mod Passwords
pub mod Links
pub mod Sessions
pub mod Handoffs
pub mod ApiTokens
