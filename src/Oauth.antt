-- ===== src/Oauth.antt =====
-- The authorization server of src/oauth/server-store.ts: registered clients, one-time codes, grants
-- and the rotation of refresh tokens.
pub mod Defs
pub mod Clients
pub mod Codes
pub mod Grants
pub mod Tokens
pub mod SingleUse
pub mod Authentication
pub mod Revocation
pub mod Rotation
pub mod Sound
pub mod Reuse
pub mod Retry
pub mod Protocol
