-- ===== src/Oauth/Protocol.antt =====
-- The rules of src/oauth/protocol.ts: redirect URIs, client metadata and authorization requests.
pub mod Redirects
pub mod Metadata
pub mod Authorize
pub mod Trusted
pub mod Registered
