-- ===== src/Integrations.antt =====
-- OAuth connections of a user: src/integrations/oauth.ts and src/integrations/store.ts.
pub mod Defs
pub mod Requests
pub mod Store
pub mod Exchange
pub mod Tokens
pub mod Policies
pub mod Guarded
pub mod Connect
pub mod Connected
