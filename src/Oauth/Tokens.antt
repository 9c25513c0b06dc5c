-- ===== src/Oauth/Tokens.antt =====
-- The tokens of src/oauth/server-store.ts. Each method takes the clock readings that it makes, in
-- order, then the values drawn at random.
mod Mint
mod Rotate
mod Resolve
unfoldable pub use Mint.*
unfoldable pub use Rotate.*
unfoldable pub use Resolve.*
