-- ===== src/Gateway.antt =====
-- The gateway for outgoing requests of a user's code: src/secrets/fetch-gateway.ts,
-- src/secrets/placeholders.ts and src/secrets/host-policy.ts.
pub mod Policy
pub mod Placeholders
pub mod Replace
pub mod Expanded
pub mod Injected
pub mod Provided
pub mod State
pub mod Inject
pub mod Ask
pub mod Fetch
pub mod Pipeline
pub mod Steps
pub mod Rights
pub mod Answers
pub mod Items
pub mod Outgoing
pub mod Guarded
