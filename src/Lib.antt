-- ===== src/Lib.antt =====
-- kody_celld: a model of the state that the kody cell daemon keeps for its users, and what it
-- guarantees. Paths are from the repository's root.
--
-- The program. A daemon serves many users. Its registry holds, in SQL tables, an OAuth
-- authorization server (src/oauth/server-store.ts) that registers clients, issues one-time codes,
-- keeps one grant per user and client, and mints and rotates tokens; and a sign-in store
-- (src/auth/account-store.ts) with passwords, one-time links, sessions, app handoffs and API
-- tokens. The HTTP routes call the methods of the two stores, which share no table. A cell per user
-- holds the user's own tables, among them the log of runs, whose failures are triaged by hand, in
-- bulk, and when a later run of the same job succeeds (src/runs/triage-store.ts), and the scheduled
-- jobs, which a dispatcher claims when they are due (src/jobs/schedule.ts). The user's files lie in
-- a bucket under names that src/blobs/keys.ts makes, and deliveries to the user's webhooks are
-- admitted by their secret and a limit per minute. Secrets are sealed under a ring of master keys
-- (src/lib/crypto.ts), kept in a table of the cell under a quota, resolved for the runs that may
-- see them, and sealed anew when the master key changes. Limits and quotas come from the
-- environment and from overrides (src/lib/limits.ts); private hosts are reached only where an
-- allowlist names them (src/lib/host-allowlist.ts); packages arrive as tar archives
-- (src/packages/tar.ts), whose manifest names their modules (src/packages/manifest.ts). The
-- requests of a package name secrets by placeholders, and the gateway
-- (src/secrets/fetch-gateway.ts) checks where a request goes (src/secrets/host-policy.ts) and puts
-- the values in (src/secrets/placeholders.ts). The values are stored secrets, the access tokens of
-- integrations, which a store connects and refreshes by OAuth (src/integrations/store.ts and
-- oauth.ts), and what providers answer: packages that are bound to an id, with grants and a cache
-- (src/secrets/provider-store.ts).
--
-- Files.
--   Prelude: names of the libraries, text as lists of UTF-16 code units, Boolean tests, lists.
--   Table: the SQL statements SELECT, DELETE, UPDATE and EXISTS over a list of rows, with their laws.
--   Act: a method as a function from a store to a result and a store; `throw` keeps what was written.
--   Results: functions that return or throw, in sequence.
--   Integers, Json: the numbers and the parsed JSON values that inputs hold.
--   Crypto: Equal has `constantTimeEqual` and `constantTimeEqualString` of src/auth/password.ts; Hex and
--     Keyring have src/lib/crypto.ts, Built the keyring that it builds; Bits and Masks are laws of `|`,
--     `^` and `&`.
--   Oauth: Defs has the rows, the errors and `purge`; Clients, Codes, Grants, Tokens/Mint,
--     Tokens/Rotate and Tokens/Resolve have the methods of `OAuthServerStore`, each under its name in
--     snake case. Sound, Retry, Reuse, SingleUse, Authentication and Revocation have the proofs.
--     Protocol has the rules of src/oauth/protocol.ts: Redirects, Metadata and Authorize the functions,
--     Trusted and Registered the proofs.
--   Account: Defs has the rows and `purge`; Passwords, Links, Sessions, Handoffs and ApiTokens have
--     the methods of `AccountStore`, their children the proofs.
--   Runs: Defs has the rows of the table `runs` of a user's cell and the inputs of
--     src/runs/triage-args.ts; Order, Triage, AutoResolve and Update have the methods of
--     `RunTriageStore` (src/runs/triage-store.ts), Drain a caller that repeats `bulk`.
--   Jobs: Schedule has `cronMatches`, `nextCronOccurrence` and `computeNextRun` of
--     src/jobs/schedule.ts, Claim the methods `jobUpdate` and `jobsClaimDue` of src/cells/user-cell.ts,
--     Next the proofs about the next run.
--   Blobs: Keys has the names of stored objects of src/blobs/keys.ts, Paths the proofs about them; Index
--     has the index of stored objects of src/cells/user-cell.ts, Quota the proof about its quotas.
--   Webhooks: Defs has the tables of webhooks, Admit the methods `webhookAdmit` and `webhookRotate` of
--     src/cells/user-cell.ts, Retired the proof about the secret before a rotation; Ledger has
--     `webhookIdempotencyClaim` and `webhookIdempotencyFinish`, Delivered their proof.
--   Secrets: Defs has the table `secrets` of src/cells/user-cell.ts, Save, Resolve and Rekey have
--     `secretSave`, `secretDelete`, `secretResolveValues` and `secretRekey`; Isolation, Sealed, Saved,
--     Quota, Keyed and Rekeyed have the proofs.
--   Gateway: Policy has src/secrets/host-policy.ts, Placeholders and Replace src/secrets/placeholders.ts.
--     The rest is src/secrets/fetch-gateway.ts: Provided has what a provider answers, State the tables
--     and events of a request, Inject and Ask the three kinds of values, Fetch the parts of a request and
--     its sending, and Pipeline `fetch`. Expanded, Injected, Steps, Rights, Answers, Items, Outgoing and
--     Guarded have the proofs.
--   Providers: Defs and Store have src/secrets/provider-store.ts, Cell the methods `secretProvider...` of
--     src/cells/user-cell.ts, Packages what saving and deleting a package do to the bindings. Unbound,
--     Written, Permits, Cached, Runs and Rebound have the proofs.
--   Integrations: Requests and Exchange have src/integrations/oauth.ts, Store, Tokens and Connect the
--     class `IntegrationStore` of src/integrations/store.ts, each method under its name in snake case;
--     Guarded, Policies and Connected have the proofs.
--   Limits: Defs, Env and Override have src/lib/limits.ts, Bounds and Overrides the proofs.
--   Hosts: Ip, Private and Allowlist have src/lib/host-allowlist.ts, Octets, Ranges and Matches the
--     proofs.
--   Packages: Tar and Read have src/packages/tar.ts, Total and Sizes the proofs. Paths, Manifest and
--     Entries have src/packages/manifest.ts (module paths, exports, jobs, dependencies, secret provider),
--     Normal, Again and Named the proofs.
--   Tests: a concrete platform and stores, with the theorems at them.
--
-- Modelling. An instant is a number of milliseconds, so that a comparison of ISO strings is one of
-- numbers. A table is a list of rows; INSERT puts its row in front, and throws `constraint_failed`
-- where a key is taken. What `Date.now()` reads and what `randomToken` and `randomId` draw are
-- arguments; a method that reads the clock several times takes as many readings. A column with JSON
-- holds the value. An error is its code, without its message and HTTP status. A method runs from
-- its start to its end: the points where another call may run at an `await` are not modelled.
-- `rowsWritten` is read as the number of rows of the statement. Loops are over the rows of a table
-- or the characters of a text, but for five: `repeat_bulk` of Runs/Drain, a caller, and `advance`
-- of Jobs/Schedule have fuel (one more than the rows that match, and one more than the instant
-- `now`, whose every round adds at least a millisecond); `scan` has the bound of 400 days that the
-- source has; `read_from` and `pax_from` of Packages have one more than the bytes that are left,
-- whose every round drops at least one. Bit operations on numbers are those of the natural numbers,
-- since the source has them on BigInt. An object with one number for each of a fixed set of keys is
-- a record.
--
-- Parameters. `Vault` (SHA-256 in hex, and the sealing of replay snapshots, which is taken not to
-- throw) and `Platform` (SHA-256, PBKDF2 hashes, `trim` and `toLowerCase`) stand for code outside
-- of the repository's sources, or that only calls the platform; so does `zoned`, the parts that
-- Intl.DateTimeFormat gives. `WebCrypto` stands for SHA-256, HKDF, AES-GCM and the text coders;
-- `IsWebCrypto` is what their documents say: AES-GCM decrypts what it encrypted under one key and
-- iv, and a ciphertext is bytes. `parse_url` is the constructor of URL, `number` the function
-- Number, and `TextPlatform` has the text functions of the tar reader. `OauthPlatform` has the URL
-- parser, base64 and the request to a token endpoint, `StoreHost` besides it the keyring and the
-- user of the integrations, and `GatewayHost` besides these the sending of a request and
-- `run_provider`, the run of a provider's package in the sandbox. The theorems ask nothing of them
-- but what a hypothesis names.
--
-- Not modelled: the listings of grants, sessions, secrets and API tokens, which only read; the
-- rekeying of integrations and MCP servers; the loop over a pax header once its offset is no
-- integer, which stands as a loop that does not end; the HTTP routes and pages; the parsing of the
-- configs of integrations and providers, and a refresh of a token that several callers share; the
-- notices that the gateway sends; the cells that hold the stores, the MCP server and client, the
-- parsing of the texts of schedules, the rest of the manifests and the installation of packages,
-- the execution of user code, e-mail, the rest of the webhooks and the other services of src/, each
-- a component of its own.
pub mod Prelude
pub mod Table
pub mod Act
pub mod Crypto
pub mod Oauth
pub mod Account
pub mod Packages
pub mod Providers
pub mod Results
pub mod Runs
pub mod Gateway
pub mod Hosts
pub mod Integers
pub mod Integrations
pub mod Jobs
pub mod Json
pub mod Limits
pub mod Blobs
pub mod Webhooks
pub mod Secrets
pub mod Tests
