-- ===== src/Tests.antt =====
-- Runs of the models on concrete inputs, and the theorems at such inputs.
mod TarArchive
mod Vault
mod BlobTable
mod GatewayTable
mod HostTable
mod LedgerTable
mod LimitTable
mod OauthStore
mod AccountStore
mod ProtocolTable
mod ProviderTable
mod RunTable
mod JobTable
mod BlobKeys
mod SecretTable
mod WebhookTable
mod ManifestTable
