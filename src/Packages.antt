-- ===== src/Packages.antt =====
-- The archives of packages, src/packages/tar.ts, and their manifests, src/packages/manifest.ts.
pub mod Tar
pub mod Read
pub mod Total
pub mod Sizes
pub mod Normal
pub mod Again
pub mod Manifest
pub mod Entries
pub mod Named
pub mod Paths
