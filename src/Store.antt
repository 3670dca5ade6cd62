-- ===== src/Store.antt =====
-- internal/gateway/store: the files under the data directory.
pub mod Manifest
pub mod World
pub mod Files
pub mod Race
pub mod Atomic
pub mod ManifestStore
pub mod Update
pub mod Lease
