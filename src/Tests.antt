-- ===== src/Tests.antt =====
-- Runs of the model on concrete inputs, with a platform, a codec, an engine and URLs that are plain
-- functions.
pub mod Setup
pub mod Auth
pub mod Stores
pub mod Sessions
pub mod Interleaved
pub mod Exports
pub mod Environment
pub mod Proxy
pub mod Concurrent
pub mod Locking
pub mod App
pub mod Site
pub mod Manifest
pub mod Commands
