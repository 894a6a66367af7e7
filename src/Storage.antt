-- ===== src/Storage.antt =====
-- pkg/storage/redis.go: the graph in Redis, as nodes and edges under string keys.
pub mod Client
pub mod Layout
pub mod Redis
pub mod Keys
pub mod Saving
pub mod Snapshot
pub mod Stored
pub mod Listing
pub mod Loading
pub mod Joining
pub mod Loaded
pub mod Restart
pub mod Deleting
pub mod Patterns
pub mod Removing
pub mod Mirrored
pub mod Rewriting
pub mod Queued
pub mod Shutdown
