-- ===== src/Persistence.antt =====
-- pkg/graph/persistent.go: the graph that writes its changes to a backend, at once or through a
-- channel that a goroutine reads.
pub mod Backend
pub mod Writer
pub mod Refines
pub mod Bounds
pub mod Events
