-- ===== src/Processors.antt =====
-- The processors (pkg/processors): Kubernetes objects and events in, operations of the graph out.
pub mod Objects
pub mod Interface
pub mod Base
pub mod Core
pub mod CoreNodes
pub mod Workloads
pub mod Networking
pub mod Registry
pub mod Keeps
pub mod Events
pub mod Runs
pub mod References
pub mod Deletions
pub mod Status
pub mod Informers
pub mod Watched
