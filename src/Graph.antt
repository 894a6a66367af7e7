-- ===== src/Graph.antt =====
-- The resource graph (pkg/graph/types.go): the data, the indexes, the operations, the pending
-- edges, and what each keeps.
pub mod Types
pub mod Indexes
pub mod Pending
pub mod Store
pub mod Queries
pub mod Views
pub mod Linked
pub mod Removal
pub mod Matching
pub mod Additions
pub mod Edges
pub mod Buckets
pub mod Indexed
pub mod Steps
pub mod Waiting
pub mod Patience
pub mod Lookup
pub mod Labels
pub mod Entries
pub mod Once
