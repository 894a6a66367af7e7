-- ===== src/Api.antt =====
-- pkg/api: what the HTTP handlers compute from the graph.
pub mod Filtering
pub mod Ends
pub mod Related
pub mod Rounds
pub mod Expansion
pub mod Volumes
pub mod Claims
pub mod Handlers
pub mod Included
pub mod Inclusion
pub mod Answers
pub mod Responses
pub mod Cached
pub mod Drawn
pub mod Edges
pub mod Replies
pub mod Current
pub mod Shown
pub mod Charts
