-- ===== src/CommonSubset.antt =====
-- commonsubset/commonsubset.go: the asynchronous common subset of one round at one node.
pub mod State
pub mod Conditions
pub mod Commits
pub mod Events
pub mod Invariant
pub mod Agreement
pub mod Safety
