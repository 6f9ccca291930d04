-- ===== src/Raft.antt =====
-- code/raft_election_sim/raft.go: leader election.
mod Cluster
mod Advance
mod Ballot
mod Safety
mod Progress
mod Runs
mod Leaders
mod Examples
pub use Cluster.*
pub use Safety.*
pub use Progress.*
pub use Runs.*
pub use Leaders.*
