-- ===== src/Raft/Examples.antt =====
-- code/raft_election_sim/raft.go: an election, and the theorems at concrete inputs.
use system_design_handbook.Base.{
  ℕ, zero, suc, ◌*◌, ◌≡◌, refl, List, [], ◌∷◌, for_below, count_below,
}
use system_design_handbook.Raft.Cluster.{
  leader, Cluster, new_cluster, step, partition, heal, leaders, run_until_leader, start_election,
  campaign, conclude, ask_vote, request_vote, lead, expire, send_heartbeats, heartbeat, majority,
}
use system_design_handbook.Raft.Runs.{
  Command, tick_once, obey, run, life, one_leader_per_term, reachable,
}

program : Unit {0}
unfolding for_below count_below new_cluster step partition heal leaders run_until_leader
    start_election campaign conclude ask_vote request_vote lead expire send_heartbeats heartbeat
    majority obey run reachable
program = tt

-- Timeouts of 150, 200 and 250 ms for the first draws.
abbrev spread : ℕ → ℕ
spread k = k * 50_000_000

abbrev ticks : ℕ → List Command
ticks zero = []
ticks (suc n) = tick_once ∷ ticks n

-- The first election: node 0 times out first.
abbrev elected : Cluster
elected = life 3 spread (ticks 15)

abbrev first : ℕ
first = 0

leader_elected : (elected.nodes 0).role ≡ leader
unfolding program
leader_elected = refl

one_leader_per_term_example : first ≡ first
one_leader_per_term_example =
    one_leader_per_term 3 spread (ticks 15) first first leader_elected leader_elected refl

-- The leader and a follower are cut off: one node of three is left.
abbrev split : Cluster
split = partition (0 ∷ 1 ∷ []) elected
