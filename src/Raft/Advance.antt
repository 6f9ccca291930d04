-- ===== src/Raft/Advance.antt =====
-- code/raft_election_sim/raft.go: a node's term and vote only ever advance, and nothing but a won
-- election makes a leader.
use system_design_handbook.Base.{
  ℕ, ◌<◌, ◌≡◌, refl, ◌∙◌, ◌⊎◌, inl, inr, not, ◌&&◌, ◌||◌, Bool-cases, none, arith, for_below_inv,
  ◌==◌,
}
use system_design_handbook.Raft.Cluster.{
  leader, is_leader, Node, Cluster, request_vote, ask_vote, campaign, heartbeat, send_heartbeats,
  lead,
}

-- A later term, or the same term with the vote kept once it is cast.
abbrev pub Advances : Node → Node → Type 0
Advances m n =
    (m.term < n.term) ⊎ ((m.term ≡ n.term) × ((m.voted_for ≡ none) ⊎ (n.voted_for ≡ m.voted_for)))

-- Advances, and does not become leader, or the leader of another term.
abbrev pub NodeQuiet : Node → Node → Type 0
NodeQuiet m n = Advances m n × ((n.role ≡ leader) → (m.role ≡ leader) × (n.term ≡ m.term))

pub record Quiet (c d : Cluster) : Type 0 where
  pub same_size : d.size ≡ c.size
  pub same_partition : (i : ℕ) → d.partitioned i ≡ c.partitioned i
  pub each : (i : ℕ) → NodeQuiet (c.nodes i) (d.nodes i)

NodeQuiet-refl : (m : Node) → NodeQuiet m m
NodeQuiet-refl m = ground arith

NodeQuiet-trans : (m n o : Node) → NodeQuiet m n → NodeQuiet n o → NodeQuiet m o
NodeQuiet-trans m n o p q = ground arith

pub Quiet-refl : (c : Cluster) → Quiet c c
Quiet-refl c = record {
  same_size = refl;
  same_partition = λ i. refl;
  each = λ i. NodeQuiet-refl (c.nodes i);
}

pub Quiet-trans : (c d e : Cluster) → Quiet c d → Quiet d e → Quiet c e
Quiet-trans c d e p q = record {
  same_size = omega (arith, p.same_size, q.same_size);
  same_partition = λ i. q.same_partition i ∙ p.same_partition i;
  each = λ i. NodeQuiet-trans (c.nodes i) (d.nodes i) (e.nodes i) (p.each i) (q.each i);
}

pub request_vote-Quiet : (v n term : ℕ) (c : Cluster) → Quiet c (request_vote v term n c).0
unfolding request_vote
request_vote-Quiet v n term c = record {
  same_size = ground arith;
  same_partition = λ i. ground arith;
  each = λ i. ground arith;
}

pub heartbeat-Quiet : (id from term : ℕ) (c : Cluster) → Quiet c (heartbeat id from term c)
unfolding heartbeat
heartbeat-Quiet id from term c = record {
  same_size = ground arith;
  same_partition = λ i. ground arith;
  each = λ i. ground arith;
}

pub campaign-Quiet : (n : ℕ) (c : Cluster) → Quiet c (campaign n c)
unfolding campaign
campaign-Quiet n c = record {
  same_size = ground arith;
  same_partition = λ i. ground arith;
  each = λ i. ground arith;
}

pub send_heartbeats-Quiet : (from : ℕ) (c : Cluster) → Quiet c (send_heartbeats from c)
unfolding send_heartbeats
send_heartbeats-Quiet from c =
    for_below_inv (Quiet c) (λ id d. heartbeat id from (c.nodes from).term d)
      (λ i d q. Quiet-trans c d _ q (heartbeat-Quiet i from (c.nodes from).term d)) c.size c
      (Quiet-refl c)

pub lead-Quiet : (id : ℕ) (c : Cluster) → Quiet c (lead id c)
unfolding lead
lead-Quiet id c = elim (Bool-cases (is_leader (c.nodes id).role && not (c.partitioned id))) [
  | inl e ↦ rw e (send_heartbeats-Quiet id c)
  | inr e ↦ rw e (Quiet-refl c)
]

pub ask_vote-Quiet :
    (id n term : ℕ) (c : Cluster) (votes : ℕ) → Quiet c (ask_vote id n term (c, votes)).0
unfolding ask_vote
ask_vote-Quiet id n term c votes = elim (Bool-cases (id == n || c.partitioned id)) [
  | inl e ↦ rw e (Quiet-refl c)
  | inr e ↦ rw e (request_vote-Quiet id n term c)
]
