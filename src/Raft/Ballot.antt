-- ===== src/Raft/Ballot.antt =====
-- code/raft_election_sim/raft.go: what the votes that `startElection` counts stand for.
use system_design_handbook.Base.{
  ℕ, suc, ◌+◌, ◌≤◌, ◌<◌, ◌≡◌, ◌⊎◌, ◌≢◌, Bool, true, false, not, ◌&&◌, Option, none, some, arith,
  for_below, for_below_ind, count_below, count_below-suc, count_below_mono, bit, leb, ◌==◌,
}
use system_design_handbook.Raft.Cluster.{Node, Cluster, request_vote, ask_vote}
use system_design_handbook.Raft.Advance.{Quiet, Quiet-refl, Quiet-trans, ask_vote-Quiet}

is_vote_for : Option ℕ → ℕ → Bool
is_vote_for none n = false
is_vote_for (some v) n = v == n

-- The node stands in this term and voted for `n` in it.
unfoldable pub voted_in : ℕ → ℕ → Node → Bool
unfolding is_vote_for
voted_in term n v = v.term == term && is_vote_for v.voted_for n

pub voted_in-lem :
    (term n : ℕ) (v : Node) → v.term ≡ term → v.voted_for ≡ some n → voted_in term n v ≡ true
unfolding voted_in
voted_in-lem term n v e f = ground arith

-- The state of the loop after the nodes below `k`: `n` itself counts from the start.
pub record Counted (n term : ℕ) (c : Cluster) (k : ℕ) (s : Cluster × ℕ) : Type 0 where
  pub quiet : Quiet c s.0
  pub own_vote : voted_in term n (s.0.nodes n) ≡ true
  pub votes_cast : s.1 ≤ count_below k (λ i. voted_in term n (s.0.nodes i)) + bit (leb k n)
  pub votes_reachable : s.1 ≤ count_below k (λ i. not (c.partitioned i)) + bit (leb k n)

ask_vote-voted_in :
    (id n term : ℕ) (c : Cluster) (votes i : ℕ)
    → voted_in term n (c.nodes i) ≡ true
    → voted_in term n ((ask_vote id n term (c, votes)).0.nodes i) ≡ true
unfolding ask_vote request_vote voted_in
ask_vote-voted_in id n term c votes i h = ground arith

-- A vote more is counted only for a reachable node other than `n`, which then has cast it.
ask_vote_lem :
    (id n term : ℕ) (c : Cluster) (votes : ℕ)
    → let s = ask_vote id n term (c, votes) in
      (s.1 ≡ votes)
      ⊎ ((s.1 ≡ votes + 1)
          × (id ≢ n)
          × (c.partitioned id ≡ false)
          × (voted_in term n (s.0.nodes id) ≡ true))
unfolding ask_vote request_vote voted_in
ask_vote_lem id n term c votes = ground arith

module _ (n term : ℕ) (c : Cluster) (reached : c.partitioned n ≡ false) where
  Counted-ask :
      (k : ℕ) (d : Cluster) (votes : ℕ)
      → Counted n term c k (d, votes)
      → Counted n term c (suc k) (ask_vote k n term (d, votes))
  Counted-ask k d votes h =
      let s = ask_vote k n term (d, votes) in
      let own = ask_vote-voted_in k n term d votes n h.own_vote in
      let kept =
        count_below_mono k (λ i. voted_in term n (d.nodes i)) (λ i. voted_in term n (s.0.nodes i))
          (λ i lt. ask_vote-voted_in k n term d votes i) in
      let cast = count_below-suc k (λ i. voted_in term n (s.0.nodes i)) in
      let reach = count_below-suc k (λ i. not (c.partitioned i)) in
      record {
        quiet = Quiet-trans c d s.0 h.quiet (ask_vote-Quiet k n term d votes);
        own_vote = own;
        votes_cast = ground (arith, ask_vote_lem k n term d votes, h.votes_cast);
        votes_reachable =
            ground
              (arith, ask_vote_lem k n term d votes, h.votes_reachable, h.quiet.same_partition k);
      }

  -- The election's loop over all the nodes, from the state after `campaign` with one vote.
  pub Counted-loop :
      n < c.size
      → voted_in term n (c.nodes n) ≡ true
      → Counted n term c c.size (for_below c.size (λ id s. ask_vote id n term s) (c, 1))
  Counted-loop lt own =
      for_below_ind (Counted n term c) (λ id s. ask_vote id n term s) c.size
        (λ k _ s h. Counted-ask k s.0 s.1 h) (c, 1)
        (record {
          quiet = Quiet-refl c;
          own_vote = own;
          votes_cast = first _;
          votes_reachable = first _;
        })
    where
      first : (m : ℕ) → 1 ≤ m + bit (leb 0 n)
      first m = ground arith
