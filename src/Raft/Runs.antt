-- ===== src/Raft/Runs.antt =====
-- code/raft_election_sim/raft.go: what holds of a cluster over its whole life, under every sequence
-- of ticks, partitions and heals and every stream of random draws.
use system_design_handbook.Base.{
  ℕ, ◌≤◌, ◌<◌, ◌≡◌, refl, inl, inr, not, ◌&&◌, Bool-cases, List, [], ◌∷◌, arith, for_below,
  for_below_ind, count_below, count_below_mono, ltb, for_below_inv,
}
use system_design_handbook.Raft.Cluster.{
  follower, leader, is_leader, Cluster, majority, campaign, conclude, start_election, expire, step,
  partition, heal, new_cluster, ask_vote,
}
use system_design_handbook.Raft.Advance.{Advances, Quiet, Quiet-refl, Quiet-trans, campaign-Quiet}
use system_design_handbook.Raft.Ballot.{Counted-loop}
use system_design_handbook.Raft.Safety.{OneLeader, supporters, campaign-own}
use system_design_handbook.Raft.Progress.{led, led-Quiet, step-both}

-- What can happen to a cluster from outside.
pub data Command : Type 0 where
  tick_once : Command
  cut : List ℕ → Command
  mend : Command

unfoldable pub obey : Command → Cluster → Cluster
obey tick_once c = step c
obey (cut ids) c = partition ids c
obey mend c = heal c

unfoldable pub run : List Command → Cluster → Cluster
run [] c = c
run (x ∷ xs) c = run xs (obey x c)

obey-both : (x : Command) (c : Cluster) → OneLeader c → OneLeader (obey x c)
unfolding obey partition heal majority supporters
obey-both tick_once c h = (step-both c).1 h
obey-both (cut ids) c h = record { majorities = h.majorities; unique = h.unique }
obey-both mend c h = record { majorities = h.majorities; unique = h.unique }

run-OneLeader : (xs : List Command) (c : Cluster) → OneLeader c → OneLeader (run xs c)
unfolding run
run-OneLeader [] c h = h
run-OneLeader (x ∷ xs) c h = run-OneLeader xs (obey x c) (obey-both x c h)

new_cluster-follower :
    (size : ℕ) (draws : ℕ → ℕ) (i : ℕ) → ((new_cluster size draws).nodes i).role ≡ follower
unfolding new_cluster
new_cluster-follower size draws i =
    for_below_inv (λ (c : Cluster). (c.nodes i).role ≡ follower) _ (λ k c h. ground arith) size _
      refl

new_cluster-OneLeader : (size : ℕ) (draws : ℕ → ℕ) → OneLeader (new_cluster size draws)
new_cluster-OneLeader size draws = record {
  majorities = λ l led. cc (new_cluster-follower size draws l);
  unique = λ k l kled lled e. cc (new_cluster-follower size draws k);
}

-- A new cluster after these commands.
abbrev pub life : ℕ → (ℕ → ℕ) → List Command → Cluster
life size draws xs = run xs (new_cluster size draws)

-- Election safety: in a cluster of any size, with any random draws, after any sequence of ticks,
-- partitions and heals, two nodes that lead in the same term are one node.
pub one_leader_per_term :
    (size : ℕ) (draws : ℕ → ℕ) (xs : List Command) (k l : ℕ)
    → ((life size draws xs).nodes k).role ≡ leader
    → ((life size draws xs).nodes l).role ≡ leader
    → ((life size draws xs).nodes k).term ≡ ((life size draws xs).nodes l).term
    → k ≡ l
one_leader_per_term size draws xs =
    (run-OneLeader xs (new_cluster size draws) (new_cluster-OneLeader size draws)).unique

obey-Advances : (x : Command) (c : Cluster) (i : ℕ) → Advances (c.nodes i) ((obey x c).nodes i)
unfolding obey partition heal
obey-Advances tick_once c i = (step-both c).0.each i
obey-Advances (cut ids) c i = inr (refl, inr refl)
obey-Advances mend c i = inr (refl, inr refl)

-- A node's term never decreases, and within one term it keeps the vote that it has cast, whatever
-- ticks, partitions and heals come: from any state of the cluster, not only a reachable one.
pub votes_are_kept :
    (xs : List Command) (c : Cluster) (i : ℕ) → Advances (c.nodes i) ((run xs c).nodes i)
unfolding run
votes_are_kept [] c i = inr (refl, inr refl)
votes_are_kept (x ∷ xs) c i = ground (arith, obey-Advances x c i, votes_are_kept xs (obey x c) i)

-- The number of nodes that messages reach.
unfoldable pub reachable : Cluster → ℕ
reachable c = count_below c.size (λ i. not (c.partitioned i))

conclude_loses :
    (n term votes : ℕ) (c : Cluster) → votes < majority c → conclude n term (c, votes) ≡ c
unfolding conclude majority
conclude_loses n term votes c h = ground arith

module _ (n : ℕ) (c : Cluster) (lt : n < c.size) (few : reachable c < majority c) where
  start_election-minority : Quiet c (start_election n c)
  unfolding start_election reachable majority
  start_election-minority =
      let d = campaign n c in
      let term = (d.nodes n).term in
      let q = campaign-Quiet n c in
      elim (Bool-cases (d.partitioned n)) [
        | inl out ↦ rw out q
        | inr reached ↦
            let s = for_below d.size (λ id s. ask_vote id n term s) (d, 1) in
            let lt' : n < d.size = omega (arith, q.same_size) in
            let count = Counted-loop n term d reached lt' (campaign-own n c) in
            let fewer =
              count_below_mono d.size (λ i. not (d.partitioned i)) (λ i. not (c.partitioned i))
                (λ i _ h. ground (arith, q.same_partition i)) in
            let same : count_below d.size (λ i. not (c.partitioned i))
                ≡ count_below c.size (λ i. not (c.partitioned i)) =
              rw q.same_size in
            rw
              (
                reached,
                conclude_loses n term s.1 s.0 (
                    ground (
                      arith, fewer, same, count.votes_reachable, count.quiet.same_size, q.same_size,
                    )),
              )
              (Quiet-trans c d s.0 q count.quiet)
      ]

  expire-minority : Quiet c (expire n c)
  unfolding expire
  expire-minority =
      elim (Bool-cases
        (not (is_leader (c.nodes n).role) && not (ltb c.now (c.nodes n).election_deadline))) [
          | inl due ↦ rw due start_election-minority
          | inr idle ↦ rw idle (Quiet-refl c)
        ]

reachable-Quiet : (c d : Cluster) → Quiet c d → reachable d ≤ reachable c
unfolding reachable
reachable-Quiet c d q =
    rw q.same_size (count_below_mono c.size _ _ (λ i lt h. ground (arith, q.same_partition i)))

-- While fewer nodes than a majority can be reached, a tick elects nobody: every leader after it led
-- before it, in the same term.
pub minority_elects_nobody :
    (c : Cluster)
    → reachable c < majority c
    → (l : ℕ) → ((step c).nodes l).role ≡ leader
    → ((c.nodes l).role ≡ leader) × (((step c).nodes l).term ≡ (c.nodes l).term)
unfolding step majority
minority_elects_nobody c few l led' =
    let start = led-Quiet c in
    let q =
      for_below_ind (λ k d. Quiet c d) expire c.size
        (λ i lt d h. Quiet-trans c d _ h (
          expire-minority i d (omega (arith, h.same_size))
            (omega (arith, h.same_size, reachable-Quiet c d h))))
        (led c) start in
    (q.each l).1 led'
