-- ===== src/Raft/Progress.antt =====
-- code/raft_election_sim/raft.go: a step keeps terms and votes advancing, and at most one leader.
use system_design_handbook.Base.{
  ℕ, ◌+◌, ◌<◌, ◌≡◌, refl, inl, inr, not, ◌&&◌, Bool-cases, arith, for_below, for_below_ind, ltb,
  for_below_inv, ◌∙◌,
}
use system_design_handbook.Raft.Cluster.{
  is_leader, Cluster, campaign, conclude, start_election, lead, expire, step, ask_vote,
}
use system_design_handbook.Raft.Advance.{
  Advances, Quiet, Quiet-refl, Quiet-trans, campaign-Quiet, lead-Quiet,
}
use system_design_handbook.Raft.Ballot.{Counted-loop}
use system_design_handbook.Raft.Safety.{
  OneLeader, OneLeader-Quiet, OneLeader-start_election, conclude-same, conclude-frame, campaign-own,
}

-- Terms and votes advance; the nodes and the partition are the same.
pub record Forward (c d : Cluster) : Type 0 where
  pub same_size : d.size ≡ c.size
  pub same_partition : (i : ℕ) → d.partitioned i ≡ c.partitioned i
  pub each : (i : ℕ) → Advances (c.nodes i) (d.nodes i)

Forward-trans : (c d e : Cluster) → Forward c d → Forward d e → Forward c e
Forward-trans c d e p q = record {
  same_size = omega (arith, p.same_size, q.same_size);
  same_partition = λ i. q.same_partition i ∙ p.same_partition i;
  each = λ i. ground (arith, p.each i, q.each i);
}

Quiet-Forward : (c d : Cluster) → Quiet c d → Forward c d
Quiet-Forward c d q = record {
  same_size = q.same_size;
  same_partition = q.same_partition;
  each = λ i. (q.each i).0;
}

conclude-Forward : (n term votes : ℕ) (c : Cluster) → Forward c (conclude n term (c, votes))
conclude-Forward n term votes c = record {
  same_size = (conclude-frame n term votes c).0;
  same_partition = (conclude-frame n term votes c).1;
  each = λ i. ground (arith, conclude-same n term votes c i);
}

module _ (n : ℕ) (c : Cluster) (lt : n < c.size) where
  start_election-Forward : Forward c (start_election n c)
  unfolding start_election
  start_election-Forward =
      let d = campaign n c in
      let term = (d.nodes n).term in
      let fd = Quiet-Forward c d (campaign-Quiet n c) in
      elim (Bool-cases (d.partitioned n)) [
        | inl cut ↦ rw cut fd
        | inr reached ↦
            let s = for_below d.size (λ id s. ask_vote id n term s) (d, 1) in
            let lt' : n < d.size = omega (arith, fd.same_size) in
            let count = Counted-loop n term d reached lt' (campaign-own n c) in
            rw reached (
              Forward-trans c s.0 _ (Forward-trans c d s.0 fd (Quiet-Forward d s.0 count.quiet))
                (conclude-Forward n term s.1 s.0))
      ]

  expire-Forward : Forward c (expire n c)
  unfolding expire
  expire-Forward =
      elim (Bool-cases
        (not (is_leader (c.nodes n).role) && not (ltb c.now (c.nodes n).election_deadline))) [
          | inl due ↦ rw due start_election-Forward
          | inr idle ↦ rw idle (Quiet-Forward c c (Quiet-refl c))
        ]

  OneLeader-expire : OneLeader c → OneLeader (expire n c)
  unfolding expire
  OneLeader-expire h =
      elim (Bool-cases
        (not (is_leader (c.nodes n).role) && not (ltb c.now (c.nodes n).election_deadline))) [
          | inl due ↦ rw due (OneLeader-start_election n c lt h)
          | inr idle ↦ rw idle h
        ]

-- The two loops of a step.
abbrev pub led : Cluster → Cluster
led c = for_below c.size lead (record c { now = c.now + c.tick })

pub led-Quiet : (c : Cluster) → Quiet c (led c)
led-Quiet c =
    let c' = record c { now = c.now + c.tick } in
    let q =
      for_below_inv (Quiet c') lead (λ i d q. Quiet-trans c' d _ q (lead-Quiet i d)) c.size c'
        (Quiet-refl c') in
    Quiet-trans c c' (led c)
      (record { same_size = refl; same_partition = λ i. refl; each = (Quiet-refl c).each }) q

pub step-both : (c : Cluster) → Forward c (step c) × (OneLeader c → OneLeader (step c))
unfolding step
step-both c =
    let q = led-Quiet c in
    for_below_ind (λ k d. Forward c d × (OneLeader c → OneLeader d)) expire c.size
      (λ i lt d h.
        let lt' : i < d.size = omega (arith, h.0.same_size) in
        (Forward-trans c d _ h.0 (expire-Forward i d lt'), λ o. OneLeader-expire i d lt' (h.1 o)))
      (led c) (Quiet-Forward c (led c) q, OneLeader-Quiet c (led c) q)
