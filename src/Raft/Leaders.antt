-- ===== src/Raft/Leaders.antt =====
-- code/raft_election_sim/raft.go: `Leaders` and `RunUntilLeader`.
use system_design_handbook.Base.{
  ℕ, zero, suc, ◌<◌, ◌≡◌, inl, inr, true, Bool-cases, some, List, [], ◌∷◌, ◌++◌, arith,
  for_below_ind,
}
use system_design_handbook.Raft.Cluster.{
  Role, leader, is_leader, Cluster, step, leaders, run_until_leader,
}

abbrev AllLead : Cluster → List ℕ → Type 0
AllLead c [] = Unit
AllLead c (l ∷ ls) = (l < c.size) × ((c.nodes l).role ≡ leader) × AllLead c ls

AllLead-snoc :
    (c : Cluster) (ls : List ℕ) (l : ℕ)
    → AllLead c ls
    → l < c.size
    → (c.nodes l).role ≡ leader
    → AllLead c (ls ++ (l ∷ []))
AllLead-snoc c [] l h lt led = (lt, led, tt)
AllLead-snoc c (k ∷ ls) l h lt led = (h.0, h.1, AllLead-snoc c ls l h.2 lt led)

leader-is_leader : (r : Role) → is_leader r ≡ true → r ≡ leader
unfolding is_leader
leader-is_leader r h = ground arith

leaders-AllLead : (c : Cluster) → AllLead c (leaders c)
unfolding leaders
leaders-AllLead c =
    for_below_ind (λ k ls. AllLead c ls) _ c.size
      (λ i lt ls h. elim (Bool-cases (is_leader (c.nodes i).role)) [
        | inl e ↦ rw e (AllLead-snoc c ls i h lt (leader-is_leader _ e))
        | inr e ↦ rw e h
      ])
      [] tt

-- `RunUntilLeader` returns a node only if it is the one node listed as leader in the cluster that it
-- leaves behind, which then is in the cluster and has the leader's role.
pub run_until_leader_sound :
    (budget : ℕ) (c d : Cluster) (l : ℕ)
    → run_until_leader budget c ≡ (d, some l)
    → (leaders d ≡ l ∷ []) × (l < d.size) × ((d.nodes l).role ≡ leader)
unfolding run_until_leader
run_until_leader_sound zero c d l h = ground arith
run_until_leader_sound (suc n) c d l h =
    ground (arith, leaders-AllLead (step c), run_until_leader_sound n (step c) d l)
