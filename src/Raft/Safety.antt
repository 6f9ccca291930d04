-- ===== src/Raft/Safety.antt =====
-- code/raft_election_sim/raft.go: election safety, by the intersection of two majorities.
use system_design_handbook.Base.{
  ℕ, ◌≤◌, ◌<◌, ◌≡◌, ◌⊎◌, inl, inr, Bool, true, ◌||◌, Bool-cases, arith, for_below, count_below,
  count_below_mono, pigeonhole, ltb,
}
use system_design_handbook.Raft.Cluster.{
  leader, Node, Cluster, majority, campaign, conclude, start_election, ask_vote,
}
use system_design_handbook.Raft.Advance.{NodeQuiet, Quiet, campaign-Quiet}
use system_design_handbook.Raft.Ballot.{voted_in, Counted-loop}

-- The node voted for `n` in the term, or has left that term behind.
unfoldable pub supports : ℕ → ℕ → Node → Bool
supports term n v = ltb term v.term || voted_in term n v

unfoldable pub supporters : Cluster → ℕ → ℕ
supporters c l = count_below c.size (λ i. supports (c.nodes l).term l (c.nodes i))

pub record OneLeader (c : Cluster) : Type 0 where
  pub majorities : (l : ℕ) → (c.nodes l).role ≡ leader → majority c ≤ supporters c l
  pub unique :
      (k l : ℕ)
      → (c.nodes k).role ≡ leader
      → (c.nodes l).role ≡ leader
      → (c.nodes k).term ≡ (c.nodes l).term
      → k ≡ l

supports-NodeQuiet :
    (term n : ℕ) (v w : Node) → NodeQuiet v w → supports term n v ≡ true → supports term n w ≡ true
unfolding supports voted_in
supports-NodeQuiet term n v w q h = ground arith

module _ (c d : Cluster) (q : Quiet c d) where
  supporters-Quiet : (l : ℕ) → (d.nodes l).role ≡ leader → supporters c l ≤ supporters d l
  unfolding supporters
  supporters-Quiet l led =
      rw (q.same_size, ((q.each l).1 led).1)
        (count_below_mono c.size _ _ (λ i lt. supports-NodeQuiet _ l _ _ (q.each i)))

  pub OneLeader-Quiet : OneLeader c → OneLeader d
  unfolding majority
  OneLeader-Quiet h = record {
    majorities = λ l led.
        omega (arith, q.same_size, supporters-Quiet l led, h.majorities l ((q.each l).1 led).0);
    unique = λ k l kled lled e.
        h.unique k l ((q.each k).1 kled).0 ((q.each l).1 lled).0
          (omega (arith, ((q.each k).1 kled).1, ((q.each l).1 lled).1));
  }

module _ (n term votes : ℕ) (c : Cluster) where
  pub conclude-same :
      (i : ℕ)
      → let d = conclude n term (c, votes) in
        ((d.nodes i).term ≡ (c.nodes i).term) × ((d.nodes i).voted_for ≡ (c.nodes i).voted_for)
  unfolding conclude
  conclude-same i = ground arith

  pub conclude-frame :
      let d = conclude n term (c, votes) in
      (d.size ≡ c.size) × ((i : ℕ) → d.partitioned i ≡ c.partitioned i)
  unfolding conclude
  conclude-frame = (ground arith, λ i. ground arith)

  conclude-leader :
      (i : ℕ)
      → ((conclude n term (c, votes)).nodes i).role ≡ leader
      → ((c.nodes i).role ≡ leader) ⊎ ((i ≡ n) × ((c.nodes n).term ≡ term) × (majority c ≤ votes))
  unfolding conclude
  conclude-leader i h = ground arith

  supporters-conclude : (l : ℕ) → supporters c l ≤ supporters (conclude n term (c, votes)) l
  unfolding supporters supports voted_in
  supporters-conclude l =
      let d = conclude n term (c, votes) in
      rw (conclude-frame.0)
        (count_below_mono c.size _ _ (λ i lt h. ground (arith, conclude-same i, conclude-same l)))

  module _ (h : OneLeader c)
      (cast : votes ≤ count_below c.size (λ i. voted_in term n (c.nodes i))) where
    -- Two majorities of one term share a voter, so they elected one node.
    same_winner :
        (l : ℕ) → (c.nodes l).role ≡ leader → (c.nodes l).term ≡ term → majority c ≤ votes → n ≡ l
    unfolding majority supporters supports voted_in
    same_winner l led e won =
        let (i, lt, a, b) =
          pigeonhole c.size (λ i. voted_in term n (c.nodes i))
            (λ i. supports (c.nodes l).term l (c.nodes i)) (omega (arith, h.majorities l led)) in
        ground arith

    own_majority : (c.nodes n).term ≡ term → majority c ≤ votes → majority c ≤ supporters c n
    unfolding supporters supports
    own_majority e won =
        let more =
          count_below_mono c.size (λ i. voted_in term n (c.nodes i))
            (λ i. supports (c.nodes n).term n (c.nodes i)) (λ i lt v. ground arith) in
        omega arith

    majorities-conclude :
        (l : ℕ) → ((conclude n term (c, votes)).nodes l).role ≡ leader → majority c ≤ supporters c l
    majorities-conclude l led = elim (conclude-leader l led) [
      | inl old ↦ h.majorities l old
      | inr (e, now, won) ↦ rw e (own_majority now won)
    ]

    unique-conclude :
        (k l : ℕ)
        → ((conclude n term (c, votes)).nodes k).role ≡ leader
        → ((conclude n term (c, votes)).nodes l).role ≡ leader
        → (c.nodes k).term ≡ (c.nodes l).term
        → k ≡ l
    unique-conclude k l kled lled e = elim (conclude-leader k kled) [
      | inl kold ↦ elim (conclude-leader l lled) [
        | inl lold ↦ h.unique k l kold lold e
        | inr (le, now, won) ↦ ground (arith, same_winner k kold)
      ]
      | inr (ke, now, won) ↦ elim (conclude-leader l lled) [
        | inl lold ↦ ground (arith, same_winner l lold)
        | inr (le, _, _) ↦ cc
      ]
    ]

    OneLeader-conclude : OneLeader (conclude n term (c, votes))
    unfolding majority
    OneLeader-conclude = record {
      majorities = λ l led.
          omega (arith, majorities-conclude l led, supporters-conclude l, conclude-frame.0);
      unique = λ k l kled lled e.
          unique-conclude k l kled lled (omega (arith, (conclude-same k).0, (conclude-same l).0));
    }

pub campaign-own :
    (n : ℕ) (c : Cluster) → voted_in ((campaign n c).nodes n).term n ((campaign n c).nodes n) ≡ true
unfolding campaign voted_in
campaign-own n c = ground arith

pub OneLeader-start_election :
    (n : ℕ) (c : Cluster) → n < c.size → OneLeader c → OneLeader (start_election n c)
unfolding start_election
OneLeader-start_election n c lt h =
    let d = campaign n c in
    let term = (d.nodes n).term in
    let hd = OneLeader-Quiet c d (campaign-Quiet n c) h in
    elim (Bool-cases (d.partitioned n)) [
      | inl cut ↦ rw cut hd
      | inr reached ↦
          let s = for_below d.size (λ id s. ask_vote id n term s) (d, 1) in
          let lt' : n < d.size = omega (arith, (campaign-Quiet n c).same_size) in
          let count = Counted-loop n term d reached lt' (campaign-own n c) in
          rw reached (
            OneLeader-conclude n term s.1 s.0 (OneLeader-Quiet d s.0 count.quiet hd)
              (ground (arith, count.votes_cast, count.quiet.same_size)))
    ]
