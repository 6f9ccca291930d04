-- ===== src/Raft/Cluster.antt =====
-- code/raft_election_sim/raft.go: nodes, the cluster, elections, heartbeats and the simulated clock.
-- The map of nodes has the keys 0 to size - 1 that `NewCluster` makes, so it is a function read
-- below `size`; a node's ID is its key. The generator seeded by the caller is an arbitrary stream
-- of draws. Times are in nanoseconds from the simulation's start.
use system_design_handbook.Base.{
  ℕ, zero, suc, ◌+◌, ◌-◌, ◌/◌, ◌%◌, Bool, true, false, not, ◌&&◌, ◌||◌, Option, none, some, List,
  [], ◌∷◌, ◌++◌, ltb, leb, ◌==◌, if◌then◌else◌, for_below,
}

pub data Role : Type 0 where
  follower candidate leader : Role

unfoldable pub is_leader : Role → Bool
is_leader leader = true
is_leader _ = false

unfoldable pub is_candidate : Role → Bool
is_candidate candidate = true
is_candidate _ = false

-- `votedFor` is -1 when the node has not voted in its term: here `none`.
pub record Node : Type 0 where
  pub role : Role
  pub term : ℕ
  pub voted_for : Option ℕ
  pub election_deadline : ℕ
  pub votes_received : List ℕ

-- The lines that `logf` writes.
pub data LogLine : Type 0 where
  starts_election : ℕ → ℕ → LogLine
  becomes_leader : ℕ → ℕ → ℕ → LogLine
  steps_down : ℕ → ℕ → LogLine
  partitioned_nodes : List ℕ → LogLine
  partition_healed : LogLine

pub record Cluster : Type 0 where
  pub size : ℕ
  pub nodes : ℕ → Node
  pub partitioned : ℕ → Bool
  pub draws : ℕ → ℕ
  pub drawn : ℕ
  pub now : ℕ
  pub log : List (ℕ × LogLine)
  pub min_timeout : ℕ
  pub max_timeout : ℕ
  pub tick : ℕ

unfoldable pub majority : Cluster → ℕ
majority c = c.size / 2 + 1

unfoldable pub set_node : ℕ → Node → Cluster → Cluster
set_node id n c = record c { nodes = λ i. if i == id then n else c.nodes i }

unfoldable pub logf : LogLine → Cluster → Cluster
logf line c = record c { log = c.log ++ ((c.now, line) ∷ []) }

-- `Int63n(spread)` is the next draw reduced below the spread.
unfoldable pub reset_election_timer : ℕ → Cluster → Cluster
unfolding set_node
reset_election_timer id c =
    let d = c.min_timeout + c.draws c.drawn % (c.max_timeout - c.min_timeout) in
    record (set_node id (record (c.nodes id) { election_deadline = c.now + d }) c) {
      drawn = c.drawn + 1;
    }

abbrev fresh_node : Node
fresh_node = record {
  role = follower;
  term = 0;
  voted_for = none;
  election_deadline = 0;
  votes_received = [];
}

unfoldable pub new_cluster : ℕ → (ℕ → ℕ) → Cluster
unfolding reset_election_timer set_node
new_cluster size draws =
    for_below size (λ id c. reset_election_timer id (set_node id fresh_node c))
      (record {
        size = size;
        nodes = λ _. fresh_node;
        partitioned = λ _. false;
        draws = draws;
        drawn = 0;
        now = 0;
        log = [];
        min_timeout = 150_000_000;
        max_timeout = 300_000_000;
        tick = 10_000_000;
      })

-- `votedFor != -1 && votedFor != candidateID`
voted_for_other : Option ℕ → ℕ → Bool
voted_for_other none id = false
voted_for_other (some v) id = not (v == id)

-- What a voter becomes when it sees a term at least its own.
adopt_term : ℕ → Node → Node
adopt_term term v =
    if ltb v.term term then record v { term = term; role = follower; voted_for = none } else v

unfoldable pub request_vote : ℕ → ℕ → ℕ → Cluster → Cluster × Bool
unfolding set_node reset_election_timer voted_for_other adopt_term
request_vote voter term candidate_id c =
    if ltb term (c.nodes voter).term
    then (c, false)
    else (let v = adopt_term term (c.nodes voter) in
        if voted_for_other v.voted_for candidate_id then (set_node voter v c, false) else (
          reset_election_timer voter
              (set_node voter (record v { voted_for = some candidate_id }) c),
          true,
        ))

-- The body of the loop that collects votes.
unfoldable pub ask_vote : ℕ → ℕ → ℕ → Cluster × ℕ → Cluster × ℕ
ask_vote id n term (c, votes) =
    if id == n || c.partitioned id
    then (c, votes)
    else (let (c', granted) = request_vote id term n c in
        (c', if granted then votes + 1 else votes))

-- The first part of `startElection`, up to the line that it logs.
unfoldable pub campaign : ℕ → Cluster → Cluster
unfolding set_node reset_election_timer logf
campaign n c =
    let node = c.nodes n in
    let c' =
      set_node n
        (record node {
          term = node.term + 1;
          role = candidate;
          voted_for = some n;
          votes_received = n ∷ [];
        })
        c in
    logf (starts_election n (node.term + 1)) (reset_election_timer n c')

-- The last part: the re-check, under the lock, of what the votes were counted for.
unfoldable pub conclude : ℕ → ℕ → Cluster × ℕ → Cluster
unfolding set_node logf is_candidate majority
conclude n term (c, votes) =
    let node = c.nodes n in
    if is_candidate node.role && node.term == term && leb (majority c) votes
    then logf (becomes_leader n term votes) (set_node n (record node { role = leader }) c)
    else c

unfoldable pub start_election : ℕ → Cluster → Cluster
start_election n c =
    let c' = campaign n c in
    let term = (c'.nodes n).term in
    if c'.partitioned n
    then c'
    else conclude n term (for_below c'.size (λ id s. ask_vote id n term s) (c', 1))

hear_heartbeat : ℕ → Node → Node
hear_heartbeat term f =
    if ltb f.term term
    then record f { term = term; voted_for = none; role = follower }
    else record f { role = follower }

-- A follower's later term makes the leader step down.
see_term : ℕ → ℕ → Cluster → Cluster
unfolding set_node logf
see_term id stale_term c =
    let l = c.nodes id in
    if ltb l.term stale_term
    then logf (steps_down id stale_term)
        (set_node id (record l { term = stale_term; role = follower; voted_for = none }) c)
    else c

-- The body of the loop of `sendHeartbeats`, for the term read before the loop.
unfoldable pub heartbeat : ℕ → ℕ → ℕ → Cluster → Cluster
unfolding set_node reset_election_timer hear_heartbeat see_term
heartbeat id from term c =
    if id == from || c.partitioned id
    then c
    else (if leb (c.nodes id).term term
        then reset_election_timer id (set_node id (hear_heartbeat term (c.nodes id)) c)
        else see_term from (c.nodes id).term c)

unfoldable pub send_heartbeats : ℕ → Cluster → Cluster
send_heartbeats from c =
    let term = (c.nodes from).term in for_below c.size (λ id c'. heartbeat id from term c') c

unfoldable pub lead : ℕ → Cluster → Cluster
unfolding is_leader
lead id c =
    if is_leader (c.nodes id).role && not (c.partitioned id) then send_heartbeats id c else c

unfoldable pub expire : ℕ → Cluster → Cluster
unfolding is_leader
expire id c =
    let n = c.nodes id in
    if not (is_leader n.role) && not (ltb c.now n.election_deadline) then start_election id c else c

unfoldable pub step : Cluster → Cluster
step c =
    let c' = record c { now = c.now + c.tick } in
    for_below c'.size expire (for_below c'.size lead c')

mem : ℕ → List ℕ → Bool
mem i [] = false
mem i (j ∷ js) = i == j || mem i js

unfoldable pub partition : List ℕ → Cluster → Cluster
unfolding logf mem
partition ids c =
    logf (partitioned_nodes ids) (record c { partitioned = λ i. mem i ids || c.partitioned i })

unfoldable pub heal : Cluster → Cluster
unfolding logf
heal c = logf partition_healed (record c { partitioned = λ _. false })

unfoldable pub leaders : Cluster → List ℕ
unfolding is_leader
leaders c =
    for_below c.size (λ id out. if is_leader (c.nodes id).role then out ++ (id ∷ []) else out) []

-- `len(l) == 1`
only : List ℕ → Option ℕ
only (l ∷ []) = some l
only _ = none

unfoldable pub run_until_leader : ℕ → Cluster → Cluster × Option ℕ
unfolding only
run_until_leader zero c = (c, none)
run_until_leader (suc k) c =
    let c' = step c in
    let rest = run_until_leader k c' in
    elim (only (leaders c')) [ none ↦ rest | some l ↦ (c', some l) ]
