-- ===== src/Lib.antt =====
-- The programs of code/ in this handbook are small, self-contained Go packages, each the core of one
-- distributed-systems technique. They share no code; each is a state with operations that a mutex
-- makes atomic. The library models each package in a module tree of its own.
--
-- Shared modules:
--   Base       names of the libraries passed on, Boolean tests, lists, options; Base.Counting counts
--              over the numbers below a bound, Base.Bits has the bit operations that are arithmetic,
--              Base.Dict is Go's map with string keys.
--   Bytes      buffers, little-endian numbers and io.ReadFull; Bytes.Order is the order of strings.
--   Int        int64 values and times as integers; a time is a count of nanoseconds.
--
-- Components:
--   Raft          code/raft_election_sim/raft.go. Cluster: the nodes, RequestVote, startElection,
--                 sendHeartbeats, Step, Partition, Heal, Leaders, RunUntilLeader. Advance, Ballot,
--                 Safety: terms and votes advance, counted votes are cast votes, majorities
--                 intersect. Progress, Runs, Leaders: what holds of every life of a cluster.
--   Breaker       code/circuit_breaker/breaker.go. Steps: New, Call with its halves beforeCall and
--                 afterCall, transition, State, Failures. Safety, Trips, Recovery: the state machine.
--   Clock         code/vector_clock/clock.go. Maps: the map of counters. Vector: Increment, Merge,
--                 Compare. Replica: Write, Receive. Order, Kept, Siblings: the proofs.
--   Snowflake     code/snowflake_id/snowflake.go. Generator: NewGenerator, Next, Parse. Layout,
--                 Monotone, Ids, Waiting: the proofs.
--   Grpc          code/grpc_example/wire.go and rpc.go. Varint: AppendVarint, ConsumeVarint,
--                 VarintSize, ZigZag. Fields: tags and values, SkipValue. Message: Order, Marshal,
--                 Unmarshal, Describe. Frames: writeFrame, readFrame. Orders: OrderStore. Service:
--                 dispatch, handle and the client's calls. Watching: WatchOrders. Groups, Sizes,
--                 Signed, Encodings, Parts, RoundTrip: what is written is read back. Reads, Rounds,
--                 Runs, Unknown, Fronts, Kept: any input. Stores, Creation, Listing: what the store keeps
--                 and lists. Remote: a remote call is the local one.
--   Idempotency   code/idempotency_keys/idempotency.go. Store: Execute as its two locked phases (claim
--                 and finish) and as a whole, Get, Purge, Len, HTTPStatus. System: the phases of
--                 many callers interleaved. Once, Replay: the proofs.
--   Merkle        code/merkle_tree/merkle.go. Tree: Build, RootHash, Diff, CompareCost. Plans: a tree with the
--                 values below it. Seen, Covers, Levels, Pairs, Repair: Diff misses no difference.
--                 Changes, Cost: what CompareCost counts. Separator: keys with the separator byte.
--   Outbox        code/outbox_pattern/outbox.go. Database: DB, Tx, PlaceOrder. Relay: Broker,
--                 RecordingBroker, RunOnce, RunUntilDrained. Pending, Atomic, Delivery, Drain, Life:
--                 the proofs.
--   Wal           code/wal/wal.go. Log: append, Put, Delete, Sync, Truncate, readAll, Replay, Open,
--                 Recover. Frames, Crash, Writes, Appends, Recovery, Oversized: the proofs.
--   Sketch        code/count_min_sketch/cms.go. Counters: Add, Estimate, HeavyHitters.
--                 Bounds, Heavy: the proofs.
--   Bloom         code/bloom_filter/bloom.go. Filter: Add, Contains. Words, Growth: the bits.
--                 Positions, Members, Answers: the proofs.
--   Bulkhead      code/bulkhead_semaphore/bulkhead.go. Slots: Do and TryDo as programs of atomic steps.
--                 Counts, Safety, Capacity: the proofs.
--   Ring          code/consistent_hashing/ring.go. Positions: Add, Remove, Get, GetN. Owners,
--                 Sorted, Joining, Leaving, Replicas: the proofs.
--   Limiter       code/rate_limiter/limiter.go, the fixed window. Window: Allow. Bursts: the proofs.
--   Lru           code/lru_cache/lru.go. Cache: Get, Put, unlink, evict. Recency: the bounded list that it
--                 implements. Refinement, History: the proofs.
--   Lsm           code/lsm_memtable/lsm.go. Memtable: the skip list. Table: Flush and SSTable. Tree:
--                 LSMTree. Links, Sorted, Search: one level, sorted lists, the search down the
--                 levels. Weights, Map, Linking, Inserts: the memtable is a map. Scans, Offsets,
--                 Index, Flushing: a table answers as the memtable did. Operations, Refinement: the
--                 tree answers with the last value written.
-- Each component's Examples module runs its definitions on concrete inputs.
--
-- Conventions. A method is a function from the old state to the new one and its answer. An atomic step
-- is what the source does between a lock and an unlock; where calls can interleave, a sequence of such
-- steps in any order stands for the goroutines. Every reading of a clock is an argument or an element
-- of an arbitrary sequence, and so are random draws; SHA-256 and the JSON text of an event are
-- parameters, and so are CRC-32, FNV and SHA-1. Go's maps are association lists whose lookup is
-- proved, or functions where the keys are fixed; an order of iteration that Go leaves open does not
-- show in the results. Errors are constructors without their texts.
--
-- Bounds. Counters that Go keeps in an int and that only count events (terms, failures, attempts) are
-- natural numbers: they would need 2^63 events to wrap. The uint64 counters of vector clocks and the
-- int64 drift of the ID generator keep their wrap-around. Times are integers without the limits of
-- time.Time and time.Duration.
--
-- Fuel. The waiting loops of the ID generator have no bound in the source: they run on fuel, and
-- Snowflake.Waiting.next-answers shows which fuel is enough. RunUntilDrained and RunUntilLeader have
-- a bound of their own in the source. Reading a log runs on as much fuel as the file has bytes, since
-- each record takes at least its header, and Unmarshal and Describe likewise: Grpc.Runs shows that it
-- is enough. AppendVarint recurs on the proof that its number falls. All other loops are structural
-- recursion.
--
-- The gRPC client and server are joined by the bytes on a connection, which loses none; listening,
-- the bookkeeping of connections and Close are left out. The texts of status errors are a parameter.
--
-- The files of the log are lists of bytes, and the operations on them succeed; a crash leaves a prefix.
--
-- Not modelled: the main functions and String methods, which print; of the rest of code/, the LFU
-- cache, the B-tree, the external sort and the other rate limiters, on which no part above depends, and HyperLogLog, geohash, retries and the pipeline, whose core is floating point,
-- randomness or goroutines; the configurations and documents of the handbook.
pub mod Base
pub mod Int
pub mod Bytes
pub mod Bloom
pub mod Breaker
pub mod Bulkhead
pub mod Clock
pub mod Grpc
pub mod Idempotency
pub mod Limiter
pub mod Lru
pub mod Lsm
pub mod Merkle
pub mod Outbox
pub mod Raft
pub mod Ring
pub mod Sketch
pub mod Snowflake
pub mod Wal
