-- ===== src/Lib.antt =====
-- Verification library of the Go masterclass repository: models of its programs under src/, and the
-- theorems that make them correct.
--
-- The repository is a collection of independent Go programs, one main.go each, and one service
-- (src/08_production/clean_backend). A file of this library, with the folder of its name, models one
-- program; an operation has the source's name in snake case, and a method takes its receiver's
-- state and returns the new state beside its result. A section that runs under a mutex is one
-- function; a program whose goroutines meet between such sections has a step relation over the
-- interleavings. Definitions stand in the file itself, what is proved in its children, and runs on
-- concrete data in its Examples.
--
--   RingBuffer       src/09_dsa/03_ring_buffer: the single-producer single-consumer ring, with its
--                    power-of-two capacity; Spsc has the two goroutines step by step
--   CircuitBreaker   src/05_patterns/04_circuit_breaker: Execute as its two critical sections
--   DistributedLock  src/10_distributed/03_distributed_lock: locks with expiry and fencing tokens
--   SegmentTree      src/09_dsa/07_segment_tree: range sums; the recursions take as fuel twice the number
--                    of elements, more than the depth of the tree
--   LruCache         src/09_dsa/01_lru_cache: the map and the recency list, whose shared elements are
--                    numbered cells; History is the specification
--   CleanBackend     src/08_production/clean_backend: tokens and middleware (Tokens), the controllers with
--                    their use cases (Controllers), the wrapper of the database (Mongo) and the
--                    repositories; the JWT library, bcrypt, object identifiers and the database
--                    driver are parameters, with their documented laws beside their uses
--   EventSourcing    src/10_distributed/04_event_sourcing: the log, reconstruction and the commands; Ledger is
--                    the specification
--   Retry            src/05_patterns/05_retry_with_backoff: the loop, over the rounds that are left
--   ShardedMap       src/09_dsa/04_concurrent_map: maps as entry lists, one per shard
--   Trie             src/09_dsa/02_trie: insertion, search, completion and deletion; the children of a node
--                    are a list
--   RateLimiter      src/10_distributed/02_rate_limiter: token buckets and the middleware; the two critical
--                    sections of a request are steps that interleave
--   ServiceDiscovery src/10_distributed/01_service_discovery: the registry; a tick of the health checker is a
--                    call
--   UnionFind        src/09_dsa/06_union_find: Find on fuel, of which the number of nodes is enough; Linked is
--                    the independent view of the sets; Kruskal has the sort and the tree
--   PubSub           src/05_patterns/06_pub_sub: the event bus with its channels as numbered buffers; the
--                    mailboxes are the specification
--   WorkerPool       src/05_patterns/02_worker_pool_advanced: the pool as a step relation over its workers,
--                    channels and context
--   BoundedGroup     src/03_concurrency/08_errgroup_semaphore: runBounded with its semaphore, wait group and
--                    once as a step relation
--
-- Shared by these: Prelude (library names, Boolean tests, lists as slices, sums, filtered
-- lists, Go maps, signed integers), Bits (the laws of `|`, `&` and `>>` on natural
-- numbers) and Words (uint64 arithmetic).
--
-- Conventions. Numbers are natural numbers; a uint64 is one below 2 ^ 64, and its wrap-around is
-- written out. A run-time panic of an index or a length out of range is the result `none`. Times
-- are readings of the monotonic clock in nanoseconds (in CleanBackend of the wall clock in seconds)
-- and enter as arguments, in the order in which the code reads them. Loops are structural recursions
-- unless the file says otherwise. A Go map that is only read and written by key is a function from
-- keys. Keys have a decidable equality.
--
-- Not modelled: printing and logging, the demonstrations in `main` (a few stand as examples), memory
-- and scheduling, and the programs whose whole content is a call of the operating system, the
-- network, a database or the Go runtime; the start-up of the clean backend; and the programs under
-- src/ that the list above does not name.
pub mod Prelude
pub mod Bits
pub mod Words
pub mod RingBuffer
pub mod CircuitBreaker
pub mod DistributedLock
pub mod SegmentTree
pub mod LruCache
pub mod CleanBackend
pub mod EventSourcing
pub mod Retry
pub mod ShardedMap
pub mod PubSub
pub mod RateLimiter
pub mod ServiceDiscovery
pub mod Trie
pub mod UnionFind
pub mod WorkerPool
pub mod BoundedGroup
