-- ===== src/Lib.antt =====
-- Puffinflow, a workflow engine on asyncio: its coordination primitives, deadlock detection, rate
-- limiters, task queues and resource pool. The library models the state that these parts keep and
-- every operation on it, and shows what the operations guarantee and where the code falls short.
--
-- Parts and files, with paths from the root of the repository:
-- - Base: names, dictionaries, Boolean tests, lists and signed numbers that the parts share.
-- - Digraph: walks, cycles and acyclic graphs over a successor function, independent of the code.
-- - Primitives (core/coordination/primitives.py): `CoordinationPrimitive` and its `acquire`,
--   `release` and `_cleanup_expired`. Calls has histories of calls, Invariant what they keep,
--   Ownership who gets a mutex or a lease, Kinds the constructors and `Quota`, Lock the reentrant
--   `Lock`, Barrier the condition variable with its lock, Lease the renewal.
-- - DependencyGraph (core/coordination/deadlock.py): `DependencyGraph`. Edits is about
--   `add_dependency`, `remove_dependency` and `remove_node`; Search, Extends, Terminates and Cycles
--   are about the depth-first search of `find_cycles`.
-- - Dag (core/dag/graph.py): `DAG`. Edits is about `add_node` and `add_edge`, Search reads its two
--   searches for a cycle as the one of the dependency graph, and Cycles says what they promise.
--   Traversal has `get_ancestors` and `get_descendants`, and Reach what they give; Serialized has
--   `to_dict` and `from_dict`, and Replay how one undoes the other; Components has `validate`, Linked,
--   Coloured and Partition are about its search for the connected components, and Connected says what
--   it decides; Sort has `topological_sort`, and Degrees, Kahn, Complete and
--   Order show what its loop keeps and gives; Levels has `get_levels`.
-- - WaitGraph (core/coordination/deadlock.py): `ResourceWaitGraph`. Holders is about who holds
--   what, Handover about the lock that the methods take twice, Detection about `detect_deadlock`,
--   Detector about `DeadlockDetector`.
-- - RateLimiter (core/coordination/rate_limiter.py): the strategies of `RateLimiter`; Tokens has
--   `TokenBucket`, Leaky `LeakyBucket`, Sliding `SlidingWindow`, Fixed `FixedWindow`, Waiting the
--   loop of `wait_for_token`, Composite `CompositeRateLimiter`, and Windows what a window promises.
-- - TaskQueue (core/scheduler/queue.py): `PriorityQueue`, with Heap and Invariant for what it keeps,
--   Waiting for what it promises, Fronts and Refines for why it keeps to that, and Paused for what
--   its status stops, Delayed for `DelayedQueue`, Router for `QueueRouter`, and DeadLetter for
--   `DeadLetterQueue`, whose first loop in `reprocess_all` runs on one more unit of fuel than the
--   queue has items.
-- - ResourcePool (core/resources/pool.py and requirements.py): `ResourcePool`; Ledger accounts for
--   every unit, History is about histories of calls, Preemption about the requirements read.
-- - QuotaManager (core/resources/quotas.py): limits, usage and policies. Keys and Limits say what one
--   call does, Capped what a history keeps; Enforcer has `QuotaEnforcer`, Atomic and Burst what it
--   promises and where it does not keep it.
-- - Allocation (core/resources/allocation.py): requests, results, metrics and batches; Fit, HeapQueue,
--   PriorityQueue, FairShare and Factory have the allocators and `create_allocator`; Acquiring is about
--   their call of the pool, Orders about `get_allocation_order`, Batch and Contracts about
--   `allocate_batch`, Blocking, Serving, Precedence, Shares and Forgetful about the calls of `allocate`.
-- A module Samples stands beside each part with runs on small inputs.
--
-- How the parts interact: the detector owns a dependency graph and a wait graph, and the wait graph
-- builds a dependency graph for its search; the kinds of primitives extend the one base class; an
-- allocator asks the pool and keeps its own books, and a batch takes any allocator that keeps a
-- contract. `heapq` is a parameter of the priority queue, a record of its operations and laws.
--
-- Conventions. Strings that name states, callers and resources are numbers, with 0 for the empty
-- string where the code tests for it. A set or a dictionary is a list in the order of insertion;
-- the order in which the source goes over a set is not specified, and the list fixes one. Floats are
-- numbers of a fixed small unit, never negative, and clocks and identifiers are arguments. A binary
-- heap is the list of its entries in the order in which `heapq` gives them up. What runs between two
-- suspensions of a coroutine is one function; a wait is an outcome, and a history of calls is a list.
--
-- Recursion is on lists, but for that loop, the loop of the priority queue of requests, whose fuel is
-- the length of the queue, and the searches of graphs, whose fuel is the number of names that they can
-- meet: enough, since each call marks a name not marked before.
--
-- Not modelled: cancellation, logging, statistics and dumps, the factory `create_primitive`, the
-- generations of `Barrier.wait`, the reset loop of `Quota`, `topological_sort` of the dependency
-- graph, the utilities of `TopologicalSort`, `wait_for_all` and the adaptive limiter of the rate
-- limiters, the queue manager, and the rest of the package dag, the packages agent, api,
-- execution, monitoring, storage and workflow, and the other schedulers.
pub mod Allocation
pub mod Base
pub mod Dag
pub mod DependencyGraph
pub mod Digraph
pub mod Primitives
pub mod QuotaManager
pub mod RateLimiter
pub mod ResourcePool
pub mod TaskQueue
pub mod WaitGraph
