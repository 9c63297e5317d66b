-- ===== src/Lib.antt =====
-- DualMap routes LLM inference requests to replicas, each of which has a KV cache of its own. The
-- router keeps a model of every replica: which prompt prefixes its cache holds, which requests
-- are pending or running there, and how much of its budget of prefill tokens is left. A request
-- waits in a global queue, one heap for each replica, until its replica has budget for it; the
-- prefix table decides how long a prefix the hash of a request looks at.
--
-- Parts and files:
--
-- - KvcacheStore/Lru.antt is PrefixLRUCache, KvcacheStore/Mgr.antt KvCacheEngine and
--   PrefixKVCacheMgr (dualmap/cache_manager/kvcache_store: prefix_kvcache_lru.py,
--   kvcache_engine.py, prefix_kvcache_mgr.py); PrefixKvCacheStore only passes its calls on.
-- - LazyPrefixTable/Bucket.antt, Table.antt, Detector.antt and Controller.antt are LRUCapBucket,
--   LazyPrefixTable, HotPrefixDetector and LazyExpansionController
--   (dualmap/scheduler/utils/lazy_prefix_table.py).
-- - RequestGenerator.antt makes the requests from the records of a trace, with the hash that the
--   prefix table decides (dualmap/request_generator/request_generator.py).
-- - Request.antt is Request (dualmap/entities/request.py); Replica.antt is Replica
--   (dualmap/entities/replica.py), which owns a cache.
-- - GlobalRequestQueue.antt is GlobalRequestQueue
--   (dualmap/scheduler/utils/double_hash_global_scheduler_utils.py).
-- - SharedState.antt has the choices of a replica of SharedState
--   (dualmap/scheduler/utils/shared.py), SharedState/Posting.antt its table of the tasks that
--   post requests.
-- - DoubleHash.antt has the choice of two replicas for a request and of the primary one,
--   DoubleHash/Enqueue.antt its flags, DoubleHash/Place.antt the rest of
--   add_request_to_best_global_queue, and get_schedulable_waiting_req_list, and
--   DoubleHash/Rebalance.antt rebalance_replica_global_waiting_reqs, of
--   DoubleHashGlobalSchedulerUtils (in the same file as the queues).
-- - DoubleHash/Schedule.antt is DoubleHashGlobalScheduler
--   (dualmap/scheduler/global_scheduler/double_hash_global_scheduler.py), which calls these parts
--   and posts the requests that can run.
-- - LpRadixCache.antt is TreeNode and LPRadixCache
--   (dualmap/cache_manager/global_lru_cache_preble.py), the radix tree of the Preble baseline,
--   and LpRadixCache/Updates.antt those of its methods that change every node of a path.
-- - SlidingWindow.antt is SlidingWindowHistogram
--   (dualmap/scheduler/utils/preble_sliding_window_histogram.py) less its costs, and
--   OverloadDetector.antt TTFTWindowedOverloadedDetector
--   (dualmap/scheduler/utils/ttft_overload_detector_preble.py), which the Preble baseline reads
--   beside its tree.
-- - GpuAllocation.antt has the allocations of GPUs to the nodes of that tree of
--   PrebleGlobalSchedulerUtils (dualmap/scheduler/utils/preble_global_scheduler_utils.py).
-- - Scheduler.antt and Scheduler/RoundRobin.antt are the schedulers that choose a replica for a
--   request at once (dualmap/scheduler/global_scheduler).
-- - Prelude.antt holds the shared tests on numbers, lists, integers, dicts, sums, permutations
--   and the search for a best element.
--
-- Below each of these stand the modules with the lemmas about it, and Tests.antt with concrete
-- inputs.
--
-- Conventions. A method is a function from the object, and from the clock where the source reads
-- it, to its result and the changed object; a `raise` and an endless loop are values of Outcome,
-- or none where a loop on fuel has run out. Locks make a method one step and have no counterpart,
-- but for posting_request_tasks_lock, which a call that fails holds for good. An OrderedDict is a
-- list of pairs, a set of block ids a list, and a request, which several objects share, is its id
-- with the fields that are assigned later in a store by id. Times are natural numbers of
-- microseconds, and the ratios and costs that the source computes in floats are exact fractions;
-- `int(0.01 * n)` is n / 100.
--
-- Bounds and fuel. _evict runs on the number of LRU entries + 1, since each round that frees a
-- block takes one off the list, and a list without entries frees none. lookup runs on the length
-- of the prefix + 1, since each round goes a level deeper. pop_schedulable runs on the length of
-- the queue + 1, since each round pops an entry. rebalance_replica_global_waiting_reqs runs on
-- the length of the source's queue + 1, since each round takes a request out of that queue.
-- Python's integers have no bound, and neither have those of the model.
--
-- Parameters. Python's hash of a block is an argument; the theorems on saving assume that it is 0
-- for no whole block of the prompt that is saved, since the source takes a hash 0 for none. heapq
-- is the interface Heapq, with the heap invariant that its documentation states. The tokenizer,
-- the two hash rings and the random choices are arguments where they are used, as are `int` and
-- `str`; the theorems assume that a ring answers with one of its nodes, a choice with an element
-- of its list, and a sample of two with both.
--
-- Not modelled: the HTTP client, the reading of the trace, the launcher, metrics files, logs,
-- plots and the setup scripts, which are I/O; the eviction from the radix cache of the Preble
-- baseline, which orders nodes by counts and access times, the costs by which it chooses and
-- moves, and its scheduler; the TypeError of two entries of a queue with equal keys, and
-- IndexErrors for replica ids out of range.
pub mod Prelude
pub mod KvcacheStore
pub mod LazyPrefixTable
pub mod Request
pub mod Replica
pub mod GlobalRequestQueue
pub mod SharedState
pub mod DoubleHash
pub mod Scheduler
pub mod LpRadixCache
pub mod OverloadDetector
pub mod GpuAllocation
pub mod RequestGenerator
pub mod SlidingWindow
