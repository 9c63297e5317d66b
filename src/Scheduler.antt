-- ===== src/Scheduler.antt =====
-- dualmap/scheduler/global_scheduler: the schedulers that choose a replica for a request at once.
pub mod RoundRobin
pub mod Tests
use dual_map.Prelude.{ℕ, Bool, Option, none, some, List, ℤ, pos, negsuc}
use dual_map.Request.{Request, shortest_prefix}
use dual_map.SharedState.{SharedState, get_min_ttft_replica, get_min_pending_input_tokens_replica}

-- `MinTTFTGlobalScheduler.schedule`: -1 for no request; `none` is a KeyError.
abbrev pub replica_or : Option (ℕ × ℕ) → Option ℤ
replica_or none = none
replica_or (some (replica_id, prefill_len)) = some (pos replica_id)

unfoldable pub min_ttft_schedule :
    (Bool → Option ℕ → List ℕ → ℕ)
    → (List ℕ → ℕ)
    → ℕ
    → Option Request
    → SharedState
    → Option ℤ × SharedState
min_ttft_schedule hash choice now none s = (some (negsuc 0), s)
min_ttft_schedule hash choice now (some request) s =
    let (chosen, s') = get_min_ttft_replica hash choice now request s in (replica_or chosen, s')

-- `MinPendingInputGlobalScheduler.schedule`: None without a replica.
abbrev pub first_of : Option (ℕ × ℕ) → Option ℕ
first_of none = none
first_of (some (replica_id, tokens)) = some replica_id

unfoldable pub min_pending_schedule : SharedState → Option ℕ
min_pending_schedule s = first_of (get_min_pending_input_tokens_replica s)

-- `CacheAffinityGlobalScheduler.schedule`, with the ring as an argument.
unfoldable pub cache_affinity_schedule : (List ℕ → ℕ → ℕ) → ℕ → Request → ℕ
cache_affinity_schedule hash_function1 num_replicas request =
    hash_function1 (shortest_prefix request.hash_session_id) num_replicas
