-- ===== src/DoubleHash/Tests.antt =====
-- Two hashes, and the choice between the two replicas that they name.
use dual_map.Prelude.{
  leb_ℤ, ℕ, ◌+◌, ◌%◌, ◌≡◌, refl, Bool, true, Option, List, [], ◌∷◌, ℤ, pos, inl, length,
}
use dual_map.KvcacheStore.Mgr
use dual_map.Request
use dual_map.Request.{Request, shortest_prefix}
use dual_map.Replica
use dual_map.Replica.{Replica}
use dual_map.SharedState.{SharedState}
use dual_map.GlobalRequestQueue
use dual_map.GlobalRequestQueue.{GlobalRequestQueue}
use dual_map.DoubleHash.{
  Config, dualmap, choose_replica_ids, select_replicas_based_on_metrics, affinity_unless_overloaded,
  hit, ttft, running_req_blocks_cnt, is_replica_overloaded,
}
use dual_map.DoubleHash.Enqueue.{mark, mark-leb_ℤ}
use dual_map.DoubleHash.Choices.{
  IsPairOf, IsBest, IsAffine, select_replicas_based_on_metrics-IsBest,
  affinity_unless_overloaded-IsAffine,
}

abbrev pub hash1 : List ℕ → ℕ → ℕ
hash1 prefix n = length prefix % n

abbrev pub hash2 : List ℕ → ℕ → ℕ
hash2 prefix n = (length prefix + 4) % n

abbrev pub request : Request
request = record {
  id = 1;
  native_session_id = 0;
  hash_session_id = b'a' ∷ b'b' ∷ b'/' ∷ b'c' ∷ [];
  input_ids = 1 ∷ 2 ∷ 3 ∷ [];
  num_prefill_tokens = 3;
  output_len = 4;
  arrived_at = 0;
}

-- Both hashes of the prefix `ab` are 2 of 4, so that the second replica is 3.
same_hash : choose_replica_ids hash1 hash2 4 request ≡ (2, 3)
unfolding choose_replica_ids shortest_prefix
same_hash = refl

abbrev pub in_order : ℕ × ℕ → ℕ × ℕ
in_order p = p

abbrev metric : ℕ → ℤ
metric i = pos (10 + i)

abbrev blocks : ℕ → ℤ
blocks i = pos 0

select_replicas_based_on_metrics-IsBest_example :
    IsPairOf (2, 3) (select_replicas_based_on_metrics in_order metric blocks (2, 3) true)
    × IsBest metric blocks true
        (select_replicas_based_on_metrics in_order metric blocks (2, 3) true)
select_replicas_based_on_metrics-IsBest_example =
    select_replicas_based_on_metrics-IsBest in_order metric blocks 2 3 true (inl refl)

larger_first : select_replicas_based_on_metrics in_order metric blocks (2, 3) true ≡ (3, 2)
unfolding select_replicas_based_on_metrics
larger_first = refl

abbrev pub block_hash : Bool → Option ℕ → List ℕ → ℕ
block_hash first prev ids = 1

abbrev replica : ℕ → Replica
replica i =
    Replica.init i (pos 50) 2
      (Mgr.init (record { block_size = 2; kv_cache_per_token = 1; num_blocks = 100 }))

abbrev pub shared : SharedState
shared = record { num_replicas = 4; replica_budgets = replica; replica_slo_budget = pos 50 }

abbrev pub config : Config
config = record {
  balance_type = dualmap;
  dh_first_balance_ttft_thredhold = pos 2;
  prefill_tpot_num = 1;
  prefill_tpot_den = 100;
  dh_recompute_punish_ratio_num = 1;
  dh_recompute_punish_ratio_den = 2;
  dh_rebalance_thredhold = pos 40;
  dh_rebalance_waiting_latency_thredhold = 500;
  dh_replica_pending_req_threshold = 4;
  busy_prefill_interval = 10_000;
}

abbrev queues : GlobalRequestQueue
queues = GlobalRequestQueue.init 4

affinity_unless_overloaded-IsAffine_example :
    IsPairOf
      (2, 3)
      (affinity_unless_overloaded block_hash 5 config shared queues request in_order (2, 3))
    × IsAffine
        (2, 3)
        (hit block_hash 5 config shared queues request in_order (2, 3))
        (ttft block_hash 5 config shared queues request)
        (running_req_blocks_cnt block_hash 5 config shared queues request)
        (is_replica_overloaded block_hash 5 config shared queues request)
        (affinity_unless_overloaded block_hash 5 config shared queues request in_order (2, 3))
affinity_unless_overloaded-IsAffine_example =
    affinity_unless_overloaded-IsAffine block_hash 5 config shared queues request in_order 2 3
      (inl refl)

-- The second replica has the larger metric, so that the first has the smaller latency only.
mark-leb_ℤ_example :
    let marked = mark metric metric (2, 3) 2 (Request.init 3) in
    (marked.is_dh_cache_affinity ≡ leb_ℤ (metric 3) (metric 2))
    × (marked.is_dh_least_loaded ≡ leb_ℤ (metric 2) (metric 3))
mark-leb_ℤ_example = mark-leb_ℤ metric metric 2 3 2 3 (Request.init 3) (inl refl)
