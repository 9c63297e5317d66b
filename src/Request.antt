-- ===== src/Request.antt =====
-- dualmap/entities/request.py: a request. What is set once is the record; what the scheduler assigns
-- later stands in a store by request id, since the queues and the replicas share the object.
use dual_map.Prelude.{ℕ, Bool, true, false, List, [], ◌∷◌, ℤ, negsuc, ◌==◌, if◌then◌else◌}

pub record Request : Type 0 where
  pub id : ℕ
  pub native_session_id : ℕ
  pub hash_session_id : List ℕ
  pub input_ids : List ℕ
  pub num_prefill_tokens : ℕ
  pub output_len : ℕ
  pub arrived_at : ℕ

pub record Fields : Type 0 where
  pub actual_num_prefill_tokens : ℕ
  pub primary_replica : ℤ
  pub second_replica : ℤ
  pub rounting_cache_hit_max : ℤ
  pub is_dh_cache_affinity : Bool
  pub is_dh_least_loaded : Bool
  pub is_dh_cache_affinity_least_loaded : Bool

-- `Request.__init__`, with the number of prefill tokens that its caller passes.
unfoldable pub init : ℕ → Fields
init actual_num_prefill_tokens = record {
  actual_num_prefill_tokens = actual_num_prefill_tokens;
  primary_replica = negsuc 0;
  second_replica = negsuc 0;
  rounting_cache_hit_max = negsuc 0;
  is_dh_cache_affinity = false;
  is_dh_least_loaded = false;
  is_dh_cache_affinity_least_loaded = false;
}

abbrev pub Store : Type 0
Store = ℕ → Fields

abbrev pub assign_fields : Request → Fields → Store → Store
assign_fields q fields store i = if i == q.id then fields else store i

-- Requests are compared by identity: `request in requests`.
abbrev pub mem : Request → List Request → Bool
mem q [] = false
mem q (r ∷ l) = if q.id == r.id then true else mem q l

-- `requests.remove(request)`
abbrev pub remove : Request → List Request → List Request
remove q [] = []
remove q (r ∷ l) = if q.id == r.id then l else r ∷ remove q l

-- `_hash_session_id.split("/")[0]`
unfoldable pub shortest_prefix : List ℕ → List ℕ
shortest_prefix [] = []
shortest_prefix (c ∷ cs) = if c == b'/' then [] else c ∷ shortest_prefix cs
