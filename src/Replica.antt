-- ===== src/Replica.antt =====
-- dualmap/entities/replica.py: one replica as the router sees it. Times are in microseconds. A lock
-- makes each method one step.
pub mod Budget
pub mod Steps
pub mod Tests
pub mod Window
use dual_map.Prelude.{
  ℕ, zero, suc, ◌+◌, ◌-◌, ◌*◌, ◌/◌, ◌%◌, ◌≤◌, ◌<◌, ◌≡◌, Bool, true, false, ◌&&◌, not, none, some,
  Option, List, [], ◌∷◌, ◌++◌, ℤ, pos, negsuc, ◌+ℤ◌, ◌-ℤ◌, ltb_ℤ, max_ℤ, ltb, leb, ◌==◌,
  if◌then◌else◌, length, min,
}
use dual_map.KvcacheStore.Outcome.{Outcome, returned, key_error, looping}
use dual_map.KvcacheStore.Mgr
use dual_map.KvcacheStore.Mgr.{PrefixKvCacheMgr}
use dual_map.Request
use dual_map.Request.{Request, Fields, Store, assign_fields, mem, remove}

pub record Replica : Type 0 where
  pub id : ℕ
  pub replica_slo_budget : ℤ
  pub current_budget : ℤ
  pub received_first_req : Bool
  pub last_prefill_completed_at : Option ℕ
  pub last_ttft : ℕ
  pub pending_requests : List Request
  pub running_requests : List Request
  pub cache : PrefixKvCacheMgr
  pub block_size : ℕ
  pub request_timestamps : List ℕ
  pub window_size : ℕ

-- `last_prefill_completed_at` is -1 in the source where it is `none` here. The window is 180 s.
unfoldable pub init : ℕ → ℤ → ℕ → PrefixKvCacheMgr → Replica
init id replica_slo_budget block_size cache = record {
  id = id;
  replica_slo_budget = replica_slo_budget;
  current_budget = replica_slo_budget;
  received_first_req = false;
  last_prefill_completed_at = none;
  last_ttft = 0;
  pending_requests = [];
  running_requests = [];
  cache = cache;
  block_size = block_size;
  request_timestamps = [];
  window_size = 180_000_000;
}

-- Python's `round` of `a / b` to an integer: the nearest one, and the even one of two.
unfoldable pub round_div : ℕ → ℕ → ℕ
round_div a b =
    let q = a / b in
    let r = a % b in if ltb (2 * r) b then q else if ltb b (2 * r) then q + 1 else q + q % 2

abbrev pub with_cache : Replica → Outcome (ℕ × PrefixKvCacheMgr) → Outcome (ℕ × Replica)
with_cache r (returned (n, cache)) = returned (n * r.block_size, record r { cache = cache })
with_cache r (key_error (n, cache)) = key_error (n, record r { cache = cache })
with_cache r looping = looping

module _ (hash : Bool → Option ℕ → List ℕ → ℕ) where
  unfoldable pub get_num_cached_tokens : List ℕ → Replica → ℤ
  get_num_cached_tokens prompt_token_ids r =
      let num_cached_blocks = Mgr.get_num_cached_blocks hash prompt_token_ids r.cache in
      if ltb 0 num_cached_blocks then pos (num_cached_blocks * r.block_size) else negsuc 0

  abbrev pub recompute_of : ℤ → ℕ → ℕ
  recompute_of (negsuc n) len = len
  recompute_of (pos cached) len = if ltb 0 cached && ltb cached len then len - cached else len

  unfoldable pub get_num_recompute_token_ids : List ℕ → Replica → ℕ
  unfolding get_num_cached_tokens
  get_num_recompute_token_ids prompt_token_ids r =
      recompute_of (get_num_cached_tokens prompt_token_ids r) (length prompt_token_ids)

  unfoldable pub save_token_ids : List ℕ → Replica → Outcome (ℕ × Replica)
  save_token_ids token_ids r = with_cache r (Mgr.save hash token_ids r.cache)

  unfoldable pub save_prefill_token_ids : ℕ → List ℕ → Replica → Outcome (ℕ × Replica)
  save_prefill_token_ids request_id token_ids r =
      with_cache r (Mgr.save_prefill hash request_id token_ids r.cache)

unfoldable pub get_num_running_req : Replica → ℕ
get_num_running_req r = length r.running_requests

abbrev pub ceil_div : ℕ → ℕ → ℕ
ceil_div a b = (a + b - 1) / b

abbrev pub blocks_of : ℕ → List Request → ℕ
blocks_of block_size [] = 0
blocks_of block_size (q ∷ l) =
    ceil_div (length q.input_ids + q.output_len) block_size + blocks_of block_size l

unfoldable pub get_running_req_blocks_cnt : Replica → ℕ
get_running_req_blocks_cnt r = blocks_of r.block_size r.running_requests

unfoldable pub get_num_pending_req : Replica → ℕ
get_num_pending_req r = length r.pending_requests

unfoldable pub get_num_actual_pending_tokens : Replica → ℤ
get_num_actual_pending_tokens r = max_ℤ (r.replica_slo_budget -ℤ r.current_budget) (pos 0)

-- The requests per second over the window, in units of 1/10000.
abbrev pub rate_over : ℕ → ℕ → ℕ
rate_over count window_duration =
    if window_duration == 0 then 0 else round_div (count * 10_000_000_000) window_duration

unfoldable pub get_request_rate : ℕ → Replica → ℕ
get_request_rate now r = elim r.request_timestamps [
  | [] ↦ 0
  | oldest ∷ rest ↦ rate_over (length rest + 1) (min (now - oldest) r.window_size)
]

pub record LoadStates : Type 0 where
  pub current_budget : ℤ
  pub last_prefill_completed_at : ℕ
  pub last_ttft : ℕ
  pub num_pending_requests : ℕ
  pub qps : ℕ

unfoldable pub get_load_states : ℕ → Replica → LoadStates × Replica
get_load_states now r =
    let completed : ℕ = elim r.last_prefill_completed_at [ none ↦ now | some t ↦ t ] in
    (
      record {
        current_budget = r.current_budget;
        last_prefill_completed_at = completed;
        last_ttft = r.last_ttft;
        num_pending_requests = length r.pending_requests;
        qps = get_request_rate now r;
      },
      record r { last_prefill_completed_at = some completed },
    )

abbrev pub tokens_of : Store → Request → ℤ
tokens_of store q = pos (store q.id).actual_num_prefill_tokens

-- The part of `complete_request_prefill` under the lock.
unfoldable pub finish_prefill : ℕ → ℕ → Request → Store → Replica → Bool × Replica
finish_prefill now ttft q store r =
    if mem q r.pending_requests
    then (
      true,
      record r {
        received_first_req = true;
        current_budget = r.current_budget +ℤ tokens_of store q;
        pending_requests = remove q r.pending_requests;
        last_prefill_completed_at = some now;
        last_ttft = round_div ttft 100 * 100;
        running_requests =
            if mem q r.running_requests then r.running_requests else r.running_requests ++ q ∷ [];
      },
    )
    else (false, record r { received_first_req = true })

abbrev pub after_save : ℕ → ℕ → Store → Request → Outcome (ℕ × Replica) → Outcome (Bool × Replica)
after_save now ttft store q (returned (n, r)) = returned (finish_prefill now ttft q store r)
after_save now ttft store q (key_error (n, r)) = key_error (false, r)
after_save now ttft store q looping = looping

-- The cache is written before the `try`, so that its KeyError leaves the method.
unfoldable pub complete_request_prefill :
    (Bool → Option ℕ → List ℕ → ℕ)
    → ℕ
    → ℕ
    → Option Request
    → Store
    → Replica
    → Outcome (Bool × Replica)
complete_request_prefill hash now ttft none store r = returned (false, r)
complete_request_prefill hash now ttft (some q) store r =
    after_save now ttft store q (save_prefill_token_ids hash q.id q.input_ids r)

-- `output_token_ids` is what the tokenizer makes of the output text.
unfoldable pub complete_request_decode :
    (Bool → Option ℕ → List ℕ → ℕ) → Option Request → List ℕ → Replica → Outcome (ℕ × Replica)
complete_request_decode hash none output_token_ids r = returned (0, r)
complete_request_decode hash (some q) output_token_ids r =
    save_token_ids hash (q.input_ids ++ output_token_ids)
      (record r { running_requests = remove q r.running_requests })

-- `_cleanup_old_requests`: timestamps before the window leave.
unfoldable pub cleanup : ℕ → ℕ → List ℕ → List ℕ
cleanup window_size now [] = []
cleanup window_size now (oldest ∷ rest) =
    let kept = cleanup window_size now rest in
    if ltb (oldest + window_size) now then kept else oldest ∷ rest

unfoldable pub add_request :
    (Bool → Option ℕ → List ℕ → ℕ) → ℕ → Option Request → Store → Replica → Bool × Store × Replica
add_request hash now none store r = (false, store, r)
add_request hash now (some q) store r =
    let actual = get_num_recompute_token_ids hash q.input_ids r in
    if mem q r.pending_requests then (false, store, r) else (
      true,
      assign_fields q (record (store q.id) { actual_num_prefill_tokens = actual }) store,
      record r {
        current_budget = r.current_budget -ℤ pos actual;
        pending_requests = r.pending_requests ++ q ∷ [];
        request_timestamps = cleanup r.window_size now (r.request_timestamps ++ now ∷ []);
      },
    )

abbrev pub leave_pending : Request → Store → Replica → Bool × Replica
leave_pending q store r =
    if mem q r.pending_requests
    then (
      true,
      record r {
        current_budget = r.current_budget +ℤ tokens_of store q;
        pending_requests = remove q r.pending_requests;
      },
    )
    else (false, r)

abbrev pub leave_running : Request → Bool × Replica → Bool × Replica
leave_running q (res, r) =
    if mem q r.running_requests
    then (true, record r { running_requests = remove q r.running_requests })
    else (res, r)

unfoldable pub abort_request : Option Request → Store → Replica → Bool × Replica
abort_request none store r = (false, r)
abort_request (some q) store r = leave_running q (leave_pending q store r)
