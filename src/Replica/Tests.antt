-- ===== src/Replica/Tests.antt =====
-- A replica with two requests, and the theorems at it.
use dual_map.Prelude.{ℕ, ◌+◌, ◌≡◌, refl, Bool, Option, none, some, List, [], ◌∷◌, ◌++◌, arith, pos}
use dual_map.KvcacheStore.Mgr
use dual_map.KvcacheStore.Mgr.{KvCacheEngine}
use dual_map.Request
use dual_map.Request.{Request, Store}
use dual_map.Replica
use dual_map.Replica.{Replica, add_request, abort_request, get_num_actual_pending_tokens, cleanup}
use dual_map.Replica.Budget.{IsBudgeted}
use dual_map.Replica.Steps.{
  done, later, added, aborted, Calls, Calls-init-IsBudgeted, get_num_actual_pending_tokens-Calls,
  pending_tokens,
}
use dual_map.Replica.Window.{IsAscending, recent, add_request-recent}

abbrev hash : Bool → Option ℕ → List ℕ → ℕ
hash first none ids = 1
hash first (some prev) ids = prev + 1

abbrev request : ℕ → List ℕ → Request
request id input_ids = record {
  id = id;
  native_session_id = 0;
  hash_session_id = [];
  input_ids = input_ids;
  num_prefill_tokens = 3;
  output_len = 4;
  arrived_at = 0;
}

abbrev store₀ : Store
store₀ i = Request.init 0

abbrev replica₀ : Replica
replica₀ =
    Replica.init 0 (pos 100) 2
      (Mgr.init (record { block_size = 2; kv_cache_per_token = 1; num_blocks = 100 }))

abbrev one : Request
one = request 1 (5 ∷ 6 ∷ 7 ∷ [])

abbrev two : Request
two = request 2 (8 ∷ 9 ∷ [])

abbrev state₁ : Bool × Store × Replica
state₁ = add_request hash 10 (some one) store₀ replica₀

abbrev state₂ : Bool × Store × Replica
state₂ = add_request hash 20 (some two) state₁.1 state₁.2

abbrev calls : Calls hash store₀ replica₀ state₂.1 (abort_request (some one) state₂.1 state₂.2).1
calls = later (later (later done (added 10 (some one))) (added 20 (some two))) (aborted (some one))

Calls-init-IsBudgeted_example : IsBudgeted state₂.1 (abort_request (some one) state₂.1 state₂.2).1
Calls-init-IsBudgeted_example =
    Calls-init-IsBudgeted hash 0 (pos 100) 2
      (Mgr.init (record { block_size = 2; kv_cache_per_token = 1; num_blocks = 100 })) store₀
      state₂.1 (abort_request (some one) state₂.1 state₂.2).1 calls

get_num_actual_pending_tokens-Calls_example :
    get_num_actual_pending_tokens (abort_request (some one) state₂.1 state₂.2).1
    ≡ pending_tokens state₂.1 (abort_request (some one) state₂.1 state₂.2).1
get_num_actual_pending_tokens-Calls_example =
    get_num_actual_pending_tokens-Calls hash 0 (pos 100) 2
      (Mgr.init (record { block_size = 2; kv_cache_per_token = 1; num_blocks = 100 })) store₀
      state₂.1 (abort_request (some one) state₂.1 state₂.2).1 calls

abbrev stamped : Replica
stamped = record replica₀ { request_timestamps = 10 ∷ 170_000_000 ∷ [] }

add_request-recent_example :
    ((add_request hash 190_000_000 (some one) store₀ stamped).2.request_timestamps
      ≡ recent stamped.window_size 190_000_000 (10 ∷ 170_000_000 ∷ []) ++ 190_000_000 ∷ [])
    × IsAscending (add_request hash 190_000_000 (some one) store₀ stamped).2.request_timestamps
unfolding Replica.init
add_request-recent_example =
    add_request-recent hash 190_000_000 store₀ one stamped refl ((omega arith, tt), (tt, tt))
      (omega arith, (omega arith, tt))
