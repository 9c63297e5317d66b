-- ===== src/Replica/Steps.antt =====
-- Sequences of method calls on one replica, and what stays true along them.
use dual_map.Prelude.{
  ℕ, ◌≡◌, Bool, false, Option, List, [], ℤ, pos, ◌+ℤ◌, ◌-ℤ◌, max_ℤ, ◌≤ℤ◌, arith, int_laws,
  parts_of_eq, ◌∷◌,
}
use mathlib.Core.Path.{subst}
use dual_map.Prelude.Sums.{sum_by}
use dual_map.KvcacheStore.Outcome.{returned, key_error}
use dual_map.KvcacheStore.Mgr.{PrefixKvCacheMgr}
use dual_map.Request.{Request, Fields, Store, assign_fields, mem}
use dual_map.Replica
use dual_map.Replica.{
  Replica, complete_request_prefill, complete_request_decode, add_request, abort_request,
  get_load_states, get_num_actual_pending_tokens, tokens_of,
}
use dual_map.Replica.Budget.{
  IsBudgeted, add_request-IsBudgeted, abort_request-IsBudgeted, complete_request_prefill-IsBudgeted,
  complete_request_decode-IsBudgeted, assign_fields-IsBudgeted, LeavesBudgeted,
}

-- The sum of what the pending requests need.
abbrev pub pending_tokens : Store → Replica → ℤ
pending_tokens store r = sum_by (tokens_of store) r.pending_requests

sum-nonneg : (store : Store) (l : List Request) → pos 0 ≤ℤ sum_by (tokens_of store) l
sum-nonneg store [] = omega arith
sum-nonneg store (q ∷ l) = omega (int_laws, sum-nonneg store l)

diff_eq : (c s b : ℤ) → c +ℤ s ≡ b → b -ℤ c ≡ s
diff_eq c s b h = omega (int_laws, parts_of_eq h)

used_budget : (c s b : ℤ) → c +ℤ s ≡ b → pos 0 ≤ℤ s → max_ℤ (b -ℤ c) (pos 0) ≡ s
used_budget c s b h g = rw (diff_eq c s b h) (ground arith)

module _ (hash : Bool → Option ℕ → List ℕ → ℕ) where
  -- One call, with the fields of the requests before and after it. The last constructor is the
  -- assignment that another replica makes to a request that is not pending here.
  pub data Call (store : Store) (r : Replica) : Store → Replica → Type 0 where
    added :
        (now : ℕ) (q : Option Request)
        → Call store r (add_request hash now q store r).1 (add_request hash now q store r).2
    aborted : (q : Option Request) → Call store r store (abort_request q store r).1
    prefilled :
        (now ttft : ℕ) (q : Option Request) (res : Bool) (r' : Replica)
        → complete_request_prefill hash now ttft q store r ≡ returned (res, r')
        → Call store r store r'
    prefill_raised :
        (now ttft : ℕ) (q : Option Request) (res : Bool) (r' : Replica)
        → complete_request_prefill hash now ttft q store r ≡ key_error (res, r')
        → Call store r store r'
    decoded :
        (q : Option Request) (output_token_ids : List ℕ) (n : ℕ) (r' : Replica)
        → complete_request_decode hash q output_token_ids r ≡ returned (n, r')
        → Call store r store r'
    decode_raised :
        (q : Option Request) (output_token_ids : List ℕ) (n : ℕ) (r' : Replica)
        → complete_request_decode hash q output_token_ids r ≡ key_error (n, r')
        → Call store r store r'
    polled : (now : ℕ) → Call store r store (get_load_states now r).1
    assigned :
        (q : Request) (f : Fields)
        → mem q r.pending_requests ≡ false
        → Call store r (assign_fields q f store) r

  pub data Calls (store : Store) (r : Replica) : Store → Replica → Type 0 where
    done : Calls store r store r
    later :
        {s : Store} {r' : Replica} {s'' : Store} {r'' : Replica}
        → Calls store r s r'
        → Call s r' s'' r''
        → Calls store r s'' r''

  Call-IsBudgeted :
      {s : Store} {r : Replica} {s' : Store} {r' : Replica}
      → Call s r s' r'
      → IsBudgeted s r
      → IsBudgeted s' r'
  unfolding get_load_states
  Call-IsBudgeted {s} {r} (added now q) b = add_request-IsBudgeted hash now s q r b
  Call-IsBudgeted {s} {r} (aborted q) b = abort_request-IsBudgeted s q r b
  Call-IsBudgeted {s} {r} (prefilled now ttft q res r' e) b =
      subst (LeavesBudgeted s) e (complete_request_prefill-IsBudgeted hash now ttft s q r b)
  Call-IsBudgeted {s} {r} (prefill_raised now ttft q res r' e) b =
      subst (LeavesBudgeted s) e (complete_request_prefill-IsBudgeted hash now ttft s q r b)
  Call-IsBudgeted {s} {r} (decoded q out n r' e) b =
      subst (LeavesBudgeted s) e (complete_request_decode-IsBudgeted hash s q out r b)
  Call-IsBudgeted {s} {r} (decode_raised q out n r' e) b =
      subst (LeavesBudgeted s) e (complete_request_decode-IsBudgeted hash s q out r b)
  Call-IsBudgeted {s} {r} (polled now) b = record {
    budget = b.budget;
    pending = b.pending;
    running = b.running;
  }
  Call-IsBudgeted {s} {r} (assigned q f h) b = assign_fields-IsBudgeted s q f r h b

  Calls-IsBudgeted :
      {s : Store} {r : Replica} {s' : Store} {r' : Replica}
      → Calls s r s' r'
      → IsBudgeted s r
      → IsBudgeted s' r'
  Calls-IsBudgeted done b = b
  Calls-IsBudgeted (later cs c) b = Call-IsBudgeted c (Calls-IsBudgeted cs b)

  -- From a fresh replica on, whatever calls are made and however they end, the current budget and the
  -- tokens of the pending requests make up the whole budget, and no request stands twice in the
  -- pending or the running list.
  pub Calls-init-IsBudgeted :
      (id : ℕ) (budget : ℤ) (block_size : ℕ) (cache : PrefixKvCacheMgr) (s s' : Store) (r : Replica)
      → Calls s (Replica.init id budget block_size cache) s' r
      → IsBudgeted s' r
  unfolding Replica.init
  Calls-init-IsBudgeted id budget block_size cache s s' r calls =
      Calls-IsBudgeted calls (record { budget = omega int_laws; pending = tt; running = tt })

  -- From a fresh replica on, whatever calls are made, the number of actual pending tokens that the
  -- replica reports is the sum over its pending requests.
  pub get_num_actual_pending_tokens-Calls :
      (id : ℕ) (budget : ℤ) (block_size : ℕ) (cache : PrefixKvCacheMgr) (s s' : Store) (r : Replica)
      → Calls s (Replica.init id budget block_size cache) s' r
      → get_num_actual_pending_tokens r ≡ pending_tokens s' r
  unfolding get_num_actual_pending_tokens
  get_num_actual_pending_tokens-Calls id budget block_size cache s s' r calls =
      used_budget r.current_budget (pending_tokens s' r) r.replica_slo_budget
        (Calls-init-IsBudgeted id budget block_size cache s s' r calls).budget
        (sum-nonneg s' r.pending_requests)
