-- ===== src/Replica/Budget.antt =====
-- The budget of a replica is what the tokens of its pending requests leave of the whole budget.
use dual_map.Prelude.{
  ℕ, ◌≡◌, refl, Bool, true, false, none, some, Option, List, [], ◌∷◌, ◌++◌, arith, ℤ, pos, ◌+ℤ◌,
  ◌-ℤ◌, ◌==◌, if◌then◌else◌, int_laws, parts_of_eq, Bool-cases, inl, inr, ap, ◌∙◌,
}
use dual_map.Prelude.Sums.{sum_by, sum_by-append}
use dual_map.KvcacheStore.Outcome.{Outcome, returned, key_error, looping}
use dual_map.KvcacheStore.Mgr
use dual_map.KvcacheStore.Mgr.{PrefixKvCacheMgr}
use dual_map.Request.{Request, Fields, Store, assign_fields, mem, remove}
use dual_map.Replica.{
  Replica, get_num_recompute_token_ids, finish_prefill, complete_request_prefill,
  save_prefill_token_ids, add_request, leave_pending, leave_running, abort_request, tokens_of,
  with_cache, save_token_ids, complete_request_decode, after_save,
}

-- No request stands twice in a list.
abbrev pub IsUnique : List Request → Type 0
IsUnique [] = Unit
IsUnique (q ∷ l) = (mem q l ≡ false) × IsUnique l

pub record IsBudgeted (store : Store) (r : Replica) : Type 0 where
  pub budget :
      r.current_budget +ℤ sum_by (tokens_of store) r.pending_requests ≡ r.replica_slo_budget
  pub pending : IsUnique r.pending_requests
  pub running : IsUnique r.running_requests

mem-remove_ne : (p q : Request) (l : List Request) → mem p l ≡ false → mem p (remove q l) ≡ false
mem-remove_ne p q [] h = refl
mem-remove_ne p q (x ∷ l) h = ground (arith, mem-remove_ne p q l)

remove-IsUnique : (q : Request) (l : List Request) → IsUnique l → IsUnique (remove q l)
remove-IsUnique q [] h = tt
remove-IsUnique q (x ∷ l) h = ground (arith, mem-remove_ne x q l, remove-IsUnique q l)

mem-snoc :
    (p q : Request) (l : List Request)
    → mem p (l ++ q ∷ []) ≡ (if mem p l then true else p.id == q.id)
mem-snoc p q [] = ground arith
mem-snoc p q (x ∷ l) = ground (arith, mem-snoc p q l)

snoc-IsUnique :
    (q : Request) (l : List Request) → mem q l ≡ false → IsUnique l → IsUnique (l ++ q ∷ [])
snoc-IsUnique q [] h u = (refl, tt)
snoc-IsUnique q (x ∷ l) h u = ground (arith, mem-snoc x q l, snoc-IsUnique q l)

swap_eq : (a b s : ℤ) → b ≡ a → s +ℤ a ≡ b +ℤ s
swap_eq a b s h = omega (int_laws, parts_of_eq h)

under_eq : (a x r s : ℤ) → r +ℤ a ≡ s → (x +ℤ r) +ℤ a ≡ x +ℤ s
under_eq a x r s h = omega (int_laws, parts_of_eq h)

tokens_same :
    (store : Store) (q x : Request) → (q.id == x.id) ≡ true → tokens_of store x ≡ tokens_of store q
tokens_same store q x h = ap (λ i. pos (store i).actual_num_prefill_tokens) (ground arith)

sum-remove :
    (store : Store) (q : Request) (l : List Request)
    → mem q l ≡ true
    → sum_by (tokens_of store) (remove q l) +ℤ tokens_of store q ≡ sum_by (tokens_of store) l
sum-remove store q [] h = absurd (ground arith)
sum-remove store q (x ∷ l) h = ground (
  arith,
  tokens_same store q x,
  sum-remove store q l,
  swap_eq (tokens_of store q) (tokens_of store x) (sum_by (tokens_of store) l),
  under_eq (tokens_of store q) (tokens_of store x) (sum_by (tokens_of store) (remove q l))
      (sum_by (tokens_of store) l),
)

-- A change of the fields of a request that is not pending changes no sum.
sum-assign_fields :
    (store : Store) (q : Request) (f : Fields) (l : List Request)
    → mem q l ≡ false
    → sum_by (tokens_of (assign_fields q f store)) l ≡ sum_by (tokens_of store) l
sum-assign_fields store q f [] h = refl
sum-assign_fields store q f (x ∷ l) h = ground (arith, sum-assign_fields store q f l)

-- The fields of a request belong to no budget but those of the replicas where it is pending: another
-- replica's assignment keeps this one budgeted.
pub assign_fields-IsBudgeted :
    (store : Store) (q : Request) (f : Fields) (r : Replica)
    → mem q r.pending_requests ≡ false
    → IsBudgeted store r
    → IsBudgeted (assign_fields q f store) r
assign_fields-IsBudgeted store q f r h b = record {
  budget = ground (arith, sum-assign_fields store q f r.pending_requests, b.budget);
  pending = b.pending;
  running = b.running;
}

take_back : (c t r s b : ℤ) → c +ℤ s ≡ b → r +ℤ t ≡ s → (c +ℤ t) +ℤ r ≡ b
take_back c t r s b h g = omega (int_laws, parts_of_eq h, parts_of_eq g)

-- Taking a request off the pending list gives its tokens back to the budget.
leave_pending-IsBudgeted :
    (store : Store) (q : Request) (r : Replica)
    → IsBudgeted store r
    → IsBudgeted store (leave_pending q store r).1
leave_pending-IsBudgeted store q r b = elim (Bool-cases (mem q r.pending_requests)) [
  | inl found ↦ rw found (record {
    budget =
        take_back r.current_budget (tokens_of store q)
          (sum_by (tokens_of store) (remove q r.pending_requests))
          (sum_by (tokens_of store) r.pending_requests) r.replica_slo_budget b.budget
          (sum-remove store q r.pending_requests found);
    pending = remove-IsUnique q r.pending_requests b.pending;
    running = b.running;
  })
  | inr missing ↦ rw missing b
]

leave_running-IsBudgeted :
    (store : Store) (q : Request) (res : Bool) (r : Replica)
    → IsBudgeted store r
    → IsBudgeted store (leave_running q (res, r)).1
leave_running-IsBudgeted store q res r b = elim (Bool-cases (mem q r.running_requests)) [
  | inl found ↦ rw found (record {
    budget = b.budget;
    pending = b.pending;
    running = remove-IsUnique q r.running_requests b.running;
  })
  | inr missing ↦ rw missing b
]

pub abort_request-IsBudgeted :
    (store : Store) (q : Option Request) (r : Replica)
    → IsBudgeted store r
    → IsBudgeted store (abort_request q store r).1
unfolding abort_request
abort_request-IsBudgeted store none r b = b
abort_request-IsBudgeted store (some q) r b =
    leave_running-IsBudgeted store q (leave_pending q store r).0 (leave_pending q store r).1
      (leave_pending-IsBudgeted store q r b)

join_running :
    (q : Request) (l : List Request) → IsUnique l → IsUnique (if mem q l then l else l ++ q ∷ [])
join_running q l u = ground (arith, snoc-IsUnique q l)

pub finish_prefill-IsBudgeted :
    (now ttft : ℕ) (store : Store) (q : Request) (r : Replica)
    → IsBudgeted store r
    → IsBudgeted store (finish_prefill now ttft q store r).1
unfolding finish_prefill
finish_prefill-IsBudgeted now ttft store q r b = elim (Bool-cases (mem q r.pending_requests)) [
  | inl found ↦ rw found (record {
    budget =
        take_back r.current_budget (tokens_of store q)
          (sum_by (tokens_of store) (remove q r.pending_requests))
          (sum_by (tokens_of store) r.pending_requests) r.replica_slo_budget b.budget
          (sum-remove store q r.pending_requests found);
    pending = remove-IsUnique q r.pending_requests b.pending;
    running = join_running q r.running_requests b.running;
  })
  | inr missing ↦
      rw missing (record { budget = b.budget; pending = b.pending; running = b.running })
]

spend : (c t r s b : ℤ) → c +ℤ s ≡ b → r ≡ s +ℤ t → (c -ℤ t) +ℤ r ≡ b
spend c t r s b h g = omega (int_laws, parts_of_eq h, parts_of_eq g)

plus_zero : (a : ℤ) → a +ℤ pos 0 ≡ a
plus_zero a = omega int_laws

assigned_tokens :
    (store : Store) (q : Request) (f : Fields)
    → tokens_of (assign_fields q f store) q ≡ pos f.actual_num_prefill_tokens
assigned_tokens store q f = ground arith

sum-snoc :
    (store : Store) (q : Request) (f : Fields) (l : List Request)
    → mem q l ≡ false
    → sum_by (tokens_of (assign_fields q f store)) (l ++ q ∷ [])
      ≡ sum_by (tokens_of store) l +ℤ pos f.actual_num_prefill_tokens
sum-snoc store q f l h =
    sum_by-append (tokens_of (assign_fields q f store)) l (q ∷ [])
    ∙ rw (
      sum-assign_fields store q f l h,
      plus_zero (tokens_of (assign_fields q f store) q),
      assigned_tokens store q f,
    )

pub add_request-IsBudgeted :
    (hash : Bool → Option ℕ → List ℕ → ℕ) (now : ℕ) (store : Store) (q : Option Request)
    (r : Replica)
    → IsBudgeted store r
    → IsBudgeted (add_request hash now q store r).1 (add_request hash now q store r).2
unfolding add_request
add_request-IsBudgeted hash now store none r b = b
add_request-IsBudgeted hash now store (some q) r b = elim (Bool-cases (mem q r.pending_requests)) [
  | inl found ↦ rw found b
  | inr missing ↦ rw missing (record {
    budget =
        spend r.current_budget (pos (get_num_recompute_token_ids hash q.input_ids r)) _
          (sum_by (tokens_of store) r.pending_requests) r.replica_slo_budget b.budget
          (sum-snoc store q _ r.pending_requests missing);
    pending = snoc-IsUnique q r.pending_requests missing b.pending;
    running = b.running;
  })
]

-- The replica that a call leaves, whichever way it ends.
abbrev pub LeavesBudgeted : {A : Type 0} → Store → Outcome (A × Replica) → Type 0
LeavesBudgeted store (returned (_, r)) = IsBudgeted store r
LeavesBudgeted store (key_error (_, r)) = IsBudgeted store r
LeavesBudgeted store looping = Unit

with_cache-IsBudgeted :
    (store : Store) (r : Replica) (o : Outcome (ℕ × PrefixKvCacheMgr))
    → IsBudgeted store r
    → LeavesBudgeted store (with_cache r o)
with_cache-IsBudgeted store r (returned (n, c)) b = record {
  budget = b.budget;
  pending = b.pending;
  running = b.running;
}
with_cache-IsBudgeted store r (key_error (n, c)) b = record {
  budget = b.budget;
  pending = b.pending;
  running = b.running;
}
with_cache-IsBudgeted store r looping b = tt

after_save-IsBudgeted :
    (now ttft : ℕ) (store : Store) (q : Request) (o : Outcome (ℕ × Replica))
    → LeavesBudgeted store o
    → LeavesBudgeted store (after_save now ttft store q o)
after_save-IsBudgeted now ttft store q (returned (n, r)) b =
    finish_prefill-IsBudgeted now ttft store q r b
after_save-IsBudgeted now ttft store q (key_error (n, r)) b = b
after_save-IsBudgeted now ttft store q looping b = tt

pub complete_request_prefill-IsBudgeted :
    (hash : Bool → Option ℕ → List ℕ → ℕ) (now ttft : ℕ) (store : Store) (q : Option Request)
    (r : Replica)
    → IsBudgeted store r
    → LeavesBudgeted store (complete_request_prefill hash now ttft q store r)
unfolding complete_request_prefill save_prefill_token_ids
complete_request_prefill-IsBudgeted hash now ttft store none r b = b
complete_request_prefill-IsBudgeted hash now ttft store (some q) r b =
    after_save-IsBudgeted now ttft store q _
      (with_cache-IsBudgeted store r (Mgr.save_prefill hash q.id q.input_ids r.cache) b)

pub complete_request_decode-IsBudgeted :
    (hash : Bool → Option ℕ → List ℕ → ℕ) (store : Store) (q : Option Request)
    (output_token_ids : List ℕ) (r : Replica)
    → IsBudgeted store r
    → LeavesBudgeted store (complete_request_decode hash q output_token_ids r)
unfolding complete_request_decode save_token_ids
complete_request_decode-IsBudgeted hash store none out r b = b
complete_request_decode-IsBudgeted hash store (some q) out r b =
    with_cache-IsBudgeted store (record r { running_requests = remove q r.running_requests })
      (Mgr.save hash (q.input_ids ++ out) r.cache)
      (record {
        budget = b.budget;
        pending = b.pending;
        running = remove-IsUnique q r.running_requests b.running;
      })
