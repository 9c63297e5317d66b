-- ===== src/SharedState/Choices.antt =====
-- The replicas that are chosen are the best ones.
use dual_map.Prelude.{
  pos_part, neg_part, if_pos, if_neg, ℕ, zero, suc, ◌<◌, ◌≡◌, refl, sym, ◌∙◌, ap, Bool, true, false,
  none, some, Option, List, [], ◌∷◌, ℤ, pos, ◌≤ℤ◌, ltb_ℤ, ltb, arith, All, range_from, ◌==◌,
  if◌then◌else◌, ℤ_discrete, inl, inr,
}
use mathlib.Core.Path.{subst}
use dual_map.Prelude.Perms.{All-map}
use dual_map.Prelude.Best.{IsRanking, choose, IsFirstBest, choose-IsFirstBest}
use dual_map.Request.{Request}
use dual_map.Replica.{get_num_recompute_token_ids}
use dual_map.SharedState.{
  SharedState, replica_ids, min_loop, get_min_pending_input_tokens_replica,
  get_pending_input_tokens_replica, prefix_cache_hit_len, max_hit, get_max_cache_hit_replica,
  waiting_budget, largest, with_budget, get_min_ttft_replica, choose_among,
}

lower : IsRanking ltb
lower = record { trans = λ a b c h g. ground arith; beats = λ a b c h g. ground arith }

higher : IsRanking (λ a b. ltb b a)
higher = record { trans = λ a b c h g. ground arith; beats = λ a b c h g. ground arith }

higher_ℤ : IsRanking (λ a b. ltb_ℤ b a)
higher_ℤ = record { trans = λ a b c h g. ground arith; beats = λ a b c h g. ground arith }

min_loop-choose :
    (total : ℕ → ℕ) (best : ℕ) (ids : List ℕ)
    → min_loop total ids (some (best, total best))
      ≡ some (choose ltb total best ids, total (choose ltb total best ids))
min_loop-choose total best [] = refl
min_loop-choose total best (i ∷ ids) =
    ground (arith, min_loop-choose total i ids, min_loop-choose total best ids)

-- Among one replica or more, get_min_pending_input_tokens_replica chooses the first one whose pending
-- requests have the fewest input tokens, and returns that number.
get_min_pending_input_tokens_replica-IsFirstBest :
    (s : SharedState)
    → 0 < s.num_replicas
    → (r : ℕ) × (get_min_pending_input_tokens_replica s
        ≡ some (r, get_pending_input_tokens_replica r s))
      × IsFirstBest ltb (λ i. get_pending_input_tokens_replica i s) (replica_ids s) r
unfolding get_min_pending_input_tokens_replica
get_min_pending_input_tokens_replica-IsFirstBest s h = go s.num_replicas h
  where
    total : ℕ → ℕ
    total i = get_pending_input_tokens_replica i s

    go :
        (n : ℕ)
        → 0 < n
        → (r : ℕ) × (min_loop total (range_from 0 n) none ≡ some (r, total r))
          × IsFirstBest ltb total (range_from 0 n) r
    go zero lt = absurd (omega (arith, lt))
    go (suc n) lt = (
      choose ltb total 0 (range_from 1 n),
      min_loop-choose total 0 (range_from 1 n),
      choose-IsFirstBest lower total 0 (range_from 1 n),
    )

module _ (hash : Bool → Option ℕ → List ℕ → ℕ) where
  -- Among one replica or more, get_max_cache_hit_replica chooses the first one with the largest difference of the length
  -- of the prompt and the number of its tokens that the replica has to compute.
  pub get_max_cache_hit_replica-IsFirstBest :
      (request : Request) (s : SharedState)
      → 0 < s.num_replicas
      → (r : ℕ) × (get_max_cache_hit_replica hash request s ≡ pos r)
        × IsFirstBest (λ a b. ltb b a) (prefix_cache_hit_len hash request s) (replica_ids s) r
  unfolding get_max_cache_hit_replica
  get_max_cache_hit_replica-IsFirstBest request s h = go s.num_replicas h
    where
      hit : ℕ → ℕ
      hit = prefix_cache_hit_len hash request s

      go :
          (n : ℕ)
          → 0 < n
          → (r : ℕ) × (max_hit hit (range_from 0 n) ≡ pos r)
            × IsFirstBest (λ a b. ltb b a) hit (range_from 0 n) r
      go zero lt = absurd (omega (arith, lt))
      go (suc n) lt = (
        choose (λ a b. ltb b a) hit 0 (range_from 1 n),
        refl,
        choose-IsFirstBest higher hit 0 (range_from 1 n),
      )

abbrev pub elem : ℕ → List ℕ → Bool
elem r [] = false
elem r (i ∷ ids) = if r == i then true else elem r ids

elem-with_budget :
    (budget : ℕ → ℤ) (v : ℤ) (r : ℕ) (ids : List ℕ)
    → elem r (with_budget budget v ids) ≡ true
    → (budget r ≡ v) × (elem r ids ≡ true)
elem-with_budget budget v r [] h = absurd (ground arith)
elem-with_budget budget v r (i ∷ ids) h = ground (arith, elem-with_budget budget v r ids)

IsFirstBest-most :
    (budget : ℕ → ℤ) (r : ℕ) (ids : List ℕ)
    → IsFirstBest (λ a b. ltb_ℤ b a) budget ids r
    → All (λ i. budget i ≤ℤ budget r) ids
IsFirstBest-most budget r [] f = absurd f
IsFirstBest-most budget r (i ∷ ids) (inl (e, a)) = (
  subst (λ j. budget j ≤ℤ budget r) (sym e) (omega arith),
  All-map (λ y. ltb_ℤ (budget r) (budget y) ≡ false) (λ j. budget j ≤ℤ budget r) ids
      (λ j h. ground arith) a,
)
IsFirstBest-most budget r (i ∷ ids) (inr (b, f)) = (ground arith, IsFirstBest-most budget r ids f)

with_budget-nonempty :
    (budget : ℕ → ℤ) (r : ℕ) (ids : List ℕ)
    → IsFirstBest (λ a b. ltb_ℤ b a) budget ids r
    → (i : ℕ) × (rest : List ℕ) × (with_budget budget (budget r) ids ≡ i ∷ rest)
with_budget-nonempty budget r [] f = absurd f
with_budget-nonempty budget r (i ∷ ids) (inl (e, a)) = (
  i,
  with_budget budget (budget r) ids,
  if_pos (ℤ_discrete (budget i) (budget r)) (ap budget e) (i ∷ with_budget budget (budget r) ids) _,
)
with_budget-nonempty budget r (i ∷ ids) (inr (b, f)) =
    let (j, rest, e) = with_budget-nonempty budget r ids f in
    (
      j,
      rest,
      if_neg (ℤ_discrete (budget i) (budget r))
            (λ same. ground (arith, ap pos_part same, ap neg_part same))
            (i ∷ with_budget budget (budget r) ids) _
          ∙ e,
    )

largest-some :
    (budget : ℕ → ℤ) (n : ℕ)
    → 0 < n
    → (r : ℕ) × (largest budget (range_from 0 n) ≡ some (budget r))
      × IsFirstBest (λ a b. ltb_ℤ b a) budget (range_from 0 n) r
largest-some budget zero h = absurd (omega (arith, h))
largest-some budget (suc n) h = (
  choose (λ a b. ltb_ℤ b a) budget 0 (range_from 1 n),
  refl,
  choose-IsFirstBest higher_ℤ budget 0 (range_from 1 n),
)

-- Among one replica or more, and if the random choice from a list that is not empty is one of its
-- elements, get_min_ttft_replica chooses one of the replicas with the largest budget after the
-- request, and returns the number of tokens to prefill there.
pub get_min_ttft_replica-most :
    (hash : Bool → Option ℕ → List ℕ → ℕ) (choice : List ℕ → ℕ) (now : ℕ) (request : Request)
    (s : SharedState)
    → ((i : ℕ) (rest : List ℕ) → elem (choice (i ∷ rest)) (i ∷ rest) ≡ true)
    → 0 < s.num_replicas
    → (r : ℕ) × ((get_min_ttft_replica hash choice now request s).0
        ≡ some (r, get_num_recompute_token_ids hash request.input_ids (s.replica_budgets r)))
      × (elem r (replica_ids s) ≡ true)
      × All
          (λ i. waiting_budget hash request s i ≤ℤ waiting_budget hash request s r)
          (replica_ids s)
unfolding get_min_ttft_replica
get_min_ttft_replica-most hash choice now request s fair h =
    let budget : ℕ → ℤ = waiting_budget hash request s in
    let (b, e, f) = largest-some budget s.num_replicas h in
    let (j, rest, ne) = with_budget-nonempty budget b (replica_ids s) f in
    let chosen = choice (with_budget budget (budget b) (replica_ids s)) in
    let (top, found) =
      elem-with_budget budget (budget b) chosen (replica_ids s)
        (subst (λ l. elem (choice l) l ≡ true) (sym ne) (fair j rest)) in
    (
      chosen,
      ap (choose_among hash choice request s) e,
      found,
      subst (λ v. All (λ i. budget i ≤ℤ v) (replica_ids s)) (sym top)
          (IsFirstBest-most budget b (replica_ids s) f),
    )
