-- ===== src/DoubleHash/Enqueue.antt =====
-- dualmap/scheduler/utils/double_hash_global_scheduler_utils.py: how add_request_to_best_global_queue marks a request
-- by its primary replica.
use dual_map.Prelude.{
  ℕ, ◌≡◌, Bool, not, ◌||◌, ◌&&◌, ℤ, ltb_ℤ, leb_ℤ, if◌then◌else◌, arith, inl, inr,
}
use mathlib.Core.Path.{subst, sym}
use dual_map.Request.{Fields}
use dual_map.DoubleHash.Choices.{IsPairOf}

abbrev pub same_value : ℤ → ℤ → Bool
same_value a b = not (ltb_ℤ a b || ltb_ℤ b a)

-- `min` and `max` of the values of the two chosen replicas.
abbrev pub min_value : (ℕ → ℤ) → ℕ × ℕ → ℤ
min_value metric (a, b) = if ltb_ℤ (metric b) (metric a) then metric b else metric a

abbrev pub max_value : (ℕ → ℤ) → ℕ × ℕ → ℤ
max_value metric (a, b) = if ltb_ℤ (metric a) (metric b) then metric b else metric a

unfoldable pub mark : (ℕ → ℤ) → (ℕ → ℤ) → ℕ × ℕ → ℕ → Fields → Fields
mark hits latency chosen primary f =
    let affinity = same_value (hits primary) (max_value hits chosen) in
    let least_loaded = same_value (latency primary) (min_value latency chosen) in
    record f {
      is_dh_cache_affinity = affinity;
      is_dh_least_loaded = least_loaded;
      is_dh_cache_affinity_least_loaded = affinity && least_loaded;
    }

abbrev IsMarked : (ℕ → ℤ) → (ℕ → ℤ) → ℕ × ℕ → ℕ × ℕ → Type 0
IsMarked hits latency chosen (p, s) =
    (same_value (hits p) (max_value hits chosen) ≡ leb_ℤ (hits s) (hits p))
    × (same_value (latency p) (min_value latency chosen) ≡ leb_ℤ (latency p) (latency s))

-- If the primary and the second replica are the two chosen ones in one order or the other, the request
-- is marked as placed by cache affinity exactly if the second replica has no larger cache hit, and
-- as placed on the least loaded one exactly if the second replica has no smaller latency.
pub mark-leb_ℤ :
    (hits latency : ℕ → ℤ) (a b primary second : ℕ) (f : Fields)
    → IsPairOf (a, b) (primary, second)
    → let marked = mark hits latency (a, b) primary f in
      (marked.is_dh_cache_affinity ≡ leb_ℤ (hits second) (hits primary))
      × (marked.is_dh_least_loaded ≡ leb_ℤ (latency primary) (latency second))
unfolding mark
mark-leb_ℤ hits latency a b primary second f (inl e) =
    subst (IsMarked hits latency (a, b)) (sym e) (ground arith)
mark-leb_ℤ hits latency a b primary second f (inr e) =
    subst (IsMarked hits latency (a, b)) (sym e) (ground arith)
