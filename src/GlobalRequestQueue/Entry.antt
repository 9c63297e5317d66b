-- ===== src/GlobalRequestQueue/Entry.antt =====
-- dualmap/scheduler/utils/double_hash_global_scheduler_utils.py: an entry of a queue, its order as
-- Python compares tuples, and what the queue uses of `heapq`.
use dual_map.Prelude.{
  ℕ, ◌+◌, ◌*◌, ◌≡◌, Bool, true, false, List, ◌∷◌, ℤ, leb, ltb_ℤ, if◌then◌else◌, some, get_elem?,
  ◌⊎◌, arith,
}
use mathlib.Core.List.{Permᴰ}
use dual_map.Request.{Request}

pub record Item : Type 0 where
  pub negtive_prefix_cache_hit_len : ℤ
  pub arrived_at : ℕ
  pub req : Request

-- The order of the first two places. Where both agree Python goes on to compare the requests, which
-- raises TypeError; arrival times come from a clock and are taken to differ.
abbrev pub item_le : Item → Item → Bool
item_le a b =
    if ltb_ℤ a.negtive_prefix_cache_hit_len b.negtive_prefix_cache_hit_len
    then true
    else if ltb_ℤ b.negtive_prefix_cache_hit_len a.negtive_prefix_cache_hit_len
    then false
    else leb a.arrived_at b.arrived_at

abbrev pub IsBefore : Item → Item → Type 0
IsBefore a b = item_le a b ≡ true

pub IsBefore-trans : (a b c : Item) → IsBefore a b → IsBefore b c → IsBefore a c
IsBefore-trans a b c h g = ground arith

pub IsBefore-total : (a b : Item) → IsBefore a b ⊎ IsBefore b a
IsBefore-total a b = ground arith

-- No entry is before the one at half its position: the invariant that `heapq` documents.
abbrev pub IsHeap : List Item → Type 0
IsHeap h =
    (k : ℕ) (a b : Item)
    → get_elem? h k ≡ some a
    → ((get_elem? h (2 * k + 1) ≡ some b) ⊎ (get_elem? h (2 * k + 2) ≡ some b))
    → IsBefore a b

-- `heappop` on the list `x ∷ h` gives `x` and leaves `heappop_rest x h`.
pub record Heapq : Type 0 where
  pub heappush : List Item → Item → List Item
  pub heappop_rest : Item → List Item → List Item
  pub heapify : List Item → List Item
  pub heappush-Permᴰ : (h : List Item) (x : Item) → Permᴰ (heappush h x) (x ∷ h)
  pub heappop_rest-Permᴰ : (x : Item) (h : List Item) → Permᴰ (heappop_rest x h) h
  pub heapify-Permᴰ : (h : List Item) → Permᴰ (heapify h) h
  pub heappush-IsHeap : (h : List Item) (x : Item) → IsHeap h → IsHeap (heappush h x)
  pub heappop_rest-IsHeap : (x : Item) (h : List Item) → IsHeap (x ∷ h) → IsHeap (heappop_rest x h)
  pub heapify-IsHeap : (h : List Item) → IsHeap (heapify h)
