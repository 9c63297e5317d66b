-- ===== src/KvcacheStore/Mgr/Evict.antt =====
-- `_evict`: every round frees the block of the least recently used hash, and the loop ends.
use dual_map.Prelude.{
  ℕ, zero, suc, ◌+◌, ◌-◌, ◌/◌, ◌≤◌, ◌<◌, ◌≡◌, refl, true, none, some, List, [], ◌∷◌, ◌++◌, arith, ℤ,
  pos, ◌-ℤ◌, ℕ_discrete, lookup, length, length-append, Option-cases, inl, inr, ◌⊎◌, dec_lt,
  List-cases, ap, ◌∙◌,
}
use dual_map.Prelude.Dict.{del, lookup-del_ne, lookup-del_self, length-del, del-IsDistinct}
use dual_map.KvcacheStore.Outcome.{returned, looping}
use dual_map.KvcacheStore.Lru
use dual_map.KvcacheStore.Mgr.{
  PrefixKvCacheMgr, free_block_id, free_block, evict_one, evict, check_and_reclaim_cache,
}
use dual_map.KvcacheStore.Mgr.Consistent.{IsConsistent, count, count-append, mem-count, count-del}

-- The state after the entry `k` at the front of the LRU list is evicted with its block `c`.
module _ (m : PrefixKvCacheMgr) (k : ℕ) (v c : ℤ) (d : List (ℕ × ℤ)) where
  pub evicted : PrefixKvCacheMgr
  evicted = record m {
    lru = record (m.lru) { dict_data = d; size_ = m.lru.size_ - 1 };
    free_block_indices = m.free_block_indices ++ c ∷ [];
    cached_blocks = del ℕ_discrete k m.cached_blocks;
  }

  module _ (inv : IsConsistent m) (front : m.lru.dict_data ≡ (k, v) ∷ d)
      (cached : lookup ℕ_discrete k m.cached_blocks ≡ some c) where
    free_once : count c m.free_block_indices ≡ 0
    free_once = ground (arith, inv.placed c, count-del c k c m.cached_blocks)

    pub evict_one-evicted : evict_one m ≡ (true, evicted)
    unfolding evict_one evicted lookup free_block free_block_id Lru.pop
    evict_one-evicted =
        ground
          (arith, inv.truthy, inv.lru_valid.counted, mem-count c m.free_block_indices, free_once)

    pub evicted-IsConsistent : IsConsistent evicted
    unfolding evicted lookup
    evicted-IsConsistent = record {
      lru_valid = ground (arith, inv.lru_valid.counted);
      capacity = inv.capacity;
      table_distinct = del-IsDistinct ℕ_discrete k m.cached_blocks inv.table_distinct;
      same = λ key. ground (
        arith,
        inv.same key,
        inv.lru_valid.distinct,
        lookup-del_ne ℕ_discrete k key m.cached_blocks,
        lookup-del_self ℕ_discrete k m.cached_blocks,
        inv.table_distinct,
      );
      truthy = ground (arith, inv.truthy);
      stored = λ key. ground (arith, inv.stored key, inv.lru_valid.distinct);
      paired = ground (arith, inv.paired, length-del ℕ_discrete k m.cached_blocks);
      placed = λ b. ground (
        arith,
        inv.placed b,
        count-del b k c m.cached_blocks,
        count-append b m.free_block_indices (c ∷ []),
      );
      total = ground (
        arith,
        inv.total,
        length-del ℕ_discrete k m.cached_blocks,
        length-append m.free_block_indices (c ∷ []),
      );
    }

-- Eviction keeps the geometry of the cache and adds no hash.
pub record Shrinks (m m' : PrefixKvCacheMgr) : Type 0 where
  pub block_size : m'.block_size ≡ m.block_size
  pub num_blocks : m'.num_blocks ≡ m.num_blocks
  pub min_watermark : m'.min_watermark ≡ m.min_watermark
  pub absent :
      (key : ℕ)
      → lookup ℕ_discrete key m.cached_blocks ≡ none
      → lookup ℕ_discrete key m'.cached_blocks ≡ none

Shrinks-trans : {a b c : PrefixKvCacheMgr} → Shrinks a b → Shrinks b c → Shrinks a c
Shrinks-trans f g = record {
  block_size = g.block_size ∙ f.block_size;
  num_blocks = g.num_blocks ∙ f.num_blocks;
  min_watermark = g.min_watermark ∙ f.min_watermark;
  absent = λ key h. g.absent key (f.absent key h);
}

pos-sub_one : (n : ℕ) → pos (suc n) -ℤ pos 1 ≡ pos n
unfolding ◌-ℤ◌
pos-sub_one n = ground arith

-- A round on a consistent cache with an entry left.
pub evict_one_lem :
    (m : PrefixKvCacheMgr) (e : ℕ × ℤ) (d : List (ℕ × ℤ))
    → IsConsistent m
    → m.lru.dict_data ≡ e ∷ d
    → (m' : PrefixKvCacheMgr) × (evict_one m ≡ (true, m'))
      × IsConsistent m'
      × Shrinks m m'
      × (m'.lru.dict_data ≡ d)
      × (length m'.free_block_indices ≡ length m.free_block_indices + 1)
unfolding evicted lookup
evict_one_lem m (k, v) d inv front = elim (Option-cases (lookup ℕ_discrete k m.cached_blocks)) [
  | inl absent ↦ absurd (ground (arith, inv.same k))
  | inr (c, cached) ↦ (
    evicted m k v c d,
    evict_one-evicted m k v c d inv front cached,
    evicted-IsConsistent m k v c d inv front cached,
    record {
      block_size = refl;
      num_blocks = refl;
      min_watermark = refl;
      absent = λ key h. ground (
        arith,
        lookup-del_ne ℕ_discrete k key m.cached_blocks,
        lookup-del_self ℕ_discrete k m.cached_blocks inv.table_distinct,
      );
    },
    refl,
    omega (arith, length-append m.free_block_indices (c ∷ [])),
  )
]

evict_step :
    (fuel n : ℕ) (m m' : PrefixKvCacheMgr)
    → evict_one m ≡ (true, m')
    → evict (suc fuel) (pos n) m ≡ evict fuel (pos n -ℤ pos 1) m'
unfolding evict
evict_step fuel n m m' e = rw e

-- The loop: `n + 1` rounds, each with an entry to evict.
pub evict_lem :
    (fuel n : ℕ) (m : PrefixKvCacheMgr)
    → IsConsistent m
    → n < length m.lru.dict_data
    → n + 1 < fuel
    → (m' : PrefixKvCacheMgr) × (evict fuel (pos n) m ≡ returned m')
      × IsConsistent m'
      × Shrinks m m'
      × (length m'.free_block_indices ≡ length m.free_block_indices + n + 1)
unfolding evict ◌-ℤ◌
evict_lem zero n m inv enough f = absurd (omega arith)
evict_lem (suc zero) n m inv enough f = absurd (omega arith)
evict_lem (suc (suc fuel)) zero m inv enough f = elim (List-cases m.lru.dict_data) [
  | inl e ↦ absurd (omega (arith, ap length e))
  | inr (x, d, e) ↦
      let (m₁, step, inv₁, frame, rest, freed) = evict_one_lem m x d inv e in
      (m₁, evict_step (suc fuel) 0 m m₁ step, inv₁, frame, omega (arith, freed))
]
evict_lem (suc (suc fuel)) (suc n) m inv enough f = elim (List-cases m.lru.dict_data) [
  | inl e ↦ absurd (omega (arith, ap length e))
  | inr (x, d, e) ↦
      let (m₁, step, inv₁, frame, rest, freed) = evict_one_lem m x d inv e in
      let (m₂, loop, inv₂, frame₂, freed₂) =
        evict_lem (suc fuel) n m₁ inv₁ (omega (arith, ap length e, ap length rest)) (omega arith) in
      (
        m₂,
        evict_step (suc fuel) (suc n) m m₁ step ∙ rw (pos-sub_one n) loop,
        inv₂,
        Shrinks-trans frame frame₂,
        omega (arith, freed, freed₂),
      )
]

-- With an empty LRU list the loop of the source never ends, whatever the fuel.
pub evict-starved :
    (fuel n : ℕ) (m : PrefixKvCacheMgr) → m.lru.size_ ≡ 0 → evict fuel (pos n) m ≡ looping
unfolding evict evict_one Lru.pop
evict-starved zero n m e = refl
evict-starved (suc fuel) n m e = ground (arith, evict-starved fuel n m e)

-- Reclaiming on a consistent cache whose watermark is a hundredth of its blocks ends, and leaves
-- the free blocks at the watermark or above, or else 81 more than before.
pub check_and_reclaim_cache_lem :
    (m : PrefixKvCacheMgr)
    → IsConsistent m
    → m.min_watermark ≡ m.num_blocks / 100
    → (m' : PrefixKvCacheMgr) × (check_and_reclaim_cache m ≡ returned m')
      × IsConsistent m'
      × Shrinks m m'
      × ((m' ≡ m) × (m.min_watermark ≤ length m.free_block_indices)
          ⊎ (length m.free_block_indices < m.min_watermark)
            × (length m'.free_block_indices ≡ length m.free_block_indices + 81))
unfolding check_and_reclaim_cache
check_and_reclaim_cache_lem m inv w = elim (dec_lt (length m.free_block_indices) m.min_watermark) [
  | yes low ↦
      let (m', e, inv', frame, freed) =
        evict_lem (length m.lru.dict_data + 1) 80 m inv (omega (arith, inv.paired, inv.total))
          (omega (arith, inv.paired, inv.total)) in
      (m', ground (arith, e), inv', frame, inr (low, omega (arith, freed)))
  | no high ↦ (
    m,
    ground arith,
    inv,
    record { block_size = refl; num_blocks = refl; min_watermark = refl; absent = λ key h. h },
    inl (refl, omega arith),
  )
]
