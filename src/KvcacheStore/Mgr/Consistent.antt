-- ===== src/KvcacheStore/Mgr/Consistent.antt =====
-- The invariant of `PrefixKVCacheMgr`, and the operations that keep it: the same hashes in the LRU
-- list and in the block table, and every block id in exactly one place.
use dual_map.Prelude.{
  ℕ, zero, suc, ◌+◌, ◌≡◌, ◌≢◌, refl, false, none, some, List, [], ◌∷◌, ◌++◌, map, arith, ite, ℤ,
  pos, negsuc, ltb, if◌then◌else◌, ℕ_discrete, ℤ_discrete, lookup, length, range_from,
  length-range_from,
}
use dual_map.Prelude.Dict.{values, del, contains, IsDistinct}
use dual_map.KvcacheStore.Lru.Bounds.{IsValid}
use dual_map.KvcacheStore.Mgr.{KvCacheEngine, PrefixKvCacheMgr, init, mem}

abbrev pub count : ℤ → List ℤ → ℕ
count b [] = 0
count b (c ∷ s) = ite (ℤ_discrete b c) 1 0 + count b s

-- How often a block id may occur: the ids below `num_blocks` once, others never.
abbrev pub owned : ℕ → ℤ → ℕ
owned n (pos b) = if ltb b n then 1 else 0
owned n (negsuc b) = 0

pub record IsConsistent (m : PrefixKvCacheMgr) : Type 0 where
  pub lru_valid : IsValid m.lru
  pub capacity : m.lru.capacity ≡ m.num_blocks
  pub table_distinct : IsDistinct ℕ_discrete m.cached_blocks
  pub same :
      (key : ℕ) → contains ℕ_discrete key m.lru.dict_data ≡ contains ℕ_discrete key m.cached_blocks
  pub truthy : lookup ℕ_discrete 0 m.lru.dict_data ≡ none
  pub stored : (key : ℕ) → lookup ℕ_discrete key m.lru.dict_data ≢ some (negsuc 0)
  pub paired : length m.lru.dict_data ≡ length m.cached_blocks
  pub placed :
      (b : ℤ)
      → count b m.free_block_indices + count b (values m.cached_blocks) ≡ owned m.num_blocks b
  pub total : length m.free_block_indices + length m.cached_blocks ≡ m.num_blocks

pub count-append : (b : ℤ) (s t : List ℤ) → count b (s ++ t) ≡ count b s + count b t
count-append b [] t = omega arith
count-append b (c ∷ s) t = omega (arith, count-append b s t)

pub mem-count : (b : ℤ) (s : List ℤ) → count b s ≡ 0 → mem b s ≡ false
mem-count b [] h = refl
mem-count b (c ∷ s) h = ground (arith, mem-count b s)

count-range_from :
    (b : ℤ) (start n : ℕ)
    → count b (map pos (range_from start n)) + owned start b ≡ owned (start + n) b
count-range_from (pos b) start zero = ground arith
count-range_from (negsuc b) start zero = ground arith
count-range_from (pos b) start (suc n) = ground (arith, count-range_from (pos b) (suc start) n)
count-range_from (negsuc b) start (suc n) =
    ground (arith, count-range_from (negsuc b) (suc start) n)

-- Taking an entry out of the table takes its block id out, once.
pub count-del :
    (b : ℤ) (k : ℕ) (c : ℤ) (d : List (ℕ × ℤ))
    → lookup ℕ_discrete k d ≡ some c
    → count b (values (del ℕ_discrete k d)) + ite (ℤ_discrete b c) 1 0 ≡ count b (values d)
unfolding lookup del
count-del b k c [] h = cc
count-del b k c ((j, w) ∷ d) h = ground (arith, count-del b k c d)

owned-zero : (b : ℤ) → owned 0 b ≡ 0
owned-zero (pos b) = ground arith
owned-zero (negsuc b) = refl

length-map_pos : (s : List ℕ) → length (map pos s) ≡ length s
length-map_pos [] = refl
length-map_pos (x ∷ s) = omega (arith, length-map_pos s)

-- A new manager is consistent.
pub init-IsConsistent : (engine : KvCacheEngine) → IsConsistent (init engine)
unfolding init lookup
init-IsConsistent engine = record {
  lru_valid = record { counted = refl; bounded = omega arith; distinct = tt };
  capacity = refl;
  table_distinct = tt;
  same = λ key. refl;
  truthy = refl;
  stored = λ key. ground arith;
  paired = refl;
  placed = λ b. ground (arith, count-range_from b 0 engine.num_blocks, owned-zero b);
  total = omega (
    arith,
    length-map_pos (range_from 0 engine.num_blocks),
    length-range_from 0 engine.num_blocks,
  );
}
