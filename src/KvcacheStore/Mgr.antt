-- ===== src/KvcacheStore/Mgr.antt =====
-- dualmap/cache_manager/kvcache_store: `KvCacheEngine` and `PrefixKVCacheMgr`, the blocks of one
-- replica, and the cached prefix of a prompt. A block id is an integer, as the source uses -1 for
-- "no block"; the set of free ids is a list, whose first element is the one that `next(iter())` takes.
pub mod Consistent
pub mod Evict
pub mod Save
pub mod RoundTrip
pub mod Exhausted
use dual_map.Prelude.{
  ℕ, zero, suc, ◌+◌, ◌*◌, ◌/◌, Bool, true, false, not, Option, none, some, List, [], ◌∷◌, ◌++◌, map,
  ite, ℤ, pos, negsuc, ◌-ℤ◌, ltb, ◌==◌, if◌then◌else◌, ℕ_discrete, ℤ_discrete, lookup, length, take,
  drop, range_from, is_some,
}
use dual_map.Prelude.Dict.{assign, del, contains}
use dual_map.KvcacheStore.Outcome.{Outcome, returned, key_error, looping}
use dual_map.KvcacheStore.Lru
use dual_map.KvcacheStore.Lru.{PrefixLruCache}

pub record KvCacheEngine : Type 0 where
  pub block_size : ℕ
  pub kv_cache_per_token : ℕ
  pub num_blocks : ℕ

-- `none` is ZeroDivisionError.
unfoldable pub init_engine : ℕ → ℕ → ℕ → Option KvCacheEngine
init_engine capacity block_size kv_cache_per_token =
    let block_capacity = kv_cache_per_token * block_size in
    if block_capacity == 0
    then none
    else some (record {
      block_size = block_size;
      kv_cache_per_token = kv_cache_per_token;
      num_blocks = capacity / block_capacity;
    })

pub record PrefixKvCacheMgr : Type 0 where
  pub block_size : ℕ
  pub num_blocks : ℕ
  pub lru : PrefixLruCache
  pub free_block_indices : List ℤ
  pub min_watermark : ℕ
  pub cached_blocks : List (ℕ × ℤ)

-- `int(0.01 * num_blocks)` is the quotient by 100.
unfoldable pub init : KvCacheEngine → PrefixKvCacheMgr
unfolding Lru.init
init engine = record {
  block_size = engine.block_size;
  num_blocks = engine.num_blocks;
  lru = Lru.init engine.num_blocks;
  free_block_indices = map pos (range_from 0 engine.num_blocks);
  min_watermark = engine.num_blocks / 100;
  cached_blocks = [];
}

abbrev pub mem : ℤ → List ℤ → Bool
mem b [] = false
mem b (c ∷ s) = ite (ℤ_discrete b c) true (mem b s)

unfoldable pub free_block_id : ℤ → PrefixKvCacheMgr → PrefixKvCacheMgr
free_block_id block_id m =
    if mem block_id m.free_block_indices
    then m
    else record m { free_block_indices = m.free_block_indices ++ block_id ∷ [] }

unfoldable pub free_block : ℕ → PrefixKvCacheMgr → Bool × PrefixKvCacheMgr
free_block content_hash_to_evict m =
    elim (lookup ℕ_discrete content_hash_to_evict m.cached_blocks) [
      | none ↦ (false, m)
      | some block_id ↦ (
        true,
        free_block_id block_id
            (record m { cached_blocks = del ℕ_discrete content_hash_to_evict m.cached_blocks }),
      )
    ]

-- The body of the loop of `_evict`: whether a block was freed. The hash 0 is falsy in Python.
unfoldable pub evict_one : PrefixKvCacheMgr → Bool × PrefixKvCacheMgr
evict_one m =
    let (entry, lru) = Lru.pop m.lru in
    let m' = record m { lru = lru } in
    elim entry [
      | none ↦ (false, m')
      | some (block_hash, _) ↦ if block_hash == 0 then (false, m') else free_block block_hash m'
    ]

-- `while(num_evict_blocks >= 0)`, on fuel.
unfoldable pub evict : ℕ → ℤ → PrefixKvCacheMgr → Outcome PrefixKvCacheMgr
evict zero num_evict_blocks m = looping
evict (suc fuel) (negsuc n) m = returned m
evict (suc fuel) (pos n) m =
    let (success, m') = evict_one m in evict fuel (if success then pos n -ℤ pos 1 else pos n) m'

unfoldable pub check_and_reclaim_cache : PrefixKvCacheMgr → Outcome PrefixKvCacheMgr
check_and_reclaim_cache m =
    if ltb (length m.free_block_indices) m.min_watermark
    then evict (length m.lru.dict_data + 1) (pos 80) m
    else returned m

abbrev pub take_free : List ℤ → PrefixKvCacheMgr → ℤ × PrefixKvCacheMgr
take_free [] m = (negsuc 0, m)
take_free (block_id ∷ rest) m = (block_id, record m { free_block_indices = rest })

unfoldable pub allocate_new_block_id : PrefixKvCacheMgr → Outcome (ℤ × PrefixKvCacheMgr)
allocate_new_block_id m = elim (check_and_reclaim_cache m) [
  | returned m' ↦ returned (take_free m'.free_block_indices m')
  | key_error m' ↦ key_error (negsuc 0, m')
  | looping ↦ looping
]

-- The `except` clauses pass on every exception, so that none leaves this method.
unfoldable pub allocate_block : ℕ → PrefixKvCacheMgr → Outcome (ℤ × PrefixKvCacheMgr)
allocate_block block_hash m = elim (allocate_new_block_id m) [
  | returned (block_id, m') ↦ returned (
    block_id,
    if contains ℕ_discrete block_hash m'.cached_blocks
        then (free_block block_hash m').1
        else record m' { cached_blocks = assign ℕ_discrete block_hash block_id m'.cached_blocks },
  )
  | key_error s ↦ returned s
  | looping ↦ looping
]

-- `self.lru.put(block_hash, 0)` stands outside the `try`.
unfoldable pub put_hash : ℕ → ℕ → PrefixKvCacheMgr → Outcome (ℕ × PrefixKvCacheMgr)
put_hash block_hash num_saved_blocks m = elim (Lru.put m.lru block_hash (pos 0)) [
  | returned lru ↦ returned (num_saved_blocks + 1, record m { lru = lru })
  | key_error lru ↦ key_error (num_saved_blocks, record m { lru = lru })
  | looping ↦ looping
]

-- The body of the loops of `_save` and `_save_prefill`, for one block.
unfoldable pub save_block : ℕ → ℕ → PrefixKvCacheMgr → Outcome (ℕ × PrefixKvCacheMgr)
save_block block_hash num_saved_blocks m =
    let touched = record m { lru = (Lru.get m.lru block_hash).1 } in
    elim (lookup ℕ_discrete block_hash m.cached_blocks) [
      | some index ↦ returned (num_saved_blocks, touched)
      | none ↦ elim (allocate_block block_hash touched) [
        | returned (block_id, m') ↦ put_hash block_hash num_saved_blocks m'
        | key_error (block_id, m') ↦ key_error (num_saved_blocks, m')
        | looping ↦ looping
      ]
    ]

unfoldable pub save_blocks : List ℕ → ℕ → PrefixKvCacheMgr → Outcome (ℕ × PrefixKvCacheMgr)
save_blocks [] num_saved_blocks m = returned (num_saved_blocks, m)
save_blocks (block_hash ∷ hashes) num_saved_blocks m =
    elim (save_block block_hash num_saved_blocks m) [
      | returned (saved, m') ↦ save_blocks hashes saved m'
      | key_error s ↦ key_error s
      | looping ↦ looping
    ]

-- The blocks at the front that are cached, up to the first that is not.
unfoldable pub count_cached : List ℕ → PrefixKvCacheMgr → ℕ
count_cached [] m = 0
count_cached (block_hash ∷ hashes) m =
    let rest = count_cached hashes m in
    elim (lookup ℕ_discrete block_hash m.cached_blocks) [
      | none ↦ 0
      | some index ↦ ite (ℤ_discrete (Lru.query m.lru block_hash) (negsuc 0)) 0 (rest + 1)
    ]

-- Python's `hash` of the tuple (is_first_block, prev_block_hash, *cur_block_token_ids).
module _ (hash : Bool → Option ℕ → List ℕ → ℕ) where
  -- The hashes that the loops over `range(block_num)` compute, from `logic_id` on.
  unfoldable pub block_hashes : ℕ → ℕ → ℕ → Option ℕ → List ℕ → List ℕ
  block_hashes block_size logic_id zero prev_block_hash prompt_token_ids = []
  block_hashes block_size logic_id (suc left) prev_block_hash prompt_token_ids =
      let cur_block_token_ids = take block_size (drop (logic_id * block_size) prompt_token_ids) in
      let block_hash = hash (not (is_some prev_block_hash)) prev_block_hash cur_block_token_ids in
      block_hash ∷ block_hashes block_size (logic_id + 1) left (some block_hash) prompt_token_ids

  abbrev pub prompt_hashes : ℕ → List ℕ → List ℕ
  prompt_hashes block_size prompt_token_ids =
      block_hashes block_size 0 (length prompt_token_ids / block_size) none prompt_token_ids

  unfoldable pub get_num_cached_blocks : List ℕ → PrefixKvCacheMgr → ℕ
  get_num_cached_blocks prompt_token_ids m =
      count_cached (prompt_hashes m.block_size prompt_token_ids) m

  unfoldable pub save : List ℕ → PrefixKvCacheMgr → Outcome (ℕ × PrefixKvCacheMgr)
  save prompt_token_ids m = save_blocks (prompt_hashes m.block_size prompt_token_ids) 0 m

  unfoldable pub save_prefill : ℕ → List ℕ → PrefixKvCacheMgr → Outcome (ℕ × PrefixKvCacheMgr)
  save_prefill request_id prompt_token_ids m =
      save_blocks (prompt_hashes m.block_size prompt_token_ids) 0 m

unfoldable pub get_size : PrefixKvCacheMgr → ℕ
unfolding Lru.get_len
get_size m = Lru.get_len m.lru
