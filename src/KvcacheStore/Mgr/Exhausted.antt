-- ===== src/KvcacheStore/Mgr/Exhausted.antt =====
-- A cache of fewer than a hundred blocks never reclaims: what happens when its blocks run out.
use dual_map.Prelude.{ℕ, ◌≡◌, none, [], arith, pos, negsuc, ℕ_discrete, lookup}
use dual_map.Prelude.Dict.{assign}
use dual_map.KvcacheStore.Outcome.{key_error}
use dual_map.KvcacheStore.Lru
use dual_map.KvcacheStore.Lru.Bounds.{put_full}
use dual_map.KvcacheStore.Mgr.{
  PrefixKvCacheMgr, allocate_new_block_id, allocate_block, put_hash, save_block,
  check_and_reclaim_cache,
}
use dual_map.KvcacheStore.Mgr.Consistent.{IsConsistent}

-- With watermark 0 and no free block, saving a new hash raises KeyError. The hash stays in the block
-- table with the block id -1, and the LRU list, which is full, does not get it.
pub save_block-exhausted :
    (h k : ℕ) (m : PrefixKvCacheMgr)
    → IsConsistent m
    → m.min_watermark ≡ 0
    → m.free_block_indices ≡ []
    → lookup ℕ_discrete h m.cached_blocks ≡ none
    → save_block h k m
      ≡ key_error (k, record m { cached_blocks = assign ℕ_discrete h (negsuc 0) m.cached_blocks })
unfolding save_block allocate_block allocate_new_block_id check_and_reclaim_cache put_hash Lru.get
save_block-exhausted h k m inv w free new = ground (
  arith,
  inv.same h,
  inv.lru_valid.counted,
  inv.paired,
  inv.total,
  inv.capacity,
  put_full m.lru h (pos 0),
)
