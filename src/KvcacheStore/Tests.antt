-- ===== src/KvcacheStore/Tests.antt =====
-- Small caches, what the source does on them, and the theorems at concrete inputs.
use dual_map.Prelude.{
  All, length, ◌<◌, ◌⊎◌, ℕ, zero, suc, ◌+◌, ◌≤◌, ◌≡◌, ◌≢◌, refl, Bool, none, some, List, [], ◌∷◌,
  arith, ℤ, pos, negsuc, ◌-ℤ◌, Option, ℕ_discrete, ℤ_discrete, lookup,
}
use dual_map.Prelude.Dict.{assign, del, move_to_end}
use dual_map.KvcacheStore.Outcome.{returned, key_error, looping}
use dual_map.KvcacheStore.Lru
use dual_map.KvcacheStore.Lru.{PrefixLruCache}
use dual_map.KvcacheStore.Lru.Bounds
use dual_map.KvcacheStore.Mgr
use dual_map.KvcacheStore.Mgr.{
  check_and_reclaim_cache, KvCacheEngine, PrefixKvCacheMgr, evict, save, save_block,
  get_num_cached_blocks, prompt_hashes,
}
use dual_map.KvcacheStore.Mgr.Consistent
use dual_map.KvcacheStore.Mgr.Consistent.{IsConsistent, init-IsConsistent}
use dual_map.KvcacheStore.Mgr.Evict.{Shrinks, check_and_reclaim_cache_lem, evict-starved}
use dual_map.KvcacheStore.Mgr.Save.{IsReady}
use dual_map.KvcacheStore.Mgr.RoundTrip.{save-IsReady, get_num_cached_blocks-save}
use dual_map.KvcacheStore.Mgr.Exhausted.{save_block-exhausted}

-- One more than a polynomial in the previous hash and the tokens.
abbrev sum : List ℕ → ℕ
sum [] = 0
sum (x ∷ xs) = x + sum xs

abbrev sample_hash : Bool → Option ℕ → List ℕ → ℕ
sample_hash first none ids = suc (sum ids)
sample_hash first (some prev) ids = suc (prev + prev + sum ids)

abbrev engine : KvCacheEngine
engine = record { block_size = 2; kv_cache_per_token = 1; num_blocks = 100 }

abbrev mgr : PrefixKvCacheMgr
mgr = Mgr.init engine

mgr-IsReady : IsReady mgr
unfolding Mgr.init
mgr-IsReady = record {
  consistent = init-IsConsistent engine;
  watermark = refl;
  large = omega arith;
}

program : Unit {0}
unfolding Mgr.init Mgr.save Mgr.save_blocks Mgr.save_block Mgr.allocate_block
    Mgr.allocate_new_block_id Mgr.check_and_reclaim_cache Mgr.put_hash Mgr.block_hashes
    Mgr.count_cached Mgr.get_num_cached_blocks Lru.get Lru.put Lru.query assign del move_to_end
    lookup ℕ_discrete ℤ_discrete evict Mgr.evict_one Mgr.free_block Mgr.free_block_id Lru.pop ◌-ℤ◌
program = tt

-- Two whole blocks of five tokens are saved, and a longer prompt finds both.
save_then_count :
    (n : ℕ) × (m' : PrefixKvCacheMgr) × (save sample_hash (4 ∷ 5 ∷ 6 ∷ 7 ∷ 8 ∷ []) mgr
      ≡ returned (n, m'))
    × (get_num_cached_blocks sample_hash (4 ∷ 5 ∷ 6 ∷ 7 ∷ 1 ∷ 1 ∷ []) m' ≡ 2)
unfolding program
save_then_count = (2, _, refl, refl)

abbrev prompt : List ℕ
prompt = 4 ∷ 5 ∷ 6 ∷ 7 ∷ 8 ∷ []

prompt-truthy : All (λ h. h ≢ 0) (prompt_hashes sample_hash 2 prompt)
unfolding Mgr.block_hashes
prompt-truthy = (omega arith, (omega arith, tt))

save-IsReady_example :
    (n : ℕ) × (m' : PrefixKvCacheMgr) × (save sample_hash (4 ∷ 5 ∷ 6 ∷ 7 ∷ 8 ∷ []) mgr
      ≡ returned (n, m'))
    × IsReady m'
unfolding Mgr.init
save-IsReady_example = save-IsReady sample_hash prompt mgr mgr-IsReady prompt-truthy

get_num_cached_blocks-save_example :
    (n : ℕ) × (m' : PrefixKvCacheMgr) × (save sample_hash (4 ∷ 5 ∷ 6 ∷ 7 ∷ 8 ∷ []) mgr
      ≡ returned (n, m'))
    × (2 ≤ get_num_cached_blocks sample_hash (4 ∷ 5 ∷ 6 ∷ 7 ∷ 8 ∷ 9 ∷ 1 ∷ []) m')
unfolding Mgr.init
get_num_cached_blocks-save_example =
    get_num_cached_blocks-save sample_hash prompt (9 ∷ 1 ∷ []) mgr mgr-IsReady prompt-truthy
      (omega arith)

-- A cache with one block, which the hash 7 holds.
abbrev full_mgr : PrefixKvCacheMgr
full_mgr = record {
  block_size = 2;
  num_blocks = 1;
  lru = record { capacity = 1; dict_data = (7, pos 0) ∷ []; size_ = 1 };
  free_block_indices = [];
  min_watermark = 0;
  cached_blocks = (7, pos 0) ∷ [];
}

full_mgr-IsConsistent : IsConsistent full_mgr
unfolding lookup ℕ_discrete ℤ_discrete
full_mgr-IsConsistent = record {
  lru_valid = record { counted = refl; bounded = omega arith; distinct = (refl, tt) };
  capacity = refl;
  table_distinct = (refl, tt);
  same = λ key. refl;
  truthy = refl;
  stored = λ key. ground arith;
  paired = refl;
  placed = placed;
  total = refl;
}
  where
    placed :
        (b : ℤ) → Consistent.count b [] + Consistent.count b (pos 0 ∷ []) ≡ Consistent.owned 1 b
    placed (pos zero) = refl
    placed (pos (suc n)) = ground arith
    placed (negsuc n) = ground arith

save_block-exhausted_example :
    save_block 9 3 full_mgr
    ≡ key_error (
      3,
      record full_mgr { cached_blocks = assign ℕ_discrete 9 (negsuc 0) full_mgr.cached_blocks },
    )
unfolding lookup ℕ_discrete
save_block-exhausted_example =
    save_block-exhausted 9 3 full_mgr full_mgr-IsConsistent refl refl refl

evict-starved_example : evict 1000 (pos 80) mgr ≡ looping
unfolding Mgr.init
evict-starved_example = evict-starved 1000 80 mgr refl

abbrev full_lru : PrefixLruCache
full_lru = record { capacity = 2; dict_data = (1, pos 10) ∷ (2, pos 20) ∷ []; size_ = 2 }

full_lru-IsValid : Bounds.IsValid full_lru
unfolding lookup ℕ_discrete
full_lru-IsValid = record { counted = refl; bounded = omega arith; distinct = (refl, (refl, tt)) }

abbrev touched_lru : PrefixLruCache
touched_lru = record full_lru { dict_data = (2, pos 20) ∷ (1, pos 5) ∷ [] }

put-IsValid_example : Bounds.IsValid touched_lru
unfolding lookup ℕ_discrete Lru.put assign move_to_end del
put-IsValid_example = Bounds.put-IsValid full_lru 1 (pos 5) full_lru-IsValid refl

check_and_reclaim_cache_lem_example :
    (m' : PrefixKvCacheMgr) × (check_and_reclaim_cache mgr ≡ returned m')
    × IsConsistent m'
    × Shrinks mgr m'
    × ((m' ≡ mgr) × (1 ≤ 100) ⊎ (100 < 1) × (length m'.free_block_indices ≡ 181))
unfolding Mgr.init
check_and_reclaim_cache_lem_example =
    check_and_reclaim_cache_lem mgr mgr-IsReady.consistent mgr-IsReady.watermark
