-- ===== src/KvcacheStore/Mgr/Save.antt =====
-- `_save` on a consistent cache of at least a hundred blocks: it ends, it never raises, and it keeps
-- the cache consistent.
use dual_map.Prelude.{
  ℕ, ◌+◌, ◌/◌, ◌≤◌, ◌<◌, ◌≡◌, ◌≢◌, refl, true, none, some, List, [], ◌∷◌, ◌++◌, arith, ite, ℤ, pos,
  ℕ_discrete, ℤ_discrete, lookup, length, length-append, Option-cases, inl, inr, List-cases, ap,
}
use dual_map.Prelude.Dict.{
  values, assign, contains, lookup-assign, length-assign_absent, assign-IsDistinct,
  lookup-move_to_end, length-move_to_end, lookup-append, assign-absent, snoc-IsDistinct,
}
use dual_map.KvcacheStore.Outcome.{returned}
use dual_map.KvcacheStore.Lru
use dual_map.KvcacheStore.Lru.Bounds.{get-IsValid, stored_absent}
use dual_map.KvcacheStore.Mgr.{
  PrefixKvCacheMgr, allocate_new_block_id, allocate_block, put_hash, save_block,
  check_and_reclaim_cache,
}
use dual_map.KvcacheStore.Mgr.Consistent.{IsConsistent, count}
use dual_map.KvcacheStore.Mgr.Evict.{check_and_reclaim_cache_lem}

-- `lru.get` on the way in.
touched : ℕ → PrefixKvCacheMgr → PrefixKvCacheMgr
touched h m = record m { lru = (Lru.get m.lru h).1 }

touched-IsConsistent : (h : ℕ) (m : PrefixKvCacheMgr) → IsConsistent m → IsConsistent (touched h m)
unfolding touched Lru.get
touched-IsConsistent h m inv = record {
  lru_valid = get-IsValid m.lru h inv.lru_valid;
  capacity = ground (arith, inv.capacity);
  table_distinct = inv.table_distinct;
  same = λ key. ground (
    arith,
    inv.same key,
    lookup-move_to_end ℕ_discrete h key m.lru.dict_data inv.lru_valid.distinct,
  );
  truthy =
      ground (
        arith,
        inv.truthy,
        lookup-move_to_end ℕ_discrete h 0 m.lru.dict_data inv.lru_valid.distinct,
      );
  stored = λ key. ground (
    arith,
    inv.stored key,
    lookup-move_to_end ℕ_discrete h key m.lru.dict_data inv.lru_valid.distinct,
  );
  paired = ground (arith, inv.paired, length-move_to_end ℕ_discrete h m.lru.dict_data);
  placed = inv.placed;
  total = inv.total;
}

-- The state after block `b` is given to the hash `h`.
module _ (m : PrefixKvCacheMgr) (h : ℕ) (b : ℤ) (rest : List ℤ) where
  given : PrefixKvCacheMgr
  given = record m {
    free_block_indices = rest;
    cached_blocks = assign ℕ_discrete h b m.cached_blocks;
  }

  inserted : PrefixKvCacheMgr
  inserted = record m {
    lru = record (m.lru) {
      dict_data = m.lru.dict_data ++ (h, pos 0) ∷ [];
      size_ = m.lru.size_ + 1;
    };
    free_block_indices = rest;
    cached_blocks = assign ℕ_discrete h b m.cached_blocks;
  }

  module _ (inv : IsConsistent m) (free : m.free_block_indices ≡ b ∷ rest)
      (new : lookup ℕ_discrete h m.cached_blocks ≡ none) (truthy : h ≢ 0) where
    new_to_lru : lookup ℕ_discrete h m.lru.dict_data ≡ none
    new_to_lru = ground (arith, inv.same h)

    room : m.lru.size_ < m.lru.capacity
    room = omega (arith, inv.lru_valid.counted, inv.paired, inv.total, inv.capacity, ap length free)

    put_hash-inserted : (k : ℕ) → put_hash h k given ≡ returned (k + 1, inserted)
    unfolding put_hash given inserted Lru.put
    put_hash-inserted k = ground (arith, new_to_lru, room, stored_absent h (pos 0) m.lru.dict_data)

    count-assign :
        (c : ℤ)
        → count c (values (assign ℕ_discrete h b m.cached_blocks))
          ≡ count c (values m.cached_blocks) + ite (ℤ_discrete c b) 1 0
    count-assign c =
        rw (assign-absent ℕ_discrete h b m.cached_blocks new) (count_values-snoc m.cached_blocks)
      where
        count_values-snoc :
            (d : List (ℕ × ℤ))
            → count c (values (d ++ (h, b) ∷ [])) ≡ count c (values d) + ite (ℤ_discrete c b) 1 0
        count_values-snoc [] = omega arith
        count_values-snoc ((j, w) ∷ d) = omega (arith, count_values-snoc d)

    inserted-IsConsistent : IsConsistent inserted
    unfolding inserted lookup
    inserted-IsConsistent = record {
      lru_valid = record {
        counted =
            ground (arith, inv.lru_valid.counted, length-append m.lru.dict_data ((h, pos 0) ∷ []));
        bounded = omega (arith, room);
        distinct =
            snoc-IsDistinct ℕ_discrete h (pos 0) m.lru.dict_data new_to_lru inv.lru_valid.distinct;
      };
      capacity = inv.capacity;
      table_distinct = assign-IsDistinct ℕ_discrete h b m.cached_blocks inv.table_distinct;
      same = λ key. ground (
        arith,
        inv.same key,
        new_to_lru,
        lookup-append ℕ_discrete key m.lru.dict_data ((h, pos 0) ∷ []),
        lookup-assign ℕ_discrete h key b m.cached_blocks,
      );
      truthy =
          ground (arith, inv.truthy, lookup-append ℕ_discrete 0 m.lru.dict_data ((h, pos 0) ∷ []));
      stored = λ key.
          ground
            (arith, inv.stored key, lookup-append ℕ_discrete key m.lru.dict_data ((h, pos 0) ∷ []));
      paired = ground (
        arith,
        inv.paired,
        length-append m.lru.dict_data ((h, pos 0) ∷ []),
        length-assign_absent ℕ_discrete h b m.cached_blocks new,
      );
      placed = λ c. ground (arith, inv.placed c, count-assign c);
      total = ground (arith, inv.total, length-assign_absent ℕ_discrete h b m.cached_blocks new);
    }

-- What is asked of a cache: at least a hundred blocks, so that the watermark is not 0.
pub record IsReady (m : PrefixKvCacheMgr) : Type 0 where
  pub consistent : IsConsistent m
  pub watermark : m.min_watermark ≡ m.num_blocks / 100
  pub large : 100 ≤ m.num_blocks

-- What saving the block `h` does to the table. With free blocks above the watermark no other hash
-- leaves it.
pub record Saves (h : ℕ) (m m' : PrefixKvCacheMgr) : Type 0 where
  pub ready : IsReady m'
  pub block_size : m'.block_size ≡ m.block_size
  pub min_watermark : m'.min_watermark ≡ m.min_watermark
  pub present : contains ℕ_discrete h m'.cached_blocks ≡ true
  pub spent :
      m.min_watermark < length m.free_block_indices
      → length m.free_block_indices ≤ length m'.free_block_indices + 1
  pub kept :
      m.min_watermark < length m.free_block_indices
      → (key : ℕ) → contains ℕ_discrete key m.cached_blocks ≡ true
      → contains ℕ_discrete key m'.cached_blocks ≡ true

-- A block that is in the table already.
save_block_hit :
    (h k : ℕ) (m : PrefixKvCacheMgr) (b : ℤ)
    → lookup ℕ_discrete h m.cached_blocks ≡ some b
    → save_block h k m ≡ returned (k, touched h m)
unfolding save_block touched
save_block_hit h k m b e = rw (e, save_block)

allocate_block_lem :
    (h : ℕ) (m m' : PrefixKvCacheMgr) (b : ℤ) (rest : List ℤ)
    → check_and_reclaim_cache m ≡ returned m'
    → m'.free_block_indices ≡ b ∷ rest
    → lookup ℕ_discrete h m'.cached_blocks ≡ none
    → allocate_block h m ≡ returned (b, given m' h b rest)
unfolding allocate_block allocate_new_block_id given
allocate_block_lem h m m' b rest e free new = ground arith

save_block_miss :
    (h k : ℕ) (m m' : PrefixKvCacheMgr) (b : ℤ) (s : ℕ × PrefixKvCacheMgr)
    → lookup ℕ_discrete h m.cached_blocks ≡ none
    → allocate_block h (touched h m) ≡ returned (b, m')
    → put_hash h k m' ≡ returned s
    → save_block h k m ≡ returned s
unfolding save_block touched
save_block_miss h k m m' b s absent allocated stored = ground arith

-- One block is saved: the loop body ends without an exception.
pub save_block_lem :
    (h k : ℕ) (m : PrefixKvCacheMgr)
    → IsReady m
    → h ≢ 0
    → (k' : ℕ) × (m' : PrefixKvCacheMgr) × (save_block h k m ≡ returned (k', m')) × Saves h m m'
unfolding touched given inserted
save_block_lem h k m r truthy = elim (Option-cases (lookup ℕ_discrete h m.cached_blocks)) [
  | inr (b, hit) ↦ (
    k,
    touched h m,
    save_block_hit h k m b hit,
    record {
      ready = record {
        consistent = touched-IsConsistent h m r.consistent;
        watermark = r.watermark;
        large = r.large;
      };
      block_size = refl;
      min_watermark = refl;
      present = ground arith;
      spent = λ _. omega arith;
      kept = λ _ key p. p;
    },
  )
  | inl miss ↦
      let (m₁, reclaimed, inv, shrinks, change) =
        check_and_reclaim_cache_lem (touched h m) (touched-IsConsistent h m r.consistent)
          r.watermark in
      elim (List-cases m₁.free_block_indices) [
        | inl empty ↦ absurd (ground (arith, r.watermark, r.large, ap length empty))
        | inr (b, rest, free) ↦
            let new = shrinks.absent h miss in
            (
              k + 1,
              inserted m₁ h b rest,
              save_block_miss h k m (given m₁ h b rest) b (k + 1, inserted m₁ h b rest) miss
                  (allocate_block_lem h (touched h m) m₁ b rest reclaimed free new)
                  (put_hash-inserted m₁ h b rest inv free new truthy k),
              record {
                ready = record {
                  consistent = inserted-IsConsistent m₁ h b rest inv free new truthy;
                  watermark = omega (arith, shrinks.min_watermark, shrinks.num_blocks, r.watermark);
                  large = omega (arith, shrinks.num_blocks, r.large);
                };
                block_size = shrinks.block_size;
                min_watermark = shrinks.min_watermark;
                present = ground (arith, lookup-assign ℕ_discrete h h b m₁.cached_blocks);
                spent = λ p. ground (arith, ap length free);
                kept = λ p key q. ground (arith, lookup-assign ℕ_discrete h key b m₁.cached_blocks);
              },
            )
      ]
]
