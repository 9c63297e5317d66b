-- ===== src/KvcacheStore/Lru.antt =====
-- dualmap/cache_manager/kvcache_store/prefix_kvcache_lru.py: `PrefixLRUCache`. Keys are the hashes
-- of prefixes, and the entry that was used least recently stands first.
pub mod Bounds
use dual_map.Prelude.{
  ℕ, suc, ◌+◌, ◌-◌, ◌≡◌, refl, Bool, true, false, Option, none, some, List, [], ◌∷◌, ite, ℤ, pos,
  negsuc, ◌==◌, if◌then◌else◌, ℕ_discrete, lookup,
}
use dual_map.Prelude.Dict.{assign, move_to_end, contains}
use dual_map.KvcacheStore.Outcome.{Outcome, returned, key_error}

pub record PrefixLruCache : Type 0 where
  pub capacity : ℕ
  pub dict_data : List (ℕ × ℤ)
  pub size_ : ℕ

unfoldable pub init : ℕ → PrefixLruCache
init capacity = record { capacity = capacity; dict_data = []; size_ = 0 }

unfoldable pub query : PrefixLruCache → ℕ → ℤ
query c key = elim (lookup ℕ_discrete key c.dict_data) [ none ↦ negsuc 0 | some res ↦ res ]

-- A hit moves to the end.
unfoldable pub get : PrefixLruCache → ℕ → ℤ × PrefixLruCache
get c key = elim (lookup ℕ_discrete key c.dict_data) [
  | none ↦ (negsuc 0, c)
  | some res ↦ (res, record c { dict_data = move_to_end ℕ_discrete key c.dict_data })
]

-- `dict_data.popitem()` takes the last entry off.
abbrev pub drop_last : List (ℕ × ℤ) → List (ℕ × ℤ)
drop_last [] = []
drop_last (e ∷ []) = []
drop_last (e ∷ f ∷ d) = e ∷ drop_last (f ∷ d)

unfoldable pub put : PrefixLruCache → ℕ → ℤ → Outcome PrefixLruCache
put c key value =
    let stored = move_to_end ℕ_discrete key (assign ℕ_discrete key value c.dict_data) in
    if contains ℕ_discrete key c.dict_data
    then returned (record c { dict_data = stored })
    else if c.size_ == c.capacity
    then key_error (record c { dict_data = drop_last stored })
    else returned (record c { dict_data = stored; size_ = c.size_ + 1 })

-- `popitem(last=False)` takes the first entry off; Python's (None, None) is `none`.
abbrev pub pop_first : ℕ → PrefixLruCache → Option (ℕ × ℤ) × PrefixLruCache
pop_first n c = elim c.dict_data [
  | [] ↦ (none, c)
  | e ∷ d ↦ (some e, record c { dict_data = d; size_ = n })
]

unfoldable pub pop : PrefixLruCache → Option (ℕ × ℤ) × PrefixLruCache
pop c = if c.size_ == 0 then (none, c) else pop_first (c.size_ - 1) c

unfoldable pub get_len : PrefixLruCache → ℕ
get_len c = c.size_
