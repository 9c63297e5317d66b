-- ===== src/KvcacheStore/Lru/Bounds.antt =====
-- The counter `size_` is the number of entries, never above the capacity, and no key stands twice.
use dual_map.Prelude.{
  ℕ, ◌≤◌, ◌≡◌, refl, none, List, [], ◌∷◌, ◌++◌, arith, ℤ, length, ℕ_discrete, lookup,
}
use dual_map.Prelude.Dict.{
  assign, move_to_end, IsDistinct, length-assign_absent, length-assign_present, length-move_to_end,
  assign-IsDistinct, move_to_end-IsDistinct, assign-absent, del, lookup-append,
}
use dual_map.KvcacheStore.Outcome.{returned, key_error}
use dual_map.KvcacheStore.Lru.{PrefixLruCache, get, put, pop, drop_last}

pub record IsValid (c : PrefixLruCache) : Type 0 where
  pub counted : c.size_ ≡ length c.dict_data
  pub bounded : c.size_ ≤ c.capacity
  pub distinct : IsDistinct ℕ_discrete c.dict_data

pub get-IsValid : (c : PrefixLruCache) (key : ℕ) → IsValid c → IsValid (get c key).1
unfolding get
get-IsValid c key v = ground (
  arith,
  length-move_to_end ℕ_discrete key c.dict_data,
  move_to_end-IsDistinct ℕ_discrete key c.dict_data,
)

pub pop-IsValid : (c : PrefixLruCache) → IsValid c → IsValid (pop c).1
unfolding pop
pop-IsValid c v = ground arith

pub put-IsValid :
    (c : PrefixLruCache) (key : ℕ) (value : ℤ) {c' : PrefixLruCache}
    → IsValid c
    → put c key value ≡ returned c'
    → IsValid c'
unfolding put
put-IsValid c key value v e = ground (
  arith,
  length-move_to_end ℕ_discrete key (assign ℕ_discrete key value c.dict_data),
  move_to_end-IsDistinct ℕ_discrete key (assign ℕ_discrete key value c.dict_data),
  assign-IsDistinct ℕ_discrete key value c.dict_data,
  length-assign_absent ℕ_discrete key value c.dict_data,
  length-assign_present ℕ_discrete key value c.dict_data,
)

drop_last-snoc : (d : List (ℕ × ℤ)) (e : ℕ × ℤ) → drop_last (d ++ e ∷ []) ≡ d
drop_last-snoc [] e = refl
drop_last-snoc (f ∷ []) e = refl
drop_last-snoc (f ∷ g ∷ d) e = ground (arith, drop_last-snoc (g ∷ d) e)

del-snoc :
    (k : ℕ) (v : ℤ) (d : List (ℕ × ℤ))
    → lookup ℕ_discrete k d ≡ none
    → del ℕ_discrete k (d ++ (k, v) ∷ []) ≡ d
unfolding lookup del
del-snoc k v [] h = ground arith
del-snoc k v ((j, w) ∷ d) h = ground (arith, del-snoc k v d)

-- A key that is new to the cache goes to the end.
pub stored_absent :
    (k : ℕ) (v : ℤ) (d : List (ℕ × ℤ))
    → lookup ℕ_discrete k d ≡ none
    → move_to_end ℕ_discrete k (assign ℕ_discrete k v d) ≡ d ++ (k, v) ∷ []
unfolding move_to_end lookup
stored_absent k v d h = ground (
  arith,
  assign-absent ℕ_discrete k v d,
  lookup-append ℕ_discrete k d ((k, v) ∷ []),
  del-snoc k v d,
)

-- On a full cache, storing a new key raises KeyError and leaves the cache as it was.
pub put_full :
    (c : PrefixLruCache) (key : ℕ) (value : ℤ)
    → c.size_ ≡ c.capacity
    → lookup ℕ_discrete key c.dict_data ≡ none
    → put c key value ≡ key_error c
unfolding put
put_full c key value full absent =
    ground (arith, stored_absent key value c.dict_data, drop_last-snoc c.dict_data (key, value))
