-- ===== src/LazyPrefixTable/Bucket.antt =====
-- `LRUCapBucket`: the decisions of one level, by the hash of the prefix. The lock makes each method
-- atomic, so a method is one step.
use dual_map.Prelude.{
  ℕ, ◌≤◌, ◌≡◌, ◌≢◌, none, some, Option, List, [], ◌∷◌, ◌++◌, arith, ltb, if◌then◌else◌, ℕ_discrete,
  lookup, length, ite,
}
use dual_map.Prelude.Dict.{
  assign, del, move_to_end, contains, IsDistinct, lookup-assign, lookup-del_ne, lookup-del_self,
  lookup-move_to_end, length-del, length-move_to_end, length-assign_absent, length-assign_present,
  assign-absent, lookup-append, del-IsDistinct, assign-IsDistinct, move_to_end-IsDistinct,
}

pub record LruCapBucket : Type 0 where
  pub capacity : ℕ
  pub entries : List (ℕ × ℕ)

unfoldable pub init : ℕ → LruCapBucket
init capacity = record { capacity = capacity; entries = [] }

unfoldable pub get : ℕ → LruCapBucket → Option ℕ × LruCapBucket
get key b = elim (lookup ℕ_discrete key b.entries) [
  | none ↦ (none, b)
  | some value ↦ (some value, record b { entries = move_to_end ℕ_discrete key b.entries })
]

abbrev pub drop_first : List (ℕ × ℕ) → List (ℕ × ℕ)
drop_first [] = []
drop_first (e ∷ d) = d

-- The end of `put`: over the capacity, the oldest entry goes.
unfoldable pub evict_first : LruCapBucket → LruCapBucket
evict_first b =
    if ltb b.capacity (length b.entries) then record b { entries = drop_first b.entries } else b

unfoldable pub put : ℕ → ℕ → LruCapBucket → LruCapBucket
unfolding evict_first
put key value b = evict_first (record b {
  entries =
      if contains ℕ_discrete key b.entries
      then assign ℕ_discrete key value (move_to_end ℕ_discrete key b.entries)
      else assign ℕ_discrete key value b.entries;
})

unfoldable pub delete : ℕ → LruCapBucket → LruCapBucket
delete key b =
    if contains ℕ_discrete key b.entries
    then record b { entries = del ℕ_discrete key b.entries }
    else b

pub record IsValid (b : LruCapBucket) : Type 0 where
  pub distinct : IsDistinct ℕ_discrete b.entries
  pub bounded : length b.entries ≤ b.capacity

pub init-IsValid : (capacity : ℕ) → IsValid (init capacity)
unfolding init
init-IsValid capacity = record { distinct = tt; bounded = omega arith }

module _ (b : LruCapBucket) (v : IsValid b) (key : ℕ) where
  pub get-IsValid : IsValid (get key b).1
  unfolding get
  get-IsValid = record {
    distinct = ground (arith, v.distinct, move_to_end-IsDistinct ℕ_discrete key b.entries);
    bounded = ground (arith, v.bounded, length-move_to_end ℕ_discrete key b.entries);
  }

  pub get-value : (get key b).0 ≡ lookup ℕ_discrete key b.entries
  unfolding get
  get-value = ground arith

  pub capacity-get : (get key b).1.capacity ≡ b.capacity
  unfolding get
  capacity-get = ground arith

  pub capacity-delete : (delete key b).capacity ≡ b.capacity
  unfolding delete
  capacity-delete = ground arith

  -- A read changes no stored decision.
  pub lookup-get :
      (j : ℕ) → lookup ℕ_discrete j (get key b).1.entries ≡ lookup ℕ_discrete j b.entries
  unfolding get
  lookup-get j = ground (arith, v.distinct, lookup-move_to_end ℕ_discrete key j b.entries)

  pub delete-IsValid : IsValid (delete key b)
  unfolding delete
  delete-IsValid = record {
    distinct = ground (arith, v.distinct, del-IsDistinct ℕ_discrete key b.entries);
    bounded = ground (arith, v.bounded, length-del ℕ_discrete key b.entries);
  }

  pub lookup-delete :
      (j : ℕ)
      → lookup ℕ_discrete j (delete key b).entries
        ≡ ite (ℕ_discrete j key) none (lookup ℕ_discrete j b.entries)
  unfolding delete
  lookup-delete j = ground (
    arith,
    v.distinct,
    lookup-del_ne ℕ_discrete key j b.entries,
    lookup-del_self ℕ_discrete key b.entries,
  )

  -- A write keeps at most `capacity` entries, and no key twice.
  pub put-IsValid : (value : ℕ) → IsValid (put key value b)
  unfolding put
  put-IsValid value = ground (
    arith,
    v.distinct,
    v.bounded,
    length-move_to_end ℕ_discrete key b.entries,
    move_to_end-IsDistinct ℕ_discrete key b.entries,
    lookup-move_to_end ℕ_discrete key key b.entries,
    length-assign_present ℕ_discrete key value (move_to_end ℕ_discrete key b.entries),
    length-assign_absent ℕ_discrete key value b.entries,
    assign-IsDistinct ℕ_discrete key value b.entries,
    assign-IsDistinct ℕ_discrete key value (move_to_end ℕ_discrete key b.entries),
  )

lookup-drop_first :
    (j w : ℕ) (d : List (ℕ × ℕ))
    → IsDistinct ℕ_discrete d
    → lookup ℕ_discrete j (drop_first d) ≡ some w
    → lookup ℕ_discrete j d ≡ some w
unfolding lookup
lookup-drop_first j w [] dis h = h
lookup-drop_first j w (e ∷ d) dis h = ground arith

lookup-drop_first_snoc :
    (k v : ℕ) (d : List (ℕ × ℕ))
    → lookup ℕ_discrete k d ≡ none
    → 1 ≤ length d
    → lookup ℕ_discrete k (drop_first (d ++ (k, v) ∷ [])) ≡ some v
unfolding lookup
lookup-drop_first_snoc k v [] absent h = absurd (omega arith)
lookup-drop_first_snoc k v (e ∷ d) absent h =
    ground (arith, lookup-append ℕ_discrete k d ((k, v) ∷ []))

module _ (b : LruCapBucket) (v : IsValid b) (key value : ℕ) where
  -- The decision just written is found, in a bucket with room for one.
  pub lookup-put_self :
      1 ≤ b.capacity → lookup ℕ_discrete key (put key value b).entries ≡ some value
  unfolding put
  lookup-put_self room = ground (
    arith,
    v.distinct,
    v.bounded,
    length-move_to_end ℕ_discrete key b.entries,
    lookup-move_to_end ℕ_discrete key key b.entries,
    length-assign_present ℕ_discrete key value (move_to_end ℕ_discrete key b.entries),
    length-assign_absent ℕ_discrete key value b.entries,
    assign-absent ℕ_discrete key value b.entries,
    lookup-assign ℕ_discrete key key value b.entries,
    lookup-assign ℕ_discrete key key value (move_to_end ℕ_discrete key b.entries),
    lookup-drop_first_snoc key value b.entries,
  )

  -- Under the key just written there is no other decision, whatever the capacity.
  pub lookup-put_value :
      (w : ℕ) → lookup ℕ_discrete key (put key value b).entries ≡ some w → w ≡ value
  unfolding put
  lookup-put_value w h = ground (
    arith,
    v.distinct,
    lookup-move_to_end ℕ_discrete key key b.entries,
    lookup-assign ℕ_discrete key key value b.entries,
    lookup-assign ℕ_discrete key key value (move_to_end ℕ_discrete key b.entries),
    assign-IsDistinct ℕ_discrete key value b.entries,
    move_to_end-IsDistinct ℕ_discrete key b.entries,
    assign-IsDistinct ℕ_discrete key value (move_to_end ℕ_discrete key b.entries),
    lookup-drop_first key w (assign ℕ_discrete key value b.entries),
    lookup-drop_first key w (assign ℕ_discrete key value (move_to_end ℕ_discrete key b.entries)),
  )

  -- A write adds no other decision; it may drop one.
  pub lookup-put_ne :
      (j w : ℕ)
      → j ≢ key
      → lookup ℕ_discrete j (put key value b).entries ≡ some w
      → lookup ℕ_discrete j b.entries ≡ some w
  unfolding put
  lookup-put_ne j w ne h = ground (
    arith,
    v.distinct,
    lookup-move_to_end ℕ_discrete key j b.entries,
    lookup-assign ℕ_discrete key j value b.entries,
    lookup-assign ℕ_discrete key j value (move_to_end ℕ_discrete key b.entries),
    assign-IsDistinct ℕ_discrete key value b.entries,
    move_to_end-IsDistinct ℕ_discrete key b.entries,
    assign-IsDistinct ℕ_discrete key value (move_to_end ℕ_discrete key b.entries),
    lookup-drop_first j w (assign ℕ_discrete key value b.entries),
    lookup-drop_first j w (assign ℕ_discrete key value (move_to_end ℕ_discrete key b.entries)),
  )

  pub capacity-put : (put key value b).capacity ≡ b.capacity
  unfolding put
  capacity-put = ground arith
