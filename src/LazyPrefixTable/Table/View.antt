-- ===== src/LazyPrefixTable/Table/View.antt =====
-- What a table decides, and what its operations do to that.
use dual_map.Prelude.{ℕ, suc, ◌≡◌, none, some, Option, List, arith, ite, ℕ_discrete, lookup}
use dual_map.Prelude.Dict.{assign, lookup-assign}
use dual_map.LazyPrefixTable.Bucket
use dual_map.LazyPrefixTable.Bucket.{
  LruCapBucket, IsValid, init-IsValid, get-IsValid, put-IsValid, delete-IsValid, lookup-get,
  lookup-put_self, lookup-put_value, get-value, capacity-get, capacity-delete, lookup-put_ne,
  lookup-delete, capacity-put,
}
use dual_map.LazyPrefixTable.Table.{LazyPrefixTable, init, get_bucket, set_bucket, rolling_hash}

-- The depth that the level `d` stores for the hash `h`.
unfoldable pub decision : LazyPrefixTable → ℕ → ℕ → Option ℕ
decision t d h = elim (lookup ℕ_discrete d t.level_buckets) [
  | none ↦ none
  | some bucket ↦ lookup ℕ_discrete h bucket.entries
]

-- Every level is a valid bucket of the table's capacity, and sends a prefix to the next level.
pub record IsLayered (t : LazyPrefixTable) : Type 0 where
  pub level :
      (d : ℕ) (b : LruCapBucket)
      → lookup ℕ_discrete d t.level_buckets ≡ some b
      → IsValid b × (b.capacity ≡ t.cap_per_level)
  pub next : (d h v : ℕ) → decision t d h ≡ some v → v ≡ suc d

-- A new table is layered.
pub init-IsLayered : (block_size cap_per_level : ℕ) → IsLayered (init block_size cap_per_level)
unfolding init decision lookup
init-IsLayered block_size cap_per_level = record { level = λ d b e. cc; next = λ d h v e. cc }

-- The bucket that an operation works on.
abbrev pub bucket_at : ℕ → LazyPrefixTable → LruCapBucket
bucket_at d t = (get_bucket d t).0

pub bucket_at-IsValid :
    (d : ℕ) (t : LazyPrefixTable)
    → IsLayered t
    → IsValid (bucket_at d t) × ((bucket_at d t).capacity ≡ t.cap_per_level)
unfolding get_bucket Bucket.init
bucket_at-IsValid d t l = ground (arith, init-IsValid t.cap_per_level, l.level d (bucket_at d t))

pub lookup-bucket_at :
    (d h : ℕ) (t : LazyPrefixTable) → lookup ℕ_discrete h (bucket_at d t).entries ≡ decision t d h
unfolding get_bucket decision lookup
lookup-bucket_at d h t = ground arith

-- Writing the bucket `b` back at level `d`.
module _ (d : ℕ) (b : LruCapBucket) (t : LazyPrefixTable) where
  unfoldable pub written : LazyPrefixTable
  written = set_bucket d b (get_bucket d t).1

  pub decision-written :
      (i h : ℕ)
      → decision written i h ≡ ite (ℕ_discrete i d) (lookup ℕ_discrete h b.entries) (decision t i h)
  unfolding written set_bucket get_bucket decision
  decision-written i h = ground (
    arith,
    lookup-assign ℕ_discrete d i b t.level_buckets,
    lookup-assign ℕ_discrete d i (Bucket.init t.cap_per_level) t.level_buckets,
    lookup-assign ℕ_discrete d i b
        (assign ℕ_discrete d (Bucket.init t.cap_per_level) t.level_buckets),
  )

  pub written-base : written.hash_base ≡ t.hash_base
  unfolding written set_bucket get_bucket
  written-base = ground arith

  pub written-cap : written.cap_per_level ≡ t.cap_per_level
  unfolding written set_bucket get_bucket
  written-cap = ground arith

  lookup-written :
      (i : ℕ)
      → lookup ℕ_discrete i written.level_buckets
        ≡ ite (ℕ_discrete i d) (some b) (lookup ℕ_discrete i t.level_buckets)
  unfolding written set_bucket get_bucket
  lookup-written i = ground (
    arith,
    lookup-assign ℕ_discrete d i b t.level_buckets,
    lookup-assign ℕ_discrete d i (Bucket.init t.cap_per_level) t.level_buckets,
    lookup-assign ℕ_discrete d i b
        (assign ℕ_discrete d (Bucket.init t.cap_per_level) t.level_buckets),
  )

  pub written-IsLayered :
      IsLayered t
      → IsValid b
      → b.capacity ≡ t.cap_per_level
      → ((h v : ℕ) → lookup ℕ_discrete h b.entries ≡ some v → v ≡ suc d)
      → IsLayered written
  written-IsLayered l v cap step = record {
    level = λ i c e. ground (arith, lookup-written i, l.level i c, written-cap);
    next = λ i h w e. ground (arith, decision-written i h, step h w, l.next i h w);
  }

-- A prefix has the same hash in tables with the same base.
pub rolling_hash-base :
    (t t' : LazyPrefixTable) (p : List ℕ) (d : ℕ)
    → t'.hash_base ≡ t.hash_base
    → rolling_hash t' p d ≡ rolling_hash t p d
unfolding rolling_hash
rolling_hash-base t t' p d e = rw e
