-- ===== src/LazyPrefixTable/Table.antt =====
-- `LazyPrefixTable`: for each depth, which prefixes of that depth go on to the next.
pub mod View
pub mod Changes
pub mod Walk
use dual_map.Prelude.{
  ℕ, zero, suc, ◌+◌, ◌-◌, ◌*◌, ◌%◌, ◌^◌, none, some, Option, List, [], ◌∷◌, leb, if◌then◌else◌,
  ℕ_discrete, lookup, length, take,
}
use dual_map.Prelude.Dict.{assign}
use dual_map.LazyPrefixTable.Bucket
use dual_map.LazyPrefixTable.Bucket.{LruCapBucket}

pub record LazyPrefixTable : Type 0 where
  pub block_size : ℕ
  pub cap_per_level : ℕ
  pub level_buckets : List (ℕ × LruCapBucket)
  pub stats : List (ℕ × ℕ)
  pub hash_base : ℕ

unfoldable pub init : ℕ → ℕ → LazyPrefixTable
init block_size cap_per_level = record {
  block_size = block_size;
  cap_per_level = cap_per_level;
  level_buckets = [];
  stats = [];
  hash_base = 1315423911;
}

-- The bucket of a level, made when it is missing.
unfoldable pub get_bucket : ℕ → LazyPrefixTable → LruCapBucket × LazyPrefixTable
unfolding Bucket.init
get_bucket depth t = elim (lookup ℕ_discrete depth t.level_buckets) [
  | some bucket ↦ (bucket, t)
  | none ↦ (
    Bucket.init t.cap_per_level,
    record t {
      level_buckets = assign ℕ_discrete depth (Bucket.init t.cap_per_level) t.level_buckets;
      stats = assign ℕ_discrete depth 0 t.stats;
    },
  )
]

-- The bucket is an object that the table shares: what a method does to it is written back.
unfoldable pub set_bucket : ℕ → LruCapBucket → LazyPrefixTable → LazyPrefixTable
set_bucket depth bucket t = record t {
  level_buckets = assign ℕ_discrete depth bucket t.level_buckets;
}

-- `(h * hash_base + b) & 0xFFFFFFFFFFFFFFFF`, from left to right.
unfoldable pub rolling : ℕ → ℕ → List ℕ → ℕ
rolling hash_base h [] = h
rolling hash_base h (b ∷ blocks) = rolling hash_base ((h * hash_base + b) % 2 ^ 64) blocks

unfoldable pub rolling_hash : LazyPrefixTable → List ℕ → ℕ → ℕ
unfolding rolling
rolling_hash t prefix_blocks depth = rolling t.hash_base 0 (take depth prefix_blocks)

abbrev pub get_stat : ℕ → List (ℕ × ℕ) → ℕ
get_stat depth stats = elim (lookup ℕ_discrete depth stats) [ none ↦ 0 | some n ↦ n ]

-- The body of the loop of `lookup`, up to the test of the decision.
unfoldable pub decide_level : ℕ → List ℕ → LazyPrefixTable → Option ℕ × LazyPrefixTable
decide_level depth prefix_blocks t =
    let h = rolling_hash t prefix_blocks depth in
    let (bucket, t₁) = get_bucket depth t in
    let (decision, bucket') = Bucket.get h bucket in
    let t₂ = set_bucket depth bucket' t₁ in
    (decision, record t₂ { stats = assign ℕ_discrete depth (get_stat depth t₂.stats + 1) t₂.stats })

-- `while depth <= max_depth`, on fuel; `none` means that the fuel ran out.
unfoldable pub lookup_from : ℕ → ℕ → List ℕ → LazyPrefixTable → Option (ℕ × LazyPrefixTable)
lookup_from zero depth prefix_blocks t = none
lookup_from (suc fuel) depth prefix_blocks t =
    let (decision, t') = decide_level depth prefix_blocks t in
    let go_on : Option (ℕ × LazyPrefixTable) = elim decision [
      | none ↦ some (depth, t')
      | some deeper ↦ lookup_from fuel deeper prefix_blocks t'
    ] in
    if leb depth (length prefix_blocks) then go_on else some (length prefix_blocks, t)

-- Each round goes at least one level deeper.
unfoldable pub lookup_depth : List ℕ → LazyPrefixTable → Option (ℕ × LazyPrefixTable)
lookup_depth prefix_blocks t = lookup_from (length prefix_blocks + 1) 1 prefix_blocks t

unfoldable pub mark_expand : List ℕ → ℕ → LazyPrefixTable → LazyPrefixTable
mark_expand prefix_blocks new_depth t =
    let h = rolling_hash t prefix_blocks (new_depth - 1) in
    let (bucket, t₁) = get_bucket (new_depth - 1) t in
    set_bucket (new_depth - 1) (Bucket.put h new_depth bucket) t₁

unfoldable pub mark_shrink : List ℕ → ℕ → LazyPrefixTable → LazyPrefixTable
mark_shrink prefix_blocks old_depth t =
    let h = rolling_hash t prefix_blocks old_depth in
    let (bucket, t₁) = get_bucket old_depth t in set_bucket old_depth (Bucket.delete h bucket) t₁
