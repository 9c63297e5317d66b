-- ===== src/LazyPrefixTable/Table/Changes.antt =====
-- The operations of `LazyPrefixTable`, by what they do to its decisions.
use dual_map.Prelude.{
  ℕ, ◌+◌, ◌-◌, ◌≤◌, ◌≡◌, ◌≢◌, refl, none, some, List, arith, ite, ℕ_discrete, lookup, sym, ◌∙◌,
}
use dual_map.LazyPrefixTable.Bucket
use dual_map.LazyPrefixTable.Bucket.{
  LruCapBucket, IsValid, init-IsValid, get-IsValid, put-IsValid, delete-IsValid, lookup-get,
  lookup-put_self, lookup-put_value, get-value, capacity-get, capacity-delete, lookup-put_ne,
  lookup-delete, capacity-put,
}
use dual_map.LazyPrefixTable.Table.{
  LazyPrefixTable, rolling_hash, decide_level, mark_expand, mark_shrink,
}
use dual_map.LazyPrefixTable.Table.View.{
  decision, IsLayered, bucket_at, bucket_at-IsValid, lookup-bucket_at, written, decision-written,
  written-base, written-cap, written-IsLayered,
}

-- The counters have no part in the view.
restat-IsLayered :
    (t : LazyPrefixTable) (s : List (ℕ × ℕ)) → IsLayered t → IsLayered (record t { stats = s })
unfolding decision
restat-IsLayered t s l = record { level = l.level; next = l.next }

decision-restat :
    (t : LazyPrefixTable) (s : List (ℕ × ℕ)) (i h : ℕ)
    → decision (record t { stats = s }) i h ≡ decision t i h
unfolding decision
decision-restat t s i h = refl

-- A visit to a level answers its decision and keeps every decision.
pub record Visits (d : ℕ) (p : List ℕ) (t : LazyPrefixTable) : Type 0 where
  pub answer : (decide_level d p t).0 ≡ decision t d (rolling_hash t p d)
  pub layered : IsLayered (decide_level d p t).1
  pub base : (decide_level d p t).1.hash_base ≡ t.hash_base
  pub cap : (decide_level d p t).1.cap_per_level ≡ t.cap_per_level
  pub view : (i h : ℕ) → decision (decide_level d p t).1 i h ≡ decision t i h

module _ (d : ℕ) (p : List ℕ) (t : LazyPrefixTable) (l : IsLayered t) where
  at : LruCapBucket
  at = bucket_at d t

  key : ℕ
  key = rolling_hash t p d

  at-IsValid : IsValid at
  unfolding at
  at-IsValid = (bucket_at-IsValid d t l).0

  at-capacity : at.capacity ≡ t.cap_per_level
  unfolding at
  at-capacity = (bucket_at-IsValid d t l).1

  lookup-at : (h : ℕ) → lookup ℕ_discrete h at.entries ≡ decision t d h
  unfolding at
  lookup-at h = lookup-bucket_at d h t

  read : LruCapBucket
  read = (Bucket.get key at).1

  read-view : (i h : ℕ) → decision (written d read t) i h ≡ decision t i h
  unfolding read
  read-view i h =
      ground (arith, decision-written d read t i h, lookup-get at at-IsValid key h, lookup-at h)

  pub decide_level-Visits : Visits d p t
  unfolding decide_level written at key read
  decide_level-Visits = record {
    answer = ground (arith, get-value at at-IsValid key, lookup-at key);
    layered = restat-IsLayered (written d read t) _ (
        written-IsLayered d read t l (get-IsValid at at-IsValid key)
          (capacity-get at at-IsValid key ∙ at-capacity)
          (λ h v e. l.next d h v (ground (arith, lookup-get at at-IsValid key h, lookup-at h))));
    base = written-base d read t;
    cap = written-cap d read t;
    view = λ i h. decision-restat (written d read t) _ i h ∙ read-view i h;
  }

  -- `mark_expand` to the next depth: the prefix goes on, and no other prefix starts to.
  expanded : LruCapBucket
  expanded = Bucket.put key (d + 1) at

  mark_expand-written : mark_expand p (d + 1) t ≡ written d expanded t
  unfolding mark_expand written expanded at key
  mark_expand-written = let e : d + 1 - 1 ≡ d = omega arith in rw e

  pub mark_expand-IsLayered : IsLayered (mark_expand p (d + 1) t)
  unfolding expanded
  mark_expand-IsLayered = rw mark_expand-written (
      written-IsLayered d expanded t l (put-IsValid at at-IsValid key (d + 1))
        (capacity-put at at-IsValid key (d + 1) ∙ at-capacity)
        (λ h v e. elim (ℕ_discrete h key) [
          | yes same ↦ ground (arith, lookup-put_value at at-IsValid key (d + 1) v, same)
          | no other ↦
              l.next d h v (sym (lookup-at h) ∙ lookup-put_ne at at-IsValid key (d + 1) h v other e)
        ]))

  pub decision-mark_expand_self :
      1 ≤ t.cap_per_level → decision (mark_expand p (d + 1) t) d (rolling_hash t p d) ≡ some (d + 1)
  unfolding expanded key
  decision-mark_expand_self room = rw mark_expand-written (
      ground (
        arith,
        decision-written d expanded t d key,
        lookup-put_self at at-IsValid key (d + 1),
        at-capacity,
      ))

  pub decision-mark_expand_ne :
      (i h : ℕ) → i ≢ d → decision (mark_expand p (d + 1) t) i h ≡ decision t i h
  decision-mark_expand_ne i h ne =
      rw mark_expand-written (ground (arith, decision-written d expanded t i h))

  pub mark_expand-base : (mark_expand p (d + 1) t).hash_base ≡ t.hash_base
  mark_expand-base = rw mark_expand-written (written-base d expanded t)

  pub mark_expand-cap : (mark_expand p (d + 1) t).cap_per_level ≡ t.cap_per_level
  mark_expand-cap = rw mark_expand-written (written-cap d expanded t)

  -- `mark_shrink` takes out the one decision of this prefix at this level.
  shrunk : LruCapBucket
  shrunk = Bucket.delete key at

  mark_shrink-written : mark_shrink p d t ≡ written d shrunk t
  unfolding mark_shrink written shrunk at key
  mark_shrink-written = refl

  pub decision-mark_shrink :
      (i h : ℕ)
      → decision (mark_shrink p d t) i h
        ≡ ite
            (ℕ_discrete i d)
            (ite (ℕ_discrete h (rolling_hash t p d)) none (decision t d h))
            (decision t i h)
  unfolding shrunk key
  decision-mark_shrink i h = rw mark_shrink-written (
      ground
        (arith, decision-written d shrunk t i h, lookup-delete at at-IsValid key h, lookup-at h))

  pub mark_shrink-IsLayered : IsLayered (mark_shrink p d t)
  unfolding shrunk
  mark_shrink-IsLayered = rw mark_shrink-written (
      written-IsLayered d shrunk t l (delete-IsValid at at-IsValid key)
        (capacity-delete at at-IsValid key ∙ at-capacity)
        (λ h v e. l.next d h v (ground (arith, lookup-delete at at-IsValid key h, lookup-at h))))

  pub mark_shrink-base : (mark_shrink p d t).hash_base ≡ t.hash_base
  mark_shrink-base = rw mark_shrink-written (written-base d shrunk t)

  pub mark_shrink-cap : (mark_shrink p d t).cap_per_level ≡ t.cap_per_level
  mark_shrink-cap = rw mark_shrink-written (written-cap d shrunk t)
