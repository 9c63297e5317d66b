-- ===== src/KvcacheStore/Mgr/RoundTrip.antt =====
-- Whole prompts: saving ends without an exception, and what was saved is found again, by the prompt
-- itself and by every prompt that extends it.
use dual_map.Prelude.{
  ℕ, zero, suc, ◌+◌, ◌-◌, ◌*◌, ◌/◌, ◌≤◌, ◌≡◌, ◌≢◌, refl, Bool, true, none, some, List, [], ◌∷◌,
  ◌++◌, arith, ℕ_discrete, length, Option, length-append, ap, ◌∙◌, All, take, drop, not, is_some,
}
use dual_map.Prelude.Dict.{contains}
use dual_map.KvcacheStore.Outcome.{returned}
use dual_map.KvcacheStore.Lru
use dual_map.KvcacheStore.Mgr.{
  PrefixKvCacheMgr, save_block, save_blocks, count_cached, block_hashes, prompt_hashes, save,
  get_num_cached_blocks,
}
use dual_map.KvcacheStore.Mgr.Consistent.{IsConsistent}
use dual_map.KvcacheStore.Mgr.Save.{IsReady, save_block_lem}

-- Saving a chain of hashes.
record SavesAll (hashes : List ℕ) (m m' : PrefixKvCacheMgr) : Type 0 where
  ready : IsReady m'
  block_size : m'.block_size ≡ m.block_size
  kept :
      m.min_watermark + length hashes ≤ length m.free_block_indices
      → (key : ℕ) → contains ℕ_discrete key m.cached_blocks ≡ true
      → contains ℕ_discrete key m'.cached_blocks ≡ true
  present :
      m.min_watermark + length hashes ≤ length m.free_block_indices
      → All (λ h. contains ℕ_discrete h m'.cached_blocks ≡ true) hashes

save_blocks-cons :
    (h : ℕ) (hashes : List ℕ) (k k₁ : ℕ) (m m₁ : PrefixKvCacheMgr)
    → save_block h k m ≡ returned (k₁, m₁)
    → save_blocks (h ∷ hashes) k m ≡ save_blocks hashes k₁ m₁
unfolding save_blocks
save_blocks-cons h hashes k k₁ m m₁ e = rw (e, save_blocks)

save_blocks_lem :
    (hashes : List ℕ) (k : ℕ) (m : PrefixKvCacheMgr)
    → IsReady m
    → All (λ h. h ≢ 0) hashes
    → (k' : ℕ) × (m' : PrefixKvCacheMgr) × (save_blocks hashes k m ≡ returned (k', m'))
      × SavesAll hashes m m'
save_blocks_lem [] k m r truthy = (
  k,
  m,
  unfold save_blocks in refl,
  record { ready = r; block_size = refl; kept = λ _ key p. p; present = λ _. tt },
)
save_blocks_lem (h ∷ hashes) k m r truthy =
    let (k₁, m₁, first, one) = save_block_lem h k m r truthy.0 in
    let (k₂, m₂, others, all) = save_blocks_lem hashes k₁ m₁ one.ready truthy.1 in
    (
      k₂,
      m₂,
      save_blocks-cons h hashes k k₁ m m₁ first ∙ others,
      record {
        ready = all.ready;
        block_size = all.block_size ∙ one.block_size;
        kept = λ p key q.
            all.kept (omega (arith, one.spent (omega arith), one.min_watermark)) key
              (one.kept (omega arith) key q);
        present = λ p. (
          all.kept (omega (arith, one.spent (omega arith), one.min_watermark)) h one.present,
          all.present (omega (arith, one.spent (omega arith), one.min_watermark)),
        );
      },
    )

count_cached-le :
    (hashes more : List ℕ) (m : PrefixKvCacheMgr)
    → IsConsistent m
    → All (λ h. contains ℕ_discrete h m.cached_blocks ≡ true) hashes
    → length hashes ≤ count_cached (hashes ++ more) m
unfolding count_cached Lru.query
count_cached-le [] more m inv present = omega arith
count_cached-le (h ∷ hashes) more m inv present =
    ground (arith, inv.same h, inv.stored h, count_cached-le hashes more m inv present.1)

take-append {ℓ} : {A : Type ℓ} (n : ℕ) (p q : List A) → n ≤ length p → take n (p ++ q) ≡ take n p
take-append zero p q h = refl
take-append (suc n) [] q h = absurd (omega arith)
take-append (suc n) (x ∷ p) q h = ap (◌∷◌ x) (take-append n p q (omega arith))

-- A slice of a list is a slice of its extensions.
slice-append {ℓ} :
    {A : Type ℓ} (n k : ℕ) (p q : List A)
    → k + n ≤ length p
    → take n (drop k (p ++ q)) ≡ take n (drop k p)
slice-append n zero p q h = take-append n p q (omega arith)
slice-append zero (suc k) [] q h = refl
slice-append (suc n) (suc k) [] q h = absurd (omega arith)
slice-append n (suc k) (x ∷ p) q h = slice-append n k p q (omega arith)

div-le-div : (a b n : ℕ) → a ≤ b → a / n ≤ b / n
div-le-div a b n h = grind arith

div-mul-le : (a n : ℕ) → (0 + a / n) * n ≤ a
div-mul-le a n = grind arith

module _ (hash : Bool → Option ℕ → List ℕ → ℕ) (bs : ℕ) where
  length-block_hashes :
      (i left : ℕ) (prev : Option ℕ) (p : List ℕ)
      → length (block_hashes hash bs i left prev p) ≡ left
  unfolding block_hashes
  length-block_hashes i zero prev p = refl
  length-block_hashes i (suc left) prev p = omega (arith, length-block_hashes (i + 1) left _ p)

  block_hashes-append :
      (i left extra : ℕ) (prev : Option ℕ) (p q : List ℕ)
      → (i + left) * bs ≤ length p
      → (rest : List ℕ) × (block_hashes hash bs i (left + extra) prev (p ++ q)
          ≡ block_hashes hash bs i left prev p ++ rest)
  unfolding block_hashes
  block_hashes-append i zero extra prev p q h =
      (block_hashes hash bs i (0 + extra) prev (p ++ q), refl)
  block_hashes-append i (suc left) extra prev p q h =
      let e : suc left + extra ≡ suc (left + extra) = omega arith in
      let s = slice-append bs (i * bs) p q (grind arith) in
      let block_hash = hash (not (is_some prev)) prev (take bs (drop (i * bs) p)) in
      let (rest, ih) = block_hashes-append (i + 1) left extra (some block_hash) p q (grind arith) in
      (rest, rw (e, s, ih))

  -- The hashes of a prompt are the first hashes of every prompt that extends it.
  prompt_hashes-append :
      (p q : List ℕ)
      → (rest : List ℕ) × (prompt_hashes hash bs (p ++ q) ≡ prompt_hashes hash bs p ++ rest)
  prompt_hashes-append p q =
      let extra = length (p ++ q) / bs - length p / bs in
      let total : length (p ++ q) / bs ≡ length p / bs + extra =
        omega
          (arith, div-le-div (length p) (length (p ++ q)) bs (omega (arith, length-append p q))) in
      rw total (block_hashes-append 0 (length p / bs) extra none p q (div-mul-le (length p) bs))

module _ (hash : Bool → Option ℕ → List ℕ → ℕ) where
  save-SavesAll :
      (p : List ℕ) (m : PrefixKvCacheMgr)
      → IsReady m
      → All (λ h. h ≢ 0) (prompt_hashes hash m.block_size p)
      → (n : ℕ) × (m' : PrefixKvCacheMgr) × (save hash p m ≡ returned (n, m'))
        × SavesAll (prompt_hashes hash m.block_size p) m m'
  unfolding save
  save-SavesAll p m r truthy = save_blocks_lem (prompt_hashes hash m.block_size p) 0 m r truthy

  -- On a consistent cache of at least a hundred blocks, with a watermark of a hundredth of them, saving a prompt
  -- of which no whole block hashes to 0 ends without an exception, with a cache of the same kind.
  pub save-IsReady :
      (p : List ℕ) (m : PrefixKvCacheMgr)
      → IsReady m
      → All (λ h. h ≢ 0) (prompt_hashes hash m.block_size p)
      → (n : ℕ) × (m' : PrefixKvCacheMgr) × (save hash p m ≡ returned (n, m')) × IsReady m'
  save-IsReady p m r truthy =
      let (n, m', e, all) = save-SavesAll p m r truthy in (n, m', e, all.ready)

  -- On a consistent cache of at least a hundred blocks, with a watermark of a hundredth of them, whose free blocks
  -- are as many as the watermark and the whole blocks of the prompt `p` together or more, and if no whole block of `p`
  -- hashes to 0, saving `p` ends without an exception and makes every whole block of `p` count as cached for each
  -- prompt `p ++ q` that starts with `p`.
  pub get_num_cached_blocks-save :
      (p q : List ℕ) (m : PrefixKvCacheMgr)
      → IsReady m
      → All (λ h. h ≢ 0) (prompt_hashes hash m.block_size p)
      → m.min_watermark + length p / m.block_size ≤ length m.free_block_indices
      → (n : ℕ) × (m' : PrefixKvCacheMgr) × (save hash p m ≡ returned (n, m'))
        × (length p / m.block_size ≤ get_num_cached_blocks hash (p ++ q) m')
  unfolding get_num_cached_blocks
  get_num_cached_blocks-save p q m r truthy enough =
      let (n, m', e, all) = save-SavesAll p m r truthy in
      let (rest, split) = prompt_hashes-append hash m.block_size p q in
      let size = length-block_hashes hash m.block_size 0 (length p / m.block_size) none p in
      let cached =
        count_cached-le (prompt_hashes hash m.block_size p) rest m' all.ready.consistent
          (all.present (omega (arith, size))) in
      (n, m', e, rw (all.block_size, split) (omega (arith, size, cached)))
