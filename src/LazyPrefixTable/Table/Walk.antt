-- ===== src/LazyPrefixTable/Table/Walk.antt =====
-- `lookup` ends, and returns the first depth at which the prefix is not sent on.
use dual_map.Prelude.{
  ℕ, zero, suc, ◌+◌, ◌≤◌, ◌<◌, ◌≡◌, ◌≢◌, refl, none, some, Option, List, arith, ite, ℕ_discrete,
  dec_lt, length, Option-cases, inl, inr, ap, sym, ◌∙◌, min, if_pos, if_neg,
}
use dual_map.LazyPrefixTable.Table.{
  LazyPrefixTable, rolling_hash, decide_level, lookup_from, lookup_depth, mark_expand, mark_shrink,
}
use dual_map.LazyPrefixTable.Table.View.{decision, IsLayered, rolling_hash-base}
use dual_map.LazyPrefixTable.Table.Changes
use mathlib.Core.Option.{some-injective}
use mathlib.Core.Path.{subst}

-- The decision of a table for the first `d` blocks of a prefix.
abbrev pub sends : LazyPrefixTable → List ℕ → ℕ → Option ℕ
sends t p d = decision t d (rolling_hash t p d)

sends-same :
    (t t' : LazyPrefixTable) (p : List ℕ) (d : ℕ)
    → t'.hash_base ≡ t.hash_base
    → ((i h : ℕ) → decision t' i h ≡ decision t i h)
    → sends t' p d ≡ sends t p d
sends-same t t' p d base view = view d _ ∙ ap (decision t d) (rolling_hash-base t t' p d base)

-- The answer `d` of a walk from the depth `start`, and the table after it.
pub record Walks (t : LazyPrefixTable) (p : List ℕ) (start d : ℕ) (t' : LazyPrefixTable)
    : Type 0 where
  pub layered : IsLayered t'
  pub base : t'.hash_base ≡ t.hash_base
  pub cap : t'.cap_per_level ≡ t.cap_per_level
  pub view : (i h : ℕ) → decision t' i h ≡ decision t i h
  pub reach : min start (length p) ≤ d
  pub within : d ≤ length p
  pub passed : (i : ℕ) → start ≤ i → i < d → sends t p i ≡ some (suc i)
  pub stops : d < length p → sends t p d ≡ none

walk_beyond :
    (fuel start : ℕ) (p : List ℕ) (t : LazyPrefixTable)
    → length p < start
    → lookup_from (suc fuel) start p t ≡ some (length p, t)
unfolding lookup_from
walk_beyond fuel start p t h = ground arith

walk_stops :
    (fuel start : ℕ) (p : List ℕ) (t : LazyPrefixTable)
    → start ≤ length p
    → (decide_level start p t).0 ≡ none
    → lookup_from (suc fuel) start p t ≡ some (start, (decide_level start p t).1)
unfolding lookup_from
walk_stops fuel start p t h e = ground arith

walk_goes_on :
    (fuel start deeper : ℕ) (p : List ℕ) (t : LazyPrefixTable)
    → start ≤ length p
    → (decide_level start p t).0 ≡ some deeper
    → lookup_from (suc fuel) start p t ≡ lookup_from fuel deeper p (decide_level start p t).1
unfolding lookup_from
walk_goes_on fuel start deeper p t h e = ground arith

lookup_from_lem :
    (fuel start : ℕ) (p : List ℕ) (t : LazyPrefixTable)
    → IsLayered t
    → length p + 1 < start + fuel
    → start ≤ length p + 1
    → (d : ℕ) × (t' : LazyPrefixTable) × (lookup_from fuel start p t ≡ some (d, t'))
      × Walks t p start d t'
lookup_from_lem zero start p t l f s = absurd (omega arith)
lookup_from_lem (suc fuel) start p t l f s = elim (dec_lt (length p) start) [
  | yes beyond ↦ (
    length p,
    t,
    walk_beyond fuel start p t beyond,
    record {
      layered = l;
      base = refl;
      cap = refl;
      view = λ i h. refl;
      reach = omega arith;
      within = omega arith;
      passed = λ i a b. absurd (omega arith);
      stops = λ h. absurd (omega arith);
    },
  )
  | no here ↦
      let v = Changes.decide_level-Visits start p t l in
      let t₁ = (decide_level start p t).1 in
      elim (Option-cases (decide_level start p t).0) [
        | inl e ↦ (
          start,
          t₁,
          walk_stops fuel start p t (omega arith) e,
          record {
            layered = v.layered;
            base = v.base;
            cap = v.cap;
            view = v.view;
            reach = omega arith;
            within = omega arith;
            passed = λ i a b. absurd (omega arith);
            stops = λ h. sym v.answer ∙ e;
          },
        )
        | inr (deeper, e) ↦
            let step : deeper ≡ suc start = l.next start _ deeper (sym v.answer ∙ e) in
            let (d, t', loop, w) =
              lookup_from_lem fuel deeper p t₁ v.layered (omega arith) (omega arith) in
            (
              d,
              t',
              walk_goes_on fuel start deeper p t (omega arith) e ∙ loop,
              record {
                layered = w.layered;
                base = w.base ∙ v.base;
                cap = w.cap ∙ v.cap;
                view = λ i h. w.view i h ∙ v.view i h;
                reach = omega (arith, w.reach);
                within = w.within;
                passed = λ i a b. elim (ℕ_discrete i start) [
                  | yes same ↦ ground (arith, sym v.answer ∙ e, same)
                  | no later ↦ sym (sends-same t t₁ p i v.base v.view) ∙ w.passed i (omega arith) b
                ];
                stops = λ h. sym (sends-same t t₁ p d v.base v.view) ∙ w.stops h;
              },
            )
      ]
]

-- `lookup` ends on every layered table. Its answer is at most the length of the prefix and, for a
-- prefix that is not empty, at least 1; the prefix is sent on at every depth before the answer, and
-- not at the answer unless that is the whole prefix. No decision changes.
pub lookup_depth-Walks :
    (p : List ℕ) (t : LazyPrefixTable)
    → IsLayered t
    → (d : ℕ) × (t' : LazyPrefixTable) × (lookup_depth p t ≡ some (d, t')) × Walks t p 1 d t'
unfolding lookup_depth
lookup_depth-Walks p t l = lookup_from_lem (length p + 1) 1 p t l (omega arith) (omega arith)

module _ (p : List ℕ) (t t' : LazyPrefixTable) (d : ℕ) (l : IsLayered t) where
  -- The answer is the one that the decisions determine.
  Walks-unique :
      (d' : ℕ) (t₁ t₂ : LazyPrefixTable)
      → ((i : ℕ) → 1 ≤ i → i < d → sends t₁ p i ≡ some (suc i))
      → (d < length p → sends t₁ p d ≡ none)
      → d ≤ length p
      → min 1 (length p) ≤ d
      → Walks t₁ p 1 d' t₂
      → d' ≡ d
  Walks-unique d' t₁ t₂ passed stops within reach w = elim (dec_lt d d') [
    | yes more ↦
        absurd (cc (stops (omega (arith, w.within)), w.passed d (omega (arith, w.within)) more))
    | no not_more ↦ elim (dec_lt d' d) [
      | yes less ↦ absurd (cc (w.stops (omega arith), passed d' (omega (arith, w.reach)) less))
      | no not_less ↦ omega arith
    ]
  ]

  Walks-beyond :
      (d' : ℕ) (t₁ t₂ : LazyPrefixTable)
      → ((i : ℕ) → 1 ≤ i → i ≤ d → sends t₁ p i ≡ some (suc i))
      → d < length p
      → Walks t₁ p 1 d' t₂
      → d < d'
  Walks-beyond d' t₁ t₂ passed shallow w = elim (dec_lt d d') [
    | yes more ↦ more
    | no not_more ↦
        absurd (cc (w.stops (omega arith), passed d' (omega (arith, w.reach)) (omega arith)))
  ]

  lookup_depth-eq : lookup_depth p t ≡ some (d, t') → Walks t p 1 d t'
  lookup_depth-eq e =
      let (d₁, t₁, e₁, w) = lookup_depth-Walks p t l in
      subst (λ (s : ℕ × LazyPrefixTable). Walks t p 1 s.0 s.1)
        (some-injective (d₁, t₁) (d, t') (sym e₁ ∙ e)) w

  module _ (found : lookup_depth p t ≡ some (d, t')) where
    walk : Walks t p 1 d t'
    walk = lookup_depth-eq found

    sends_expanded : (i : ℕ) → i ≢ d → sends (mark_expand p (d + 1) t') p i ≡ sends t p i
    sends_expanded i ne =
        Changes.decision-mark_expand_ne d p t' walk.layered i _ ne
        ∙ ap (decision t' i)
            (rolling_hash-base t' _ p i (Changes.mark_expand-base d p t' walk.layered))
        ∙ sends-same t t' p i walk.base walk.view

    sends_expanded_self : 1 ≤ t.cap_per_level → sends (mark_expand p (d + 1) t') p d ≡ some (suc d)
    sends_expanded_self room =
        ap (decision (mark_expand p (d + 1) t') d)
          (rolling_hash-base t' _ p d (Changes.mark_expand-base d p t' walk.layered))
        ∙ Changes.decision-mark_expand_self d p t' walk.layered (omega (arith, walk.cap))
        ∙ ap {B = Option ℕ} some (omega arith)

    sends_shrunk :
        (i : ℕ) → sends (mark_shrink p d t') p i ≡ ite (ℕ_discrete i d) none (sends t p i)
    sends_shrunk i = ground (
      arith,
      Changes.decision-mark_shrink d p t' walk.layered i (rolling_hash (mark_shrink p d t') p i),
      rolling_hash-base t' (mark_shrink p d t') p i (Changes.mark_shrink-base d p t' walk.layered),
      sends-same t t' p i walk.base walk.view,
    )

    -- A prefix that is expanded at the depth `d` that `lookup` answered is answered deeper from then
    -- on, when a level has room for an entry and `d` is not the whole prefix.
    pub lookup_depth-mark_expand :
        d < length p
        → 1 ≤ t.cap_per_level
        → (d' : ℕ) × (t₁ : LazyPrefixTable) × (lookup_depth p (mark_expand p (d + 1) t')
            ≡ some (d', t₁))
          × (d < d')
    lookup_depth-mark_expand shallow room =
        let big = mark_expand p (d + 1) t' in
        let (d', t₁, e', w') =
          lookup_depth-Walks p big (Changes.mark_expand-IsLayered d p t' walk.layered) in
        (
          d',
          t₁,
          e',
          Walks-beyond d' big t₁
              (λ i a b. elim (ℕ_discrete i d) [
                | yes same ↦ rw same (sends_expanded_self room)
                | no other ↦ sends_expanded i other ∙ walk.passed i a (omega arith)
              ])
              shallow w',
        )

    -- Shrinking a prefix at the depth `d` that `lookup` answered changes nothing that `lookup`
    -- answers for that prefix: the decision that is deleted is not one that led to `d`.
    pub lookup_depth-mark_shrink :
        (t₁ : LazyPrefixTable) × (lookup_depth p (mark_shrink p d t') ≡ some (d, t₁))
    lookup_depth-mark_shrink =
        let small = mark_shrink p d t' in
        let (d', t₁, e', w') =
          lookup_depth-Walks p small (Changes.mark_shrink-IsLayered d p t' walk.layered) in
        let same : d' ≡ d =
          Walks-unique d' small t₁
            (λ i a b.
              sends_shrunk i ∙ if_neg (ℕ_discrete i d) (omega arith) _ _ ∙ walk.passed i a b)
            (λ h. sends_shrunk d ∙ if_pos (ℕ_discrete d d) refl _ _) walk.within walk.reach w' in
        (t₁, e' ∙ ap (λ (k : ℕ). some (k, t₁)) same)
