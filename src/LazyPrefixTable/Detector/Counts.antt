-- ===== src/LazyPrefixTable/Detector/Counts.antt =====
-- The counts of the detector are the occurrences in its window.
use dual_map.Prelude.{
  ℕ, ◌+◌, ◌-◌, ◌*◌, ◌≤◌, ◌<◌, ◌⊎◌, ◌↔◌, ◌≡◌, refl, sym, Bool, true, false, List, [], ◌∷◌, ◌++◌, ltb,
  if◌then◌else◌, lookup, length, length-append, arith, ite, List-cases, inl, inr, Bool-cases, ◌∙◌,
}
use mathlib.Core.Path.{ap₂, subst}
use dual_map.Prelude.Dict.{
  assign, IsDistinct, lookup-assign, lookup-del_ne, lookup-del_self, assign-IsDistinct,
  del-IsDistinct,
}
use dual_map.LazyPrefixTable.Detector.{
  HotPrefixDetector, init, Ratio, leb_ratio, ratio_of, get_count, forget, slide, note, judge,
  observe,
}

-- What `judge` answers for `k` occurrences in a window of `n`, and what that means.
module _ (min_samples hot whole n k : ℕ) where
  abbrev judged : Bool × Ratio
  judged =
      if ltb n min_samples
      then (false, (0, 1))
      else (leb_ratio (hot, whole) (ratio_of k n), ratio_of k n)

  abbrev IsReached : Type 0
  IsReached = (min_samples ≤ n) × (((20 < n) × (hot * n ≤ k * whole)) ⊎ ((n ≤ 20) × (hot ≡ 0)))

  judged-IsReached : judged.0 ≡ true ↔ IsReached
  judged-IsReached = elim (Bool-cases (ltb n min_samples)) [
    | inl few ↦
        rw few
          ((λ e. absurd (ground (arith, e))), λ (enough, _). absurd (ground (arith, few, enough)))
    | inr enough ↦ elim (Bool-cases (ltb 20 n)) [
      | inl many ↦
          rw (enough, many)
            (
              (λ e. (ground (arith, enough), inl (ground (arith, many), ground (arith, e)))),
              (λ (_, r). elim r [
                | inl (_, h) ↦ ground (arith, h)
                | inr (few, _) ↦ absurd (ground (arith, many, few))
              ]),
            )
      | inr few ↦
          rw (enough, few)
            (
              (λ e. (ground (arith, enough), inr (ground (arith, few), ground (arith, e)))),
              (λ (_, r). elim r [
                | inl (many, _) ↦ absurd (ground (arith, many, few))
                | inr (_, h) ↦ ground (arith, h)
              ]),
            )
    ]
  ]

  judged_share :
      (min_samples ≤ n → 20 < n → judged.1 ≡ (k, n))
      × (n < min_samples ⊎ n ≤ 20 → judged.1 ≡ (0, 1))
  judged_share = elim (Bool-cases (ltb n min_samples)) [
    | inl few ↦ rw few ((λ enough many. absurd (ground (arith, few, enough))), λ _. refl)
    | inr enough ↦ elim (Bool-cases (ltb 20 n)) [
      | inl many ↦
          rw (enough, many)
            (
              (λ _ _. refl),
              λ r. elim r [
                | inl h ↦ absurd (ground (arith, enough, h))
                | inr h ↦ absurd (ground (arith, many, h))
              ],
            )
      | inr few ↦ rw (enough, few) ((λ _ h. absurd (ground (arith, few, h))), λ _. refl)
    ]
  ]

module _ {K : Type 0} (dec : Discrete K) where
  abbrev pub occurrences : K → List K → ℕ
  occurrences q [] = 0
  occurrences q (p ∷ window) = ite (dec q p) 1 0 + occurrences q window

  pub record IsCounted (s : HotPrefixDetector K) : Type 0 where
    pub distinct : IsDistinct dec s.counts
    pub counted : (q : K) → get_count dec q s.counts ≡ occurrences q s.window

  -- A new detector is counted.
  pub init-IsCounted :
      (window_size : ℕ) (hot_ratio : Ratio) (min_samples : ℕ)
      → IsCounted (init window_size hot_ratio min_samples)
  unfolding init lookup
  init-IsCounted window_size hot_ratio min_samples = record { distinct = tt; counted = λ q. refl }

  occurrences-append :
      (q : K) (xs ys : List K) → occurrences q (xs ++ ys) ≡ occurrences q xs + occurrences q ys
  occurrences-append q [] ys = omega arith
  occurrences-append q (x ∷ xs) ys = omega (arith, occurrences-append q xs ys)

  get_count-forget :
      (old q : K) (counts : List (K × ℕ))
      → IsDistinct dec counts
      → get_count dec q (forget dec old counts) ≡ get_count dec q counts - ite (dec q old) 1 0
  unfolding forget
  get_count-forget old q counts h =
      let n = get_count dec old counts - 1 in
      ground (
        arith,
        lookup-assign dec old q n counts,
        assign-IsDistinct dec old n counts h,
        lookup-del_ne dec old q (assign dec old n counts),
        lookup-del_self dec old (assign dec old n counts),
      )

  forget-IsDistinct :
      (old : K) (counts : List (K × ℕ))
      → IsDistinct dec counts
      → IsDistinct dec (forget dec old counts)
  unfolding forget
  forget-IsDistinct old counts h =
      let n = get_count dec old counts - 1 in
      ground (
        arith,
        assign-IsDistinct dec old n counts h,
        del-IsDistinct dec old (assign dec old n counts),
      )

  slide-IsCounted :
      (window : List K) (s : HotPrefixDetector K)
      → s.window ≡ window
      → IsCounted s
      → IsCounted (slide dec window s)
  unfolding slide
  slide-IsCounted [] s e h = h
  slide-IsCounted (old ∷ rest) s e h = elim (Bool-cases (ltb s.window_size (length (old ∷ rest)))) [
    | inl over ↦ rw over (record {
      distinct = forget-IsDistinct old s.counts h.distinct;
      counted = λ q. ground (arith, get_count-forget old q s.counts h.distinct, h.counted q);
    })
    | inr fits ↦ rw fits h
  ]

  -- Observing a prefix keeps every count equal to the occurrences in the window.
  pub note-IsCounted : (p : K) (s : HotPrefixDetector K) → IsCounted s → IsCounted (note dec p s)
  unfolding note
  note-IsCounted p s h = slide-IsCounted (s.window ++ p ∷ []) _ refl (record {
    distinct = assign-IsDistinct dec p _ s.counts h.distinct;
    counted = λ q. ground (
      arith,
      lookup-assign dec p q (get_count dec p s.counts + 1) s.counts,
      h.counted q,
      h.counted p,
      occurrences-append q s.window (p ∷ []),
    );
  })

  -- The window grows by one until it reaches the window size, and from there on keeps its length. So
  -- a window that is longer than the size never shrinks to it.
  pub length-note :
      (p : K) (s : HotPrefixDetector K)
      → length (note dec p s).window
        ≡ (if ltb (length s.window) s.window_size then length s.window + 1 else length s.window)
  unfolding note slide
  length-note p s = elim (List-cases s.window) [
    | inl e ↦ rw e (ground arith)
    | inr (x, r, e) ↦ rw e (ground (arith, length-append r (p ∷ [])))
  ]

  note_params :
      (p : K) (s : HotPrefixDetector K)
      → ((note dec p s).hot_ratio ≡ s.hot_ratio) × ((note dec p s).min_samples ≡ s.min_samples)
  unfolding note slide
  note_params p s = elim (List-cases s.window) [
    | inl e ↦ rw e (ground arith)
    | inr (x, r, e) ↦ rw e (ground arith)
  ]

  -- When a window makes a prefix hot: it has the minimum of samples, and either more than twenty, of which the prefix has the
  -- share of the threshold or more, or twenty at most and the threshold is 0.
  abbrev pub IsHot : ℕ → Ratio → K → List K → Type 0
  IsHot min_samples (hot, whole) p w =
      (min_samples ≤ length w)
      × (((20 < length w) × (hot * length w ≤ occurrences p w * whole))
          ⊎ ((length w ≤ 20) × (hot ≡ 0)))

  -- The share that is answered beside it.
  abbrev pub IsShare : ℕ → K → List K → Ratio → Type 0
  IsShare min_samples p w ratio =
      (min_samples ≤ length w → 20 < length w → ratio ≡ (occurrences p w, length w))
      × (length w < min_samples ⊎ length w ≤ 20 → ratio ≡ (0, 1))

  judge-judged :
      (p : K) (s : HotPrefixDetector K)
      → IsCounted s
      → judge dec p s
        ≡ judged s.min_samples s.hot_ratio.0 s.hot_ratio.1
            (length s.window)
            (occurrences p s.window)
  unfolding judge
  judge-judged p s h = rw (h.counted p) refl

  -- If the counts of a detector are the occurrences in its window, observe calls the prefix hot exactly where the new
  -- window has the minimum of samples and either more than twenty, of which the prefix has the share of the threshold or
  -- more, or twenty at most and the threshold is 0. It answers that share where the window has the minimum of samples
  -- and more than twenty, else 0.
  pub observe-IsHot :
      (p : K) (s : HotPrefixDetector K)
      → IsCounted s
      → let ((is_hot, ratio), s') = observe dec p s in
        (is_hot ≡ true ↔ IsHot s.min_samples s.hot_ratio p s'.window)
        × IsShare s.min_samples p s'.window ratio
  unfolding observe
  observe-IsHot p s h =
      let s' = note dec p s in
      let n = length s'.window in
      let k = occurrences p s'.window in
      let same : judge dec p s' ≡ judged s.min_samples s.hot_ratio.0 s.hot_ratio.1 n k =
        judge-judged p s' (note-IsCounted p s h)
        ∙ ap₂ (λ least (hot : Ratio). judged least hot.0 hot.1 n k) (note_params p s).1
            (note_params p s).0 in
      subst
        (λ (answer : Bool × Ratio).
          (answer.0 ≡ true ↔ IsHot s.min_samples s.hot_ratio p s'.window)
          × IsShare s.min_samples p s'.window answer.1)
        (sym same)
        (
          judged-IsReached s.min_samples s.hot_ratio.0 s.hot_ratio.1 n k,
          judged_share s.min_samples s.hot_ratio.0 s.hot_ratio.1 n k,
        )
