-- ===== src/LazyPrefixTable/Detector.antt =====
-- `HotPrefixDetector`: how often a prefix occurs among the last ones. A ratio is a fraction
-- `(numerator, denominator)`, compared by cross-multiplication.
pub mod Counts
use dual_map.Prelude.{
  ℕ, zero, suc, ◌+◌, ◌-◌, ◌*◌, Bool, true, false, none, some, Option, List, [], ◌∷◌, ◌++◌, leb, ltb,
  ◌==◌, if◌then◌else◌, lookup, length,
}
use dual_map.Prelude.Dict.{assign, del}

abbrev pub Ratio : Type 0
Ratio = ℕ × ℕ

abbrev pub leb_ratio : Ratio → Ratio → Bool
leb_ratio (a, b) (c, d) = leb (a * d) (c * b)

pub record HotPrefixDetector (K : Type 0) : Type 0 where
  pub window_size : ℕ
  pub hot_ratio : Ratio
  pub min_samples : ℕ
  pub window : List K
  pub counts : List (K × ℕ)

unfoldable pub init : {K : Type 0} → ℕ → Ratio → ℕ → HotPrefixDetector K
init window_size hot_ratio min_samples = record {
  window_size = window_size;
  hot_ratio = hot_ratio;
  min_samples = min_samples;
  window = [];
  counts = [];
}

-- `cnt / total if total > 20 else 0.0`
abbrev pub ratio_of : ℕ → ℕ → Ratio
ratio_of cnt total = if ltb 20 total then (cnt, total) else (0, 1)

module _ {K : Type 0} (dec : Discrete K) where
  -- `counts.get(prefix, 0)`, and what a `defaultdict(int)` reads.
  abbrev pub get_count : K → List (K × ℕ) → ℕ
  get_count prefix counts = elim (lookup dec prefix counts) [ none ↦ 0 | some n ↦ n ]

  -- `counts[old] -= 1`, and the entry goes when it is 0 or less.
  unfoldable pub forget : K → List (K × ℕ) → List (K × ℕ)
  forget old counts =
      let n = get_count old counts - 1 in
      if n == 0 then del dec old (assign dec old n counts) else assign dec old n counts

  -- `if len(self.window) > self.window_size`: the oldest prefix leaves.
  unfoldable pub slide : List K → HotPrefixDetector K → HotPrefixDetector K
  slide [] s = s
  slide (old ∷ rest) s =
      if ltb s.window_size (length (old ∷ rest))
      then record s { window = rest; counts = forget old s.counts }
      else s

  unfoldable pub note : K → HotPrefixDetector K → HotPrefixDetector K
  unfolding slide
  note prefix s =
      let window = s.window ++ prefix ∷ [] in
      slide window (record s {
        window = window;
        counts = assign dec prefix (get_count prefix s.counts + 1) s.counts;
      })

  unfoldable pub judge : K → HotPrefixDetector K → Bool × Ratio
  judge prefix s =
      let total = length s.window in
      let ratio = ratio_of (get_count prefix s.counts) total in
      if ltb total s.min_samples then (false, (0, 1)) else (leb_ratio s.hot_ratio ratio, ratio)

  unfoldable pub observe : K → HotPrefixDetector K → (Bool × Ratio) × HotPrefixDetector K
  unfolding note judge
  observe prefix s = let s' = note prefix s in (judge prefix s', s')

unfoldable pub snapshot_counts : {K : Type 0} → HotPrefixDetector K → List (K × ℕ) × ℕ
snapshot_counts s = (s.counts, length s.window)

abbrev pub or_else : {A : Type 0} → Option A → A → A
or_else none a = a
or_else (some b) a = b

unfoldable pub set_params :
    {K : Type 0} → Option ℕ → Option Ratio → Option ℕ → HotPrefixDetector K → HotPrefixDetector K
set_params window_size hot_ratio min_samples s = record s {
  window_size = or_else window_size s.window_size;
  hot_ratio = or_else hot_ratio s.hot_ratio;
  min_samples = or_else min_samples s.min_samples;
}
