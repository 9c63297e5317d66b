-- ===== src/SlidingWindow.antt =====
-- dualmap/scheduler/utils/preble_sliding_window_histogram.py: SlidingWindowHistogram, the counts by node of the requests of the
-- last minutes. A dict is a function; where the source would make the default 0 of a defaultdict it is `at`. The costs that
-- are computed from the counts are left out. Leaves are their ids; `num_tokens` says how many tokens a leaf has of its own
-- when a method runs, which is less after the leaf was split, and `context_length` never changes.
pub mod Sums
pub mod Counts
pub mod Tests
use dual_map.Prelude.{
  ℕ, ◌+◌, ◌≡◌, Bool, true, false, none, some, Option, List, [], ◌∷◌, ◌++◌, ℤ, pos, ◌+ℤ◌, ◌-ℤ◌, ltb,
  leb_ℤ, ◌==◌, if◌then◌else◌,
}

abbrev pub Dict : Type 0
Dict = ℕ → Option ℤ

abbrev pub at : Dict → ℕ → ℤ
at d node = elim (d node) [ none ↦ pos 0 | some v ↦ v ]

abbrev pub set : ℕ → ℤ → Dict → Dict
set node v d = λ j. if j == node then some v else d j

abbrev pub forget : ℕ → Dict → Dict
forget node d = λ j. if j == node then none else d j

-- `d[new] = d.pop(old)`
abbrev pub rename : ℕ → ℕ → Dict → Dict
rename old new d = λ j. if j == new then d old else if j == old then none else d j

pub record Entry : Type 0 where
  pub timestamp : ℕ
  pub node : ℕ
  pub leaf : ℕ

pub record Histogram : Type 0 where
  pub window_duration : ℕ
  pub timestamps : List Entry
  pub histogram : Dict
  pub num_requests : Dict
  pub sum_share_tokens : Dict
  pub sum_prompt_tokens : Dict
  pub cur_num_decode : Dict
  pub total_decode_length : Dict
  pub gpu_allocations : ℕ → List ℕ

abbrev pub empty : Dict
empty node = none

unfoldable pub init : ℕ → (ℕ → List ℕ) → Histogram
init window_duration gpu_allocations = record {
  window_duration = window_duration;
  timestamps = [];
  histogram = empty;
  num_requests = empty;
  sum_share_tokens = empty;
  sum_prompt_tokens = empty;
  cur_num_decode = empty;
  total_decode_length = empty;
  gpu_allocations = gpu_allocations;
}

abbrev pub renamed : ℕ → ℕ → List Entry → List Entry
renamed old new [] = []
renamed old new (e ∷ l) = (if e.node == old then record e { node = new } else e) ∷ renamed old new l

unfoldable pub replace_old_node_with_new : ℕ → ℕ → Histogram → Histogram
replace_old_node_with_new old new h =
    let moved = record h {
      timestamps = renamed old new h.timestamps;
      histogram = rename old new h.histogram;
      num_requests = rename old new h.num_requests;
      sum_share_tokens = rename old new h.sum_share_tokens;
      sum_prompt_tokens = rename old new h.sum_prompt_tokens;
      cur_num_decode = rename old new h.cur_num_decode;
      total_decode_length = rename old new h.total_decode_length;
    } in
    elim (h.histogram old) [ none ↦ h | some v ↦ moved ]

module _ (context_length num_tokens : ℕ → ℕ) where
  abbrev pub context : ℕ → ℤ
  context leaf = pos (context_length leaf)

  abbrev pub share : ℕ → ℤ
  share leaf = pos (context_length leaf) -ℤ pos (num_tokens leaf)

  abbrev pub forget_node : ℕ → Histogram → Histogram
  forget_node node h = record h {
    histogram = forget node h.histogram;
    num_requests = forget node h.num_requests;
    sum_share_tokens = forget node h.sum_share_tokens;
    sum_prompt_tokens = forget node h.sum_prompt_tokens;
    cur_num_decode = forget node h.cur_num_decode;
    gpu_allocations = λ j. if j == node then [] else h.gpu_allocations j;
  }

  -- The body of the loop of `_remove_old_entries`.
  abbrev pub uncount : Entry → Histogram → Histogram
  uncount e h = record h {
    histogram = set e.node (at h.histogram e.node -ℤ context e.leaf) h.histogram;
    num_requests = set e.node (at h.num_requests e.node -ℤ pos 1) h.num_requests;
    sum_share_tokens = set e.node (at h.sum_share_tokens e.node -ℤ share e.leaf) h.sum_share_tokens;
    sum_prompt_tokens =
        set e.node (at h.sum_prompt_tokens e.node -ℤ context e.leaf) h.sum_prompt_tokens;
  }

  abbrev pub remove_entry : Entry → Histogram → Histogram
  remove_entry e h =
      let counted = uncount e h in
      if leb_ℤ (at counted.histogram e.node) (pos 0) then forget_node e.node counted else counted

  abbrev pub remove_loop : ℕ → List Entry → Histogram → Histogram
  remove_loop now [] h = record h { timestamps = [] }
  remove_loop now (e ∷ rest) h =
      let later = remove_loop now rest (remove_entry e h) in
      if ltb (e.timestamp + h.window_duration) now
      then later
      else record h { timestamps = e ∷ rest }

  unfoldable pub remove_old_entries : ℕ → Histogram → Histogram
  remove_old_entries current_timestamp h = remove_loop current_timestamp h.timestamps h

  -- `add_request` up to the costs.
  unfoldable pub add_request : ℕ → ℕ → ℕ → ℕ → Histogram → Histogram
  add_request timestamp node leaf decoding_length h =
      let counted = record h {
        timestamps =
            h.timestamps ++ record { timestamp = timestamp; node = node; leaf = leaf } ∷ [];
        histogram = set node (at h.histogram node +ℤ context leaf) h.histogram;
        num_requests = set node (at h.num_requests node +ℤ pos 1) h.num_requests;
        cur_num_decode = set node (pos decoding_length) h.cur_num_decode;
        total_decode_length =
            set node (at h.total_decode_length node +ℤ pos decoding_length) h.total_decode_length;
        sum_share_tokens = set node (at h.sum_share_tokens node +ℤ share leaf) h.sum_share_tokens;
        sum_prompt_tokens =
            set node (at h.sum_prompt_tokens node +ℤ context leaf) h.sum_prompt_tokens;
      } in
      remove_old_entries timestamp counted
