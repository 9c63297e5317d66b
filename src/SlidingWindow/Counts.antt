-- ===== src/SlidingWindow/Counts.antt =====
-- The counts of a node are sums over the entries of the window.
use dual_map.Prelude.{
  by_cases_of, by_cases, ℕ, ◌+◌, ◌<◌, refl, none, some, Option, List, [], ◌∷◌, ◌++◌, ℤ, pos, ◌≤ℤ◌,
  leb_ℤ, ltb, arith,
}
use mathlib.Core.Path.{subst}
use dual_map.SlidingWindow
use dual_map.SlidingWindow.{
  Dict, at, set, forget, rename, Entry, Histogram, empty, renamed, replace_old_node_with_new,
  context, share, forget_node, uncount, remove_entry, remove_loop, remove_old_entries, add_request,
}
use dual_map.SlidingWindow.Sums.{
  sum_at, Tracks, IsAbsent, append-Tracks, take-Tracks, forget-Tracks, IsAbsent-sum_at,
  sum_at-IsAbsent, renamed-Tracks, at_most,
}

pub record IsCounted (context_length num_tokens : ℕ → ℕ) (h : Histogram) : Type 0 where
  pub tokens : Tracks (context context_length num_tokens) h.timestamps h.histogram
  pub requests : Tracks (λ leaf. pos 1) h.timestamps h.num_requests
  pub shares : Tracks (share context_length num_tokens) h.timestamps h.sum_share_tokens
  pub prompts : Tracks (context context_length num_tokens) h.timestamps h.sum_prompt_tokens

module _ (context_length num_tokens : ℕ → ℕ) (positive : (leaf : ℕ) → 0 < context_length leaf) where
  abbrev with_entries : List Entry → Histogram → Histogram
  with_entries l h = record h { timestamps = l }

  uncount-IsCounted :
      (e : Entry) (rest : List Entry) (h : Histogram)
      → IsCounted context_length num_tokens (with_entries (e ∷ rest) h)
      → IsCounted context_length num_tokens
          (with_entries rest (uncount context_length num_tokens e h))
  uncount-IsCounted e rest h c = record {
    tokens = take-Tracks _ rest e h.histogram c.tokens;
    requests = take-Tracks _ rest e h.num_requests c.requests;
    shares = take-Tracks _ rest e h.sum_share_tokens c.shares;
    prompts = take-Tracks _ rest e h.sum_prompt_tokens c.prompts;
  }

  forget_node-IsCounted :
      (k : ℕ) (l : List Entry) (h : Histogram)
      → IsAbsent k l
      → IsCounted context_length num_tokens (with_entries l h)
      → IsCounted context_length num_tokens
          (with_entries l (forget_node context_length num_tokens k h))
  forget_node-IsCounted k l h a c = record {
    tokens = forget-Tracks _ k l h.histogram (IsAbsent-sum_at _ k l a) c.tokens;
    requests = forget-Tracks _ k l h.num_requests (IsAbsent-sum_at _ k l a) c.requests;
    shares = forget-Tracks _ k l h.sum_share_tokens (IsAbsent-sum_at _ k l a) c.shares;
    prompts = forget-Tracks _ k l h.sum_prompt_tokens (IsAbsent-sum_at _ k l a) c.prompts;
  }

  remove_entry-IsCounted :
      (e : Entry) (rest : List Entry) (h : Histogram)
      → IsCounted context_length num_tokens (with_entries (e ∷ rest) h)
      → IsCounted context_length num_tokens
          (with_entries rest (remove_entry context_length num_tokens e h))
  remove_entry-IsCounted e rest h c =
      let counted = uncount context_length num_tokens e h in
      let c' = uncount-IsCounted e rest h c in
      by_cases_of (λ (h : Histogram). IsCounted context_length num_tokens (with_entries rest h))
        (leb_ℤ (at counted.histogram e.node) (pos 0))
        (λ spent.
          let sum = c'.tokens e.node in
          let least : sum_at e.node (context context_length num_tokens) rest ≤ℤ pos 0 =
            subst (λ s. s ≤ℤ pos 0) sum (at_most (at counted.histogram e.node) spent) in
          forget_node-IsCounted e.node rest counted
            (sum_at-IsAbsent (context context_length num_tokens)
              (λ leaf. omega (arith, positive leaf)) e.node rest least)
            c')
        (λ _. c')

  remove_loop-IsCounted :
      (now : ℕ) (l : List Entry) (h : Histogram)
      → IsCounted context_length num_tokens (with_entries l h)
      → IsCounted context_length num_tokens (remove_loop context_length num_tokens now l h)
  remove_loop-IsCounted now [] h c = c
  remove_loop-IsCounted now (e ∷ rest) h c =
      by_cases (IsCounted context_length num_tokens) (ltb (e.timestamp + h.window_duration) now)
        (remove_loop-IsCounted now rest (remove_entry context_length num_tokens e h)
          (remove_entry-IsCounted e rest h c))
        c

  add_request-IsCounted :
      (timestamp node leaf decoding_length : ℕ) (h : Histogram)
      → IsCounted context_length num_tokens h
      → IsCounted context_length num_tokens
          (add_request context_length num_tokens timestamp node leaf decoding_length h)
  unfolding add_request remove_old_entries
  add_request-IsCounted timestamp node leaf decoding_length h c =
      let e : Entry = record { timestamp = timestamp; node = node; leaf = leaf } in
      remove_loop-IsCounted timestamp (h.timestamps ++ e ∷ []) _ (record {
        tokens =
            append-Tracks (context context_length num_tokens) h.timestamps e h.histogram c.tokens;
        requests = append-Tracks (λ leaf. pos 1) h.timestamps e h.num_requests c.requests;
        shares =
            append-Tracks (share context_length num_tokens) h.timestamps e h.sum_share_tokens
              c.shares;
        prompts =
            append-Tracks (context context_length num_tokens) h.timestamps e h.sum_prompt_tokens
              c.prompts;
      })

module _ (context_length num_tokens : ℕ → ℕ) where
  -- A request is counted, or a node that has no entries takes over those of another one.
  pub data Call (h : Histogram) : Histogram → Type 0 where
    added :
        (timestamp node leaf decoding_length : ℕ)
        → Call h (add_request context_length num_tokens timestamp node leaf decoding_length h)
    replaced :
        (old new : ℕ) → IsAbsent new h.timestamps → Call h (replace_old_node_with_new old new h)

  pub data Reachable : Histogram → Type 0 where
    started :
        (window_duration : ℕ) (gpu_allocations : ℕ → List ℕ)
        → Reachable (SlidingWindow.init window_duration gpu_allocations)
    called : {h h' : Histogram} → Reachable h → Call h h' → Reachable h'

  replace_old_node_with_new-IsCounted :
      (old new : ℕ) (h : Histogram)
      → IsAbsent new h.timestamps
      → IsCounted context_length num_tokens h
      → IsCounted context_length num_tokens (replace_old_node_with_new old new h)
  unfolding replace_old_node_with_new
  replace_old_node_with_new-IsCounted old new h a c = go (h.histogram old)
    where
      moved : Histogram
      moved = record h {
        timestamps = renamed old new h.timestamps;
        histogram = rename old new h.histogram;
        num_requests = rename old new h.num_requests;
        sum_share_tokens = rename old new h.sum_share_tokens;
        sum_prompt_tokens = rename old new h.sum_prompt_tokens;
        cur_num_decode = rename old new h.cur_num_decode;
        total_decode_length = rename old new h.total_decode_length;
      }

      go :
          (o : Option ℤ)
          → IsCounted context_length num_tokens (elim o [ none ↦ h | some v ↦ moved ])
      go none = c
      go (some v) = record {
        tokens =
            renamed-Tracks (context context_length num_tokens) old new h.timestamps h.histogram a
              c.tokens;
        requests = renamed-Tracks (λ leaf. pos 1) old new h.timestamps h.num_requests a c.requests;
        shares =
            renamed-Tracks (share context_length num_tokens) old new h.timestamps h.sum_share_tokens
              a c.shares;
        prompts =
            renamed-Tracks (context context_length num_tokens) old new h.timestamps
              h.sum_prompt_tokens a c.prompts;
      }

  -- While every leaf has tokens and no leaf is split, after any requests that are added at any times and any nodes that
  -- are replaced by ones without entries, the four counts of a node are the sums over its entries in the window of the context
  -- lengths, of one each, of the tokens in front of the leaves, and of the context lengths.
  pub Reachable-IsCounted :
      {h : Histogram}
      → ((leaf : ℕ) → 0 < context_length leaf)
      → Reachable h
      → IsCounted context_length num_tokens h
  unfolding SlidingWindow.init
  Reachable-IsCounted positive (started window_duration gpu_allocations) = record {
    tokens = λ node. refl;
    requests = λ node. refl;
    shares = λ node. refl;
    prompts = λ node. refl;
  }
  Reachable-IsCounted positive (called {h} r (added timestamp node leaf decoding_length)) =
      add_request-IsCounted context_length num_tokens positive timestamp node leaf decoding_length h
        (Reachable-IsCounted positive r)
  Reachable-IsCounted positive (called {h} r (replaced old new a)) =
      replace_old_node_with_new-IsCounted old new h a (Reachable-IsCounted positive r)
