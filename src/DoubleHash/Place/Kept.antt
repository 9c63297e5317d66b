-- ===== src/DoubleHash/Place/Kept.antt =====
-- What each step of the scheduler keeps of the queues, and that the steps compose.
use dual_map.Prelude.{ℕ, ◌+◌, ◌<◌, ◌≡◌, refl, ◌∙◌, some, Option, ℤ, arith, ◌>>=◌}
use mathlib.Core.Path.{subst}
use dual_map.GlobalRequestQueue.Steps.{AllCounted}
use dual_map.GlobalRequestQueue.Heaps.{AllHeaps}
use dual_map.DoubleHash.{Config}
use dual_map.DoubleHash.Rebalance.{Router}
use dual_map.DoubleHash.Rebalance.Rounds.{times_queued}
use dual_map.DoubleHash.Rebalance.Ends.{IsKept, rebalance-IsKept}
use dual_map.DoubleHash.Place.{Outside, rebalance_at}

-- For each request, `gone` entries more are in the queues before than after; the counts and heaps are kept.
pub record IsStep (gone came : ℕ → ℕ) (w w' : Router) : Type 0 where
  pub entries :
      (id : ℕ)
      → times_queued id w'.queues w.shared.num_replicas + gone id
        ≡ times_queued id w.queues w.shared.num_replicas + came id
  pub counted : AllCounted w.queues → AllCounted w'.queues
  pub heaps : AllHeaps w.queues → AllHeaps w'.queues
  pub replicas : w'.shared.num_replicas ≡ w.shared.num_replicas

abbrev pub nothing : ℕ → ℕ
nothing id = 0

pub no-IsStep : (w : Router) → IsStep nothing nothing w w
no-IsStep w = record {
  entries = λ id. refl;
  counted = λ all. all;
  heaps = λ all. all;
  replicas = refl;
}

pub two_steps :
    (gone came gone' came' : ℕ → ℕ) (w w₁ w₂ : Router)
    → IsStep gone came w w₁
    → IsStep gone' came' w₁ w₂
    → IsStep (λ id. gone id + gone' id) (λ id. came id + came' id) w w₂
two_steps gone came gone' came' w w₁ w₂ s t = record {
  entries = λ id.
      let first = s.entries id in
      let second =
        subst (λ n. times_queued id w₂.queues n + gone' id ≡ times_queued id w₁.queues n + came' id)
          s.replicas (t.entries id) in
      omega (arith, first, second);
  counted = λ all. t.counted (s.counted all);
  heaps = λ all. t.heaps (s.heaps all);
  replicas = t.replicas ∙ s.replicas;
}

-- The same step with other counts of the same difference.
pub as-IsStep :
    (gone came gone' came' : ℕ → ℕ) (w w' : Router)
    → ((id : ℕ) → gone' id + came id ≡ gone id + came' id)
    → IsStep gone came w w'
    → IsStep gone' came' w w'
as-IsStep gone came gone' came' w w' same s = record {
  entries = λ id. (let e = s.entries id in let f = same id in omega (arith, e, f));
  counted = s.counted;
  heaps = s.heaps;
  replicas = s.replicas;
}

-- The step gives a router, and keeps what the rebalancing keeps.
abbrev pub Gives : Router → Option Router → Type 0
Gives w o = (w' : Router) × (o ≡ some w') × IsStep nothing nothing w w'

pub Gives-itself : (w : Router) → Gives w (some w)
Gives-itself w = (w, refl, no-IsStep w)

IsKept-IsStep : (source : ℕ) (w w' : Router) → IsKept source w w' → IsStep nothing nothing w w'
IsKept-IsStep source w w' k = record {
  entries = λ id. (let e = k.conserved id in omega (arith, e));
  counted = k.counted;
  heaps = k.heaps;
  replicas = k.replicas;
}

pub then-Gives :
    (w : Router) (o : Option Router) (f : Router → Option Router)
    → Gives w o
    → ((w' : Router) → IsStep nothing nothing w w' → Gives w' (f w'))
    → Gives w (o >>= f)
then-Gives w o f (w₁, e, s) g =
    let (w₂, e', t) = g w₁ s in (w₂, rw e e', two_steps nothing nothing nothing nothing w w₁ w₂ s t)

module _ (x : Outside) (c : Config) (now : ℕ) where
  pub rebalance_at-Gives :
      (source : ℕ) (num_target : ℤ) (w : Router)
      → source < w.shared.num_replicas
      → Gives w (rebalance_at x c now source num_target w)
  rebalance_at-Gives source num_target w h =
      let (w', e, k) =
        rebalance-IsKept x.heapq source x.hash_function1 x.hash_function2 x.hash c now num_target w
          h in
      (w', e, IsKept-IsStep source w w' k)
