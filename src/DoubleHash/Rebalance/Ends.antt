-- ===== src/DoubleHash/Rebalance/Ends.antt =====
-- The rebalancing of waiting requests (rebalance_replica_global_waiting_reqs) as a whole.
use dual_map.Prelude.{
  by_cases, ℕ, ◌+◌, ◌<◌, ◌≡◌, refl, Bool, some, Option, List, ℤ, ltb, ◌&&◌, arith,
}
use dual_map.SharedState.{SharedState, poll_all}
use dual_map.GlobalRequestQueue.{get_queue_len}
use dual_map.GlobalRequestQueue.Entry.{Heapq}
use dual_map.GlobalRequestQueue.Steps.{AllCounted}
use dual_map.GlobalRequestQueue.Heaps.{AllHeaps}
use dual_map.DoubleHash.{Config}
use dual_map.DoubleHash.Rebalance.{
  Router, Progress, is_dualmap, rebalance, resume, loads_of, start_of,
}
use dual_map.DoubleHash.Rebalance.Rounds.{times_queued}
use dual_map.DoubleHash.Rebalance.Moves.{rebalance_loop-IsRebalanced, Result}

-- What rebalancing keeps: the entries of every request, of which it moves one for each count of
-- `rebalance_cnt`, the counts and the heaps.
pub record IsKept (source : ℕ) (w w' : Router) : Type 0 where
  pub conserved :
      (id : ℕ)
      → times_queued id w'.queues w.shared.num_replicas
        ≡ times_queued id w.queues w.shared.num_replicas
  pub moves :
      get_queue_len source w'.queues + w'.rebalance_cnt
      ≡ get_queue_len source w.queues + w.rebalance_cnt
  pub counted : AllCounted w.queues → AllCounted w'.queues
  pub heaps : AllHeaps w.queues → AllHeaps w'.queues
  pub replicas : w'.shared.num_replicas ≡ w.shared.num_replicas

abbrev pub Kept : ℕ → Router → Option Router → Type 0
Kept source w o = (w' : Router) × (o ≡ some w') × IsKept source w w'

unchanged : (source : ℕ) (w : Router) → Kept source w (some w)
unchanged source w = (
  w,
  refl,
  record {
    conserved = λ id. refl;
    moves = refl;
    counted = λ all. all;
    heaps = λ all. all;
    replicas = refl;
  },
)

module _ (heapq : Heapq) (source : ℕ) where
  resumed :
      (w : Router) (s : SharedState) (o : Option Progress)
      → s.num_replicas ≡ w.shared.num_replicas
      → Result heapq w.shared.num_replicas source (start_of w) o
      → Kept source w (resume w s o)
  resumed w s o e (p', g, r) = rw g (
    (record { store = p'.store; shared = s; queues = p'.queues; rebalance_cnt = p'.rebalance_cnt }),
    refl,
    record {
      conserved = r.conserved;
      moves = r.moves;
      counted = r.counted;
      heaps = r.heaps;
      replicas = e;
    },
  )

  module _ (hash_function1 hash_function2 : List ℕ → ℕ → ℕ) (hash : Bool → Option ℕ → List ℕ → ℕ)
      (c : Config) (now : ℕ) where
    -- For a source that is a replica, rebalance_replica_global_waiting_reqs ends, and the queues then hold as many
    -- entries of every request as before. The queue of the source has lost as many as `rebalance_cnt` has grown by;
    -- where the counts of all queues were the sums over their entries and the queues were heaps, they still are.
    pub rebalance-IsKept :
        (num_target : ℤ) (w : Router)
        → source < w.shared.num_replicas
        → (w' : Router) × (rebalance hash_function1 hash_function2 hash heapq c now source
              num_target w
            ≡ some w')
          × IsKept source w w'
    unfolding rebalance poll_all loads_of
    rebalance-IsKept num_target w h =
        by_cases (Kept source w)
          (is_dualmap c.balance_type && ltb 1 (get_queue_len source w.queues))
          (resumed w (poll_all hash now w.shared) _ refl (
            rebalance_loop-IsRebalanced heapq w.shared.num_replicas source hash_function1
              hash_function2 hash c w.shared (loads_of now w.shared w.queues) num_target
              (get_queue_len source w.queues + 1) (start_of w) h refl (omega arith)))
          (unchanged source w)
