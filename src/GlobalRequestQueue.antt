-- ===== src/GlobalRequestQueue.antt =====
-- dualmap/scheduler/utils/double_hash_global_scheduler_utils.py: the class GlobalRequestQueue, one heap of waiting
-- requests for each replica. The three lists of the source, indexed by replica, are one family here.
-- Replica ids come from `range(num_replicas)`; an IndexError for another id is not modelled. Times are in microseconds.
pub mod Entry
pub mod Counts
pub mod Steps
pub mod Order
pub mod Schedulable
pub mod Sorted
pub mod Heaps
pub mod Waiting
pub mod Tests
use dual_map.Prelude.{
  ℕ, ◌+◌, ◌-◌, ◌≡◌, Bool, true, false, none, some, Option, List, [], ◌∷◌, ◌++◌, ℤ, pos, ◌+ℤ◌, ◌-ℤ◌,
  neg, leb_ℤ, ltb, ◌==◌, if◌then◌else◌, length, min, map, zero, suc,
}
use dual_map.Request.{Request}
use dual_map.Replica.{round_div}
use dual_map.GlobalRequestQueue.Entry.{Item, Heapq, item_le}

-- `queues[replica_id]` and the two counts at `replica_id`.
pub record ReplicaQueue : Type 0 where
  pub queue : List Item
  pub actual_waiting_tokens_count : ℤ
  pub input_waiting_tokens_count : ℤ

pub record GlobalRequestQueue : Type 0 where
  pub num_replicas : ℕ
  pub queues : ℕ → ReplicaQueue

unfoldable pub init : ℕ → GlobalRequestQueue
init num_replicas = record {
  num_replicas = num_replicas;
  queues = λ _. record {
    queue = [];
    actual_waiting_tokens_count = pos 0;
    input_waiting_tokens_count = pos 0;
  };
}

-- `_get_request_actual_prefill_tokens`, which is always called with the cache hit.
abbrev pub actual_prefill_tokens : Item → ℤ
actual_prefill_tokens item = pos item.req.num_prefill_tokens +ℤ item.negtive_prefix_cache_hit_len

abbrev pub input_tokens : Item → ℤ
input_tokens item = pos (length item.req.input_ids)

abbrev pub earliest : Item → List Item → ℕ
earliest item [] = item.arrived_at
earliest item (next ∷ rest) = min item.arrived_at (earliest next rest)

abbrev pub delay_of : ℕ → List Item → ℕ
delay_of now [] = 0
delay_of now (item ∷ rest) = round_div (now - earliest item rest) 10_000

-- In hundredths of a second, to which the source rounds.
unfoldable pub get_max_waiting_delay : ℕ → ℕ → GlobalRequestQueue → ℕ
get_max_waiting_delay now replica_id q = delay_of now (q.queues replica_id).queue

unfoldable pub get_global_actual_waiting_tokens_count : ℕ → GlobalRequestQueue → ℤ
get_global_actual_waiting_tokens_count replica_id q =
    (q.queues replica_id).actual_waiting_tokens_count

unfoldable pub get_global_input_waiting_tokens_count : ℕ → GlobalRequestQueue → ℤ
get_global_input_waiting_tokens_count replica_id q =
    (q.queues replica_id).input_waiting_tokens_count

abbrev pub total_tokens : List Item → ℤ
total_tokens [] = pos 0
total_tokens (item ∷ rest) = actual_prefill_tokens item +ℤ total_tokens rest

-- A change of the queue of one replica.
abbrev pub at_replica : ℕ → ReplicaQueue → GlobalRequestQueue → GlobalRequestQueue
at_replica replica_id s q = record q { queues = λ i. if i == replica_id then s else q.queues i }

unfoldable pub recount_pending_tokens : ℕ → GlobalRequestQueue → ℤ × GlobalRequestQueue
recount_pending_tokens replica_id q =
    let s = q.queues replica_id in
    let total = total_tokens s.queue in
    (total, at_replica replica_id (record s { actual_waiting_tokens_count = total }) q)

unfoldable pub get_queue_len : ℕ → GlobalRequestQueue → ℕ
get_queue_len rid q = length (q.queues rid).queue

-- The counts after an entry has left the queue, with what is then the queue.
abbrev pub without : Item → List Item → ReplicaQueue → ReplicaQueue
without item queue s = record {
  queue = queue;
  actual_waiting_tokens_count = s.actual_waiting_tokens_count -ℤ actual_prefill_tokens item;
  input_waiting_tokens_count = s.input_waiting_tokens_count -ℤ input_tokens item;
}

unfoldable pub peek : ℕ → GlobalRequestQueue → Option Request
peek replica_id q = elim (q.queues replica_id).queue [ [] ↦ none | item ∷ rest ↦ some item.req ]

unfoldable pub is_empty : ℕ → GlobalRequestQueue → Bool
is_empty replica_id q = length (q.queues replica_id).queue == 0

unfoldable pub get_all_requests : ℕ → GlobalRequestQueue → List Request
get_all_requests replica_id q = map (λ item. item.req) (q.queues replica_id).queue

-- The loop of `discard_expired`: the discarded requests, and what the loop leaves. An entry that stays
-- is appended to the new queue.
abbrev pub discard_loop :
    ℕ → ℕ → List Item → List Request × ReplicaQueue → List Request × ReplicaQueue
discard_loop now discard_threshold [] acc = acc
discard_loop now discard_threshold (item ∷ rest) (discarded, s) =
    discard_loop now discard_threshold rest (
      if ltb (item.arrived_at + discard_threshold) now
      then (discarded ++ item.req ∷ [], without item s.queue s)
      else (discarded, record s { queue = s.queue ++ item ∷ [] }))

unfoldable pub discard_expired : ℕ → ℕ → ℕ → GlobalRequestQueue → List Request × GlobalRequestQueue
discard_expired now replica_id discard_threshold q =
    let s = q.queues replica_id in
    let (discarded, s') =
      discard_loop now discard_threshold s.queue ([], record s { queue = [] }) in
    (discarded, at_replica replica_id s' q)

abbrev pub behind : Item → Option (Item × List Item) → Option (Item × List Item)
behind item none = none
behind item (some (found, others)) = some (found, item ∷ others)

-- `del queue[idx]` at the first entry of the request, with that entry.
abbrev pub take_out : Request → List Item → Option (Item × List Item)
take_out request [] = none
take_out request (item ∷ rest) =
    let later = behind item (take_out request rest) in
    if item.req.id == request.id then some (item, rest) else later

abbrev pub item_of : Request → ℤ → Item
item_of request prefix_cache_hit_len = record {
  negtive_prefix_cache_hit_len = neg prefix_cache_hit_len;
  arrived_at = request.arrived_at;
  req = request;
}

-- `sorted`, which is stable.
abbrev pub insert : Item → List Item → List Item
insert item [] = item ∷ []
insert item (x ∷ l) = if item_le item x then item ∷ x ∷ l else x ∷ insert item l

abbrev pub sort : List Item → List Item
sort [] = []
sort (item ∷ l) = insert item (sort l)

abbrev pub tokens_before : Request → List Item → ℤ
tokens_before request [] = pos 0
tokens_before request (item ∷ rest) =
    let later = actual_prefill_tokens item +ℤ tokens_before request rest in
    if item.req.id == request.id then pos 0 else later

unfoldable pub get_num_global_actual_waiting_tokens : ℕ → Request → ℤ → GlobalRequestQueue → ℤ
get_num_global_actual_waiting_tokens replica_id request prefix_cache_hit_len q =
    tokens_before request
      (sort ((q.queues replica_id).queue ++ item_of request prefix_cache_hit_len ∷ []))

abbrev pub scheduled_in :
    ℕ
    → GlobalRequestQueue
    → Option (List Item × ReplicaQueue)
    → Option (List Request × GlobalRequestQueue)
scheduled_in replica_id q none = none
scheduled_in replica_id q (some (items, s)) =
    some (map (λ item. item.req) items, at_replica replica_id s q)

abbrev pub reached : Option ℤ → ℕ → Bool
reached none pop_count = false
reached (some max_pop_num) pop_count = leb_ℤ max_pop_num (pos pop_count)

abbrev pub popped : Item → Option (List Item × ReplicaQueue) → Option (List Item × ReplicaQueue)
popped item none = none
popped item (some (items, s)) = some (item ∷ items, s)

module _ (heapq : Heapq) where
  abbrev pub push_in : Request → ℤ → ReplicaQueue → ReplicaQueue
  push_in request prefix_cache_hit_len s =
      let item = item_of request prefix_cache_hit_len in
      record {
        queue = heapq.heappush s.queue item;
        actual_waiting_tokens_count = s.actual_waiting_tokens_count +ℤ actual_prefill_tokens item;
        input_waiting_tokens_count = s.input_waiting_tokens_count +ℤ input_tokens item;
      }

  unfoldable pub push : ℕ → Request → ℤ → GlobalRequestQueue → GlobalRequestQueue
  push replica_id request prefix_cache_hit_len q =
      at_replica replica_id (push_in request prefix_cache_hit_len (q.queues replica_id)) q

  abbrev pub pop_from : List Item → ReplicaQueue → Option Request × ReplicaQueue
  pop_from [] s = (none, s)
  pop_from (item ∷ rest) s = (some item.req, without item (heapq.heappop_rest item rest) s)

  unfoldable pub pop : ℕ → GlobalRequestQueue → Option Request × GlobalRequestQueue
  pop replica_id q =
      let s = q.queues replica_id in
      let (req, s') = pop_from s.queue s in (req, at_replica replica_id s' q)

  abbrev pub del_found : ReplicaQueue → Option (Item × List Item) → Bool × ReplicaQueue
  del_found s none = (false, s)
  del_found s (some (item, rest)) = (true, without item (heapq.heapify rest) s)

  abbrev pub del_from : Request → ReplicaQueue → Bool × ReplicaQueue
  del_from request s = del_found s (take_out request s.queue)

  unfoldable pub del_req : ℕ → Option Request → GlobalRequestQueue → Bool × GlobalRequestQueue
  del_req replica_id none q = (false, q)
  del_req replica_id (some request) q =
      let (found, s) = del_from request (q.queues replica_id) in (found, at_replica replica_id s q)

  -- The loop of `pop_schedulable`, on fuel: the requests popped from here on, and what the loop leaves.
  -- `none` means that the fuel ran out.
  abbrev pub pop_loop : ℕ → ℤ → Option ℤ → ℕ → ReplicaQueue → Option (List Item × ReplicaQueue)
  pop_loop zero budget max_pop_num pop_count s = none
  pop_loop (suc fuel) budget max_pop_num pop_count s = elim s.queue [
    | [] ↦ some ([], s)
    | item ∷ rest ↦
        let budget' = budget -ℤ actual_prefill_tokens item in
        let s' = without item (heapq.heappop_rest item rest) s in
        let more = popped item (pop_loop fuel budget' max_pop_num (pop_count + 1) s') in
        if reached max_pop_num pop_count
        then some ([], s)
        else if leb_ℤ budget' (pos 0)
        then some (item ∷ [], s')
        else more
  ]

  -- Each round pops one entry.
  unfoldable pub pop_schedulable :
      ℕ → ℤ → Option ℤ → GlobalRequestQueue → Option (List Request × GlobalRequestQueue)
  pop_schedulable replica_id cur_replica_budget max_pop_num q =
      let s = q.queues replica_id in
      scheduled_in replica_id q (pop_loop (length s.queue + 1) cur_replica_budget max_pop_num 0 s)
