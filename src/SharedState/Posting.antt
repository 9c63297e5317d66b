-- ===== src/SharedState/Posting.antt =====
-- dualmap/scheduler/utils/shared.py: the table of the tasks that post requests, as asyncio changes it. A task is its
-- state: the HTTP request that it makes is not modelled. A method holds the lock from its first step to its last, and
-- asyncio.Lock is not reentrant: who awaits it twice waits for good.
use dual_map.Prelude.{
  ℕ, ◌+◌, ◌≡◌, ap, Bool, true, false, not, none, some, Option, List, [], ◌∷◌, ◌++◌, ◌==◌,
  if◌then◌else◌, lookup, ℕ_discrete,
}
use dual_map.Prelude.Dict.{assign, del}

-- `cancelling` is a task that is not done yet and of which `cancel` was called.
pub data Task : Type 0 where
  running : Task
  cancelling : Task
  cancelled : Task
  failed : Task
  completed : Task

-- The id of a request and the address of a replica.
abbrev pub Key : Type 0
Key = ℕ × ℕ

abbrev both : (a b c d : ℕ) → Dec (a ≡ c) → Dec (b ≡ d) → Dec (◌≡◌ {A = Key} (a, b) (c, d))
both a b c d (yes p) (yes q) = yes (λ i. (p i, q i))
both a b c d (yes p) (no q) = no (λ e. q (ap (λ (k : Key). k.1) e))
both a b c d (no p) q = no (λ e. p (ap (λ (k : Key). k.0) e))

unfoldable pub key_discrete : Discrete Key
key_discrete (a, b) (c, d) = both a b c d (ℕ_discrete a c) (ℕ_discrete b d)

-- A coroutine that `create_task` has started: `on_request_complete` or `del_posting_request_tasks`.
pub data Job : Type 0 where
  completion : Key → Job
  removal : Key → Job

-- Tasks are numbered as they are created; `keys` is what their done callbacks know.
pub record Posting : Type 0 where
  pub posting_request_tasks : List (Key × ℕ)
  pub tasks : ℕ → Task
  pub keys : ℕ → Key
  pub created : ℕ
  pub jobs : List Job
  pub finished_requests_queue : List ℕ

unfoldable pub init : Posting
init = record {
  posting_request_tasks = [];
  tasks = λ i. running;
  keys = λ i. (0, 0);
  created = 0;
  jobs = [];
  finished_requests_queue = [];
}

abbrev pub set_task : ℕ → Task → Posting → Posting
set_task i t p = record p { tasks = λ j. if j == i then t else p.tasks j }

abbrev pub drop_entry : Key → Posting → Posting
drop_entry key p = record p { posting_request_tasks = del key_discrete key p.posting_request_tasks }

-- `false` for the CancelledError of `task.exception()`, which leaves the method before `del`.
abbrev pub drop_task : Key → ℕ → Task → Posting → Bool × Posting
drop_task key i running p = (true, drop_entry key (set_task i cancelling p))
drop_task key i cancelling p = (true, drop_entry key (set_task i cancelling p))
drop_task key i cancelled p = (false, p)
drop_task key i failed p = (true, drop_entry key p)
drop_task key i completed p = (true, drop_entry key p)

abbrev pub drop_found : Key → Option ℕ → Posting → Bool × Posting
drop_found key none p = (true, p)
drop_found key (some i) p = drop_task key i (p.tasks i) p

abbrev pub drop : Key → Posting → Bool × Posting
drop key p = drop_found key (lookup key_discrete key p.posting_request_tasks) p

unfoldable pub del_posting_request_tasks : ℕ → ℕ → Posting → Bool × Posting
del_posting_request_tasks request_id target_ip_port p = drop (request_id, target_ip_port) p

-- The CancelledError is no Exception, so it leaves this method too. The callback of the scheduler that follows is a
-- step of its own.
unfoldable pub on_request_complete : Option ℕ → ℕ → Posting → Bool × Posting
on_request_complete none target_ip_port p = (true, p)
on_request_complete (some request_id) target_ip_port p =
    let (ok, q) = del_posting_request_tasks request_id target_ip_port p in
    if ok
    then (true, record q { finished_requests_queue = q.finished_requests_queue ++ request_id ∷ [] })
    else (false, q)

-- The jobs that `handle_task_completion` starts for a task that has ended.
abbrev pub jobs_after : Key → Task → List Job
jobs_after key completed = completion key ∷ removal key ∷ []
jobs_after key _ = removal key ∷ []

unfoldable pub handle_task_completion : ℕ → Task → Posting → Posting
handle_task_completion i t p = record (set_task i t p) { jobs = p.jobs ++ jobs_after (p.keys i) t }

unfoldable pub run_job : Job → Posting → Bool × Posting
run_job (completion (request_id, port)) p = on_request_complete (some request_id) port p
run_job (removal (request_id, port)) p = del_posting_request_tasks request_id port p

-- How a task can end: cancelled only if it was cancelled.
abbrev pub IsEnd : Task → Task → Type 0
IsEnd running failed = Unit
IsEnd running completed = Unit
IsEnd cancelling cancelled = Unit
IsEnd cancelling failed = Unit
IsEnd cancelling completed = Unit
IsEnd _ _ = ⊥

-- `posting_request_tasks_lock`: whether a call holds it that waits for it.
pub record Locked : Type 0 where
  pub posting : Posting
  pub stuck : Bool

module _ (replicas_ip_port : ℕ → ℕ) where
  unfoldable pub abort_posting_request_tasks : ℕ → ℕ → Posting → Bool × Posting
  abort_posting_request_tasks replica_id request_id p =
      drop (request_id, replicas_ip_port replica_id) p

  -- `creates` is false where `create_task` raises. The method then waits for the lock that it holds itself, to remove
  -- the entry, and does not return: `false`, and nothing is changed.
  unfoldable pub add_posting_request_tasks : Bool → ℕ → ℕ → Posting → Bool × Posting
  add_posting_request_tasks creates replica_id request_id p =
      let key : Key = (request_id, replicas_ip_port replica_id) in
      if creates
      then (
        true,
        record p {
          posting_request_tasks = assign key_discrete key p.created p.posting_request_tasks;
          tasks = λ j. if j == p.created then running else p.tasks j;
          keys = λ j. if j == p.created then key else p.keys j;
          created = p.created + 1;
        },
      )
      else (false, p)

  -- What can happen next. A method runs while no other one is stuck with the lock; the done callback of a task needs
  -- no lock. Jobs run in any order.
  pub data Step (s : Locked) : Locked → Type 0 where
    added :
        (creates : Bool) (replica_id request_id : ℕ)
        → s.stuck ≡ false
        → Step s (
            let (returns, p) = add_posting_request_tasks creates replica_id request_id s.posting in
            record { posting = p; stuck = not returns })
    aborted :
        (replica_id request_id : ℕ)
        → s.stuck ≡ false
        → Step s
            (record s { posting = (abort_posting_request_tasks replica_id request_id s.posting).1 })
    ended :
        (i : ℕ) (t : Task)
        → IsEnd (s.posting.tasks i) t
        → Step s (record s { posting = handle_task_completion i t s.posting })
    ran :
        (before after : List Job) (job : Job)
        → s.stuck ≡ false
        → s.posting.jobs ≡ before ++ job ∷ after
        → Step s
            (record s { posting = (run_job job (record s.posting { jobs = before ++ after })).1 })
    -- The stuck call is cancelled, which leaves the lock.
    interrupted : s.stuck ≡ true → Step s (record s { stuck = false })

  pub data Reachable : Locked → Type 0 where
    started : Reachable (record { posting = init; stuck = false })
    stepped : {s s' : Locked} → Reachable s → Step s s' → Reachable s'
