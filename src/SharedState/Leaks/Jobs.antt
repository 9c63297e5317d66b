-- ===== src/SharedState/Leaks/Jobs.antt =====
-- The jobs that remove an entry, and what they leave.
use dual_map.Prelude.{
  by_cases_of, ℕ, ◌≡◌, ◌≢◌, refl, sym, Bool, true, none, some, Option, List, [], ◌∷◌, ◌++◌, lookup,
  arith,
}
use mathlib.Core.Path.{subst}
use dual_map.SharedState.Posting.{
  Task, running, cancelling, cancelled, failed, completed, Key, key_discrete, Job, completion,
  removal, Posting, drop, drop_task, drop_found, jobs_after, del_posting_request_tasks,
  on_request_complete, run_job, IsEnd,
}
use dual_map.SharedState.Leaks.{
  key_of, pending, IsOwned, IsTracked, kept-IsLive, Dropped, drop-Dropped, IsSound, pending-append,
}

pub pending-mono_left :
    (k : Key) (xs ys : List Job) → pending k xs ≡ true → pending k (xs ++ ys) ≡ true
pending-mono_left k xs ys h = ground (arith, pending-append k xs ys)

-- A job that is run no longer waits, which matters to its own key only.
pending-taken :
    (k : Key) (before after : List Job) (job : Job)
    → k ≢ key_of job
    → pending k (before ++ job ∷ after) ≡ true
    → pending k (before ++ after) ≡ true
pending-taken k before after job other h =
    ground (arith, pending-append k before (job ∷ after), pending-append k before after)

same_jobs : (key : Key) (o : Option ℕ) (p : Posting) → (drop_found key o p).1.jobs ≡ p.jobs
same_jobs key none p = refl
same_jobs key (some i) p = go (p.tasks i)
  where
    go : (t : Task) → (drop_task key i t p).1.jobs ≡ p.jobs
    go running = refl
    go cancelling = refl
    go cancelled = refl
    go failed = refl
    go completed = refl

pub drop-IsSound : (key : Key) (p : Posting) → IsSound p → IsSound (drop key p).1
drop-IsSound key p t =
    subst (λ jobs. IsTracked jobs (drop key p).1)
      (sym (same_jobs key (lookup key_discrete key p.posting_request_tasks) p))
      (drop-Dropped key p.jobs p.jobs p (λ k other h. h) t).tracked

abbrev pub Ran : Bool × Posting → Type 0
Ran o = (o.0 ≡ true) × IsSound o.1

Dropped-Ran : (key : Key) (p : Posting) → Dropped p.jobs (drop key p) → Ran (drop key p)
Dropped-Ran key p d = (
  d.ok,
  subst (λ jobs. IsTracked jobs (drop key p).1)
      (sym (same_jobs key (lookup key_discrete key p.posting_request_tasks) p)) d.tracked,
)

completed-Ran :
    (id port : ℕ) (p : Posting)
    → Ran (drop (id, port) p)
    → Ran (on_request_complete (some id) port p)
unfolding on_request_complete del_posting_request_tasks
completed-Ran id port p (ok, sound) =
    by_cases_of Ran (drop (id, port) p).0
      (λ _. (
        refl,
        record {
          distinct = sound.distinct;
          live = λ k i e.
              kept-IsLive k _ _ (drop (id, port) p).1 _ i (omega arith) refl refl (λ h. h)
                (sound.live k i e);
        },
      ))
      (λ e. absurd (ground (arith, ok, e)))

run_job-Ran : (job : Job) (p : Posting) → Ran (drop (key_of job) p) → Ran (run_job job p)
unfolding run_job del_posting_request_tasks
run_job-Ran (completion (id, port)) p r = completed-Ran id port p r
run_job-Ran (removal (id, port)) p r = r

pub run_job-Ran_taken :
    (p : Posting) (before after : List Job) (job : Job)
    → p.jobs ≡ before ++ job ∷ after
    → IsSound p
    → Ran (run_job job (record p { jobs = before ++ after }))
run_job-Ran_taken p before after job e t =
    let q : Posting = record p { jobs = before ++ after } in
    let t' : IsTracked (before ++ job ∷ after) q = record {
      distinct = t.distinct;
      live = λ k i g.
          kept-IsLive k p.jobs (before ++ job ∷ after) p q i (omega arith) refl refl
            (λ h. subst (λ l. pending k l ≡ true) e h) (t.live k i g);
    } in
    run_job-Ran job q (
      Dropped-Ran (key_of job) q (
        drop-Dropped (key_of job) _ (before ++ after) q
          (λ k other. pending-taken k before after job other) t'))

-- A task of the table that ends has a job that removes its entry.
pub ended_owned :
    (key : Key) (old t : Task) (jobs : List Job)
    → IsEnd old t
    → IsOwned old (pending key jobs)
    → IsOwned t (pending key (jobs ++ jobs_after key t))
ended_owned key running failed jobs h o = ground (arith, pending-append key jobs (removal key ∷ []))
ended_owned key running completed jobs h o =
    ground (arith, pending-append key jobs (completion key ∷ removal key ∷ []))
ended_owned key running running jobs h o = absurd h
ended_owned key running cancelling jobs h o = absurd h
ended_owned key running cancelled jobs h o = absurd h
ended_owned key cancelling t jobs h o = absurd o
ended_owned key cancelled t jobs h o = absurd o
ended_owned key failed t jobs h o = absurd h
ended_owned key completed t jobs h o = absurd h
