-- ===== src/SharedState/Leaks/Reached.antt =====
-- dualmap/scheduler/utils/shared.py: no task stays in the table of posted requests for good.
use dual_map.Prelude.{
  by_cases_of, ℕ, ◌+◌, ◌<◌, ◌≡◌, ◌≢◌, refl, sym, ap, ◌∙◌, true, false, none, some, List, [], ◌∷◌,
  ◌++◌, ◌==◌, ite, lookup, arith, if◌then◌else◌, Option-cases, inl, inr,
}
use mathlib.Core.Path.{subst}
use mathlib.Core.Option.{none-ne-some, some-injective}
use dual_map.Prelude.Dict.{assign, lookup-assign, assign-IsDistinct}
use dual_map.SharedState.Posting
use dual_map.SharedState.Posting.{
  Task, running, cancelling, cancelled, failed, completed, Key, key_discrete, Job, Posting,
  set_task, drop, jobs_after, handle_task_completion, del_posting_request_tasks, run_job,
  abort_posting_request_tasks, add_posting_request_tasks, IsEnd, Step, added, aborted, ended, ran,
  interrupted, Locked, Reachable, started, stepped,
}
use dual_map.SharedState.Leaks.{
  IsOwned-mono, IsLive, IsTracked, IsSound, IsOwned, pending, kept-IsLive,
}
use dual_map.SharedState.Leaks.Jobs.{
  pending-mono_left, drop-IsSound, run_job-Ran_taken, ended_owned,
}

-- A new task, and its entry.
abbrev with_new : Key → Posting → Posting
with_new key p = record p {
  posting_request_tasks = assign key_discrete key p.created p.posting_request_tasks;
  tasks = λ j. if j == p.created then running else p.tasks j;
  keys = λ j. if j == p.created then key else p.keys j;
  created = p.created + 1;
}

unchanged_below : {A : Type 0} (n i : ℕ) (x y : A) → i < n → y ≡ (if i == n then x else y)
unchanged_below n i x y h =
    by_cases_of (λ z. y ≡ z) (i == n) (λ e. absurd (ground arith)) (λ _. refl)

with_new-IsSound : (key : Key) (p : Posting) → IsSound p → IsSound (with_new key p)
with_new-IsSound key p t = record {
  distinct = assign-IsDistinct key_discrete key p.created p.posting_request_tasks t.distinct;
  live = λ k i e.
      let e' = sym (lookup-assign key_discrete key k p.created p.posting_request_tasks) ∙ e in
      go k i (key_discrete k key) e';
}
  where
    go :
        (k : Key) (i : ℕ) (d : Dec (k ≡ key))
        → ite d (some p.created) (lookup key_discrete k p.posting_request_tasks) ≡ some i
        → IsLive p.jobs (with_new key p) k i
    go k i (yes same) e = subst (IsLive p.jobs (with_new key p) k) (some-injective _ _ e) (record {
      exists = omega arith;
      named =
          by_cases_of (λ x. x ≡ k) (p.created == p.created) (λ _. sym same)
            (λ e. absurd (ground arith));
      owned =
          by_cases_of (λ t. IsOwned t (pending k p.jobs)) (p.created == p.created) (λ _. tt)
            (λ e. absurd (ground arith));
    })
    go k i (no other) e =
        let l = t.live k i e in
        kept-IsLive k p.jobs p.jobs p (with_new key p) i (omega arith)
          (unchanged_below p.created i key (p.keys i) l.exists)
          (unchanged_below p.created i running (p.tasks i) l.exists) (λ h. h) l

ended-IsSound :
    (i : ℕ) (t : Task) (p : Posting)
    → IsEnd (p.tasks i) t
    → IsSound p
    → IsSound (handle_task_completion i t p)
unfolding handle_task_completion
ended-IsSound i t p h s = record {
  distinct = s.distinct;
  live = λ k j e.
      let l = s.live k j e in
      record {
        exists = l.exists;
        named = l.named;
        owned =
            by_cases_of (λ x. IsOwned x (pending k (p.jobs ++ jobs_after (p.keys i) t))) (j == i)
              (λ same.
                let j≡i : j ≡ i = ground arith in
                subst (λ key. IsOwned t (pending k (p.jobs ++ jobs_after key t)))
                  (sym (ap p.keys (sym j≡i) ∙ l.named))
                  (ended_owned k (p.tasks i) t p.jobs h
                    (subst (λ x. IsOwned (p.tasks x) (pending k p.jobs)) j≡i l.owned)))
              (λ _.
                IsOwned-mono (p.tasks j) (pending k p.jobs) _
                  (pending-mono_left k p.jobs (jobs_after (p.keys i) t)) l.owned);
      };
}

abbrev IsSafe : Locked → Type 0
IsSafe s = IsSound s.posting

module _ (replicas_ip_port : ℕ → ℕ) where
  Step-IsSafe : {s s' : Locked} → Step replicas_ip_port s s' → IsSafe s → IsSafe s'
  unfolding add_posting_request_tasks abort_posting_request_tasks
  Step-IsSafe {s} (added true replica_id id free) t =
      with_new-IsSound (id, replicas_ip_port replica_id) s.posting t
  Step-IsSafe (added false replica_id id free) t = t
  Step-IsSafe {s} (aborted replica_id id free) t =
      drop-IsSound (id, replicas_ip_port replica_id) s.posting t
  Step-IsSafe {s} (ended i end h) t = ended-IsSound i end s.posting h t
  Step-IsSafe {s} (ran before after job free e) t =
      (run_job-Ran_taken s.posting before after job e t).1
  Step-IsSafe (interrupted held) t = t

  -- However the tasks are added, with a failing create_task or not, aborted and end, in whatever order the jobs run, and
  -- whether a call is stuck with the lock or was cancelled there, no key stands twice in the table, and the task of an
  -- entry exists, was created for the key of the entry, and is running, or it has failed or completed and a job is left
  -- that removes the entry.
  pub Reachable-IsTracked :
      {s : Locked} → Reachable replicas_ip_port s → IsTracked s.posting.jobs s.posting
  unfolding Posting.init lookup
  Reachable-IsTracked started = record { distinct = tt; live = λ k i e. absurd (none-ne-some i e) }
  Reachable-IsTracked (stepped r step) = Step-IsSafe step (Reachable-IsTracked r)

  -- No job that gets the lock in a reachable state is left by a CancelledError.
  pub run_job-returns :
      {s : Locked} (before after : List Job) (job : Job)
      → Reachable replicas_ip_port s
      → s.posting.jobs ≡ before ++ job ∷ after
      → (run_job job (record s.posting { jobs = before ++ after })).0 ≡ true
  run_job-returns {s} before after job r e =
      (run_job-Ran_taken s.posting before after job e (Reachable-IsTracked r)).0

  idle_owned : (t : Task) → t ≢ running → IsOwned t false → ⊥
  idle_owned running h o = h refl
  idle_owned cancelling h o = o
  idle_owned cancelled h o = o
  idle_owned failed h o = ground (arith, o)
  idle_owned completed h o = ground (arith, o)

  -- In a reachable state in which no task that was created is running and no job is left, the table is empty.
  pub Reachable-quiet :
      {s : Locked}
      → Reachable replicas_ip_port s
      → s.posting.jobs ≡ []
      → ((i : ℕ) → i < s.posting.created → s.posting.tasks i ≢ running)
      → (key : Key) → lookup key_discrete key s.posting.posting_request_tasks ≡ none
  Reachable-quiet {s} r none_left idle key =
      elim (Option-cases (lookup key_discrete key s.posting.posting_request_tasks)) [
        | inl e ↦ e
        | inr (i, e) ↦
            let l = (Reachable-IsTracked r).live key i e in
            absurd (
              idle_owned (s.posting.tasks i) (idle i l.exists)
                (subst (λ jobs. IsOwned (s.posting.tasks i) (pending key jobs)) none_left l.owned))
      ]
