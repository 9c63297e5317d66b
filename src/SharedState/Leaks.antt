-- ===== src/SharedState/Leaks.antt =====
-- dualmap/scheduler/utils/shared.py: no task stays in the table of posted requests for good, step by step.
pub mod Jobs
pub mod Reached
pub mod Tests
use dual_map.Prelude.{
  by_cases_of, ℕ, ◌+◌, ◌<◌, ◌≤◌, ◌≡◌, ◌≢◌, refl, sym, ap, ◌∙◌, Bool, true, false, ◌||◌, none, some,
  Option, List, [], ◌∷◌, ◌++◌, ◌==◌, ite, lookup, ℕ_discrete, arith, Option-cases, inl, inr,
}
use mathlib.Core.Path.{subst}
use mathlib.Core.Option.{none-ne-some}
use dual_map.Prelude.Dict.{
  assign, del, IsDistinct, lookup-assign, lookup-del_ne, lookup-del_self, del-IsDistinct,
  assign-IsDistinct,
}
use dual_map.SharedState.Posting
use dual_map.SharedState.Posting.{
  Task, running, cancelling, cancelled, failed, completed, Key, key_discrete, Job, completion,
  removal, Posting, set_task, drop, drop_task, drop_found, jobs_after, drop_entry,
  handle_task_completion, del_posting_request_tasks, on_request_complete, run_job,
  abort_posting_request_tasks, add_posting_request_tasks, IsEnd, Step, added, aborted, ended, ran,
  Reachable, started, stepped,
}

abbrev pub key_of : Job → Key
key_of (completion key) = key
key_of (removal key) = key

-- Whether a job is left that removes the entry of the key.
abbrev pub pending : Key → List Job → Bool
pending key [] = false
pending key (job ∷ jobs) = ite (key_discrete key (key_of job)) true (pending key jobs)

abbrev pub IsOwned : Task → Bool → Type 0
IsOwned running b = Unit
IsOwned failed b = b ≡ true
IsOwned completed b = b ≡ true
IsOwned cancelling b = ⊥
IsOwned cancelled b = ⊥

-- The task of an entry has not ended, or a job is left that removes the entry.
pub record IsLive (jobs : List Job) (p : Posting) (key : Key) (i : ℕ) : Type 0 where
  pub exists : i < p.created
  pub named : p.keys i ≡ key
  pub owned : IsOwned (p.tasks i) (pending key jobs)

pub record IsTracked (jobs : List Job) (p : Posting) : Type 0 where
  pub distinct : IsDistinct key_discrete p.posting_request_tasks
  pub live :
      (key : Key) (i : ℕ)
      → lookup key_discrete key p.posting_request_tasks ≡ some i
      → IsLive jobs p key i

pub IsOwned-mono : (t : Task) (b c : Bool) → (b ≡ true → c ≡ true) → IsOwned t b → IsOwned t c
IsOwned-mono running b c f o = tt
IsOwned-mono failed b c f o = f o
IsOwned-mono completed b c f o = f o
IsOwned-mono cancelling b c f o = absurd o
IsOwned-mono cancelled b c f o = absurd o

pub pending-append :
    (key : Key) (xs ys : List Job) → pending key (xs ++ ys) ≡ (pending key xs || pending key ys)
pending-append key [] ys = refl
pending-append key (job ∷ xs) ys = ground (arith, pending-append key xs ys)

-- More jobs and the same task.
pub kept-IsLive :
    (key : Key) (jobs jobs' : List Job) (p q : Posting) (i : ℕ)
    → p.created ≤ q.created
    → (p.keys i ≡ q.keys i)
    → (p.tasks i ≡ q.tasks i)
    → (pending key jobs ≡ true → pending key jobs' ≡ true)
    → IsLive jobs p key i
    → IsLive jobs' q key i
kept-IsLive key jobs jobs' p q i more same_key same_task f l = record {
  exists = (let exists = l.exists in omega (arith, more, exists));
  named = sym same_key ∙ l.named;
  owned =
      IsOwned-mono (q.tasks i) (pending key jobs) (pending key jobs') f
        (subst (λ t. IsOwned t (pending key jobs)) same_task l.owned);
}

-- The removal of an entry of a posting that differs in this task and in jobs for this key.
drop_entry-IsTracked :
    (key : Key) (jobs jobs' : List Job) (p q : Posting)
    → p.posting_request_tasks ≡ q.posting_request_tasks
    → p.created ≤ q.created
    → ((i : ℕ) → p.keys i ≡ q.keys i)
    → ((i : ℕ) → p.keys i ≢ key → p.tasks i ≡ q.tasks i)
    → ((k : Key) → k ≢ key → pending k jobs ≡ true → pending k jobs' ≡ true)
    → IsTracked jobs p
    → IsTracked jobs' (drop_entry key q)
drop_entry-IsTracked key jobs jobs' p q table more same_keys same_tasks f t = record {
  distinct =
      subst (λ d. IsDistinct key_discrete (del key_discrete key d)) table
        (del-IsDistinct key_discrete key p.posting_request_tasks t.distinct);
  live = λ k i e.
      let e' = ap (λ d. lookup key_discrete k (del key_discrete key d)) table ∙ e in
      elim (key_discrete k key) [
        | yes same ↦ absurd (
            none-ne-some i (
              sym (lookup-del_self key_discrete key p.posting_request_tasks t.distinct)
              ∙ ap (λ x. lookup key_discrete x (del key_discrete key p.posting_request_tasks))
                  (sym same)
              ∙ e'))
        | no other ↦
            let l =
              t.live k i
                (sym (lookup-del_ne key_discrete key k p.posting_request_tasks other) ∙ e') in
            kept-IsLive k jobs jobs' p (drop_entry key q) i more (same_keys i)
              (same_tasks i (λ named. other (sym l.named ∙ named))) (f k other) l
      ];
}

-- What a removal needs and gives.
pub record Dropped (jobs : List Job) (o : Bool × Posting) : Type 0 where
  pub ok : o.0 ≡ true
  pub tracked : IsTracked jobs o.1

drop_task-Dropped :
    (key : Key) (i : ℕ) (t : Task) (jobs jobs' : List Job) (p : Posting)
    → p.tasks i ≡ t
    → p.keys i ≡ key
    → IsOwned t (pending key jobs)
    → ((k : Key) → k ≢ key → pending k jobs ≡ true → pending k jobs' ≡ true)
    → IsTracked jobs p
    → Dropped jobs' (drop_task key i t p)
drop_task-Dropped key i running jobs jobs' p e named o f t = record {
  ok = refl;
  tracked =
      drop_entry-IsTracked key jobs jobs' p (set_task i cancelling p) refl (omega arith) (λ j. refl)
        (λ j other. sym (if_other j other)) f t;
}
  where
    if_other : (j : ℕ) → p.keys j ≢ key → (set_task i cancelling p).tasks j ≡ p.tasks j
    if_other j other =
        by_cases_of (λ x. x ≡ p.tasks j) (j == i)
          (λ e. absurd (other (ap p.keys (ground arith) ∙ named))) (λ _. refl)
drop_task-Dropped key i cancelling jobs jobs' p e named o f t = absurd o
drop_task-Dropped key i cancelled jobs jobs' p e named o f t = absurd o
drop_task-Dropped key i failed jobs jobs' p e named o f t = record {
  ok = refl;
  tracked =
      drop_entry-IsTracked key jobs jobs' p p refl (omega arith) (λ j. refl) (λ j other. refl) f t;
}
drop_task-Dropped key i completed jobs jobs' p e named o f t = record {
  ok = refl;
  tracked =
      drop_entry-IsTracked key jobs jobs' p p refl (omega arith) (λ j. refl) (λ j other. refl) f t;
}

drop_found-Dropped :
    (key : Key) (o : Option ℕ) (jobs jobs' : List Job) (p : Posting)
    → lookup key_discrete key p.posting_request_tasks ≡ o
    → ((k : Key) → k ≢ key → pending k jobs ≡ true → pending k jobs' ≡ true)
    → IsTracked jobs p
    → Dropped jobs' (drop_found key o p)
drop_found-Dropped key none jobs jobs' p e f t = record {
  ok = refl;
  tracked = record {
    distinct = t.distinct;
    live = λ k i g.
        kept-IsLive k jobs jobs' p p i (omega arith) refl refl
          (f k (λ same.
            none-ne-some i
              (sym e ∙ ap (λ x. lookup key_discrete x p.posting_request_tasks) (sym same) ∙ g)))
          (t.live k i g);
  };
}
drop_found-Dropped key (some i) jobs jobs' p e f t =
    let l = t.live key i e in
    drop_task-Dropped key i (p.tasks i) jobs jobs' p refl l.named l.owned f t

pub drop-Dropped :
    (key : Key) (jobs jobs' : List Job) (p : Posting)
    → ((k : Key) → k ≢ key → pending k jobs ≡ true → pending k jobs' ≡ true)
    → IsTracked jobs p
    → Dropped jobs' (drop key p)
drop-Dropped key jobs jobs' p f t = drop_found-Dropped key _ jobs jobs' p refl f t

-- The jobs of `p` itself.
abbrev pub IsSound : Posting → Type 0
IsSound p = IsTracked p.jobs p
