-- ===== src/SharedState/Leaks/Tests.antt =====
-- A request is posted to the replica 1, its task completes, and the jobs of its done callback run.
use dual_map.Prelude.{
  ℕ, ◌+◌, ◌<◌, ◌≡◌, ◌≢◌, refl, true, false, none, [], ◌∷◌, ◌++◌, ℕ_discrete, lookup, arith,
}
use dual_map.Prelude.Dict.{assign, del}
use dual_map.SharedState.Posting
use dual_map.SharedState.Posting.{
  Task, running, completed, Posting, Key, key_discrete, Job, completion, removal,
  add_posting_request_tasks, handle_task_completion, run_job, Reachable, started, stepped, added,
  ended, ran, Locked, del_posting_request_tasks, on_request_complete,
}
use dual_map.SharedState.Leaks.{IsTracked}
use dual_map.SharedState.Leaks.Reached.{Reachable-IsTracked, run_job-returns, Reachable-quiet}

abbrev port : ℕ → ℕ
port i = 8000 + i

abbrev key : Key
key = (7, 8001)

abbrev posted : Posting
posted = (add_posting_request_tasks port true 1 7 Posting.init).1

abbrev done : Posting
done = handle_task_completion 0 completed posted

abbrev free : Posting → Locked
free p = record { posting = p; stuck = false }

posted-Reachable : Reachable port (free posted)
unfolding add_posting_request_tasks
posted-Reachable = stepped started (added true 1 7 refl)

done-Reachable : Reachable port (free done)
unfolding add_posting_request_tasks Posting.init
done-Reachable = stepped posted-Reachable (ended 0 completed tt)

Reachable-IsTracked_example : IsTracked posted.jobs posted
Reachable-IsTracked_example = Reachable-IsTracked port posted-Reachable

abbrev after_completion : Posting
after_completion = (run_job (completion key) (record done { jobs = removal key ∷ [] })).1

abbrev after_removal : Posting
after_removal = (run_job (removal key) (record after_completion { jobs = [] })).1

done-jobs : done.jobs ≡ [] ++ completion key ∷ removal key ∷ []
unfolding handle_task_completion add_posting_request_tasks Posting.init
done-jobs = refl

run_job-returns_example :
    (run_job (completion key) (record done { jobs = removal key ∷ [] })).0 ≡ true
run_job-returns_example =
    run_job-returns port [] (removal key ∷ []) (completion key) done-Reachable done-jobs

after_completion-Reachable : Reachable port (free after_completion)
after_completion-Reachable =
    stepped done-Reachable (ran [] (removal key ∷ []) (completion key) refl done-jobs)

after_completion-jobs : after_completion.jobs ≡ [] ++ removal key ∷ []
unfolding run_job on_request_complete del_posting_request_tasks lookup key_discrete
    handle_task_completion add_posting_request_tasks Posting.init assign del ℕ_discrete
after_completion-jobs = refl

after_removal-Reachable : Reachable port (free after_removal)
after_removal-Reachable =
    stepped after_completion-Reachable (ran [] [] (removal key) refl after_completion-jobs)

after_removal-jobs : after_removal.jobs ≡ []
unfolding run_job on_request_complete del_posting_request_tasks lookup key_discrete
    handle_task_completion add_posting_request_tasks Posting.init assign del ℕ_discrete
after_removal-jobs = refl

nothing_runs : (i : ℕ) → i < after_removal.created → after_removal.tasks i ≢ running
unfolding run_job on_request_complete del_posting_request_tasks lookup key_discrete
    handle_task_completion add_posting_request_tasks Posting.init assign del ℕ_discrete
nothing_runs i h = ground arith

Reachable-quiet_example : lookup key_discrete key after_removal.posting_request_tasks ≡ none
Reachable-quiet_example =
    Reachable-quiet port after_removal-Reachable after_removal-jobs nothing_runs key
