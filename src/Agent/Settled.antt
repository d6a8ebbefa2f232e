-- ===== src/Agent/Settled.antt =====
-- Jobs of src/shardnet/client/agent/service.py that do not change any more: those that have ended, and those
-- whose coroutine is gone.
use shard_net.Base.{
  ℕ, String, Bool, true, false, Option, none, some, List, [], ◌∷◌, All, ◌||◌, ◌==◌, ◌≡◌, refl, ap,
  ◌∙◌, subst, text_eq, arith, Bool-cases, inl, inr,
}
use shard_net.Base.Rows.{find_row}
use shard_net.Base.Rows.Laws.{find_row-update_where, find_row-append, find_row-holds}
use shard_net.Errors.{Result, ok, raise}
use shard_net.Exec.{◌>>◌, Keeps, >>=-Keeps, gets}
use shard_net.Agent.Runtime.{
  StartNodeRequest, Session, StartDownloadRequest, DownloadJob, Stage, created, looking, leaving,
  gone, JobRun, AgentRuntime, stop_session, stop_node_locked, stop_node, stop_old, begin_session,
  start_node, is_run,
}
use shard_net.Agent.Jobs.{
  enqueue, Wake, entered, advance, advance_run, resume, clear_tasks, Step, node_starts, node_stops,
  download_starts, job_goes_on, shutdown_begins, Steps, here, further,
}
use shard_net.Agent.Sound.{
  queued_job, IsRunning, running_job, IsSound, IsSoundRun, IsConsistent, advance-job_id,
}

abbrev pub is_settled : Stage → Bool
is_settled leaving = true
is_settled gone = true
is_settled _ = false

-- The job `job_id` is there, as `job`, and its coroutine will not touch it again.
pub record Settled (job_id : String) (job : DownloadJob) (r : AgentRuntime) : Type 0 where
  pub run : JobRun
  pub found : find_row (is_run job_id) r.jobs ≡ some run
  pub same : run.job ≡ job
  pub settled : is_settled run.stage ≡ true

advance_settled :
    (now : ℕ) (session : Option Session) (wake : Wake) (run : JobRun)
    → is_settled run.stage ≡ true
    → ((advance_run now session wake run).job ≡ run.job)
      × (is_settled (advance_run now session wake run).stage ≡ true)
unfolding advance_run advance
advance_settled now session wake run h = ground (arith, h)

module _ (job_id : String) (job : DownloadJob) where
  jobs_only : (r s : AgentRuntime) → s.jobs ≡ r.jobs → Settled job_id job r → Settled job_id job s
  jobs_only r s e h = record {
    run = h.run;
    found = ap (find_row (is_run job_id)) e ∙ h.found;
    same = h.same;
    settled = h.settled;
  }

  resume-Settled :
      (now : ℕ) (other : String) (wake : Wake) (r : AgentRuntime)
      → Settled job_id job r
      → Settled job_id job (resume now other wake r)
  unfolding resume
  resume-Settled now other wake r h =
      let found =
        find_row-update_where (is_run job_id) (is_run other) (advance_run now r.node wake) r.jobs
          {r = h.run} (λ run. ap (λ (k : String). k == job_id) (advance-job_id now r.node wake run))
          h.found in
      let (kept, still) = advance_settled now r.node wake h.run h.settled in
      elim (Bool-cases (is_run other h.run)) [
        | inl mine ↦ record {
          run = advance_run now r.node wake h.run;
          found = found ∙ rw mine refl;
          same = kept ∙ h.same;
          settled = still;
        }
        | inr others ↦ record {
          run = h.run;
          found = found ∙ rw others refl;
          same = h.same;
          settled = h.settled;
        }
      ]

  enqueue-Settled :
      (now : ℕ) (other : String) (request : StartDownloadRequest) (r : AgentRuntime)
      → Settled job_id job r
      → Settled job_id job (enqueue now other request r).1
  unfolding enqueue
  enqueue-Settled now other request r h = record {
    run = h.run;
    found = find_row-append (is_run job_id) r.jobs _ {r = h.run} h.found;
    same = h.same;
    settled = h.settled;
  }

  stop_session_jobs :
      (session : Option Session) (stopped : Result (Unit {0})) (r : AgentRuntime)
      → (stop_session session stopped r).1.jobs ≡ r.jobs
  stop_session_jobs none stopped r = refl
  stop_session_jobs (some n) (raise e) r = refl
  stop_session_jobs (some n) (ok tt) r = refl

  stop_session-Settled :
      (session : Option Session) (stopped : Result (Unit {0}))
      → Keeps (Settled job_id job) (stop_session session stopped)
  stop_session-Settled session stopped r h = jobs_only r _ (stop_session_jobs session stopped r) h

  stop_node-Settled : (stopped : Result (Unit {0})) → Keeps (Settled job_id job) (stop_node stopped)
  unfolding stop_node stop_node_locked
  stop_node-Settled stopped =
      >>=-Keeps (Settled job_id job) (stop_node_locked stopped) (λ done. gets (λ r. r.node_info))
        (λ r h. stop_session-Settled r.node stopped r h) (λ done r h. h)

  stop_old-Settled :
      (old : Option Session) (stopped : Result (Unit {0}))
      → Keeps (Settled job_id job) (stop_old old stopped)
  unfolding stop_node_locked
  stop_old-Settled none stopped r h = h
  stop_old-Settled (some n) stopped r h = stop_session-Settled r.node stopped r h

  begin_session-Settled :
      (request : StartNodeRequest) (fresh : String) (started : Result ℕ)
      → Keeps (Settled job_id job) (begin_session request fresh started)
  begin_session-Settled request fresh (raise e) r h = h
  begin_session-Settled request fresh (ok port) r h = jobs_only r _ refl h

  start_node-Settled :
      (request : StartNodeRequest) (fresh : String) (stopped : Result (Unit {0}))
      (started : Result ℕ)
      → Keeps (Settled job_id job) (start_node request fresh stopped started)
  unfolding start_node
  start_node-Settled request fresh stopped started =
      >>=-Keeps (Settled job_id job) (gets (λ r. r.node))
        (λ old. stop_old old stopped >> begin_session request fresh started) (λ r h. h)
        (λ old.
          >>=-Keeps (Settled job_id job) (stop_old old stopped)
            (λ done. begin_session request fresh started) (stop_old-Settled old stopped)
            (λ done. begin_session-Settled request fresh started))

  Step-Settled : {r s : AgentRuntime} → Step r s → Settled job_id job r → Settled job_id job s
  unfolding clear_tasks
  Step-Settled (node_starts request fresh stopped started r) h =
      start_node-Settled request fresh stopped started r h
  Step-Settled (node_stops stopped r) h = stop_node-Settled stopped r h
  Step-Settled (download_starts now other request r new) h = enqueue-Settled now other request r h
  Step-Settled (job_goes_on now other wake r allowed) h = resume-Settled now other wake r h
  Step-Settled (shutdown_begins r) h = jobs_only r _ refl h

  Steps-Settled : {r s : AgentRuntime} → Steps r s → Settled job_id job r → Settled job_id job s
  Steps-Settled (here r) h = h
  Steps-Settled (further r s t steps step) h = Step-Settled step (Steps-Settled steps h)

find_row-All :
    (P : JobRun → Type 0) (at : JobRun → Bool) (runs : List JobRun) {run : JobRun}
    → find_row at runs ≡ some run
    → All P runs
    → P run
find_row-All P at [] e h = absurd (ground (arith, e))
find_row-All P at (first ∷ runs) {run} e h = elim (Bool-cases (at first)) [
  | inl y ↦ subst P (ground (arith, y, e)) h.0
  | inr n ↦ find_row-All P at runs {run = run} (ground (arith, n, e)) h.1
]

-- The statuses that a job ends with.
abbrev pub is_over : String → Bool
is_over status = status == "completed" || status == "failed"

running_not_over : (job : DownloadJob) → IsRunning job → is_over job.status ≡ false
running_not_over job (running_job s e) = ap is_over s

IsSound-settled :
    (stage : Stage) (job : DownloadJob)
    → IsSound stage job
    → is_over job.status ≡ true
    → is_settled stage ≡ true
IsSound-settled created job (queued_job s p x) e = absurd (ground (arith, e, ap is_over s))
IsSound-settled leaving job h e = refl
IsSound-settled gone job h e = refl
IsSound-settled _ job h e = absurd (ground (arith, e, running_not_over job h))

nobody_found :
    (now : ℕ) (session : Option Session) (run : JobRun)
    → run.stage ≡ looking
    → session ≡ none
    → ((advance_run now session entered run).job ≡ run.job)
      × ((advance_run now session entered run).stage ≡ gone)
unfolding advance_run advance
nobody_found now session run at nobody = ground (arith, at, nobody)

module _ (job_id : String) (r s : AgentRuntime) (h : IsConsistent r) (run : JobRun)
    (found : find_row (is_run job_id) r.jobs ≡ some run) where
  -- A job that is completed or failed in a consistent state stays as it is, with all its fields, whatever the
  -- agent does next.
  pub Steps-is_over :
      is_over run.job.status ≡ true
      → Steps r s
      → (later : JobRun) × (find_row (is_run job_id) s.jobs ≡ some later) × (later.job ≡ run.job)
  Steps-is_over e steps =
      let sound = find_row-All IsSoundRun (is_run job_id) r.jobs {run = run} found h.sound in
      let kept = Steps-Settled job_id run.job steps (record {
        run = run;
        found = found;
        same = refl;
        settled = IsSound-settled run.stage run.job sound e;
      }) in
      (kept.run, kept.found, kept.same)

  -- If, in a consistent state without a node, the coroutine of a job has set it to running and goes on to ask
  -- for the node, then the status of the job is running, and stays so whatever the agent does next.
  pub resume-looking :
      (now : ℕ)
      → run.stage ≡ looking
      → r.node ≡ none
      → Steps (resume now job_id entered r) s
      → (later : JobRun) × (find_row (is_run job_id) s.jobs ≡ some later)
        × (later.job.status ≡ "running")
  unfolding resume
  resume-looking now at nobody steps =
      let next = advance_run now r.node entered run in
      let (same, over) = nobody_found now r.node run at nobody in
      let row =
        find_row-update_where (is_run job_id) (is_run job_id) (advance_run now r.node entered)
          r.jobs {r = run}
          (λ q. ap (λ (k : String). k == job_id) (advance-job_id now r.node entered q)) found in
      let kept = Steps-Settled job_id run.job steps (record {
        run = next;
        found = row ∙ rw (find_row-holds (is_run job_id) r.jobs {r = run} found) refl;
        same = same;
        settled = ap is_settled over;
      }) in
      (
        kept.run,
        kept.found,
        ap (λ (j : DownloadJob). j.status) kept.same
            ∙ status_of (
                subst (λ st. IsSound st run.job) at
                  (find_row-All IsSoundRun (is_run job_id) r.jobs {run = run} found h.sound)),
      )
    where
      status_of : IsRunning run.job → run.job.status ≡ "running"
      status_of (running_job e x) = e
