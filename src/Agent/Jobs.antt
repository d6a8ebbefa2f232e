-- ===== src/Agent/Jobs.antt =====
-- The download jobs of src/shardnet/client/agent/service.py: `start_download`, and `_run_download_job` cut
-- where it waits, which is where other coroutines run.
use shard_net.Base.{
  ℕ, String, Bool, true, false, Option, none, some, List, [], ◌∷◌, ◌++◌, any, ◌==◌, ◌≡◌, text_eq,
  if◌then◌else◌,
}
use shard_net.Base.Rows.{update_where, delete_where}
use shard_net.Errors.{Result, ok}
use shard_net.Manifest.{DownloadProgress}
use shard_net.Exec.{◌>>=◌}
use shard_net.Agent.Runtime.{
  require_node, StartNodeRequest, Session, StartDownloadRequest, DownloadJob, Stage, created,
  looking, downloading, succeeded, failing, leaving, gone, JobRun, AgentRuntime, Agent, stop_node,
  start_node, DownloadJobResponse, serialize_job, is_run,
}

abbrev pub new_job : ℕ → String → StartDownloadRequest → DownloadJob
new_job now job_id request = record {
  job_id = job_id;
  info_hash = request.info_hash;
  target_path = request.target_path;
  status = "queued";
  progress = none;
  error = none;
  created_at = now;
  updated_at = now;
}

-- The part of `start_download` behind `_require_node`; `job_id` is what `uuid4` gives.
unfoldable pub enqueue : ℕ → String → StartDownloadRequest → Agent DownloadJobResponse
unfolding serialize_job
enqueue now job_id request r =
    let job = new_job now job_id request in
    (
      ok (serialize_job job),
      record r {
        jobs = r.jobs ++ record { job = job; request = request; stage = created } ∷ [];
        job_tasks = r.job_tasks ++ job_id ∷ [];
      },
    )

abbrev pub start_download : ℕ → String → StartDownloadRequest → Agent DownloadJobResponse
start_download now job_id request = require_node >>= λ node. enqueue now job_id request

-- What a coroutine is woken with: the lock, a call of `on_progress` by the node, the end of `download_file`
-- with its result or the text of its exception, or its own cancellation.
pub data Wake : Type 0 where
  entered : Wake
  progressed : DownloadProgress → Wake
  returned : DownloadProgress → Wake
  raised : String → Wake
  cancelled : Wake

abbrev pub set_status : ℕ → String → DownloadJob → DownloadJob
set_status now status job = record job { status = status; updated_at = now }

-- `on_progress`.
abbrev pub set_progress : ℕ → DownloadProgress → DownloadJob → DownloadJob
set_progress now progress job = record job { progress = some progress; updated_at = now }

abbrev pub complete_job : ℕ → DownloadProgress → DownloadJob → DownloadJob
complete_job now progress job = record job {
  status = "completed";
  progress = some progress;
  updated_at = now;
}

abbrev pub fail_job : ℕ → String → DownloadJob → DownloadJob
fail_job now error job = record job { status = "failed"; error = some error; updated_at = now }

-- `node = await self._require_node()`: without a node the exception leaves the coroutine, since the `try`
-- begins behind it.
abbrev pub looked_up : Option Session → Stage
looked_up none = gone
looked_up (some node) = downloading node

-- The next part of the coroutine; a wake that does not fit its stage changes nothing.
unfoldable pub advance : ℕ → Option Session → Wake → Stage → DownloadJob → DownloadJob × Stage
advance now session entered created job = (set_status now "running" job, looking)
advance now session entered looking job = (job, looked_up session)
advance now session (progressed p) (downloading s) job = (set_progress now p job, downloading s)
advance now session (returned p) (downloading s) job = (job, succeeded p)
advance now session (raised error) (downloading s) job = (job, failing error)
advance now session entered (succeeded p) job = (complete_job now p job, leaving)
advance now session entered (failing error) job = (fail_job now error job, leaving)
advance now session entered leaving job = (job, gone)
advance now session cancelled created job = (job, gone)
advance now session cancelled looking job = (job, gone)
advance now session cancelled (downloading s) job = (job, leaving)
advance now session cancelled (succeeded p) job = (job, leaving)
advance now session cancelled (failing error) job = (job, leaving)
advance now session cancelled leaving job = (job, gone)
advance now session wake stage job = (job, stage)

unfoldable pub advance_run : ℕ → Option Session → Wake → JobRun → JobRun
unfolding advance
advance_run now node wake run =
    let (job, stage) = advance now node wake run.stage run.job in
    record run { job = job; stage = stage }

-- `self._job_tasks.pop(job_id, None)`, in the `finally`.
abbrev pub pops : Wake → Stage → Bool
pops entered leaving = true
pops _ _ = false

abbrev pub popped : String → Wake → List JobRun → List String → List String
popped job_id wake jobs job_tasks =
    if any (λ run. if is_run job_id run then pops wake run.stage else false) jobs
    then delete_where (λ k. k == job_id) job_tasks
    else job_tasks

-- The coroutine of `job_id` goes on.
unfoldable pub resume : ℕ → String → Wake → AgentRuntime → AgentRuntime
unfolding advance_run
resume now job_id wake r = record r {
  jobs = update_where (is_run job_id) (advance_run now r.node wake) r.jobs;
  job_tasks = popped job_id wake r.jobs r.job_tasks;
}

-- The first part of `shutdown`; the tasks it takes are woken with their cancellation, and the node is
-- stopped.
unfoldable pub clear_tasks : AgentRuntime → AgentRuntime
clear_tasks r = record r { job_tasks = [] }

-- A step of the agent: a method, or a coroutine that goes on. `start_download` has asked for the node at
-- some earlier time; `uuid4` gives a new identifier. A coroutine is cancelled by `shutdown` alone, which has
-- taken it from `_job_tasks` before.
pub data Step : AgentRuntime → AgentRuntime → Type 0 where
  node_starts :
      (request : StartNodeRequest) (fresh : String) (stopped : Result (Unit {0}))
      (started : Result ℕ) (r : AgentRuntime)
      → Step r (start_node request fresh stopped started r).1
  node_stops : (stopped : Result (Unit {0})) (r : AgentRuntime) → Step r (stop_node stopped r).1
  download_starts :
      (now : ℕ) (job_id : String) (request : StartDownloadRequest) (r : AgentRuntime)
      → any (is_run job_id) r.jobs ≡ false
      → Step r (enqueue now job_id request r).1
  job_goes_on :
      (now : ℕ) (job_id : String) (wake : Wake) (r : AgentRuntime)
      → (wake ≡ cancelled → any (λ k. k == job_id) r.job_tasks ≡ false)
      → Step r (resume now job_id wake r)
  shutdown_begins : (r : AgentRuntime) → Step r (clear_tasks r)

pub data Steps : AgentRuntime → AgentRuntime → Type 0 where
  here : (r : AgentRuntime) → Steps r r
  further : (r s t : AgentRuntime) → Steps r s → Step s t → Steps r t
