-- ===== src/Agent/Sound.antt =====
-- What holds of the agent whenever no coroutine is between two of its waits
-- (src/shardnet/client/agent/service.py).
use shard_net.Base.{
  ℕ, String, Bool, false, Option, none, some, any, All, ◌==◌, ◌≡◌, refl, ap, text_eq, arith,
}
use shard_net.Base.Rows.Laws.{
  UniqueBy, All-append, All-update_where, append_new-UniqueBy, update_where-UniqueBy,
}
use shard_net.Errors.{Result, ok, raise}
use shard_net.Exec.{◌>>◌, Keeps, >>=-Keeps, gets}
use shard_net.Manifest.{DownloadProgress}
use shard_net.Agent.Runtime.{
  StartNodeRequest, Session, NodeInfoResponse, not_running, running_node, StartDownloadRequest,
  DownloadJob, Stage, created, looking, downloading, succeeded, failing, leaving, gone, JobRun,
  AgentRuntime, stop_session, stop_node_locked, stop_node, stop_old, begin_session, session_of,
  start_node, is_run,
}
use shard_net.Agent.Jobs.{
  new_job, enqueue, Wake, entered, progressed, returned, raised, cancelled, advance, advance_run,
  resume, clear_tasks, Step, node_starts, node_stops, download_starts, job_goes_on, shutdown_begins,
  Steps, here, further,
}

pub data IsQueued (job : DownloadJob) : Type 0 where
  queued_job : job.status ≡ "queued" → job.progress ≡ none → job.error ≡ none → IsQueued job

pub data IsRunning (job : DownloadJob) : Type 0 where
  running_job : job.status ≡ "running" → job.error ≡ none → IsRunning job

-- How a job may end: with its last progress, with a text of its error, or cut off.
pub data IsEnded (job : DownloadJob) : Type 0 where
  completed_job :
      (p : DownloadProgress)
      → job.status ≡ "completed"
      → job.progress ≡ some p
      → job.error ≡ none
      → IsEnded job
  failed_job : (e : String) → job.status ≡ "failed" → job.error ≡ some e → IsEnded job
  cut_off : IsRunning job → IsEnded job
  never_begun : IsQueued job → IsEnded job

-- What a job says, by the place of its coroutine.
abbrev pub IsSound : Stage → DownloadJob → Type 0
IsSound created job = IsQueued job
IsSound leaving job = IsEnded job
IsSound gone job = IsEnded job
IsSound _ job = IsRunning job

abbrev pub IsSoundRun : JobRun → Type 0
IsSoundRun run = IsSound run.stage run.job

abbrev same_job : JobRun → JobRun → Bool
same_job a b = a.job.job_id == b.job.job_id

-- What the runtime says of the node.
abbrev pub Describes : Option Session → NodeInfoResponse → Type 0
Describes none info = info ≡ not_running
Describes (some node) info = info ≡ running_node node

pub record IsConsistent (r : AgentRuntime) : Type 0 where
  pub unique : UniqueBy same_job r.jobs
  pub sound : All IsSoundRun r.jobs
  pub node : Describes r.node r.node_info

advance-IsSound :
    (now : ℕ) (session : Option Session) (wake : Wake) (stage : Stage) (job : DownloadJob)
    → IsSound stage job
    → IsSound (advance now session wake stage job).1 (advance now session wake stage job).0
unfolding advance
advance-IsSound now session entered created job (queued_job s p e) = running_job refl e
advance-IsSound now none entered looking job h = cut_off h
advance-IsSound now (some node) entered looking job h = h
advance-IsSound now session (progressed p) (downloading n) job (running_job s e) = running_job s e
advance-IsSound now session (returned p) (downloading n) job h = h
advance-IsSound now session (raised x) (downloading n) job h = h
advance-IsSound now session entered (succeeded p) job (running_job s e) =
    completed_job p refl refl e
advance-IsSound now session entered (failing x) job h = failed_job x refl refl
advance-IsSound now session entered leaving job h = h
advance-IsSound now session cancelled created job h = never_begun h
advance-IsSound now session cancelled looking job h = cut_off h
advance-IsSound now session cancelled (downloading n) job h = cut_off h
advance-IsSound now session cancelled (succeeded p) job h = cut_off h
advance-IsSound now session cancelled (failing x) job h = cut_off h
advance-IsSound now session cancelled leaving job h = h
advance-IsSound now session wake stage job h = h

pub advance-job_id :
    (now : ℕ) (session : Option Session) (wake : Wake) (run : JobRun)
    → (advance_run now session wake run).job.job_id ≡ run.job.job_id
unfolding advance_run advance
advance-job_id now session wake run = ground arith

-- The jobs, with the states of the coroutines, after one of them has gone on.
resume-IsConsistent :
    (now : ℕ) (job_id : String) (wake : Wake) (r : AgentRuntime)
    → IsConsistent r
    → IsConsistent (resume now job_id wake r)
unfolding resume advance_run
resume-IsConsistent now job_id wake r h = record {
  unique =
      update_where-UniqueBy same_job (is_run job_id) (advance_run now r.node wake) r.jobs
        (λ a b. ap (λ (k : String). a.job.job_id == k) (advance-job_id now r.node wake b))
        (λ a b. ap (λ (k : String). k == b.job.job_id) (advance-job_id now r.node wake a)) h.unique;
  sound =
      All-update_where IsSoundRun (is_run job_id) (advance_run now r.node wake) r.jobs
        (λ run at s. advance-IsSound now r.node wake run.stage run.job s) h.sound;
  node = h.node;
}

enqueue-IsConsistent :
    (now : ℕ) (job_id : String) (request : StartDownloadRequest) (r : AgentRuntime)
    → any (is_run job_id) r.jobs ≡ false
    → IsConsistent r
    → IsConsistent (enqueue now job_id request r).1
unfolding enqueue
enqueue-IsConsistent now job_id request r new h = record {
  unique =
      append_new-UniqueBy same_job (is_run job_id)
        (record { job = new_job now job_id request; request = request; stage = created }) r.jobs
        (λ a. refl) new h.unique;
  sound = All-append IsSoundRun r.jobs _ h.sound (queued_job refl refl refl, tt);
  node = h.node;
}

-- A change of the node alone.
with_node-IsConsistent :
    (r : AgentRuntime) (session : Option Session) (info : NodeInfoResponse)
    → Describes session info
    → IsConsistent r
    → IsConsistent (record r { node = session; node_info = info })
with_node-IsConsistent r session info d h = record { unique = h.unique; sound = h.sound; node = d }

stop_session-IsConsistent :
    (session : Option Session) (stopped : Result (Unit {0})) (r : AgentRuntime)
    → IsConsistent r
    → IsConsistent (stop_session session stopped r).1
stop_session-IsConsistent none stopped r h = with_node-IsConsistent r none not_running refl h
stop_session-IsConsistent (some n) (raise e) r h = h
stop_session-IsConsistent (some n) (ok tt) r h = with_node-IsConsistent r none not_running refl h

stop_node-IsConsistent : (stopped : Result (Unit {0})) → Keeps IsConsistent (stop_node stopped)
unfolding stop_node stop_node_locked
stop_node-IsConsistent stopped =
    >>=-Keeps IsConsistent (stop_node_locked stopped) _
      (λ r h. stop_session-IsConsistent r.node stopped r h) (λ done r h. h)

stop_old-IsConsistent :
    (old : Option Session) (stopped : Result (Unit {0})) → Keeps IsConsistent (stop_old old stopped)
unfolding stop_node_locked
stop_old-IsConsistent none stopped r h = h
stop_old-IsConsistent (some n) stopped r h = stop_session-IsConsistent r.node stopped r h

begin_session-IsConsistent :
    (request : StartNodeRequest) (fresh : String) (started : Result ℕ)
    → Keeps IsConsistent (begin_session request fresh started)
begin_session-IsConsistent request fresh (raise e) r h = h
begin_session-IsConsistent request fresh (ok port) r h =
    with_node-IsConsistent r (some (session_of request fresh port)) _ refl h

start_node-IsConsistent :
    (request : StartNodeRequest) (fresh : String) (stopped : Result (Unit {0})) (started : Result ℕ)
    → Keeps IsConsistent (start_node request fresh stopped started)
unfolding start_node
start_node-IsConsistent request fresh stopped started =
    >>=-Keeps IsConsistent (gets (λ r. r.node))
      (λ old. stop_old old stopped >> begin_session request fresh started) (λ r h. h)
      (λ old.
        >>=-Keeps IsConsistent (stop_old old stopped) (λ done. begin_session request fresh started)
          (stop_old-IsConsistent old stopped)
          (λ done. begin_session-IsConsistent request fresh started))

Step-IsConsistent : {r s : AgentRuntime} → Step r s → IsConsistent r → IsConsistent s
unfolding clear_tasks
Step-IsConsistent (node_starts request fresh stopped started r) h =
    start_node-IsConsistent request fresh stopped started r h
Step-IsConsistent (node_stops stopped r) h = stop_node-IsConsistent stopped r h
Step-IsConsistent (download_starts now job_id request r new) h =
    enqueue-IsConsistent now job_id request r new h
Step-IsConsistent (job_goes_on now job_id wake r allowed) h =
    resume-IsConsistent now job_id wake r h
Step-IsConsistent (shutdown_begins r) h = record {
  unique = h.unique;
  sound = h.sound;
  node = h.node;
}

-- From a consistent state on, whatever the agent is asked for, and however its coroutines take turns: no two jobs have one identifier,
-- the answer about the node agrees with the node that is there, and what a job says agrees with the place
-- of its coroutine: it is queued until that begins, then running without an error, and at its end completed
-- with its progress, failed with an error, or cut off.
pub Steps-IsConsistent : {r s : AgentRuntime} → Steps r s → IsConsistent r → IsConsistent s
Steps-IsConsistent (here r) h = h
Steps-IsConsistent (further r s t steps step) h =
    Step-IsConsistent step (Steps-IsConsistent steps h)
