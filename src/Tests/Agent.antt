-- ===== src/Tests/Agent.antt =====
-- Lives of download jobs in the agent.
use shard_net.Base.{none, some, [], ◌∷◌, text_eq, ◌≡◌, refl}
use shard_net.Base.Rows.{find_row}
use shard_net.Errors.{ok}
use shard_net.Manifest.{DownloadProgress, completed}
use shard_net.Agent.Runtime.{
  StartNodeRequest, StartDownloadRequest, JobRun, looking, leaving, AgentRuntime, new_runtime,
  require_node, stop_node_locked, stop_node, start_node, is_run, serialize_job, get_download_job,
}
use shard_net.Agent.Jobs.{
  new_job, enqueue, entered, returned, complete_job, advance, advance_run, resume, Steps, here,
  further, node_starts, node_stops, download_starts, job_goes_on, set_status,
}
use shard_net.Agent.Sound.{IsConsistent, Steps-IsConsistent}
use shard_net.Agent.Settled.{Steps-is_over, resume-looking}

program : Unit {0}
unfolding start_node stop_node stop_node_locked require_node enqueue serialize_job resume
    advance_run advance get_download_job
program = tt

abbrev request : StartDownloadRequest
request = record { info_hash = "h1"; target_path = "out/tune.bin"; max_chunks = none }

abbrev done : DownloadProgress
done = record {
  info_hash = "h1";
  total_chunks = 1;
  completed_chunks = 0 ∷ [];
  missing_chunks = [];
  status = completed;
}

abbrev node_request : StartNodeRequest
node_request = record {
  peer_id = some "alice";
  host = "0.0.0.0";
  port = 9000;
  data_dir = "data";
  tracker_url = "http://tracker";
}

abbrev with_node : AgentRuntime
with_node = (start_node node_request "peer-1" (ok tt) (ok 9000) new_runtime).1

abbrev asked : AgentRuntime
asked = (enqueue 10 "j1" request with_node).1

abbrev begun : AgentRuntime
begun = resume 11 "j1" entered asked

abbrev fetching : AgentRuntime
fetching = resume 12 "j1" entered begun

abbrev fetched : AgentRuntime
fetched = resume 20 "j1" (returned done) fetching

abbrev finished : AgentRuntime
finished = resume 21 "j1" entered fetched

new_runtime-IsConsistent : IsConsistent new_runtime
new_runtime-IsConsistent = record { unique = tt; sound = tt; node = refl }

up_to_begun : Steps new_runtime begun
unfolding program
up_to_begun =
    further _ _ _
      (further _ _ _
        (further _ _ _ (here new_runtime)
          (node_starts node_request "peer-1" (ok tt) (ok 9000) new_runtime))
        (download_starts 10 "j1" request with_node refl))
      (job_goes_on 11 "j1" entered asked (λ e. cc))

up_to_finished : Steps new_runtime finished
up_to_finished =
    further _ _ _
      (further _ _ _ (further _ _ _ up_to_begun (job_goes_on 12 "j1" entered begun (λ e. cc)))
        (job_goes_on 20 "j1" (returned done) fetching (λ e. cc)))
      (job_goes_on 21 "j1" entered fetched (λ e. cc))

Steps-IsConsistent_example : IsConsistent finished
Steps-IsConsistent_example = Steps-IsConsistent up_to_finished new_runtime-IsConsistent

abbrev finished_run : JobRun
finished_run = record {
  job = complete_job 21 done (set_status 11 "running" (new_job 10 "j1" request));
  request = request;
  stage = leaving;
}

Steps-is_over_example :
    (later : JobRun) × (find_row (is_run "j1") (resume 30 "j1" entered finished).jobs ≡ some later)
    × (later.job ≡ finished_run.job)
unfolding program
Steps-is_over_example =
    Steps-is_over "j1" finished (resume 30 "j1" entered finished) Steps-IsConsistent_example
      finished_run refl refl
      (further _ _ _ (here finished) (job_goes_on 30 "j1" entered finished (λ e. cc)))

-- The node stops before the job has asked for it.
abbrev late : AgentRuntime
late = (stop_node (ok tt) begun).1

late-IsConsistent : IsConsistent late
late-IsConsistent =
    Steps-IsConsistent (further _ _ _ up_to_begun (node_stops (ok tt) begun))
      new_runtime-IsConsistent

abbrev late_run : JobRun
late_run = record {
  job = set_status 11 "running" (new_job 10 "j1" request);
  request = request;
  stage = looking;
}

resume-looking_example :
    (later : JobRun) × (find_row (is_run "j1") (resume 12 "j1" entered late).jobs ≡ some later)
    × (later.job.status ≡ "running")
unfolding program
resume-looking_example =
    resume-looking "j1" late (resume 12 "j1" entered late) late-IsConsistent late_run refl 12 refl
      refl (here (resume 12 "j1" entered late))
