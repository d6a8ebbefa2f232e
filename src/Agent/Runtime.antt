-- ===== src/Agent/Runtime.antt =====
-- The state of `AgentRuntime` in src/shardnet/client/agent/service.py, and the parts of its methods that
-- run under the lock. What a node does when it is started or stopped is given as its result.
use shard_net.Base.{
  ℕ, zero, suc, String, Bool, Option, none, some, List, [], ◌∷◌, map, ◌==◌, text_eq, ◌||◌, leb,
  if◌then◌else◌,
}
use shard_net.Base.Rows.{find_row}
use shard_net.Json.{str, field, end}
use shard_net.Errors.{Result, ok, raise, Exception, transfer}
use shard_net.Exec.{Exec, ◌>>=◌, ◌>>◌, pure, lift, throw, gets, modify, or_throw}
use shard_net.Manifest.{FileManifest, DownloadProgress}

pub record StartNodeRequest : Type 0 where
  pub peer_id : Option String
  pub host : String
  pub port : ℕ
  pub data_dir : String
  pub tracker_url : String

-- The node as the runtime knows it: `node.port` is known once it has started.
pub record Session : Type 0 where
  pub peer_id : String
  pub host : String
  pub port : ℕ
  pub data_dir : String
  pub tracker_url : String

pub data NodeInfoResponse : Type 0 where
  not_running : NodeInfoResponse
  running_node : Session → NodeInfoResponse

pub record StartDownloadRequest : Type 0 where
  pub info_hash : String
  pub target_path : String
  pub max_chunks : Option ℕ

pub record DownloadJob : Type 0 where
  pub job_id : String
  pub info_hash : String
  pub target_path : String
  pub status : String
  pub progress : Option DownloadProgress
  pub error : Option String
  pub created_at : ℕ
  pub updated_at : ℕ

-- Where the coroutine `_run_download_job` of a job stands: not begun; before it asks for the node; in
-- `download_file`; behind it, with its result or its error; in the `finally`; at its end.
pub data Stage : Type 0 where
  created : Stage
  looking : Stage
  downloading : Session → Stage
  succeeded : DownloadProgress → Stage
  failing : String → Stage
  leaving : Stage
  gone : Stage

-- An entry of `_jobs`, with the coroutine that was made for it.
pub record JobRun : Type 0 where
  pub job : DownloadJob
  pub request : StartDownloadRequest
  pub stage : Stage

-- `job_tasks` are the keys of `_job_tasks`.
pub record AgentRuntime : Type 0 where
  pub node : Option Session
  pub node_info : NodeInfoResponse
  pub jobs : List JobRun
  pub job_tasks : List String

abbrev pub new_runtime : AgentRuntime
new_runtime = record { node = none; node_info = not_running; jobs = []; job_tasks = [] }

abbrev pub Agent : Type 0 → Type 0
Agent A = Exec AgentRuntime A

abbrev pub node_not_running : Exception
node_not_running =
    transfer
      (record { code = "node_not_running"; message = "Client node is not running."; context = end })

abbrev pub job_not_found : String → Exception
job_not_found job_id = transfer (record {
  code = "job_not_found";
  message = "Download job was not found.";
  context = field "job_id" (str job_id) end;
})

unfoldable pub require_node : Agent Session
require_node = do node ← gets (λ r. r.node); or_throw node node_not_running

-- Behind the node's own `stop`, if there is one.
abbrev pub forget_node : AgentRuntime → AgentRuntime
forget_node r = record r { node = none; node_info = not_running }

abbrev pub stop_session : Option Session → Result (Unit {0}) → Agent (Unit {0})
stop_session none stopped = modify forget_node
stop_session (some node) (raise e) = throw e
stop_session (some node) (ok tt) = modify forget_node

-- `_stop_node_locked`; `stopped` is what `node.stop()` gives.
unfoldable pub stop_node_locked : Result (Unit {0}) → Agent (Unit {0})
stop_node_locked stopped r = stop_session r.node stopped r

unfoldable pub stop_node : Result (Unit {0}) → Agent NodeInfoResponse
unfolding stop_node_locked
stop_node stopped = do stop_node_locked stopped; gets (λ r. r.node_info)

abbrev pub get_node_info : Agent NodeInfoResponse
get_node_info = gets (λ r. r.node_info)

-- `request.peer_id or f"peer-{…}"`: the empty text counts as none.
abbrev pub resolved_peer_id : Option String → String → String
resolved_peer_id none fresh = fresh
resolved_peer_id (some peer_id) fresh = if peer_id == "" then fresh else peer_id

abbrev pub session_of : StartNodeRequest → String → ℕ → Session
session_of request fresh port = record {
  peer_id = resolved_peer_id request.peer_id fresh;
  host = request.host;
  port = port;
  data_dir = request.data_dir;
  tracker_url = request.tracker_url;
}

abbrev pub stop_old : Option Session → Result (Unit {0}) → Agent (Unit {0})
stop_old none stopped = pure tt
stop_old (some node) stopped = stop_node_locked stopped

abbrev pub install : Session → Agent NodeInfoResponse
install node r =
    (ok (running_node node), record r { node = some node; node_info = running_node node })

-- `started` is what `node.start()` gives, with the port.
abbrev pub begin_session : StartNodeRequest → String → Result ℕ → Agent NodeInfoResponse
begin_session request fresh (raise e) = throw e
begin_session request fresh (ok port) = install (session_of request fresh port)

unfoldable pub start_node :
    StartNodeRequest → String → Result (Unit {0}) → Result ℕ → Agent NodeInfoResponse
unfolding stop_node_locked
start_node request fresh stopped started = do
  old ← gets (λ r. r.node)
  stop_old old stopped
  begin_session request fresh started

-- `request.chunk_size_bytes or default_chunk_size_bytes`, and the call of the node, which is given.
pub record ShareFileResponse : Type 0 where
  pub info_hash : String
  pub file_name : String
  pub total_chunks : ℕ

abbrev pub chunk_size_or : Option ℕ → ℕ → ℕ
chunk_size_or none default = default
chunk_size_or (some zero) default = default
chunk_size_or (some (suc n)) default = suc n

abbrev pub share_response : FileManifest → ShareFileResponse
share_response m = record {
  info_hash = m.info_hash;
  file_name = m.file_name;
  total_chunks = m.total_chunks;
}

unfoldable pub share_file :
    (Session → String → ℕ → Result FileManifest) → ℕ → String → Option ℕ → Agent ShareFileResponse
unfolding require_node
share_file node_share default_chunk_size_bytes file_path chunk_size_bytes = do
  node ← require_node
  manifest ←
      lift (node_share node file_path (chunk_size_or chunk_size_bytes default_chunk_size_bytes))
  pure (share_response manifest)

pub record DownloadJobResponse : Type 0 where
  pub job_id : String
  pub info_hash : String
  pub target_path : String
  pub status : String
  pub progress : Option DownloadProgress
  pub error : Option String

abbrev pub is_known_status : String → Bool
is_known_status status =
    status == "queued" || (status == "running" || (status == "completed" || status == "failed"))

unfoldable pub serialize_job : DownloadJob → DownloadJobResponse
serialize_job job = record {
  job_id = job.job_id;
  info_hash = job.info_hash;
  target_path = job.target_path;
  status = if is_known_status job.status then job.status else "failed";
  progress = job.progress;
  error = job.error;
}

abbrev pub is_run : String → JobRun → Bool
is_run job_id run = run.job.job_id == job_id

unfoldable pub get_download_job : String → Agent DownloadJobResponse
unfolding serialize_job
get_download_job job_id = do
  found ← gets (λ r. find_row (is_run job_id) r.jobs)
  run ← or_throw found (job_not_found job_id)
  pure (serialize_job run.job)

-- `sorted(…, key=created_at, reverse=True)` keeps the order of equal keys.
unfoldable pub insert_job : DownloadJob → List DownloadJob → List DownloadJob
insert_job job [] = job ∷ []
insert_job job (other ∷ jobs) =
    if leb other.created_at job.created_at then job ∷ other ∷ jobs else other ∷ insert_job job jobs

unfoldable pub newest_first : List DownloadJob → List DownloadJob
unfolding insert_job
newest_first [] = []
newest_first (job ∷ jobs) = insert_job job (newest_first jobs)

unfoldable pub list_download_jobs : Agent (List DownloadJobResponse)
unfolding newest_first serialize_job
list_download_jobs = gets (λ r. map serialize_job (newest_first (map (λ run. run.job) r.jobs)))
