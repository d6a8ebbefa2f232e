-- ===== src/Agent/Endpoints.antt =====
-- The HTTP endpoints of src/shardnet/client/agent/main.py over the runtime: how its errors are translated.
use shard_net.Base.{ℕ, String, Option, none, some}
use shard_net.Errors.{
  ShardNetError, Exception, configuration, protocol, transfer, peer_not_found,
  file_metadata_conflict, info_hash_not_found, Result, ok, raise, to_dict,
}
use shard_net.Exec.{◌>>=◌, lift}
use shard_net.Manifest.{FileManifest}
use shard_net.Api.Schemas.{SwarmResponse}
use shard_net.Api.Routes.{Handled, returned, http_exception, escaped}
use shard_net.Agent.Runtime.{
  StartNodeRequest, Session, NodeInfoResponse, StartDownloadRequest, AgentRuntime,
  ShareFileResponse, DownloadJobResponse, require_node, start_node, share_file, get_download_job,
}
use shard_net.Agent.Jobs.{start_download}

-- `except ShardNetError`.
abbrev pub shard_net_error : Exception → Option ShardNetError
shard_net_error (configuration e) = some e
shard_net_error (protocol e) = some e
shard_net_error (transfer e) = some e
shard_net_error (peer_not_found e) = some e
shard_net_error (file_metadata_conflict e) = some e
shard_net_error (info_hash_not_found e) = some e
shard_net_error _ = none

abbrev pub translate_error : {A : Type 0} → ℕ → Exception → Option ShardNetError → Handled A
translate_error status_code e none = escaped e
translate_error status_code e (some error) = http_exception status_code (to_dict error)

-- A `try` block around a call of the runtime.
abbrev pub translated : {A : Type 0} → ℕ → Result A × AgentRuntime → Handled A × AgentRuntime
translated status_code (ok a, r) = (returned a, r)
translated status_code (raise e, r) = (translate_error status_code e (shard_net_error e), r)

abbrev pub post_node_start :
    StartNodeRequest
    → String
    → Result (Unit {0})
    → Result ℕ
    → AgentRuntime
    → Handled NodeInfoResponse × AgentRuntime
post_node_start request fresh stopped started r =
    translated 400 (start_node request fresh stopped started r)

-- What the node's `share_file` gives is a parameter, as in the runtime.
abbrev pub post_share :
    (Session → String → ℕ → Result FileManifest)
    → ℕ
    → String
    → Option ℕ
    → AgentRuntime
    → Handled ShareFileResponse × AgentRuntime
post_share node_share default file_path chunk_size_bytes r =
    translated 400 (share_file node_share default file_path chunk_size_bytes r)

abbrev pub post_downloads :
    ℕ → String → StartDownloadRequest → AgentRuntime → Handled DownloadJobResponse × AgentRuntime
post_downloads now job_id request r = translated 400 (start_download now job_id request r)

abbrev pub get_download : String → AgentRuntime → Handled DownloadJobResponse × AgentRuntime
get_download job_id r = translated 404 (get_download_job job_id r)

-- `runtime.get_swarm`: the answer of the node's tracker client is given.
abbrev pub get_swarm_of :
    (Session → String → Result SwarmResponse)
    → String
    → AgentRuntime
    → Handled SwarmResponse × AgentRuntime
get_swarm_of node_swarm info_hash r =
    translated 400 ((require_node >>= λ node. lift (node_swarm node info_hash)) r)
