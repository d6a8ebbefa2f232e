-- ===== src/Node/Download.antt =====
-- `download_file` and `_select_peer_for_chunk` of src/shardnet/client/core/node.py, with the answers of
-- src/shardnet/tracker/schemas.py. A call without `progress_callback`, whose code is the caller's.
use shard_net.Base.{
  ℕ, suc, ℤ, pos, negsuc, String, Bool, true, false, Option, none, some, List, [], ◌∷◌, any, ◌==◌,
  nat_eq, text_eq, leb, if◌then◌else◌,
}
use shard_net.Json.{str, int, field, end}
use shard_net.Errors.{Result, Exception}
use shard_net.Api.Schemas.{SwarmPeerResponse, SwarmResponse}
use shard_net.Platform.{Platform, Bytes}
use shard_net.Manifest.{FileManifest, ManifestFields, validate, DownloadProgress}
use shard_net.Download.Tables.{Action}
use shard_net.Exec.{◌>>=◌, ◌>>◌, pure, lift, or_throw}
use shard_net.Download.Store.{
  transfer_error, create_or_resume_download, write_chunk, get_progress, finalize_download,
}

-- What the node reaches over the network, whatever stands at the other end: the tracker client's
-- answers, and those of the peer client, which may differ from one call of a download to the next.
pub record Remote : Type 0 where
  pub get_swarm : String → Result SwarmResponse
  pub announce_file : FileManifest → List ℕ → Result (Unit {0})
  pub request_chunk :
      (call : ℕ) (host : String) (port : ℤ) (info_hash : String) (chunk_index : ℕ) → Result Bytes

-- The time, the identity and the surroundings of a node.
pub record Setting : Type 0 where
  pub platform : Platform
  pub partials_dir : String
  pub peer_id : String
  pub remote : Remote
  pub now : ℕ

abbrev pub is_index : ℕ → ℤ → Bool
is_index i (pos j) = i == j
is_index i (negsuc j) = false

-- `chunk_index in peer.available_chunks`.
abbrev pub has_chunk : ℕ → SwarmPeerResponse → Bool
has_chunk chunk_index peer = any (is_index chunk_index) peer.available_chunks

unfoldable pub select_peer_for_chunk :
    List SwarmPeerResponse → ℕ → String → Option SwarmPeerResponse
select_peer_for_chunk [] chunk_index local_peer_id = none
select_peer_for_chunk (peer ∷ peers) chunk_index local_peer_id =
    let later = select_peer_for_chunk peers chunk_index local_peer_id in
    if peer.peer_id == local_peer_id
    then later
    else if has_chunk chunk_index peer
    then some peer
    else later

abbrev pub chunk_unavailable : ℕ → String → Exception
chunk_unavailable chunk_index info_hash =
    transfer_error "chunk_unavailable" "No available peer can serve the requested chunk."
      (field "chunk_index" (int (pos chunk_index)) (field "info_hash" (str info_hash) end))

-- `max_chunks is not None and completed_this_call >= max_chunks`.
abbrev pub is_enough : Option ℤ → ℕ → Bool
is_enough none k = false
is_enough (some (pos n)) k = leb n k
is_enough (some (negsuc n)) k = true

-- One round of the loop: a chunk is fetched and written.
unfoldable pub fetch_chunk :
    Setting → String → List SwarmPeerResponse → FileManifest → ℕ → ℕ → Action (Unit {0})
fetch_chunk node info_hash peers m chunk_index call = do
  peer ←
      or_throw (select_peer_for_chunk peers chunk_index node.peer_id)
        (chunk_unavailable chunk_index info_hash)
  chunk_data ← lift (node.remote.request_chunk call peer.host peer.port info_hash chunk_index)
  write_chunk node.platform node.now m (pos chunk_index) chunk_data

-- The loop over the chunks that are missing; `call` is `completed_this_call`.
unfoldable pub fetch_chunks :
    Setting
    → String
    → List SwarmPeerResponse
    → FileManifest
    → Option ℤ
    → List ℕ
    → ℕ
    → Action (Unit {0})
unfolding fetch_chunk
fetch_chunks node info_hash peers m max_chunks [] call = pure tt
fetch_chunks node info_hash peers m max_chunks (chunk_index ∷ missing) call = do
  fetch_chunk node info_hash peers m chunk_index call
  let rest = fetch_chunks node info_hash peers m max_chunks missing (suc call)
  if is_enough max_chunks (suc call) then pure tt else rest

-- The arguments of `FileManifest(...)`.
abbrev pub swarm_manifest : SwarmResponse → ManifestFields
swarm_manifest swarm = record {
  info_hash = swarm.info_hash;
  file_name = swarm.file_name;
  file_size_bytes = swarm.file_size_bytes;
  chunk_size_bytes = swarm.chunk_size_bytes;
  total_chunks = swarm.total_chunks;
  file_sha256 = swarm.file_sha256;
  chunk_sha256 = swarm.chunk_sha256;
}

-- `if not current.missing_chunks:` and what follows it.
unfoldable pub finish_download : Setting → String → DownloadProgress → Action DownloadProgress
finish_download node info_hash current = elim current.missing_chunks [
  | [] ↦ do finalize_download node.platform node.now info_hash; get_progress node.platform info_hash
  | _ ∷ _ ↦ pure current
]

-- The part of `download_file` behind the making of the manifest.
unfoldable pub download_manifest :
    Setting
    → String
    → String
    → Option ℤ
    → List SwarmPeerResponse
    → FileManifest
    → Action DownloadProgress
unfolding fetch_chunks finish_download
download_manifest node info_hash target_path max_chunks peers m = do
  progress ← create_or_resume_download node.platform node.partials_dir node.now m target_path
  fetch_chunks node info_hash peers m max_chunks progress.missing_chunks 0
  current ← get_progress node.platform info_hash
  lift (node.remote.announce_file m current.completed_chunks)
  finish_download node info_hash current

unfoldable pub download_file : Setting → String → String → Option ℤ → Action DownloadProgress
unfolding download_manifest
download_file node info_hash target_path max_chunks = do
  swarm ← lift (node.remote.get_swarm info_hash)
  m ← lift (validate node.platform (swarm_manifest swarm))
  download_manifest node info_hash target_path max_chunks swarm.peers m
