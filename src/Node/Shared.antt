-- ===== src/Node/Shared.antt =====
-- A file that one node shares and another one downloads (src/shardnet/client/core/node.py): the tracker and
-- the share store of the first node stand at the other end of the second one's requests.
use shard_net.Base.{
  ℕ, pos, String, true, not, none, some, List, [], false, ◌-◌, ◌<◌, ◌≡◌, ◌≢◌, ap, ◌∙◌, sym, subst,
  any, ◌&&◌, nat_eq, text_eq, length,
}
use shard_net.Base.Rows.{find_row}
use shard_net.Json.{Json}
use shard_net.Errors.{ok}
use shard_net.Platform.{Bytes}
use shard_net.Disk.{read_file}
use shard_net.Manifest.{FileManifest, text_within, validate, DownloadProgress}
use shard_net.Manifest.Chunking.{slice, Describes}
use shard_net.Share.Store.{Shares, read_chunk}
use shard_net.Tracker.Tables.{Database, is_peer}
use shard_net.Tracker.Store.{is_stale}
use shard_net.Tracker.Store.Invariant.{IsValid}
use shard_net.Download.Tables.{Local, is_download, is_chunk}
use shard_net.Api.Schemas.{SwarmPeerResponse}
use shard_net.Api.Routes.{Web, Tracker}
use shard_net.Api.Client.{get_swarm}
use shard_net.Api.Relayed.{connected}
use shard_net.Node.Download.{Setting, swarm_manifest, download_file}
use shard_net.Node.Sharing.{share_file}
use shard_net.Node.Honest.{IsHonest}
use shard_net.Node.Completed.{download_file-IsHonest}
use shard_net.Node.Found.{shared_size, share_file-get_swarm}

-- What stands behind the requests of a node: it asks the tracker with these tables at that time, its peers
-- hand out what the share store hands out, and the tracker takes its announcement of the manifest.
pub record Reaches (web : Web) (to_text : Json → String) (tracker : Tracker) (later : ℕ)
    (db : Database) (shares : Shares) (m : FileManifest) (node : Setting) : Type 0 where
  pub asks :
      node.remote.get_swarm m.info_hash
      ≡ (get_swarm (connected web to_text (record tracker { now = later })) m.info_hash db).0
  pub fetches :
      (call i : ℕ) (peer : SwarmPeerResponse) (chunk : Bytes)
      → read_chunk node.platform m.info_hash (pos i) shares ≡ ok (some chunk)
      → node.remote.request_chunk call peer.host peer.port m.info_hash i ≡ ok chunk
  pub told : (cs : List ℕ) → node.remote.announce_file m cs ≡ ok tt

module _ (web : Web) (to_text : Json → String) (tracker : Tracker) (now : ℕ) (peer_id path : String)
    (content : Bytes) (n : ℕ) (shares shares' : Shares) (db db' : Database) (m : FileManifest)
    (there : read_file path shares.disk ≡ some content)
    (named : text_within 1 256 (tracker.platform.base_name path) ≡ true)
    (size_pos : 0 < length content) (n_pos : 0 < n)
    (done : share_file (connected web to_text tracker) now peer_id path (pos n) shares db
      ≡ (some (ok m), shares', db')) where
  -- If a node shares a file that is there, not empty, with a name of 1 to 256 characters, in chunks of a
  -- positive size, over HTTP with a tracker of valid tables, and the call returns the manifest `m`, then a
  -- node with another identity that asks for `m` while the tracker does not find the first one stale, and
  -- whose store knows nothing of the download, has the file at its target, byte for byte, and no chunk
  -- missing: its call without a bound on the chunks returns, if what it asks its peers for is handed out as by the first node's share
  -- store, and the tracker takes its announcement.
  pub download_file-share_file :
      (later : ℕ) (node : Setting) (target : String) (s : Local)
      → IsValid db
      → any
          (λ p. is_peer peer_id p && not (is_stale (later - tracker.heartbeat_ttl_seconds) p))
          db.peers
        ≡ true
      → peer_id ≢ node.peer_id
      → tracker.platform ≡ node.platform
      → Reaches web to_text tracker later db' shares' m node
      → find_row (is_download m.info_hash) s.downloads ≡ none
      → ((k : ℕ) → any (is_chunk m.info_hash k) s.download_chunks ≡ false)
      → (p : DownloadProgress) × (s' : Local) × (download_file node m.info_hash target none s
          ≡ (ok p, s'))
        × (p.missing_chunks ≡ [])
        × (read_file target s'.disk ≡ some content)
  unfolding IsHonest
  download_file-share_file later node target s v live other same r absent none_yet =
      let (d, (swarm, got, made, serves)) =
        share_file-get_swarm web to_text tracker now peer_id path content n shares shares' db db' m
          there named size_pos n_pos done later node.peer_id v live other in
      let sized =
        shared_size web to_text tracker now peer_id path content n shares shares' db db' m there
          named size_pos n_pos done in
      download_file-IsHonest node m content target swarm s (r.asks ∙ got)
        (subst (λ q. validate q (swarm_manifest swarm) ≡ ok m) same made)
        (subst (λ q. Describes q content m) same d)
        (λ i call p.
          let ((peer, chosen), reads) = serves i p in
          (
            peer,
            chosen,
            r.fetches call i peer (slice m.chunk_size_bytes content i) (
                subst
                  (λ q.
                    read_chunk q m.info_hash (pos i) shares'
                    ≡ ok (some (slice m.chunk_size_bytes content i)))
                  same (reads ∙ ap (λ (k : ℕ). ok (some (slice k content i))) (sym sized))),
          ))
        r.told absent none_yet
