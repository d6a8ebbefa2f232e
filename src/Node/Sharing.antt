-- ===== src/Node/Sharing.antt =====
-- `share_file` of src/shardnet/client/core/node.py: a file is registered and announced. The state of the
-- connection to the tracker is a parameter.
use shard_net.Base.{ℕ, ℤ, pos, String, Option, none, some, map, nat_eq, text_eq}
use shard_net.Base.SortedSet.{range}
use shard_net.Errors.{Result, ok, raise}
use shard_net.Manifest.{FileManifest}
use shard_net.Share.Store.{Shares, register_file}
use shard_net.Api.Schemas.{AnnounceFileResponse}
use shard_net.Api.Client.{TrackerClient, announce_file}

-- What the announcement of a registered file comes to.
abbrev pub announced :
    {S : Type 0}
    → FileManifest
    → Shares
    → Result AnnounceFileResponse × S
    → Option (Result FileManifest) × Shares × S
announced m shares (ok answer, s) = (some (ok m), shares, s)
announced m shares (raise e, s) = (some (raise e), shares, s)

-- `await self._tracker_client.announce_file(…)` behind the registration.
abbrev pub announce_registered :
    {S : Type 0}
    → TrackerClient S
    → String
    → Option (Result FileManifest) × Shares
    → S
    → Option (Result FileManifest) × Shares × S
announce_registered client peer_id (none, shares) s = (none, shares, s)
announce_registered client peer_id (some (raise e), shares) s = (some (raise e), shares, s)
announce_registered client peer_id (some (ok m), shares) s =
    announced m shares (announce_file client peer_id m (map pos (range m.total_chunks)) s)

unfoldable pub share_file :
    {S : Type 0}
    → TrackerClient S
    → ℕ
    → String
    → String
    → ℤ
    → Shares
    → S
    → Option (Result FileManifest) × Shares × S
share_file client now peer_id file_path chunk_size_bytes shares s =
    announce_registered client peer_id
      (register_file client.platform now file_path chunk_size_bytes shares) s
