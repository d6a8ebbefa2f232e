-- ===== src/Tests/Sharing.antt =====
-- A node that shares a file over the tracker's HTTP interface.
use shard_net.Base.{Option, none, ap, ℕ, pos, String, some, [], ◌∷◌, ◌<◌, ◌≡◌, refl, arith, eq_iff}
use shard_net.Base.SortedSet.{insert, sorted_set}
use shard_net.Json.{Json}
use shard_net.Errors.{Result, ok, raise, timeout_error}
use shard_net.Platform.{Bytes, is_hash}
use shard_net.Disk.{read_file}
use shard_net.Manifest.{DownloadProgress, validate, has_chunk_shape}
use shard_net.Manifest.Build.{
  iter_file_chunks, compute_info_hash, manifest_fields, build_file_manifest,
}
use shard_net.Manifest.Chunking.{Describes, slice}
use shard_net.Share.Store.{Shares, add_share, register_file, read_chunk}
use shard_net.Tracker.Tables.{Database, empty_database}
use shard_net.Tracker.Chunks.{normalize_chunks, parse_chunk_hashes}
use shard_net.Tracker.Store.{
  register_peer, announce_file as store_announce_file, announce_metadata, has_overflow,
  has_metadata_conflict,
}
use shard_net.Tracker.Store.Invariant.{IsValid, register_peer-IsValid}
use shard_net.Api.Schemas.{
  SwarmPeerResponse, SwarmResponse, normalize_chunk_hashes, validate_chunk_bounds,
  validate_announce,
}
use shard_net.Api.Routes.{Tracker, announce_file as on_announce_file, app}
use shard_net.Api.Client.{parse_response, announce_file, get_swarm}
use shard_net.Api.Relayed.{connected}
use shard_net.Node.Download.{swarm_manifest, select_peer_for_chunk, Setting, download_file}
use shard_net.Node.Sharing.{share_file}
use shard_net.Node.Shared.{download_file-share_file}
use shard_net.Download.Tables.{Local}
use shard_net.Node.Found.{share_file-get_swarm}
use shard_net.Tests.Toy.{toy, tune, tune_bytes, even_hash}
use shard_net.Tests.Web.{toy_web}

program : Unit {0}
unfolding validate has_chunk_shape is_hash read_file iter_file_chunks compute_info_hash
    manifest_fields build_file_manifest add_share register_file insert sorted_set register_peer
    store_announce_file announce_metadata has_overflow has_metadata_conflict normalize_chunks
    parse_chunk_hashes normalize_chunk_hashes validate_chunk_bounds validate_announce
    on_announce_file app parse_response announce_file share_file
program = tt

abbrev no_text : Json → String
no_text j = ""

abbrev tracker : Tracker
tracker = record { platform = toy; heartbeat_ttl_seconds = 60; now = 100 }

abbrev with_alice : Database
with_alice = (register_peer 90 "alice" "10.0.0.1" 9000 "0.1.0" empty_database).1

with_alice-IsValid : IsValid with_alice
with_alice-IsValid =
    register_peer-IsValid 90 "alice" "10.0.0.1" 9000 "0.1.0" empty_database (record {
      peers_unique = tt;
      files_unique = tt;
      states_unique = tt;
      hashes = tt;
      owners = tt;
      states = tt;
    })

abbrev shares : Shares
shares = record { shared_files = []; disk = ("in/tune.bin", tune_bytes) ∷ [] }

abbrev shares_after : Shares
shares_after = (register_file toy 10 "in/tune.bin" (pos 2) shares).1

abbrev tracker_after : Database
tracker_after =
    (share_file (connected toy_web no_text tracker) 10 "alice" "in/tune.bin" (pos 2) shares
      with_alice).2

share_file-get_swarm_example :
    Describes toy tune_bytes tune
    × ((swarm : SwarmResponse) × ((get_swarm
            (connected toy_web no_text (record tracker { now = 150 }))
            even_hash
            tracker_after).0
          ≡ ok swarm)
        × (validate toy (swarm_manifest swarm) ≡ ok tune)
        × ((i : ℕ)
            → i < 3
            → ((peer : SwarmPeerResponse) × (select_peer_for_chunk swarm.peers i "bob" ≡ some peer))
              × (read_chunk toy even_hash (pos i) shares_after ≡ ok (some (slice 2 tune_bytes i)))))
unfolding program
share_file-get_swarm_example =
    share_file-get_swarm toy_web no_text tracker 10 "alice" "in/tune.bin" tune_bytes 2 shares
      shares_after with_alice tracker_after tune refl refl (omega arith) (omega arith) refl 150
      "bob" with_alice-IsValid refl (λ e. absurd (ground (arith, e, eq_iff "alice" "bob")))

-- What a peer over a connection makes of the share store's answer.
abbrev handed : Result (Option Bytes) → Result Bytes
handed (ok (some chunk)) = ok chunk
handed (ok none) = raise timeout_error
handed (raise e) = raise e

abbrev bob_node : Setting
bob_node = record {
  platform = toy;
  partials_dir = "partials";
  peer_id = "bob";
  remote = record {
    get_swarm = λ info_hash.
        (get_swarm (connected toy_web no_text (record tracker { now = 150 })) info_hash
          tracker_after).0;
    announce_file = λ m chunks. ok tt;
    request_chunk =
        λ call host port info_hash i. handed (read_chunk toy info_hash (pos i) shares_after);
  };
  now = 150;
}

abbrev empty_store : Local
empty_store = record { downloads = []; download_chunks = []; disk = [] }

download_file-share_file_example :
    (p : DownloadProgress) × (s' : Local) × (download_file bob_node even_hash "out/tune.bin" none
        empty_store
      ≡ (ok p, s'))
    × (p.missing_chunks ≡ [])
    × (read_file "out/tune.bin" s'.disk ≡ some tune_bytes)
unfolding program
download_file-share_file_example =
    download_file-share_file toy_web no_text tracker 10 "alice" "in/tune.bin" tune_bytes 2 shares
      shares_after with_alice tracker_after tune refl refl (omega arith) (omega arith) refl 150
      bob_node "out/tune.bin" empty_store with_alice-IsValid refl
      (λ e. absurd (ground (arith, e, eq_iff "alice" "bob"))) refl
      (record { asks = refl; fetches = λ call i peer chunk e. ap handed e; told = λ cs. refl }) refl
      (λ k. refl)
