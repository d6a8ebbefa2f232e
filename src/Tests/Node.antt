-- ===== src/Tests/Node.antt =====
-- A download of a small file from one peer, in one call and in two.
use shard_net.Base.{zero, suc, pos, true, none, some, [], ◌∷◌, ◌≡◌, refl, text_eq, arith}
use shard_net.Base.SortedSet.{sorted_set}
use shard_net.Errors.{ok, raise, timeout_error}
use shard_net.Platform.{is_hash}
use shard_net.Disk.{
  read_file, write_file, remove_file, truncate, write_at, ensure_partial_file, move_file,
}
use shard_net.Manifest.{
  validate, has_chunk_shape, same_manifest, size_of_chunk, chunk_size_for_index, DownloadProgress,
  active, completed,
}
use shard_net.Manifest.Chunking.{slice}
use shard_net.Download.Tables.{Local}
use shard_net.Download.Store.{
  partial_path, chunks_with, missing_chunks, completed_chunks, get_progress, create_or_retarget,
  create_or_resume_download, write_partial, mark_complete, write_chunk_at, write_chunk,
  finalize_download,
}
use shard_net.Download.Intact.{IsIntact}
use shard_net.Api.Schemas.{SwarmPeerResponse, SwarmResponse}
use shard_net.Node.Download.{
  Remote, Setting, select_peer_for_chunk, fetch_chunk, fetch_chunks, finish_download,
  download_manifest, download_file,
}
use shard_net.Node.Resumable.{fetch_chunks-IsIntact}
use shard_net.Node.Target.{fresh}
use shard_net.Node.Honest.{IsHonest}
use shard_net.Node.Completed.{download_file-IsHonest}
use shard_net.Node.Delivered.{HasFile, download_file-HasFile}
use shard_net.Tests.Toy.{
  toy, tune, tune_bytes, tune_validates, tune-IsManifest, tune-Describes, even_hash, odd_hash,
}
use shard_net.Tests.Download.{nothing, begun, begun-IsIntact}

program : Unit {0}
unfolding validate has_chunk_shape is_hash same_manifest chunk_size_for_index size_of_chunk
    read_file write_file remove_file truncate write_at ensure_partial_file move_file sorted_set
    partial_path chunks_with missing_chunks completed_chunks get_progress create_or_retarget
    create_or_resume_download write_partial mark_complete write_chunk_at write_chunk
    finalize_download select_peer_for_chunk fetch_chunk fetch_chunks finish_download
    download_manifest download_file
program = tt

abbrev alice : SwarmPeerResponse
alice = record {
  peer_id = "alice";
  host = "10.0.0.1";
  port = pos 9000;
  available_chunks = pos 0 ∷ pos 1 ∷ pos 2 ∷ [];
  completed = true;
  last_seen_at = pos 100;
}

abbrev bob : SwarmPeerResponse
bob = record alice { peer_id = "bob"; available_chunks = [] }

abbrev pub swarm : SwarmResponse
swarm = record {
  info_hash = even_hash;
  file_name = "tune.bin";
  file_size_bytes = pos 5;
  chunk_size_bytes = pos 2;
  total_chunks = pos 3;
  file_sha256 = odd_hash;
  chunk_sha256 = odd_hash ∷ odd_hash ∷ odd_hash ∷ [];
  swarm_size = pos 2;
  seed_count = pos 1;
  peers = bob ∷ alice ∷ [];
}

-- A peer that answers, and one that fails behind the first request.
abbrev pub honest : Remote
honest = record {
  get_swarm = λ info_hash. ok swarm;
  announce_file = λ m chunks. ok tt;
  request_chunk = λ call host port info_hash chunk_index. ok (slice 2 tune_bytes chunk_index);
}

abbrev node : Setting
node = record {
  platform = toy;
  partials_dir = "partials";
  peer_id = "bob";
  remote = honest;
  now = 10;
}

abbrev failing_node : Setting
failing_node = record node {
  remote = record honest {
    request_chunk = λ call host port info_hash chunk_index. elim call [
      | zero ↦ ok (slice 2 tune_bytes chunk_index)
      | suc _ ↦ raise timeout_error
    ];
  };
}

abbrev downloaded : DownloadProgress
downloaded = record {
  info_hash = even_hash;
  total_chunks = 3;
  completed_chunks = 0 ∷ 1 ∷ 2 ∷ [];
  missing_chunks = [];
  status = completed;
}

abbrev after_download : Local
after_download = (download_file node even_hash "out/tune.bin" none nothing).1

abbrev after_failure : Local
after_failure = (download_file failing_node even_hash "out/tune.bin" none nothing).1

in_one_call : (download_file node even_hash "out/tune.bin" none nothing).0 ≡ ok downloaded
unfolding program
in_one_call = refl

one_chunk_only :
    (download_file node even_hash "out/tune.bin" (some (pos 1)) nothing).0
    ≡ ok (record downloaded {
      completed_chunks = 0 ∷ [];
      missing_chunks = 1 ∷ 2 ∷ [];
      status = active;
    })
unfolding program
one_chunk_only = refl

failure : (download_file failing_node even_hash "out/tune.bin" none nothing).0 ≡ raise timeout_error
unfolding program
failure = refl

-- The second call fetches what the failure left over.
after_a_failure : (download_file node even_hash "out/tune.bin" none after_failure).0 ≡ ok downloaded
unfolding program
after_a_failure = refl

fetch_chunks-IsIntact_example :
    IsIntact toy tune
      (fetch_chunks failing_node even_hash (bob ∷ alice ∷ []) tune none (0 ∷ 1 ∷ 2 ∷ []) 0 begun).1
fetch_chunks-IsIntact_example =
    fetch_chunks-IsIntact failing_node tune tune-IsManifest even_hash (bob ∷ alice ∷ []) none
      (0 ∷ 1 ∷ 2 ∷ []) 0 begun begun-IsIntact

download_file-HasFile_example : HasFile toy tune_bytes "out/tune.bin" after_download
unfolding program
download_file-HasFile_example =
    download_file-HasFile node tune tune_bytes "out/tune.bin" none swarm downloaded nothing
      after_download refl tune_validates tune-Describes (fresh refl (λ k. refl)) refl refl

pub node-IsHonest : IsHonest node tune tune_bytes (bob ∷ alice ∷ [])
unfolding program IsHonest
node-IsHonest zero call p = (alice, refl, refl)
node-IsHonest (suc zero) call p = (alice, refl, refl)
node-IsHonest (suc (suc zero)) call p = (alice, refl, refl)
node-IsHonest (suc (suc (suc i))) call p = absurd (omega arith)

download_file-IsHonest_example :
    (p : DownloadProgress) × (s' : Local) × (download_file node even_hash "out/tune.bin" none
        nothing
      ≡ (ok p, s'))
    × (p.missing_chunks ≡ [])
    × (read_file "out/tune.bin" s'.disk ≡ some tune_bytes)
unfolding program
download_file-IsHonest_example =
    download_file-IsHonest node tune tune_bytes "out/tune.bin" swarm nothing refl tune_validates
      tune-Describes node-IsHonest (λ cs. refl) refl (λ k. refl)
