-- ===== src/Tests/Cli.antt =====
-- The download command over the peers of Tests/Node, and a run whose second file cannot be shared.
use shard_net.Base.{
  ℕ, suc, pos, String, none, some, List, [], ◌∷◌, ◌<◌, ◌≡◌, refl, ◌==◌, text_eq, length,
  if◌then◌else◌,
}
use shard_net.Errors.{Result, ok, raise, Exception, os_error}
use shard_net.Exec.{Exec}
use shard_net.Disk.{read_file}
use shard_net.Manifest.{FileManifest, DownloadProgress}
use shard_net.Download.Tables.{Local}
use shard_net.Node.Lifecycle.{new_node}
use shard_net.Cli.Commands.{
  ClientSettings, Options, Resolved, resolve, Surroundings, Process, Sharing, printed,
  client_download, client_run,
}
use shard_net.Cli.Ends.{closed_node, client_download-IsHonest, client_run_lem}
use shard_net.Tests.Toy.{toy, tune, tune_bytes, tune_validates, tune-Describes, even_hash}
use shard_net.Tests.Node.{honest, swarm, node-IsHonest}
use shard_net.Tests.Download.{nothing}

abbrev settings : ClientSettings
settings = record {
  bind_host = "0.0.0.0";
  bind_port = pos 9000;
  data_dir = "./data/client";
  tracker_base_url = "http://127.0.0.1:8000";
  default_chunk_size_bytes = pos 262144;
}

-- An option that is zero or empty counts as not given.
abbrev options : Options
options = record {
  peer_id = some "bob";
  host = some "";
  port = some (pos 0);
  data_dir = none;
  tracker_url = none;
  chunk_size_bytes = some (pos 2);
}

abbrev resolved : Resolved
resolved = resolve settings "peer-00000000" options

resolves : resolved ≡ (record {
  peer_id = "bob";
  host = "0.0.0.0";
  port = pos 9000;
  data_dir = "./data/client";
  tracker_url = "http://127.0.0.1:8000";
  chunk_size_bytes = pos 2;
})
resolves = refl

abbrev around : Surroundings
around = record {
  platform = toy;
  now = 10;
  partials_dir = λ data_dir. "partials";
  remote = λ r. honest;
  bound = λ r. ok tt;
  registered = λ r. ok tt;
}

client_download-IsHonest_example :
    (p : DownloadProgress) × (s' : Local) × (client_download around resolved even_hash
        "out/tune.bin" none
        (record { node = new_node; world = nothing })
      ≡ (printed p, record { node = closed_node; world = s' }))
    × (p.missing_chunks ≡ [])
    × (read_file "out/tune.bin" s'.disk ≡ some tune_bytes)
client_download-IsHonest_example =
    client_download-IsHonest around resolved tune tune_bytes "out/tune.bin" swarm nothing refl refl
      refl tune_validates tune-Describes node-IsHonest (λ cs. refl) refl (λ k. refl)

abbrev share_file : String → Exec ℕ FileManifest
share_file file_path k = if file_path == "lost" then (raise os_error, k) else (ok tune, suc k)

abbrev files : List String
files = "in/tune.bin" ∷ "lost" ∷ []

abbrev ended : Result (Unit {0}) × Process (Sharing ℕ)
ended =
    client_run around resolved share_file files
      (record { node = new_node; world = record { announced = []; stores = 0 } })

client_run_lem_example :
    (ended.1.node ≡ closed_node)
    × (ended.0 ≡ ok tt → length ended.1.world.announced ≡ 2)
    × ((e : Exception) → ended.0 ≡ raise e → length ended.1.world.announced < 2)
client_run_lem_example = client_run_lem around resolved share_file files 0 refl refl
