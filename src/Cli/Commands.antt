-- ===== src/Cli/Commands.antt =====
-- The commands run, share, download and status of src/shardnet/cli/main.py. Reading the arguments is Typer's
-- and the settings are given; what is printed is kept as its value. A command that serves ends when it is
-- interrupted while it waits.
use shard_net.Base.{
  ℕ, ℤ, pos, negsuc, nat_eq, String, Option, none, some, List, [], ◌∷◌, ◌++◌, ◌==◌, text_eq,
  if◌then◌else◌,
}
use shard_net.Errors.{Result, ok, raise, Exception, ShardNetError, transfer}
use shard_net.Exec.{Exec, ◌>>◌, pure}
use shard_net.Platform.{Platform}
use shard_net.Manifest.{FileManifest, DownloadProgress}
use shard_net.Download.Tables.{Local}
use shard_net.Download.Store.{get_progress}
use shard_net.Node.Download.{Remote, Setting, download_file}
use shard_net.Node.Lifecycle.{Lifecycle, start, stop}

pub record ClientSettings : Type 0 where
  pub bind_host : String
  pub bind_port : ℤ
  pub data_dir : String
  pub tracker_base_url : String
  pub default_chunk_size_bytes : ℤ

-- The options of a command.
pub record Options : Type 0 where
  pub peer_id : Option String
  pub host : Option String
  pub port : Option ℤ
  pub data_dir : Option String
  pub tracker_url : Option String
  pub chunk_size_bytes : Option ℤ

pub record Resolved : Type 0 where
  pub peer_id : String
  pub host : String
  pub port : ℤ
  pub data_dir : String
  pub tracker_url : String
  pub chunk_size_bytes : ℤ

-- `given or default` on texts and on integers.
abbrev pub text_or : Option String → String → String
text_or none default = default
text_or (some given) default = if given == "" then default else given

abbrev pub int_or : Option ℤ → ℤ → ℤ
int_or none default = default
int_or (some (pos given)) default = if given == 0 then default else pos given
int_or (some (negsuc k)) default = negsuc k

-- `_resolve_peer_id`; `fresh` is the name made of a new UUID.
abbrev pub resolve_peer_id : Option String → String → String
resolve_peer_id = text_or

abbrev pub resolve : ClientSettings → String → Options → Resolved
resolve settings fresh options = record {
  peer_id = resolve_peer_id options.peer_id fresh;
  host = text_or options.host settings.bind_host;
  port = int_or options.port settings.bind_port;
  data_dir = text_or options.data_dir settings.data_dir;
  tracker_url = text_or options.tracker_url settings.tracker_base_url;
  chunk_size_bytes = int_or options.chunk_size_bytes settings.default_chunk_size_bytes;
}

-- What surrounds a command: where partial files go, what the network answers, and what starting the server
-- and registering with the tracker give, for the resolved options.
pub record Surroundings : Type 0 where
  pub platform : Platform
  pub now : ℕ
  pub partials_dir : String → String
  pub remote : Resolved → Remote
  pub bound : Resolved → Result (Unit {0})
  pub registered : Resolved → Result (Unit {0})

abbrev pub peer_node : Surroundings → Resolved → Setting
peer_node around r = record {
  platform = around.platform;
  partials_dir = around.partials_dir r.data_dir;
  peer_id = r.peer_id;
  remote = around.remote r;
  now = around.now;
}

-- A node that a command has made, and the stores behind it.
pub record Process (W : Type 0) : Type 0 where
  pub node : Lifecycle
  pub world : W

module _ {W : Type 0} {A : Type 0} where
  abbrev pub on_node : Exec Lifecycle A → Exec (Process W) A
  on_node act p = let (r, n) = act p.node in (r, record p { node = n })

  abbrev pub on_world : Exec W A → Exec (Process W) A
  on_world act p = let (r, w) = act p.world in (r, record p { world = w })

  -- `try: … finally: await node.stop()`.
  abbrev pub finally_stop : Exec (Process W) A → Exec (Process W) A
  unfolding stop
  finally_stop body p = let (r, q) = body p in (r, record q { node = (stop q.node).1 })

-- `await node.start()` and the block behind it.
unfoldable pub with_node :
    {W A : Type 0} → Result (Unit {0}) → Result (Unit {0}) → Exec W A → Exec (Process W) A
with_node bound registered body = do on_node (start bound registered); finally_stop (on_world body)

-- How a command ends that catches a TransferError: with a text, with exit code 1, or with an exception.
pub data Outcome (A : Type 0) : Type 0 where
  printed : A → Outcome A
  exited : ShardNetError → Outcome A
  propagated : Exception → Outcome A

abbrev pub outcome : {A : Type 0} → Result A → Outcome A
outcome (ok a) = printed a
outcome (raise (transfer e)) = exited e
outcome (raise e) = propagated e

unfoldable pub client_download :
    Surroundings
    → Resolved
    → String
    → String
    → Option ℤ
    → Process Local
    → Outcome DownloadProgress × Process Local
unfolding with_node
client_download around r info_hash target_path max_chunks p =
    let (result, p') =
      with_node (around.bound r) (around.registered r)
        (download_file (peer_node around r) info_hash target_path max_chunks) p in
    (outcome result, p')

unfoldable pub client_status : Platform → String → Local → Outcome DownloadProgress × Local
client_status platform info_hash s =
    let (result, s') = get_progress platform info_hash s in (outcome result, s')

-- The files that have been shared, in order, and the stores.
pub record Sharing (W : Type 0) : Type 0 where
  pub announced : List FileManifest
  pub stores : W

module _ {W : Type 0} where
  -- The echo behind a file that was shared, and the stores either way.
  abbrev pub echoed : List FileManifest → Result FileManifest × W → Result (Unit {0}) × Sharing W
  echoed before (ok m, w) = (ok tt, record { announced = before ++ (m ∷ []); stores = w })
  echoed before (raise e, w) = (raise e, record { announced = before; stores = w })

  abbrev pub share_one : (String → Exec W FileManifest) → String → Exec (Sharing W) (Unit {0})
  share_one share_file file_path s = echoed s.announced (share_file file_path s.stores)

  unfoldable pub share_each :
      (String → Exec W FileManifest) → List String → Exec (Sharing W) (Unit {0})
  share_each share_file [] = pure tt
  share_each share_file (file_path ∷ files) = do
    share_one share_file file_path
    share_each share_file files

  -- `share_file` is what the node's method does, in the resolved chunk size.
  unfoldable pub client_run :
      Surroundings
      → Resolved
      → (String → Exec W FileManifest)
      → List String
      → Exec (Process (Sharing W)) (Unit {0})
  unfolding with_node share_each
  client_run around r share_file files =
      with_node (around.bound r) (around.registered r) (share_each share_file files)

  unfoldable pub client_share :
      Surroundings
      → Resolved
      → (String → Exec W FileManifest)
      → String
      → Exec (Process (Sharing W)) (Unit {0})
  unfolding with_node
  client_share around r share_file file_path =
      with_node (around.bound r) (around.registered r) (share_one share_file file_path)
