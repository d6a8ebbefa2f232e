-- ===== src/Cli/Ends.antt =====
-- How the commands of src/shardnet/cli/main.py end.
use shard_net.Base.{
  inl, inr, suc, length, length-append, ◌+◌, ◌<◌, ℕ, String, false, none, some, List, [], ◌∷◌, ◌≡◌,
  refl, any, arith,
}
use shard_net.Base.Rows.{find_row}
use shard_net.Errors.{Result, ok, raise, Exception, Result-cases}
use shard_net.Exec.{Exec}
use shard_net.Disk.{read_file}
use shard_net.Platform.{Bytes}
use shard_net.Manifest.{FileManifest, validate, DownloadProgress}
use shard_net.Manifest.Chunking.{Describes}
use shard_net.Download.Tables.{Local, is_download, is_chunk}
use shard_net.Api.Schemas.{SwarmResponse}
use shard_net.Node.Download.{swarm_manifest, download_file}
use shard_net.Node.Honest.{IsHonest}
use shard_net.Node.Completed.{download_file-IsHonest}
use shard_net.Node.Lifecycle.{Lifecycle, new_node, start, stop}
use shard_net.Cli.Commands.{
  Resolved, Surroundings, peer_node, with_node, printed, client_download, Sharing, echoed,
  share_one, share_each, client_run,
}

abbrev pub closed_node : Lifecycle
closed_node = record { running = false; listening = false; heartbeats = false; client_open = false }

-- A block with a node that starts leaves what it does alone, and the node closed, also if it raises.
with_node_lem :
    {W A : Type 0} (bound registered : Result (Unit {0})) (body : Exec W A) (w : W)
    → bound ≡ ok tt
    → registered ≡ ok tt
    → with_node bound registered body (record { node = new_node; world = w })
      ≡ ((body w).0, record { node = closed_node; world = (body w).1 })
unfolding with_node start stop
with_node_lem bound registered body w b r = rw (b, r) refl

-- If the server can be bound and the tracker takes the registration, and if the tracker's answer makes a
-- manifest that describes a file, every chunk of it is offered by another peer, the peer that is asked hands
-- out the chunk, the tracker takes the announcement, and the store knows nothing of the download, then the
-- command without --max-chunks prints a progress with no chunk missing, the file is at its target, and the node is closed.
pub client_download-IsHonest :
    (around : Surroundings) (r : Resolved) (m : FileManifest) (original : Bytes) (target : String)
    (swarm : SwarmResponse) (s : Local)
    → around.bound r ≡ ok tt
    → around.registered r ≡ ok tt
    → (around.remote r).get_swarm m.info_hash ≡ ok swarm
    → validate around.platform (swarm_manifest swarm) ≡ ok m
    → Describes around.platform original m
    → IsHonest (peer_node around r) m original swarm.peers
    → ((cs : List ℕ) → (around.remote r).announce_file m cs ≡ ok tt)
    → find_row (is_download m.info_hash) s.downloads ≡ none
    → ((k : ℕ) → any (is_chunk m.info_hash k) s.download_chunks ≡ false)
    → (p : DownloadProgress) × (s' : Local) × (client_download around r m.info_hash target none
          (record { node = new_node; world = s })
        ≡ (printed p, record { node = closed_node; world = s' }))
      × (p.missing_chunks ≡ [])
      × (read_file target s'.disk ≡ some original)
unfolding client_download
client_download-IsHonest around r m original target swarm s b reg asked made d honest told absent
      none_yet =
    let (p, s', e, none_missing, file) =
      download_file-IsHonest (peer_node around r) m original target swarm s asked made d honest told
        absent none_yet in
    (
      p,
      s',
      ground (
        arith,
        e,
        with_node_lem (around.bound r) (around.registered r)
            (download_file (peer_node around r) m.info_hash target none) s b reg,
      ),
      none_missing,
      file,
    )

module _ {W : Type 0} (share_file : String → Exec W FileManifest) where
  length-echoed :
      (before : List FileManifest) (r : Result FileManifest × W)
      → ((echoed before r).0 ≡ ok tt → length (echoed before r).1.announced ≡ suc (length before))
        × ((e : Exception) → (echoed before r).0 ≡ raise e → (echoed before r).1.announced ≡ before)
  length-echoed before (ok m, w) =
      (λ h. omega (arith, length-append before (m ∷ [])), λ e h. absurd (ground (arith, h)))
  length-echoed before (raise x, w) = (λ h. absurd (ground (arith, h)), λ e h. refl)

  -- How far the sharing of files gets.
  record Shared (files : List String) (s s' : Sharing W) (result : Result (Unit {0})) : Type 0 where
    all_of_them : result ≡ ok tt → length s'.announced ≡ length s.announced + length files
    some_of_them :
        (e : Exception) → result ≡ raise e → length s'.announced < length s.announced + length files

  share_each_lem :
      (files : List String) (s : Sharing W)
      → Shared files s (share_each share_file files s).1 (share_each share_file files s).0
  unfolding share_each
  share_each_lem [] s = record {
    all_of_them = λ h. omega arith;
    some_of_them = λ e h. absurd (ground (arith, h));
  }
  share_each_lem (f ∷ files) s =
      let r = share_one share_file f s in
      let counted = length-echoed s.announced (share_file f s.stores) in
      let rest = share_each_lem files r.1 in
      elim (Result-cases r.0) [
        | inl (t, e) ↦ record {
          all_of_them = λ h. grind (arith, e, counted, rest.all_of_them, h);
          some_of_them = λ x h. grind (arith, e, counted, rest.some_of_them, h);
        }
        | inr (x, e) ↦ record {
          all_of_them = λ h. absurd (ground (arith, e, h));
          some_of_them = λ y h. grind (arith, e, counted);
        }
      ]

-- If the server can be bound and the tracker takes the registration, then however the sharing of the files
-- goes, the run ends with the node closed; if nothing is raised, as many manifests have been announced as
-- there are files, and if an error is raised, fewer.
pub client_run_lem :
    {W : Type 0} (around : Surroundings) (r : Resolved) (share_file : String → Exec W FileManifest)
    (files : List String) (w : W)
    → around.bound r ≡ ok tt
    → around.registered r ≡ ok tt
    → let ended =
        client_run around r share_file files
          (record { node = new_node; world = record { announced = []; stores = w } }) in
      (ended.1.node ≡ closed_node)
      × (ended.0 ≡ ok tt → length ended.1.world.announced ≡ length files)
      × ((e : Exception) → ended.0 ≡ raise e → length ended.1.world.announced < length files)
unfolding client_run
client_run_lem around r share_file files w b reg =
    let begin : Sharing _ = record { announced = []; stores = w } in
    let shared = share_each_lem share_file files begin in
    rw
      (with_node_lem (around.bound r) (around.registered r) (share_each share_file files) begin b
        reg)
      (
        refl,
        λ h. omega (arith, shared.all_of_them h),
        λ e h. omega (arith, shared.some_of_them e h),
      )
