-- ===== src/Node/Completed.antt =====
-- A download from honest peers (src/shardnet/client/core/node.py): it ends, and the file is at its target.
use shard_net.Base.{
  ℕ, String, false, none, some, List, [], ◌∷◌, ◌≡◌, refl, ap, ◌∙◌, sym, subst, ◌<◌, ◌≤◌, ◌+◌, zero,
  suc, any, All, arith, Option-cases, inl, inr,
}
use shard_net.Base.SortedSet.{contains, range, range_from}
use shard_net.Base.Rows.{find_row}
use shard_net.Errors.{Result, ok}
use shard_net.Platform.{Bytes}
use shard_net.Disk.{read_file}
use shard_net.Manifest.{FileManifest, validate, DownloadProgress}
use shard_net.Manifest.Shape.{IsManifest, validate-IsManifest}
use shard_net.Manifest.Chunking.{Describes}
use shard_net.Download.Tables.{Local, complete, pending, is_download, is_chunk}
use shard_net.Download.Store.{
  chunks_with, create_or_resume_download, create_or_retarget, get_progress, missing_chunks,
  completed_chunks,
}
use shard_net.Download.Begun.{progress_of, get_progress_of, create_or_resume_download-new}
use shard_net.Api.Schemas.{SwarmPeerResponse, SwarmResponse}
use shard_net.Node.Download.{Setting, swarm_manifest, download_manifest, download_file}
use shard_net.Node.Closing.{finalized}
use shard_net.Node.Honest.{IsFaithful, IsHonest, fetch_chunks-IsFaithful}
use shard_net.Node.Target.{HasTarget, IsReady-begun, fresh, write_chunk-HasTarget}
use shard_net.Node.Resumable.{fetch_chunks-Keeps}

nothing_contained : (xs : List ℕ) → ((k : ℕ) → contains k xs ≡ false) → xs ≡ []
nothing_contained [] h = refl
nothing_contained (x ∷ xs) h = absurd (ground (arith, h x))

range_inside : (k n total : ℕ) → k + n ≤ total → All (λ i. i < total) (range_from k n)
range_inside k zero total h = tt
range_inside k (suc n) total h = (omega (arith, h), range_inside (suc k) n total (omega (arith, h)))

module _ (node : Setting) (m : FileManifest) (original : Bytes) (target : String)
    (valid : IsManifest node.platform m) (d : Describes node.platform original m) where
  -- What `create_or_resume_download` reports is what the tables say afterwards.
  begun_lists :
      (s s1 : Local) (p : DownloadProgress)
      → create_or_resume_download node.platform node.partials_dir node.now m target s ≡ (ok p, s1)
      → (p.completed_chunks ≡ chunks_with complete m.info_hash s1.download_chunks)
        × (p.missing_chunks ≡ chunks_with pending m.info_hash s1.download_chunks)
  unfolding create_or_resume_download create_or_retarget get_progress missing_chunks
      completed_chunks
  begun_lists s s1 p e = elim (Option-cases (find_row (is_download m.info_hash) s.downloads)) [
    | inl absent ↦ ground (arith, absent, e)
    | inr (row, found) ↦ ground (arith, found, e)
  ]

  -- Where a new download stands.
  record Begun (s s1 : Local) : Type 0 where
    p : DownloadProgress
    begun :
        create_or_resume_download node.platform node.partials_dir node.now m target s ≡ (ok p, s1)
    all_missing : p.missing_chunks ≡ range m.total_chunks
    pending_chunks : chunks_with pending m.info_hash s1.download_chunks ≡ range m.total_chunks
    faithful : IsFaithful node.platform m original s1
    aimed : HasTarget m.info_hash target s1

  begin :
      (s : Local)
      → find_row (is_download m.info_hash) s.downloads ≡ none
      → ((k : ℕ) → any (is_chunk m.info_hash k) s.download_chunks ≡ false)
      → (s1 : Local) × Begun s s1
  begin s absent none_yet =
      let (s1, e, intact) =
        create_or_resume_download-new node.platform node.partials_dir node.now m target s valid
          absent none_yet in
      let (done, left) = begun_lists s s1 _ e in
      (
        s1,
        record {
          p = _;
          begun = e;
          all_missing = refl;
          pending_chunks = sym left;
          faithful = record {
            intact = intact;
            agrees = λ k c. absurd (ground (arith, c, ap (contains k) done));
          };
          aimed =
              (IsReady-begun node.platform node.partials_dir node.now m target s s1 _ valid
                (fresh absent none_yet) e).1;
        },
      )

  -- A download of a file that the store does not know yet, over honest peers and a tracker that takes the
  -- announcement.
  completes :
      (peers : List SwarmPeerResponse) (s : Local)
      → IsHonest node m original peers
      → ((cs : List ℕ) → node.remote.announce_file m cs ≡ ok tt)
      → find_row (is_download m.info_hash) s.downloads ≡ none
      → ((k : ℕ) → any (is_chunk m.info_hash k) s.download_chunks ≡ false)
      → (p : DownloadProgress) × (s' : Local) × (download_manifest node m.info_hash target none
            peers m s
          ≡ (ok p, s'))
        × (p.missing_chunks ≡ [])
        × (read_file target s'.disk ≡ some original)
  unfolding download_manifest
  completes peers s honest told absent none_yet =
      let (s1, b) = begin s absent none_yet in
      let all = range m.total_chunks in
      let (s2, e2, faithful, left) =
        fetch_chunks-IsFaithful node m original valid d peers honest all 0 s1
          (range_inside 0 m.total_chunks m.total_chunks (omega arith)) b.faithful in
      let none_missing : chunks_with pending m.info_hash s2.download_chunks ≡ [] =
        nothing_contained _ (λ k. left k ∙ ground (arith, ap (contains k) b.pending_chunks)) in
      let aimed : HasTarget m.info_hash target s2 =
        subst (HasTarget m.info_hash target) (ap (λ (q : Result (Unit {0}) × Local). q.1) e2) (
          fetch_chunks-Keeps node m (HasTarget m.info_hash target)
            (write_chunk-HasTarget node m target) m.info_hash peers none all 0 s1 b.aimed) in
      let intact = faithful.intact in
      let current = progress_of m intact.row.status s2 in
      let (p, s', e3, nothing_left, file) =
        finalized node m original target valid d s2 current faithful aimed none_missing
          none_missing in
      (
        p,
        s',
        ground (
          arith,
          b.begun,
          b.all_missing,
          e2,
          get_progress_of node.platform m intact.row s2 valid intact.found intact.manifest,
          told current.completed_chunks,
          e3,
        ),
        nothing_left,
        file,
      )

-- If the tracker's answer makes a manifest that describes a file, every chunk of it is offered by another
-- peer, the peer that is asked hands out the chunk, the tracker takes the announcement, and the store knows
-- nothing of the download, then a call without a bound on the chunks returns, with no chunk missing, and the
-- file is at the target.
pub download_file-IsHonest :
    (node : Setting) (m : FileManifest) (original : Bytes) (target : String) (swarm : SwarmResponse)
    (s : Local)
    → node.remote.get_swarm m.info_hash ≡ ok swarm
    → validate node.platform (swarm_manifest swarm) ≡ ok m
    → Describes node.platform original m
    → IsHonest node m original swarm.peers
    → ((cs : List ℕ) → node.remote.announce_file m cs ≡ ok tt)
    → find_row (is_download m.info_hash) s.downloads ≡ none
    → ((k : ℕ) → any (is_chunk m.info_hash k) s.download_chunks ≡ false)
    → (p : DownloadProgress) × (s' : Local) × (download_file node m.info_hash target none s
        ≡ (ok p, s'))
      × (p.missing_chunks ≡ [])
      × (read_file target s'.disk ≡ some original)
unfolding download_file
download_file-IsHonest node m original target swarm s asked made d honest told absent none_yet =
    let valid = validate-IsManifest node.platform (swarm_manifest swarm) {m = m} made in
    let (p, s', e, none_missing, file) =
      completes node m original target valid d swarm.peers s honest told absent none_yet in
    (p, s', ground (arith, asked, made, e), none_missing, file)
