-- ===== src/Node/Delivered.antt =====
-- A whole call of `download_file` (src/shardnet/client/core/node.py): what it delivers, whoever answers.
use shard_net.Base.{
  ℤ, String, Option, some, List, [], ◌∷◌, ◌≡◌, ◌⊎◌, refl, ap, ◌∙◌, sym, subst, arith, inl, inr,
}
use shard_net.Errors.{Result, ok}
use shard_net.Platform.{Platform, Bytes}
use shard_net.Disk.{read_file}
use shard_net.Manifest.{FileManifest, validate, DownloadProgress}
use shard_net.Manifest.Shape.{IsManifest, validate-IsManifest}
use shard_net.Manifest.Chunking.{Describes}
use shard_net.Download.Tables.{Local}
use shard_net.Exec.{after_ok, ◌>>◌, lift}
use shard_net.Download.Store.{create_or_resume_download, get_progress, finalize_download}
use shard_net.Download.Intact.{IsIntact}
use shard_net.Download.Finish.{IsForgery, finalize_download-IsFinished, finalize_download-Describes}
use shard_net.Api.Schemas.{SwarmPeerResponse, SwarmResponse}
use shard_net.Node.Download.{
  Setting, swarm_manifest, fetch_chunks, finish_download, download_manifest, download_file,
}
use shard_net.Node.Resumable.{fetch_chunks-IsIntact, fetch_chunks-Keeps}
use shard_net.Node.Target.{
  HasTarget, write_chunk-HasTarget, get_progress_same, IsReady, IsReady-begun,
}

List-cases : {A : Type 0} (xs : List A) → (xs ≡ []) ⊎ ((y : A) × (ys : List A) × (xs ≡ y ∷ ys))
List-cases [] = inl refl
List-cases (y ∷ ys) = inr (y, ys, refl)

-- What stands at a path: the file itself, or other bytes with its digest.
pub HasFile : Platform → Bytes → String → Local → Type 0
HasFile platform original path s =
    (delivered : Bytes) × (read_file path s.disk ≡ some delivered)
    × ((delivered ≡ original) ⊎ IsForgery platform original delivered)

module _ (node : Setting) (m : FileManifest) (original : Bytes) (target : String) where
  finalized :
      (s s' : Local) (progress : DownloadProgress)
      → IsManifest node.platform m
      → Describes node.platform original m
      → IsIntact node.platform m s
      → HasTarget m.info_hash target s
      → (finalize_download node.platform node.now m.info_hash
            >> get_progress node.platform m.info_hash)
          s
        ≡ (ok progress, s')
      → HasFile node.platform original target s'
  unfolding HasTarget HasFile
  finalized s s' progress valid d intact (row, found, at) e =
      let (path, s3, finished, reported) =
        after_ok (finalize_download node.platform node.now m.info_hash s)
          (λ _. get_progress node.platform m.info_hash) {b = progress} {s' = s'} e in
      let same : s' ≡ s3 =
        get_progress_same node.platform m.info_hash s3 {p = progress} {s' = s'} reported in
      let (delivered, there, which) =
        finalize_download-Describes node.platform node.now m original s path s3 valid d intact
          finished in
      let here : path ≡ target =
        (finalize_download-IsFinished node.platform node.now m s path s3 valid intact finished).0
        ∙ ground (arith, found, intact.found, at) in
      (
        delivered,
        ap (λ (t : Local). read_file target t.disk) same
            ∙ ap (λ q. read_file q s3.disk) (sym here)
            ∙ there,
        which,
      )

  finish_download-HasFile :
      (current progress : DownloadProgress) (s s' : Local)
      → IsManifest node.platform m
      → Describes node.platform original m
      → IsIntact node.platform m s
      → HasTarget m.info_hash target s
      → finish_download node m.info_hash current s ≡ (ok progress, s')
      → progress.missing_chunks ≡ []
      → HasFile node.platform original target s'
  unfolding finish_download
  finish_download-HasFile current progress s s' valid d intact aimed e none_missing =
      elim (List-cases current.missing_chunks) [
        | inl done ↦ finalized s s' progress valid d intact aimed (ground (arith, done, e))
        | inr (k, ks, some_missing) ↦ absurd (ground (arith, some_missing, e, none_missing))
      ]

  download_manifest-HasFile :
      (max_chunks : Option ℤ) (peers : List SwarmPeerResponse) (progress : DownloadProgress)
      (s s' : Local)
      → IsManifest node.platform m
      → Describes node.platform original m
      → IsReady node.platform node.partials_dir m s
      → download_manifest node m.info_hash target max_chunks peers m s ≡ (ok progress, s')
      → progress.missing_chunks ≡ []
      → HasFile node.platform original target s'
  unfolding download_manifest
  download_manifest-HasFile max_chunks peers progress s s' valid d ready e none_missing =
      let (p0, s1, begun, e1) =
        after_ok (create_or_resume_download node.platform node.partials_dir node.now m target s) _
          {b = progress} {s' = s'} e in
      let (intact1, aimed1) =
        IsReady-begun node.platform node.partials_dir node.now m target s s1 p0 valid ready begun in
      let loop = fetch_chunks node m.info_hash peers m max_chunks p0.missing_chunks 0 in
      let (done, s2, fetched, e2) = after_ok (loop s1) _ {b = progress} {s' = s'} e1 in
      let at2 : (loop s1).1 ≡ s2 = ap (λ (q : Result (Unit {0}) × Local). q.1) fetched in
      let intact2 : IsIntact node.platform m s2 = subst (IsIntact node.platform m) at2 (
        fetch_chunks-IsIntact node m valid m.info_hash peers max_chunks p0.missing_chunks 0 s1
          intact1) in
      let aimed2 : HasTarget m.info_hash target s2 = subst (HasTarget m.info_hash target) at2 (
        fetch_chunks-Keeps node m (HasTarget m.info_hash target)
          (write_chunk-HasTarget node m target) m.info_hash peers max_chunks p0.missing_chunks 0 s1
          aimed1) in
      let (current, s3, reported, e3) =
        after_ok (get_progress node.platform m.info_hash s2) _ {b = progress} {s' = s'} e2 in
      let same : s3 ≡ s2 =
        get_progress_same node.platform m.info_hash s2 {p = current} {s' = s3} reported in
      let (told, s4, announced, e4) =
        after_ok (lift (node.remote.announce_file m current.completed_chunks) s3) _ {b = progress}
          {s' = s'} e3 in
      let back : s2 ≡ s4 = sym same ∙ ap (λ (q : Result (Unit {0}) × Local). q.1) announced in
      finish_download-HasFile current progress s4 s' valid d
        (subst (IsIntact node.platform m) back intact2)
        (subst (HasTarget m.info_hash target) back aimed2) e4 none_missing

  -- Whatever the peers answer: if the tracker's answer makes a manifest that describes a file, and the
  -- store knows nothing of the download or has it as an interruption left it, then a call that returns
  -- with no chunk missing has put that file at the target, byte for byte, or else other bytes of the same
  -- length with the same SHA-256 digest.
  pub download_file-HasFile :
      (max_chunks : Option ℤ) (swarm : SwarmResponse) (progress : DownloadProgress) (s s' : Local)
      → node.remote.get_swarm m.info_hash ≡ ok swarm
      → validate node.platform (swarm_manifest swarm) ≡ ok m
      → Describes node.platform original m
      → IsReady node.platform node.partials_dir m s
      → download_file node m.info_hash target max_chunks s ≡ (ok progress, s')
      → progress.missing_chunks ≡ []
      → HasFile node.platform original target s'
  unfolding download_file
  download_file-HasFile max_chunks swarm progress s s' asked made d ready e none_missing =
      download_manifest-HasFile max_chunks swarm.peers progress s s'
        (validate-IsManifest node.platform (swarm_manifest swarm) {m = m} made) d ready
        (ground (arith, asked, made, e)) none_missing
