-- ===== src/Node/Target.antt =====
-- The target of a download (src/shardnet/client/core/node.py over download_store.py): it is set when the
-- download begins, and no write of a chunk changes it.
use shard_net.Base.{
  ℕ, pos, String, false, none, some, [], ◌∷◌, ◌++◌, ◌≡◌, refl, ap, ◌∙◌, sym, subst, any, arith,
  eq_iff,
}
use shard_net.Base.Rows.{find_row, update_where}
use shard_net.Base.Rows.Laws.{find_row-update_where, find_row-append_new, find_row-holds}
use shard_net.Errors.{Result, ok, raise}
use shard_net.Platform.{Platform, Bytes}
use shard_net.Manifest.{FileManifest, DownloadProgress}
use shard_net.Manifest.Shape.{IsManifest}
use shard_net.Exec.{Keeps}
use shard_net.Download.Tables.{DownloadRow, Local, is_download, is_chunk}
use shard_net.Download.Store.{
  partial_path, new_download, touch_download, retarget, create_or_retarget, mark_complete,
  write_partial, create_or_resume_download, write_chunk, get_progress,
}
use shard_net.Download.Writes.{write_chunk_refused, write_chunk-Accepted, written}
use shard_net.Download.Intact.{IsIntact}
use shard_net.Download.Begun.{create_or_resume_download-new}
use shard_net.Download.Resumed.{create_or_resume_download-IsIntact}
use shard_net.Node.Download.{Setting}

-- The download of `info_hash` is to end at `target`.
unfoldable pub HasTarget : String → String → Local → Type 0
HasTarget info_hash target s =
    (row : DownloadRow) × (find_row (is_download info_hash) s.downloads ≡ some row)
    × (row.target_path ≡ target)

module _ (node : Setting) (m : FileManifest) (target : String) where
  target_written :
      (i : ℕ) (chunk_data : Bytes) (row0 : DownloadRow) (s : Local)
      → HasTarget m.info_hash target s
      → HasTarget m.info_hash target (written node.now m i chunk_data row0 s)
  unfolding HasTarget mark_complete write_partial
  target_written i chunk_data row0 s (row, found, at) = (
    touch_download node.now row,
    find_row-update_where (is_download m.info_hash) (is_download m.info_hash)
          (touch_download node.now) s.downloads {r = row} (λ d. refl) found
        ∙ ground (arith, find_row-holds (is_download m.info_hash) s.downloads {r = row} found),
    at,
  )

  pub write_chunk-HasTarget :
      (i : ℕ) (chunk_data : Bytes)
      → Keeps
          (HasTarget m.info_hash target)
          (write_chunk node.platform node.now m (pos i) chunk_data)
  write_chunk-HasTarget i chunk_data s kept =
      go (write_chunk node.platform node.now m (pos i) chunk_data s) refl
    where
      go :
          (r : Result (Unit {0}) × Local)
          → write_chunk node.platform node.now m (pos i) chunk_data s ≡ r
          → HasTarget m.info_hash target r.1
      go (ok tt, s') e =
          let acc = write_chunk-Accepted node.platform node.now m chunk_data s (pos i) s' e in
          subst (HasTarget m.info_hash target) (sym acc.result)
            (target_written acc.i chunk_data acc.row s kept)
      go (raise x, s') e =
          subst (HasTarget m.info_hash target)
            (sym (write_chunk_refused node.platform node.now m chunk_data s (pos i) x s' e)) kept

pub get_progress_same :
    (platform : Platform) (info_hash : String) (s : Local) {p : DownloadProgress} {s' : Local}
    → get_progress platform info_hash s ≡ (ok p, s')
    → s' ≡ s
unfolding get_progress
get_progress_same platform info_hash s e = ground arith

module _ (platform : Platform) (partials_dir : String) (now : ℕ) (m : FileManifest)
    (target : String) (s s1 : Local) (p : DownloadProgress)
    (begun : create_or_resume_download platform partials_dir now m target s ≡ (ok p, s1)) where
  new_target :
      find_row (is_download m.info_hash) s.downloads ≡ none → HasTarget m.info_hash target s1
  unfolding create_or_resume_download create_or_retarget get_progress HasTarget
  new_target absent =
      let new = new_download now m target (partial_path partials_dir m.info_hash) in
      let rows : s1.downloads ≡ s.downloads ++ new ∷ [] = ground (arith, absent) in
      (
        new,
        ap (find_row (is_download m.info_hash)) rows
            ∙ find_row-append_new (is_download m.info_hash) s.downloads (new ∷ []) absent
            ∙ ground (arith, eq_iff m.info_hash m.info_hash),
        refl,
      )

  known_target :
      (row : DownloadRow)
      → find_row (is_download m.info_hash) s.downloads ≡ some row
      → HasTarget m.info_hash target s1
  unfolding create_or_resume_download create_or_retarget get_progress HasTarget
  known_target row found =
      let rows : s1.downloads
          ≡ update_where (is_download m.info_hash) (retarget now target) s.downloads =
        ground (arith, found) in
      (
        retarget now target row,
        ap (find_row (is_download m.info_hash)) rows
            ∙ find_row-update_where (is_download m.info_hash) (is_download m.info_hash)
                (retarget now target) s.downloads {r = row} (λ d. refl) found
            ∙ ground (arith, find_row-holds (is_download m.info_hash) s.downloads {r = row} found),
        refl,
      )

-- A store that can begin a download: it knows nothing of it, or has it as an interruption left it.
pub data IsReady (platform : Platform) (partials_dir : String) (m : FileManifest) (s : Local)
    : Type 0 where
  fresh :
      find_row (is_download m.info_hash) s.downloads ≡ none
      → ((k : ℕ) → any (is_chunk m.info_hash k) s.download_chunks ≡ false)
      → IsReady platform partials_dir m s
  resumable :
      (intact : IsIntact platform m s)
      → intact.row.temp_path ≡ partial_path partials_dir m.info_hash
      → IsReady platform partials_dir m s

same_store :
    {A : Type 0} (r : Result A × Local) {a b : Result A} {s1 s2 : Local}
    → r ≡ (a, s1)
    → r ≡ (b, s2)
    → s1 ≡ s2
same_store {A} r e h = ap (λ (q : Result A × Local). q.1) (sym e ∙ h)

pub IsReady-begun :
    (platform : Platform) (partials_dir : String) (now : ℕ) (m : FileManifest) (target : String)
    (s s1 : Local) (p : DownloadProgress)
    → IsManifest platform m
    → IsReady platform partials_dir m s
    → create_or_resume_download platform partials_dir now m target s ≡ (ok p, s1)
    → IsIntact platform m s1 × HasTarget m.info_hash target s1
IsReady-begun platform partials_dir now m target s s1 p valid (fresh absent none_yet) e =
    let (s2, h, intact) =
      create_or_resume_download-new platform partials_dir now m target s valid absent none_yet in
    (
      subst (IsIntact platform m) (same_store _ h e) intact,
      new_target platform partials_dir now m target s s1 p e absent,
    )
IsReady-begun platform partials_dir now m target s s1 p valid (resumable intact0 place) e =
    let (s2, h, intact) =
      create_or_resume_download-IsIntact platform partials_dir now m target s valid intact0 place in
    (
      subst (IsIntact platform m) (same_store _ h e) intact,
      known_target platform partials_dir now m target s s1 p e intact0.row intact0.found,
    )
