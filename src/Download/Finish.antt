-- ===== src/Download/Finish.antt =====
-- `finalize_download` of src/shardnet/client/core/download_store.py: what it delivers, when it refuses,
-- and what a finished download becomes when it is asked for again.
use shard_net.Base.{
  ℕ, String, Bool, false, some, List, [], ◌∷◌, ◌≡◌, ◌≢◌, refl, ap, ◌∙◌, sym, ◌<◌, ◌==◌, ◌&&◌, ◌⊎◌,
  nat_eq, list_eq, list_beq_iff, text_eq, length, any, count, get_elem?, arith, eq_iff, Bool-cases,
  Option-cases, inl, inr,
}
use shard_net.Base.SortedSet.{contains}
use shard_net.Base.Rows.{find_row, update_where}
use shard_net.Errors.{ok, raise, Exception}
use shard_net.Platform.{Platform, Bytes}
use shard_net.Disk.{read_file, move_file, read_file-write_file}
use shard_net.Manifest.{FileManifest, model_dump, validate}
use shard_net.Manifest.Shape.{IsManifest, validate-model_dump}
use shard_net.Manifest.Chunking.{slice, Describes}
use shard_net.Download.Tables.{DownloadRow, ChunkRow, pending, Local, is_download, has_status}
use shard_net.Download.Store.{chunks_with, finish, touch_download, finalize_download}
use shard_net.Download.Progress.{contains-chunks_with, complete_or_missing}
use shard_net.Download.Intact.{IsIntact}

-- A refused finalization changes nothing: no file is moved and no row is touched.
pub finalize_download_refused :
    (platform : Platform) (now : ℕ) (info_hash : String) (s : Local) (e : Exception) (s' : Local)
    → finalize_download platform now info_hash s ≡ (raise e, s')
    → s' ≡ s
unfolding finalize_download
finalize_download_refused platform now info_hash s e s' h = ground arith

-- What a finalization has delivered.
pub record Delivered (platform : Platform) (now : ℕ) (m : FileManifest) (row : DownloadRow)
    (s : Local) (path : String) (s' : Local) : Type 0 where
  pub content : Bytes
  pub source : read_file row.temp_path s.disk ≡ some content
  pub digest : platform.sha256 content ≡ m.file_sha256
  pub target : path ≡ row.target_path
  pub nothing_pending : count (has_status m.info_hash pending) s.download_chunks ≡ 0
  pub result : s' ≡ record s {
    downloads =
        update_where (is_download m.info_hash) (λ d. finish (touch_download now d)) s.downloads;
    disk = move_file row.temp_path row.target_path content s.disk;
  }

module _ (platform : Platform) (now : ℕ) (m : FileManifest) (s : Local)
    (valid : IsManifest platform m) where
  module _ (row : DownloadRow) (found : find_row (is_download m.info_hash) s.downloads ≡ some row)
      (stored : row.manifest_json ≡ model_dump m) where
    pub finalize_download-Delivered :
        (path : String) (s' : Local)
        → finalize_download platform now m.info_hash s ≡ (ok path, s')
        → Delivered platform now m row s path s'
    unfolding finalize_download
    finalize_download-Delivered path s' e =
        let read : validate platform row.manifest_json ≡ ok m =
          ap (validate platform) stored ∙ validate-model_dump platform m valid in
        elim (Option-cases (read_file row.temp_path s.disk)) [
          | inl missing ↦ absurd (ground (arith, found, read, missing))
          | inr (content, there) ↦ record {
            content = content;
            source = there;
            digest = ground (arith, found, read, eq_iff (platform.sha256 content) m.file_sha256);
            target = ground (arith, found, read);
            nothing_pending = ground (arith, found, read);
            result = ground (arith, found, read);
          }
        ]

no_rows :
    (test : ChunkRow → Bool) (k : ℕ) (rows : List ChunkRow)
    → count test rows ≡ 0
    → any (λ c. test c && c.chunk_index == k) rows ≡ false
no_rows test k [] e = refl
no_rows test k (c ∷ cs) e = ground (arith, no_rows test k cs)

none_left :
    (test : ChunkRow → Bool) (rows : List ChunkRow)
    → ((k : ℕ) → any (λ c. test c && c.chunk_index == k) rows ≡ false)
    → count test rows ≡ 0
none_left test [] h = refl
none_left test (c ∷ cs) h =
    ground (arith, h c.chunk_index, none_left test cs (λ k. ground (arith, h k)))

-- With no pending row, no chunk is missing.
pub no_pending :
    (info_hash : String) (rows : List ChunkRow)
    → count (has_status info_hash pending) rows ≡ 0
    → (k : ℕ) → contains k (chunks_with pending info_hash rows) ≡ false
no_pending info_hash rows e k =
    contains-chunks_with pending info_hash rows k ∙ no_rows (has_status info_hash pending) k rows e

same_or_different : (a b : Bytes) → (a ≡ b) ⊎ (a ≢ b)
same_or_different a b = elim (Bool-cases (a == b)) [
  | inl same ↦ inl ((list_beq_iff a b).0 same)
  | inr other ↦ inr (λ p. ground (arith, other, (list_beq_iff a b).1 p))
]

-- What is moved to the target is read there.
pub read_moved :
    (from to : String) (content : Bytes) (s : Local)
    → read_file to (move_file from to content s.disk) ≡ some content
unfolding move_file
read_moved from to content s = read_file-write_file to to content _ ∙ ground (arith, eq_iff to to)

-- The finished file: at the target, of the manifest's size and digest, every chunk with its own digest.
pub record IsFinished (platform : Platform) (m : FileManifest) (path : String) (s : Local)
    : Type 0 where
  pub content : Bytes
  pub file : read_file path s.disk ≡ some content
  pub size : length content ≡ m.file_size_bytes
  pub digest : platform.sha256 content ≡ m.file_sha256
  pub chunks :
      (k : ℕ)
      → k < m.total_chunks
      → get_elem? m.chunk_sha256 k ≡ some (platform.sha256 (slice m.chunk_size_bytes content k))

-- A finalization of an intact download that succeeds puts the finished file at the download's target:
-- with the manifest's size and digest, and every chunk with its own digest.
pub finalize_download-IsFinished :
    (platform : Platform) (now : ℕ) (m : FileManifest) (s : Local) (path : String) (s' : Local)
    → IsManifest platform m
    → (intact : IsIntact platform m s)
    → finalize_download platform now m.info_hash s ≡ (ok path, s')
    → (path ≡ intact.row.target_path) × IsFinished platform m path s'
finalize_download-IsFinished platform now m s path s' valid intact e =
    let d =
      finalize_download-Delivered platform now m s valid intact.row intact.found intact.manifest
        path s' e in
    let same : d.content ≡ intact.content = ground (arith, d.source, intact.file) in
    (
      d.target,
      record {
        content = d.content;
        file =
            ap (λ p. read_file p s'.disk) d.target
            ∙ ap (λ (t : Local). read_file intact.row.target_path t.disk) d.result
            ∙ read_moved intact.row.temp_path intact.row.target_path d.content s;
        size = ap length same ∙ intact.size;
        digest = d.digest;
        chunks = λ k p.
            intact.checked k (
              ground (
                arith,
                complete_or_missing m.info_hash m.total_chunks s.download_chunks intact.rows k,
                no_pending m.info_hash s.download_chunks d.nothing_pending k,
              ))
            ∙ ap (λ c. some (platform.sha256 (slice m.chunk_size_bytes c k))) (sym same);
      },
    )

-- Other bytes than a file's, of the same length and with the same digest.
pub record IsForgery (platform : Platform) (original other : Bytes) : Type 0 where
  pub differ : other ≢ original
  pub same_size : length other ≡ length original
  pub same_digest : platform.sha256 other ≡ platform.sha256 original

-- If the manifest of an intact download describes a file, then a finalization that succeeds delivers that
-- file, byte for byte, or else it delivers other bytes of the same length whose SHA-256 digest is that of
-- the file.
pub finalize_download-Describes :
    (platform : Platform) (now : ℕ) (m : FileManifest) (original : Bytes) (s : Local)
    (path : String) (s' : Local)
    → IsManifest platform m
    → Describes platform original m
    → IsIntact platform m s
    → finalize_download platform now m.info_hash s ≡ (ok path, s')
    → (delivered : Bytes) × (read_file path s'.disk ≡ some delivered)
      × ((delivered ≡ original) ⊎ IsForgery platform original delivered)
finalize_download-Describes platform now m original s path s' valid d intact e =
    let f = (finalize_download-IsFinished platform now m s path s' valid intact e).1 in
    (
      f.content,
      f.file,
      elim (same_or_different f.content original) [
        | inl same ↦ inl same
        | inr differ ↦ inr (record {
          differ = differ;
          same_size = f.size ∙ d.size;
          same_digest = f.digest ∙ d.whole;
        })
      ],
    )

-- A finalization succeeds when nothing is pending and the partial file has the manifest's digest.
pub finalize_download_succeeds :
    (platform : Platform) (now : ℕ) (m : FileManifest) (s : Local)
    → IsManifest platform m
    → (intact : IsIntact platform m s) → chunks_with pending m.info_hash s.download_chunks ≡ []
    → platform.sha256 intact.content ≡ m.file_sha256
    → (finalize_download platform now m.info_hash s).0 ≡ ok intact.row.target_path
unfolding finalize_download
finalize_download_succeeds platform now m s valid intact none_missing digest =
    let read : validate platform intact.row.manifest_json ≡ ok m =
      ap (validate platform) intact.manifest ∙ validate-model_dump platform m valid in
    let zero_pending = none_left (has_status m.info_hash pending) s.download_chunks (λ k.
      sym (contains-chunks_with pending m.info_hash s.download_chunks k)
      ∙ ap (contains k) none_missing) in
    ground (
      arith,
      intact.found,
      intact.file,
      read,
      (eq_iff (platform.sha256 intact.content) m.file_sha256).1 digest,
      zero_pending,
    )
