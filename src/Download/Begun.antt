-- ===== src/Download/Begun.antt =====
-- `create_or_resume_download` of src/shardnet/client/core/download_store.py for a new download, and what
-- it reports.
use shard_net.Base.{
  ℕ, String, false, none, some, List, [], ◌∷◌, ◌++◌, map, ◌≡◌, refl, ap, ◌∙◌, ◌==◌, ◌&&◌, nat_eq,
  text_eq, any, arith, eq_iff,
}
use shard_net.Base.SortedSet.{
  contains, contains-range, range-IsIncreasing, increasing_ext, sorted_set-IsIncreasing,
  IsIncreasing, range,
}
use shard_net.Base.Rows.{find_row}
use shard_net.Base.Rows.Laws.{any-append, find_row-append_new}
use shard_net.Errors.{ok}
use shard_net.Platform.{Platform}
use shard_net.Disk.{read_file, truncate, or_empty, ensure_partial_file, read_file-write_file}
use shard_net.Disk.Slices.{length-truncate}
use shard_net.Manifest.{FileManifest, model_dump, validate, Status, active, DownloadProgress}
use shard_net.Manifest.Shape.{IsManifest, validate-model_dump}
use shard_net.Download.Tables.{
  DownloadRow, ChunkRow, pending, complete, Local, is_download, is_chunk, has_status,
}
use shard_net.Download.Store.{
  chunks_with, partial_path, new_download, pending_chunk, create_or_resume_download, get_progress,
}
use shard_net.Download.Progress.{HasRows, contains-chunks_with, complete_or_missing}
use shard_net.Download.Intact.{IsIntact}

-- What `get_progress` reports of the tables.
abbrev pub progress_of : FileManifest → Status → Local → DownloadProgress
progress_of m status s = record {
  info_hash = m.info_hash;
  total_chunks = m.total_chunks;
  completed_chunks = chunks_with complete m.info_hash s.download_chunks;
  missing_chunks = chunks_with pending m.info_hash s.download_chunks;
  status = status;
}

pub get_progress_of :
    (platform : Platform) (m : FileManifest) (row : DownloadRow) (s : Local)
    → IsManifest platform m
    → find_row (is_download m.info_hash) s.downloads ≡ some row
    → row.manifest_json ≡ model_dump m
    → get_progress platform m.info_hash s ≡ (ok (progress_of m row.status s), s)
unfolding get_progress chunks_with
get_progress_of platform m row s valid found stored =
    let read : validate platform row.manifest_json ≡ ok m =
      ap (validate platform) stored ∙ validate-model_dump platform m valid in
    ground (arith, found, read)

-- The rows of a new download.
any-pending_rows :
    (info_hash : String) (k : ℕ) (indexes : List ℕ)
    → any (is_chunk info_hash k) (map (pending_chunk info_hash) indexes) ≡ contains k indexes
any-pending_rows info_hash k [] = refl
any-pending_rows info_hash k (i ∷ is) =
    ground (arith, eq_iff info_hash info_hash, any-pending_rows info_hash k is)

none_complete :
    (info_hash : String) (k : ℕ) (rows : List ChunkRow) (indexes : List ℕ)
    → any (is_chunk info_hash k) rows ≡ false
    → any
        (λ c. has_status info_hash complete c && c.chunk_index == k)
        (rows ++ map (pending_chunk info_hash) indexes)
      ≡ false
none_complete info_hash k [] [] h = refl
none_complete info_hash k [] (i ∷ is) h = ground (arith, none_complete info_hash k [] is refl)
none_complete info_hash k (c ∷ cs) indexes h = ground (arith, none_complete info_hash k cs indexes)

no_members : (xs : List ℕ) → ((k : ℕ) → contains k xs ≡ false) → xs ≡ []
no_members [] h = refl
no_members (x ∷ xs) h = absurd (ground (arith, h x))

chunks_with-IsIncreasing :
    (info_hash : String) (rows : List ChunkRow) → IsIncreasing (chunks_with pending info_hash rows)
unfolding chunks_with
chunks_with-IsIncreasing info_hash rows = sorted_set-IsIncreasing _

module _ (platform : Platform) (partials_dir : String) (now : ℕ) (m : FileManifest)
    (target : String) (s : Local) (valid : IsManifest platform m) where
  temp : String
  temp = partial_path partials_dir m.info_hash

  -- The store after a new download has been recorded.
  created : Local
  unfolding temp
  created = record s {
    downloads = s.downloads ++ new_download now m target temp ∷ [];
    download_chunks = s.download_chunks ++ map (pending_chunk m.info_hash) (range m.total_chunks);
    disk = ensure_partial_file temp m.file_size_bytes s.disk;
  }

  created_rows :
      ((k : ℕ) → any (is_chunk m.info_hash k) s.download_chunks ≡ false)
      → HasRows m.info_hash m.total_chunks created.download_chunks
  unfolding created
  created_rows none_yet k =
      any-append (is_chunk m.info_hash k) s.download_chunks _
      ∙ ground (
        arith,
        none_yet k,
        any-pending_rows m.info_hash k (range m.total_chunks),
        contains-range k m.total_chunks,
      )

  created_found :
      find_row (is_download m.info_hash) s.downloads ≡ none
      → find_row (is_download m.info_hash) created.downloads ≡ some (new_download now m target temp)
  unfolding created
  created_found absent =
      find_row-append_new (is_download m.info_hash) s.downloads _ absent
      ∙ ground (arith, eq_iff m.info_hash m.info_hash)

  none_complete_yet :
      ((k : ℕ) → any (is_chunk m.info_hash k) s.download_chunks ≡ false)
      → chunks_with complete m.info_hash created.download_chunks ≡ []
  unfolding created
  none_complete_yet none_yet = no_members _ (λ k.
      contains-chunks_with complete m.info_hash _ k
      ∙ none_complete m.info_hash k s.download_chunks (range m.total_chunks) (none_yet k))

  all_missing :
      ((k : ℕ) → any (is_chunk m.info_hash k) s.download_chunks ≡ false)
      → chunks_with pending m.info_hash created.download_chunks ≡ range m.total_chunks
  all_missing none_yet =
      increasing_ext _ (range m.total_chunks)
        (chunks_with-IsIncreasing m.info_hash created.download_chunks)
        (range-IsIncreasing m.total_chunks)
        (λ k. ground (
          arith,
          complete_or_missing m.info_hash m.total_chunks created.download_chunks
              (created_rows none_yet) k,
          ap (contains k) (none_complete_yet none_yet),
          contains-range k m.total_chunks,
        ))

  created_file :
      read_file temp created.disk
      ≡ some (truncate m.file_size_bytes (or_empty (read_file temp s.disk)))
  unfolding created ensure_partial_file
  created_file = read_file-write_file temp temp _ s.disk ∙ ground (arith, eq_iff temp temp)

  created-IsIntact :
      find_row (is_download m.info_hash) s.downloads ≡ none
      → ((k : ℕ) → any (is_chunk m.info_hash k) s.download_chunks ≡ false)
      → IsIntact platform m created
  created-IsIntact absent none_yet = record {
    row = new_download now m target temp;
    found = created_found absent;
    manifest = refl;
    rows = created_rows none_yet;
    content = truncate m.file_size_bytes (or_empty (read_file temp s.disk));
    file = created_file;
    size = length-truncate m.file_size_bytes _;
    checked = λ k c. absurd (ground (arith, c, ap (contains k) (none_complete_yet none_yet)));
  }

  -- A download that is not known yet, and has no rows, is recorded with every chunk missing; it is intact
  -- from the start, whatever an older partial file holds.
  pub create_or_resume_download-new :
      find_row (is_download m.info_hash) s.downloads ≡ none
      → ((k : ℕ) → any (is_chunk m.info_hash k) s.download_chunks ≡ false)
      → (s' : Local) × (create_or_resume_download platform partials_dir now m target s ≡ (
        ok (record {
          info_hash = m.info_hash;
          total_chunks = m.total_chunks;
          completed_chunks = [];
          missing_chunks = range m.total_chunks;
          status = active;
        }),
        s',
      ))
        × IsIntact platform m s'
  unfolding create_or_resume_download created temp
  create_or_resume_download-new absent none_yet =
      let progress =
        get_progress_of platform m (new_download now m target temp) created valid
          (created_found absent) refl in
      (
        created,
        ground (arith, absent, progress, none_complete_yet none_yet, all_missing none_yet),
        created-IsIntact absent none_yet,
      )
