-- ===== src/Tests/Download.antt =====
-- The download of a small file: its chunks out of order, an interruption, the finalization, and what
-- follows when the download is asked for again.
use shard_net.Base.{
  ℕ, pos, false, some, [], ◌∷◌, ◌≡◌, ◌≢◌, ◌⊎◌, refl, ap, sym, subst, not, ◌||◌, ◌&&◌, replicate,
  nat_eq, arith, eq_iff,
}
use shard_net.Base.SortedSet.{sorted_set, contains, range}
use shard_net.Errors.{Result, ok, raise}
use shard_net.Platform.{Bytes, is_hash}
use shard_net.Disk.{
  read_file, write_file, remove_file, truncate, write_at, ensure_partial_file, move_file,
}
use shard_net.Manifest.{
  validate, model_dump, has_chunk_shape, same_manifest, size_of_chunk, chunk_size_for_index,
  DownloadProgress, active, completed,
}
use shard_net.Download.Tables.{DownloadRow, Local, pending, complete}
use shard_net.Download.Store.{
  partial_path, chunks_with, missing_chunks, completed_chunks, get_progress, create_or_retarget,
  create_or_resume_download, write_partial, mark_complete, write_chunk_at, write_chunk,
  finalize_download, chunk_hash_mismatch, download_incomplete, file_hash_mismatch,
}
use shard_net.Download.Progress.{write_chunk-progress}
use shard_net.Download.Intact.{IsIntact}
use shard_net.Download.Kept.{write_chunk-IsIntact}
use shard_net.Download.Begun.{progress_of, create_or_resume_download-new}
use shard_net.Download.Resumed.{create_or_resume_download-IsIntact}
use shard_net.Download.Finish.{
  IsFinished, IsForgery, finalize_download-IsFinished, finalize_download-Describes,
}
use shard_net.Download.Rerun.{finalize_download-create_or_resume_download}
use shard_net.Tests.Toy.{
  tune-Describes, toy, tune, tune_bytes, tune-IsManifest, even_hash, odd_hash,
}

program : Unit {0}
unfolding validate has_chunk_shape is_hash same_manifest chunk_size_for_index size_of_chunk
    read_file write_file remove_file truncate write_at ensure_partial_file move_file sorted_set
    partial_path chunks_with missing_chunks completed_chunks get_progress create_or_retarget
    create_or_resume_download write_partial mark_complete write_chunk_at write_chunk
    finalize_download
program = tt

abbrev pub nothing : Local
nothing = record { downloads = []; download_chunks = []; disk = [] }

abbrev pub begun : Local
begun = (create_or_resume_download toy "partials" 10 tune "out/tune.bin" nothing).1

abbrev one_written : Local
one_written = (write_chunk toy 20 tune (pos 1) (3 ∷ 4 ∷ []) begun).1

abbrev resumed_later : Local
resumed_later = (create_or_resume_download toy "partials" 30 tune "out/tune.bin" one_written).1

abbrev two_written : Local
two_written = (write_chunk toy 40 tune (pos 0) (1 ∷ 2 ∷ []) resumed_later).1

abbrev all_written : Local
all_written = (write_chunk toy 50 tune (pos 2) (5 ∷ []) two_written).1

abbrev delivered : Local
delivered = (finalize_download toy 60 even_hash all_written).1

abbrev asked_again : Local
asked_again = (create_or_resume_download toy "partials" 70 tune "out/tune.bin" delivered).1

resumed_progress :
    (create_or_resume_download toy "partials" 30 tune "out/tune.bin" one_written).0
    ≡ ok (record {
      info_hash = even_hash;
      total_chunks = 3;
      completed_chunks = 1 ∷ [];
      missing_chunks = 0 ∷ 2 ∷ [];
      status = active;
    })
unfolding program
resumed_progress = refl

bad_chunk_refused :
    write_chunk toy 20 tune (pos 1) (3 ∷ 3 ∷ []) begun
    ≡ (raise (chunk_hash_mismatch (pos 1) odd_hash even_hash), begun)
unfolding program
bad_chunk_refused = refl

incomplete_refused :
    (finalize_download toy 60 even_hash two_written).0 ≡ raise (download_incomplete even_hash 1)
unfolding program
incomplete_refused = refl

delivers : (finalize_download toy 60 even_hash all_written).0 ≡ ok "out/tune.bin"
unfolding program
delivers = refl

delivered_bytes : read_file "out/tune.bin" delivered.disk ≡ some tune_bytes
unfolding program
delivered_bytes = refl

begun-new :
    (s' : Local) × (create_or_resume_download toy "partials" 10 tune "out/tune.bin" nothing ≡ (
      ok (record {
        info_hash = even_hash;
        total_chunks = 3;
        completed_chunks = [];
        missing_chunks = range 3;
        status = active;
      }),
      s',
    ))
    × IsIntact toy tune s'
begun-new =
    create_or_resume_download-new toy "partials" 10 tune "out/tune.bin" nothing tune-IsManifest refl
      (λ k. refl)

pub begun-IsIntact : IsIntact toy tune begun
begun-IsIntact =
    subst (IsIntact toy tune) (sym (ap (λ (r : Result DownloadProgress × Local). r.1) begun-new.1))
      begun-new.2

one_written-IsIntact : IsIntact toy tune one_written
unfolding program
one_written-IsIntact =
    write_chunk-IsIntact toy 20 tune 1 (3 ∷ 4 ∷ []) begun tune-IsManifest.shape begun-IsIntact
      one_written refl

one_written_place :
    (intact : IsIntact toy tune one_written)
    → intact.row.temp_path ≡ partial_path "partials" even_hash
unfolding program
one_written_place intact = ground (arith, intact.found)

resumed_again :
    (s' : Local) × (create_or_resume_download toy "partials" 30 tune "out/tune.bin" one_written
      ≡ (ok (progress_of tune one_written-IsIntact.row.status one_written), s'))
    × IsIntact toy tune s'
resumed_again =
    create_or_resume_download-IsIntact toy "partials" 30 tune "out/tune.bin" one_written
      tune-IsManifest one_written-IsIntact (one_written_place one_written-IsIntact)

resumed_later-IsIntact : IsIntact toy tune resumed_later
resumed_later-IsIntact =
    subst (IsIntact toy tune)
      (sym (ap (λ (r : Result DownloadProgress × Local). r.1) resumed_again.1)) resumed_again.2

two_written-IsIntact : IsIntact toy tune two_written
unfolding program
two_written-IsIntact =
    write_chunk-IsIntact toy 40 tune 0 (1 ∷ 2 ∷ []) resumed_later tune-IsManifest.shape
      resumed_later-IsIntact two_written refl

all_written-IsIntact : IsIntact toy tune all_written
unfolding program
all_written-IsIntact =
    write_chunk-IsIntact toy 50 tune 2 (5 ∷ []) two_written tune-IsManifest.shape
      two_written-IsIntact all_written refl

all_written_bytes : (intact : IsIntact toy tune all_written) → intact.content ≡ tune_bytes
unfolding program
all_written_bytes intact =
    let place : intact.row.temp_path ≡ partial_path "partials" even_hash =
      ground (arith, intact.found) in
    ground (arith, ap (λ p. read_file p all_written.disk) place, intact.file)

create_or_resume_download-IsIntact_example :
    (s' : Local) × (create_or_resume_download toy "partials" 30 tune "out/tune.bin" one_written
      ≡ (ok (progress_of tune one_written-IsIntact.row.status one_written), s'))
    × IsIntact toy tune s'
create_or_resume_download-IsIntact_example =
    create_or_resume_download-IsIntact toy "partials" 30 tune "out/tune.bin" one_written
      tune-IsManifest one_written-IsIntact (one_written_place one_written-IsIntact)

write_chunk-progress_example :
    (contains 0 (chunks_with complete even_hash one_written.download_chunks)
      ≡ (false || contains 0 (chunks_with complete even_hash begun.download_chunks)))
    × (contains 0 (chunks_with pending even_hash one_written.download_chunks)
        ≡ (not false && contains 0 (chunks_with pending even_hash begun.download_chunks)))
unfolding program
write_chunk-progress_example =
    write_chunk-progress toy 20 tune 1 (3 ∷ 4 ∷ []) begun one_written begun-IsIntact.rows refl 0

write_chunk-IsIntact_example : IsIntact toy tune one_written
unfolding program
write_chunk-IsIntact_example =
    write_chunk-IsIntact toy 20 tune 1 (3 ∷ 4 ∷ []) begun tune-IsManifest.shape begun-IsIntact
      one_written refl

finalize_download-IsFinished_example :
    ("out/tune.bin" ≡ all_written-IsIntact.row.target_path)
    × IsFinished toy tune "out/tune.bin" delivered
unfolding program
finalize_download-IsFinished_example =
    finalize_download-IsFinished toy 60 tune all_written "out/tune.bin" delivered tune-IsManifest
      all_written-IsIntact refl

finalize_download-Describes_example :
    (bytes : Bytes) × (read_file "out/tune.bin" delivered.disk ≡ some bytes)
    × ((bytes ≡ tune_bytes) ⊎ IsForgery toy tune_bytes bytes)
unfolding program
finalize_download-Describes_example =
    finalize_download-Describes toy 60 tune tune_bytes all_written "out/tune.bin" delivered
      tune-IsManifest tune-Describes all_written-IsIntact refl

abbrev final_row : DownloadRow
final_row = record {
  info_hash = even_hash;
  manifest_json = model_dump tune;
  target_path = "out/tune.bin";
  temp_path = partial_path "partials" even_hash;
  status = active;
  created_at = 10;
  updated_at = 50;
}

other_place : final_row.target_path ≢ final_row.temp_path
unfolding program
other_place p = ground (arith, (eq_iff final_row.target_path final_row.temp_path).1 p)

other_digest : toy.sha256 (replicate 5 0) ≢ odd_hash
other_digest p = ground (arith, (eq_iff even_hash odd_hash).1 p)

finalize_download-create_or_resume_download_example :
    (s2 : Local) × (create_or_resume_download toy "partials" 70 tune "out/tune.bin" delivered
      ≡ (ok (progress_of tune completed delivered), s2))
    × ((k : ℕ) → contains k (chunks_with pending even_hash delivered.download_chunks) ≡ false)
    × (finalize_download toy 70 even_hash s2
        ≡ (raise (file_hash_mismatch even_hash odd_hash even_hash), s2))
unfolding program
finalize_download-create_or_resume_download_example =
    finalize_download-create_or_resume_download toy "partials" 60 70 tune "out/tune.bin" all_written
      tune-IsManifest final_row "out/tune.bin" delivered refl refl refl other_place other_digest
      refl
