-- ===== src/Tests/Share.antt =====
-- A small file that is registered and read chunk by chunk.
use shard_net.Base.{ℕ, pos, negsuc, none, some, [], ◌∷◌, ◌≡◌, refl, ◌<◌, text_eq, arith}
use shard_net.Errors.{ok, raise}
use shard_net.Platform.{is_hash}
use shard_net.Disk.{read_file}
use shard_net.Manifest.{
  FileManifest, validate, has_chunk_shape, size_of_chunk, chunk_size_for_index,
}
use shard_net.Manifest.Build.{
  iter_file_chunks, compute_info_hash, manifest_fields, build_file_manifest,
}
use shard_net.Manifest.Chunking.{slice, Describes}
use shard_net.Share.Store.{
  Shares, shared_chunk_corrupt, add_share, register_file, get_manifest, read_verified, read_shared,
  read_chunk,
}
use shard_net.Share.Served.{IsServed, read_chunk-IsServed, read_chunk-register_file}
use shard_net.Tests.Toy.{toy, tune, tune_bytes, even_hash}

program : Unit {0}
unfolding validate has_chunk_shape is_hash chunk_size_for_index size_of_chunk iter_file_chunks
    compute_info_hash manifest_fields build_file_manifest add_share register_file get_manifest
    read_verified read_shared read_chunk read_file
program = tt

abbrev unshared : Shares
unshared = record { shared_files = []; disk = ("in/tune.bin", tune_bytes) ∷ [] }

abbrev shared : Shares
shared = (register_file toy 10 "in/tune.bin" (pos 2) unshared).1

abbrev tampered : Shares
tampered = record shared { disk = ("in/tune.bin", 1 ∷ 2 ∷ 3 ∷ 3 ∷ 5 ∷ []) ∷ [] }

registered : get_manifest toy even_hash shared ≡ ok (some tune)
unfolding program
registered = refl

last_chunk : read_chunk toy even_hash (pos 2) shared ≡ ok (some (5 ∷ []))
unfolding program
last_chunk = refl

no_such_chunk : read_chunk toy even_hash (negsuc 0) shared ≡ ok none
unfolding program
no_such_chunk = refl

-- A chunk that was changed on disk is not handed out.
changed_chunk : read_chunk toy even_hash (pos 1) tampered ≡ raise (shared_chunk_corrupt even_hash 1)
unfolding program
changed_chunk = refl

read_chunk-IsServed_example : IsServed toy even_hash (pos 1) (3 ∷ 4 ∷ []) shared
unfolding program
read_chunk-IsServed_example = read_chunk-IsServed toy even_hash (3 ∷ 4 ∷ []) shared (pos 1) refl

read_chunk-register_file_example :
    (m : FileManifest) × (s' : Shares) × (register_file toy 10 "in/tune.bin" (pos 2) unshared
      ≡ (some (ok m), s'))
    × Describes toy tune_bytes m
    × ((i : ℕ)
        → i < m.total_chunks
        → read_chunk toy m.info_hash (pos i) s' ≡ ok (some (slice 2 tune_bytes i)))
unfolding program
read_chunk-register_file_example =
    read_chunk-register_file toy 10 "in/tune.bin" tune_bytes 2 unshared refl refl (omega arith)
      (omega arith)
