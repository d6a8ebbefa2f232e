-- ===== src/Tests/Manifest.antt =====
-- Manifests at concrete files.
use shard_net.Base.{pos, negsuc, some, [], ◌≡◌, refl, arith}
use shard_net.Errors.{ok, raise, value_error, index_error}
use shard_net.Platform.{is_hash}
use shard_net.Manifest.{
  FileManifest, validate, has_chunk_shape, size_of_chunk, chunk_size_for_index,
}
use shard_net.Manifest.Shape.{IsManifest}
use shard_net.Manifest.Build.{
  iter_file_chunks, compute_info_hash, manifest_fields, build_file_manifest,
}
use shard_net.Manifest.Chunking.{Describes, build_file_manifest-Describes}
use shard_net.Tests.Toy.{toy, tune, tune_bytes}

program : Unit {0}
unfolding validate has_chunk_shape is_hash chunk_size_for_index size_of_chunk iter_file_chunks
    compute_info_hash manifest_fields build_file_manifest
program = tt

tune_built : build_file_manifest toy "tune.bin" tune_bytes (pos 2) ≡ some (ok tune)
unfolding program
tune_built = refl

empty_refused : build_file_manifest toy "tune.bin" [] (pos 2) ≡ some (raise value_error)
unfolding program
empty_refused = refl

-- The last chunk is the short one.
chunk_sizes :
    (chunk_size_for_index tune (pos 1) ≡ ok 2)
    × (chunk_size_for_index tune (pos 2) ≡ ok 1)
    × (chunk_size_for_index tune (negsuc 0) ≡ raise index_error)
unfolding program
chunk_sizes = (refl, refl, refl)

build_file_manifest-Describes_example :
    (m : FileManifest) × (build_file_manifest toy "tune.bin" tune_bytes (pos 2) ≡ some (ok m))
    × IsManifest toy m
    × Describes toy tune_bytes m
    × (m.file_name ≡ "tune.bin")
    × (m.chunk_size_bytes ≡ 2)
build_file_manifest-Describes_example =
    build_file_manifest-Describes toy "tune.bin" tune_bytes 2 refl (omega arith) (omega arith)
