-- ===== src/Share/Served.antt =====
-- What `read_chunk` of src/shardnet/client/core/share_store.py hands out, and that a registered file can
-- be read chunk by chunk.
use Prim.Native.Nat.{min}
use native.Mathlib.Nat.{mul_comm}
use shard_net.Base.{
  ℕ, zero, suc, ℤ, pos, negsuc, String, Bool, true, some, List, [], ◌∷◌, ◌≡◌, refl, ap, ◌∙◌, sym,
  ◌<◌, ◌-◌, ◌*◌, text_eq, length, take, drop, get_elem?, length-drop, arith, eq_iff, Option-cases,
  inl, inr,
}
use shard_net.Base.Rows.{find_row}
use shard_net.Base.Rows.Laws.{
  find_row-any, find_row-update_where, find_row-append_new, find_row-holds,
}
use shard_net.Errors.{ok, Result-cases}
use shard_net.Platform.{Platform, Bytes}
use shard_net.Disk.{read_file}
use shard_net.Manifest.{FileManifest, text_within, validate, model_dump}
use shard_net.Manifest.Shape.{IsManifest, validate-model_dump, chunk_size_for_index_lem}
use shard_net.Manifest.Chunking.{slice, Describes, build_file_manifest-Describes}
use shard_net.Share.Store.{
  ShareRow, Shares, is_share, new_share, refresh_share, add_share, register_file, read_verified,
  read_shared, read_chunk,
}

-- Where a chunk that is handed out comes from.
pub record IsServed (platform : Platform) (info_hash : String) (chunk_index : ℤ)
    (chunk_data : Bytes) (s : Shares) : Type 0 where
  pub row : ShareRow
  pub found : find_row (is_share info_hash) s.shared_files ≡ some row
  pub m : FileManifest
  pub manifest : validate platform row.manifest_json ≡ ok m
  pub i : ℕ
  pub index : chunk_index ≡ pos i
  pub inside : i < m.total_chunks
  pub digest : get_elem? m.chunk_sha256 i ≡ some (platform.sha256 chunk_data)

module _ (platform : Platform) (info_hash : String) (chunk_data : Bytes) (s : Shares) where
  verified :
      (m : FileManifest) (file_path : String) (i : ℕ)
      → read_shared platform info_hash m file_path (pos i) s ≡ ok (some chunk_data)
      → (i < m.total_chunks) × (get_elem? m.chunk_sha256 i ≡ some (platform.sha256 chunk_data))
  unfolding read_shared read_verified
  verified m file_path i h = elim (Option-cases (get_elem? m.chunk_sha256 i)) [
    | inl absent ↦ absurd (ground arith)
    | inr (expected, at) ↦
        (ground arith, ground (arith, eq_iff (platform.sha256 chunk_data) expected))
  ]

  -- A chunk that is handed out is in range of a registered manifest and has that manifest's digest,
  -- whatever has become of the file since.
  pub read_chunk-IsServed :
      (chunk_index : ℤ)
      → read_chunk platform info_hash chunk_index s ≡ ok (some chunk_data)
      → IsServed platform info_hash chunk_index chunk_data s
  unfolding read_chunk read_shared
  read_chunk-IsServed (negsuc i) h = absurd (ground arith)
  read_chunk-IsServed (pos i) h =
      elim (Option-cases (find_row (is_share info_hash) s.shared_files)) [
        | inl unknown ↦ absurd (ground arith)
        | inr (row, found) ↦ elim (Result-cases (validate platform row.manifest_json)) [
          | inr (e, invalid) ↦ absurd (ground arith)
          | inl (m, valid) ↦
              let (inside, digest) = verified m row.file_path i (ground (arith, found, valid)) in
              record {
                row = row;
                found = found;
                m = m;
                manifest = valid;
                i = i;
                index = refl;
                inside = inside;
                digest = digest;
              }
        ]
      ]

take-min-length {ℓ} : {A : Type ℓ} (n : ℕ) (xs : List A) → take (min n (length xs)) xs ≡ take n xs
take-min-length zero xs = let e : min 0 (length xs) ≡ 0 = omega arith in rw e
take-min-length (suc n) [] = let e : min (suc n) 0 ≡ 0 = omega arith in rw e
take-min-length (suc n) (x ∷ xs) =
    let e : min (suc n) (suc (length xs)) ≡ suc (min n (length xs)) = omega arith in
    rw (e, take-min-length n xs)

-- The catalog has the row of a share that has just been added.
add_share_found :
    (now : ℕ) (path : String) (m : FileManifest) (s : Shares)
    → (row : ShareRow) × (find_row (is_share m.info_hash) (add_share now path m s).shared_files
        ≡ some row)
      × (row.file_path ≡ path)
      × (row.manifest_json ≡ model_dump m)
unfolding add_share
add_share_found now path m s = elim (Option-cases (find_row at s.shared_files)) [
  | inl absent ↦ (
    new,
    ground (
      arith,
      absent,
      find_row-any at s.shared_files,
      find_row-append_new at s.shared_files (new ∷ []) absent,
      eq_iff m.info_hash m.info_hash,
    ),
    refl,
    refl,
  )
  | inr (old, found) ↦ (
    refresh_share new old,
    ground (
      arith,
      found,
      find_row-any at s.shared_files,
      find_row-update_where at at (refresh_share new) s.shared_files {r = old} (λ q. refl) found,
      find_row-holds at s.shared_files {r = old} found,
    ),
    refl,
    refl,
  )
]
  where
    at : ShareRow → Bool
    at = is_share m.info_hash

    new : ShareRow
    new = new_share now path m

module _ (platform : Platform) (now : ℕ) (path : String) (content : Bytes) (n : ℕ) (s : Shares)
    (there : read_file path s.disk ≡ some content) where
  -- The bytes that `read_chunk` takes from an unchanged file are those of the chunk.
  chunk_read :
      (m : FileManifest) (i : ℕ)
      → IsManifest platform m
      → Describes platform content m
      → i < m.total_chunks
      → read_verified platform m.info_hash m i content
        ≡ ok (some (slice m.chunk_size_bytes content i))
  unfolding read_verified
  chunk_read m i valid d p =
      let c = m.chunk_size_bytes in
      let taken : take (min c (m.file_size_bytes - c * i)) (drop (i * c) content)
          ≡ slice c content i =
        rw (mul_comm i c, d.size, sym (length-drop (c * i) content))
          (take-min-length c (drop (c * i) content)) in
      ground (
        arith,
        chunk_size_for_index_lem m i valid.shape p,
        taken,
        d.piece i p,
        eq_iff (platform.sha256 (slice c content i)) (platform.sha256 (slice c content i)),
      )

  -- A file that is not empty, with a name of 1 to 256 characters, can be registered in chunks of a positive
  -- size, and then each of its chunks can be read: chunk `i` is the `i`-th piece of the file.
  pub read_chunk-register_file :
      text_within 1 256 (platform.base_name path) ≡ true
      → 0 < length content
      → 0 < n
      → (m : FileManifest) × (s' : Shares) × (register_file platform now path (pos n) s
          ≡ (some (ok m), s'))
        × Describes platform content m
        × ((i : ℕ)
            → i < m.total_chunks
            → read_chunk platform m.info_hash (pos i) s' ≡ ok (some (slice n content i)))
  unfolding register_file read_chunk read_shared add_share
  read_chunk-register_file named size_pos n_pos =
      let (m, b, valid, d, name, chunk_size) =
        build_file_manifest-Describes platform (platform.base_name path) content n named size_pos
          n_pos in
      let (row, found, at, manifest) = add_share_found now path m s in
      let read : validate platform row.manifest_json ≡ ok m =
        ap (validate platform) manifest ∙ validate-model_dump platform m valid in
      let file : read_file row.file_path s.disk ≡ some content =
        ap (λ p. read_file p s.disk) at ∙ there in
      (
        m,
        add_share now path m s,
        ground (arith, there, b),
        d,
        λ i p. ground (
          arith,
          found,
          read,
          file,
          chunk_read m i valid d p,
          ap (λ (c : ℕ). slice c content i) chunk_size,
        ),
      )
