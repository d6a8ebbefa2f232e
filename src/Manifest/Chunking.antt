-- ===== src/Manifest/Chunking.antt =====
-- The chunks of a file (src/shardnet/client/core/manifest.py): they are its consecutive pieces, and the
-- manifest built from them is accepted and describes them.
use native.Mathlib.Nat.{mul-zero}
use shard_net.Base.{
  ℕ, suc, zero, pos, String, true, some, List, [], ◌∷◌, ◌++◌, map, ◌-◌, ◌*◌, ◌≤◌, ◌<◌, ◌≡◌, refl,
  ap, ◌∙◌, length, take, drop, get_elem?, length-drop, take-append-drop, drop-drop, arith,
}
use shard_net.Errors.{ok}
use shard_net.Platform.{Platform, Bytes}
use shard_net.Manifest.{FileManifest, text_within}
use shard_net.Manifest.Shape.{IsManifest, validate-model_dump}
use shard_net.Manifest.Build.{
  iter_file_chunks, rounds_for, hashed, compute_info_hash, manifest_fields, build_file_manifest,
}

-- The bytes of chunk `i`.
abbrev pub slice : ℕ → Bytes → ℕ → Bytes
slice chunk_size content i = take chunk_size (drop (chunk_size * i) content)

-- The chunks are the file's pieces in order, and they are as many as it takes.
pub record IsChunking (n : ℕ) (content : Bytes) (chunks : List Bytes) : Type 0 where
  pub pieces : hashed chunks ≡ content
  pub chunk_at : (i : ℕ) → i < length chunks → get_elem? chunks i ≡ some (slice n content i)
  pub most : length content ≤ n * length chunks
  pub least : 0 < length content → n * (length chunks - 1) < length content
  pub none_for_empty : length content ≡ 0 → length chunks ≡ 0

IsChunking-end : (n : ℕ) → IsChunking n [] []
IsChunking-end n = record {
  pieces = refl;
  chunk_at = λ i p. absurd (omega arith);
  most = omega arith;
  least = λ p. absurd (omega arith);
  none_for_empty = λ e. refl;
}

one_more :
    (n k size : ℕ)
    → 0 < size
    → (size - n ≡ 0 → k ≡ 0)
    → (0 < size - n → n * (k - 1) < size - n)
    → n * (suc k - 1) < size
one_more n zero size p empty left = omega (arith, mul-zero n)
one_more n (suc k) size p empty left =
    let more : 0 < size - n = ground (arith, empty) in
    let one : suc (suc k) - 1 ≡ suc k = omega arith in
    let other : suc k - 1 ≡ k = omega arith in
    omega (arith, left more, ap (λ (t : ℕ). n * t) one, ap (λ (t : ℕ). n * t) other)

module _ (n : ℕ) (pos_n : 0 < n) where
  take_cons : (b : ℕ) (bs : Bytes) → (d : ℕ) × (ds : Bytes) × (take n (b ∷ bs) ≡ d ∷ ds)
  take_cons b bs = let e : n ≡ suc (n - 1) = omega arith in rw e (b, take (n - 1) bs, refl)

  IsChunking-step :
      (content : Bytes) (chunks : List Bytes)
      → 0 < length content
      → IsChunking n (drop n content) chunks
      → IsChunking n content (take n content ∷ chunks)
  IsChunking-step content chunks p h = record {
    pieces = ap (◌++◌ (take n content)) h.pieces ∙ take-append-drop n content;
    chunk_at = λ i q. at i q;
    most = omega (arith, h.most, length-drop n content);
    least = λ q.
        one_more n (length chunks) (length content) q
          (λ e. h.none_for_empty (omega (arith, length-drop n content)))
          (λ e.
            omega (arith, length-drop n content, h.least (omega (arith, length-drop n content))));
    none_for_empty = λ e. absurd (omega arith);
  }
    where
      at :
          (i : ℕ)
          → i < length (take n content ∷ chunks)
          → get_elem? (take n content ∷ chunks) i ≡ some (slice n content i)
      at zero q = rw mul-zero
      at (suc i) q =
          h.chunk_at i (omega arith)
          ∙ ap (λ r. some (take n r)) (drop-drop (n * i) n content)
          ∙ ap (λ k. some (take n (drop k content))) (omega arith)

  -- With a round for each byte and one more, the reading ends.
  pub iter_file_chunks-IsChunking :
      (rounds : ℕ) (content : Bytes)
      → length content < rounds
      → (chunks : List Bytes) × (iter_file_chunks rounds n content ≡ some chunks)
        × IsChunking n content chunks
  unfolding iter_file_chunks
  iter_file_chunks-IsChunking zero content q = absurd (omega arith)
  iter_file_chunks-IsChunking (suc rounds) [] q =
      let e : n ≡ suc (n - 1) = omega arith in ([], rw e, IsChunking-end n)
  iter_file_chunks-IsChunking (suc rounds) (b ∷ bs) q =
      let (d, ds, first) = take_cons b bs in
      let (chunks, rest, chunking) =
        iter_file_chunks-IsChunking rounds (drop n (b ∷ bs))
          (omega (arith, length-drop n (b ∷ bs))) in
      (
        take n (b ∷ bs) ∷ chunks,
        ground (arith, first, rest),
        IsChunking-step (b ∷ bs) chunks (omega arith) chunking,
      )

map-fixed :
    (lower : String → String) (digest : Bytes → String) (chunks : List Bytes)
    → ((b : Bytes) → lower (digest b) ≡ digest b)
    → map lower (map digest chunks) ≡ map digest chunks
map-fixed lower digest [] h = refl
map-fixed lower digest (c ∷ cs) h = cc (h c, map-fixed lower digest cs h)

length-map_digest :
    (digest : Bytes → String) (chunks : List Bytes) → length (map digest chunks) ≡ length chunks
length-map_digest digest [] = refl
length-map_digest digest (c ∷ cs) = ap suc (length-map_digest digest cs)

pub get_elem?-map_digest :
    (digest : Bytes → String) (chunks : List Bytes) (i : ℕ) {c : Bytes}
    → get_elem? chunks i ≡ some c
    → get_elem? (map digest chunks) i ≡ some (digest c)
get_elem?-map_digest digest [] i e = cc
get_elem?-map_digest digest (c ∷ cs) zero e = ground arith
get_elem?-map_digest digest (c ∷ cs) (suc i) e = get_elem?-map_digest digest cs i e

-- What the manifest of a file says of it.
pub record Describes (platform : Platform) (content : Bytes) (m : FileManifest) : Type 0 where
  pub size : m.file_size_bytes ≡ length content
  pub whole : m.file_sha256 ≡ platform.sha256 content
  pub piece :
      (i : ℕ)
      → i < m.total_chunks
      → get_elem? m.chunk_sha256 i ≡ some (platform.sha256 (slice m.chunk_size_bytes content i))

chunks_pos :
    (n size : ℕ) (chunks : List Bytes) → 0 < size → size ≤ n * length chunks → 0 < length chunks
chunks_pos n size [] p q = absurd (omega (arith, mul-zero n))
chunks_pos n size (c ∷ cs) p q = omega arith

module _ (platform : Platform) (file_name : String) (content : Bytes) (n : ℕ) where
  open platform use {sha256}

  -- The manifest that the chunks make.
  abbrev built : List Bytes → FileManifest
  built chunks =
      let chunk_hashes = map sha256 chunks in
      let file_sha256 = sha256 (hashed chunks) in
      record {
        info_hash =
            compute_info_hash platform file_name (length content) n file_sha256 chunk_hashes;
        file_name = file_name;
        file_size_bytes = length content;
        chunk_size_bytes = n;
        total_chunks = length chunk_hashes;
        file_sha256 = file_sha256;
        chunk_sha256 = chunk_hashes;
      }

  built-IsManifest :
      (chunks : List Bytes)
      → text_within 1 256 file_name ≡ true
      → 0 < length content
      → 0 < n
      → IsChunking n content chunks
      → IsManifest platform (built chunks)
  unfolding compute_info_hash
  built-IsManifest chunks named size_pos n_pos c =
      let same = length-map_digest sha256 chunks in
      record {
        info_hash = platform.sha256-is_hash _;
        info_hash_lower = platform.lower-sha256 _;
        file_name = named;
        file_sha256 = platform.sha256-is_hash (hashed chunks);
        file_sha256_lower = platform.lower-sha256 (hashed chunks);
        chunk_sha256_lower = map-fixed platform.lower sha256 chunks platform.lower-sha256;
        shape = record {
          chunk_pos = n_pos;
          total_pos = omega (arith, same, chunks_pos n (length content) chunks size_pos c.most);
          hashes = refl;
          least = rw same (c.least size_pos);
          most = rw same c.most;
        };
      }

  built-Describes :
      (chunks : List Bytes)
      → IsChunking n content chunks
      → Describes platform content (built chunks)
  built-Describes chunks c = record {
    size = refl;
    whole = ap sha256 c.pieces;
    piece = λ i p.
        get_elem?-map_digest sha256 chunks i
          (c.chunk_at i (omega (arith, length-map_digest sha256 chunks)));
  }

  -- For a file that is not empty, with a name of 1 to 256 characters and a positive chunk size, a manifest
  -- is built; it is valid, has that name and chunk size, and its digests are those of the file and of its
  -- consecutive pieces.
  pub build_file_manifest-Describes :
      text_within 1 256 file_name ≡ true
      → 0 < length content
      → 0 < n
      → (m : FileManifest) × (build_file_manifest platform file_name content (pos n) ≡ some (ok m))
        × IsManifest platform m
        × Describes platform content m
        × (m.file_name ≡ file_name)
        × (m.chunk_size_bytes ≡ n)
  unfolding build_file_manifest manifest_fields
  build_file_manifest-Describes named size_pos n_pos =
      let (chunks, read, c) =
        iter_file_chunks-IsChunking n n_pos (rounds_for content) content (omega arith) in
      let valid = built-IsManifest chunks named size_pos n_pos c in
      (
        built chunks,
        ground (arith, read, validate-model_dump platform (built chunks) valid),
        valid,
        built-Describes chunks c,
        refl,
        refl,
      )
