-- ===== src/Node/Honest.antt =====
-- The loop of `download_file` (src/shardnet/client/core/node.py) when the peers answer with the chunks of one
-- file: it ends with every chunk that was missing in its place.
use shard_net.Base.{
  ℕ, suc, pos, true, not, none, some, List, [], ◌∷◌, ◌≡◌, refl, ap, ◌∙◌, ◌<◌, ◌*◌, ◌==◌, ◌&&◌,
  nat_eq, length, drop, length-take, length-drop, All, arith, Bool-cases, inl, inr,
}
use shard_net.Base.SortedSet.{contains}
use shard_net.Errors.{ok}
use shard_net.Platform.{Platform, Bytes}
use shard_net.Manifest.{FileManifest, chunk_size_for_index}
use shard_net.Manifest.Shape.{IsManifest, chunk_size_for_index_lem}
use shard_net.Manifest.Chunking.{slice, Describes}
use shard_net.Download.Tables.{Local, complete, pending}
use shard_net.Download.Store.{chunks_with, write_chunk}
use shard_net.Download.Writes.{written, write_chunk_accepts}
use shard_net.Download.Progress.{write_chunk-progress}
use shard_net.Download.Intact.{IsIntact}
use shard_net.Download.Kept.{write_chunk-IsIntact, write_chunk-slice}
use shard_net.Api.Schemas.{SwarmPeerResponse}
use shard_net.Node.Download.{Setting, select_peer_for_chunk, fetch_chunk, fetch_chunks}

-- An intact download whose complete chunks are those of the file itself.
pub record IsFaithful (platform : Platform) (m : FileManifest) (original : Bytes) (s : Local)
    : Type 0 where
  pub intact : IsIntact platform m s
  pub agrees :
      (k : ℕ)
      → contains k (chunks_with complete m.info_hash s.download_chunks) ≡ true
      → slice m.chunk_size_bytes intact.content k ≡ slice m.chunk_size_bytes original k

-- For every chunk there is a peer that is not the node, and the one that is asked hands out the chunk.
unfoldable pub IsHonest : Setting → FileManifest → Bytes → List SwarmPeerResponse → Type 0
IsHonest node m original peers =
    (i call : ℕ)
    → i < m.total_chunks
    → (peer : SwarmPeerResponse) × (select_peer_for_chunk peers i node.peer_id ≡ some peer)
      × (node.remote.request_chunk call peer.host peer.port m.info_hash i
          ≡ ok (slice m.chunk_size_bytes original i))

module _ (node : Setting) (m : FileManifest) (original : Bytes) (valid : IsManifest node.platform m)
    (d : Describes node.platform original m) where
  slice_size :
      (i : ℕ)
      → i < m.total_chunks
      → chunk_size_for_index m (pos i) ≡ ok (length (slice m.chunk_size_bytes original i))
  slice_size i p =
      chunk_size_for_index_lem m i valid.shape p
      ∙ ap ok (
          omega (
            arith,
            d.size,
            length-take m.chunk_size_bytes (drop (m.chunk_size_bytes * i) original),
            length-drop (m.chunk_size_bytes * i) original,
          ))

  -- What writing a chunk of the file does.
  record Wrote (i : ℕ) (s s' : Local) : Type 0 where
    faithful : IsFaithful node.platform m original s'
    left :
        (k : ℕ)
        → contains k (chunks_with pending m.info_hash s'.download_chunks)
          ≡ (not (i == k) && contains k (chunks_with pending m.info_hash s.download_chunks))

  write_slice :
      (i : ℕ) (s : Local)
      → i < m.total_chunks
      → IsFaithful node.platform m original s
      → (s' : Local) × (write_chunk node.platform node.now m
            (pos i)
            (slice m.chunk_size_bytes original i)
            s
          ≡ (ok tt, s'))
        × Wrote i s s'
  write_slice i s p h =
      let chunk_data = slice m.chunk_size_bytes original i in
      let s' = written node.now m i chunk_data h.intact.row s in
      let e =
        write_chunk_accepts node.platform node.now m chunk_data s i h.intact.row p (slice_size i p)
          (d.piece i p) h.intact.found in
      let after =
        write_chunk-IsIntact node.platform node.now m i chunk_data s valid.shape h.intact s' e in
      let progress =
        write_chunk-progress node.platform node.now m i chunk_data s s' h.intact.rows e in
      (
        s',
        e,
        record {
          faithful = record {
            intact = after;
            agrees = λ k c.
                write_chunk-slice node.platform node.now m i chunk_data s valid.shape h.intact s'
                  after e k
                ∙ elim (Bool-cases (i == k)) [
                  | inl same ↦ ground (arith, same)
                  | inr other ↦
                      ground (arith, other, h.agrees k (ground (arith, (progress k).0, other, c)))
                ];
          };
          left = λ k. (progress k).1;
        },
      )

  module _ (peers : List SwarmPeerResponse) (honest : IsHonest node m original peers) where
    fetch_slice :
        (i call : ℕ) (s : Local)
        → i < m.total_chunks
        → IsFaithful node.platform m original s
        → (s' : Local) × (fetch_chunk node m.info_hash peers m i call s ≡ (ok tt, s'))
          × Wrote i s s'
    unfolding fetch_chunk IsHonest
    fetch_slice i call s p h =
        let (peer, chosen, gives) = honest i call p in
        let (s', e, wrote) = write_slice i s p h in (s', ground (arith, chosen, gives, e), wrote)

    -- The loop over chunks in range, without a bound on their number.
    pub fetch_chunks-IsFaithful :
        (missing : List ℕ) (call : ℕ) (s : Local)
        → All (λ i. i < m.total_chunks) missing
        → IsFaithful node.platform m original s
        → (s' : Local) × (fetch_chunks node m.info_hash peers m none missing call s ≡ (ok tt, s'))
          × IsFaithful node.platform m original s'
          × ((k : ℕ)
              → contains k (chunks_with pending m.info_hash s'.download_chunks) ≡ (
                  not (contains k missing)
                  && contains k (chunks_with pending m.info_hash s.download_chunks)))
    unfolding fetch_chunks
    fetch_chunks-IsFaithful [] call s inside h = (s, refl, h, λ k. refl)
    fetch_chunks-IsFaithful (i ∷ missing) call s inside h =
        let (s1, e1, wrote) = fetch_slice i call s inside.0 h in
        let (s2, e2, faithful, left) =
          fetch_chunks-IsFaithful missing (suc call) s1 inside.1 wrote.faithful in
        (s2, ground (arith, e1, e2), faithful, λ k. left k ∙ ground (arith, wrote.left k))
