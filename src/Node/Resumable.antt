-- ===== src/Node/Resumable.antt =====
-- Whatever the tracker and the peers answer, a download of src/shardnet/client/core/node.py stays intact,
-- so it can be resumed; and a peer is asked only for a chunk that it offers.
use shard_net.Base.{
  ℕ, suc, ℤ, pos, String, Bool, true, false, not, Option, none, some, List, [], ◌∷◌, ◌≡◌, ◌≢◌, refl,
  sym, subst, any, ◌&&◌, ◌==◌, text_eq, if◌then◌else◌, arith, eq_iff,
}
use shard_net.Errors.{Result, ok, raise}
use shard_net.Platform.{Bytes}
use shard_net.Manifest.{FileManifest}
use shard_net.Manifest.Shape.{IsManifest}
use shard_net.Download.Tables.{Local, Action}
use shard_net.Exec.{Keeps, >>=-Keeps, or_throw-Keeps, if-Keeps, ◌>>=◌, pure, lift, or_throw}
use shard_net.Download.Store.{write_chunk}
use shard_net.Download.Writes.{write_chunk_refused}
use shard_net.Download.Intact.{IsIntact}
use shard_net.Download.Kept.{write_chunk-IsIntact}
use shard_net.Api.Schemas.{SwarmPeerResponse}
use shard_net.Node.Download.{
  Setting, has_chunk, select_peer_for_chunk, is_enough, chunk_unavailable, fetch_chunk,
  fetch_chunks,
}

offers : ℕ → String → SwarmPeerResponse → Bool
offers chunk_index local_peer_id p = not (p.peer_id == local_peer_id) && has_chunk chunk_index p

some_selected :
    (peers : List SwarmPeerResponse) (chunk_index : ℕ) (local_peer_id : String)
    {peer : SwarmPeerResponse}
    → select_peer_for_chunk peers chunk_index local_peer_id ≡ some peer
    → offers chunk_index local_peer_id peer ≡ true
unfolding select_peer_for_chunk offers
some_selected [] i local_id e = absurd (ground arith)
some_selected (p ∷ ps) i local_id {peer} e =
    ground (arith, some_selected ps i local_id {peer = peer})

none_selected :
    (peers : List SwarmPeerResponse) (chunk_index : ℕ) (local_peer_id : String)
    → select_peer_for_chunk peers chunk_index local_peer_id ≡ none
    → any (offers chunk_index local_peer_id) peers ≡ false
unfolding select_peer_for_chunk offers
none_selected [] i local_id e = refl
none_selected (p ∷ ps) i local_id e = ground (arith, none_selected ps i local_id)

-- The peer that is selected is another one than the node itself and offers the chunk; and none is
-- selected only when no other peer offers it.
pub select_peer_for_chunk_lem :
    (peers : List SwarmPeerResponse) (chunk_index : ℕ) (local_peer_id : String)
    → ((peer : SwarmPeerResponse)
        → select_peer_for_chunk peers chunk_index local_peer_id ≡ some peer
        → (peer.peer_id ≢ local_peer_id) × (has_chunk chunk_index peer ≡ true))
      × (select_peer_for_chunk peers chunk_index local_peer_id ≡ none
          → any (λ p. not (p.peer_id == local_peer_id) && has_chunk chunk_index p) peers ≡ false)
unfolding offers
select_peer_for_chunk_lem peers chunk_index local_peer_id = (
  λ peer e.
      let found = some_selected peers chunk_index local_peer_id {peer = peer} e in
      (λ p. ground (arith, found, eq_iff peer.peer_id local_peer_id), ground (arith, found)),
  none_selected peers chunk_index local_peer_id,
)

-- What every write of a chunk keeps, a whole download keeps, whatever the peers answer.
module _ {ℓ} (node : Setting) (m : FileManifest) (P : Local → Type ℓ)
    (writes : (i : ℕ) (chunk_data : Bytes)
      → Keeps P (write_chunk node.platform node.now m (pos i) chunk_data)) where
  -- What is asked of a peer, and what is done with its answer.
  ask : String → ℕ → ℕ → SwarmPeerResponse → Action (Unit {0})
  ask info_hash i call peer =
      lift (node.remote.request_chunk call peer.host peer.port info_hash i) >>= λ chunk_data.
      write_chunk node.platform node.now m (pos i) chunk_data

  ask-Keeps :
      (info_hash : String) (i call : ℕ) (peer : SwarmPeerResponse)
      → Keeps P (ask info_hash i call peer)
  unfolding ask
  ask-Keeps info_hash i call peer =
      >>=-Keeps P (lift (node.remote.request_chunk call peer.host peer.port info_hash i))
        (λ chunk_data. write_chunk node.platform node.now m (pos i) chunk_data) (λ s p. p)
        (λ chunk_data. writes i chunk_data)

  fetch_chunk-Keeps :
      (info_hash : String) (peers : List SwarmPeerResponse) (chunk_index call : ℕ)
      → Keeps P (fetch_chunk node info_hash peers m chunk_index call)
  unfolding fetch_chunk ask
  fetch_chunk-Keeps info_hash peers i call =
      let selected = select_peer_for_chunk peers i node.peer_id in
      >>=-Keeps P (or_throw selected (chunk_unavailable i info_hash)) (ask info_hash i call)
        (or_throw-Keeps P selected (chunk_unavailable i info_hash))
        (λ peer. ask-Keeps info_hash i call peer)

  pub fetch_chunks-Keeps :
      (info_hash : String) (peers : List SwarmPeerResponse) (max_chunks : Option ℤ)
      (missing : List ℕ) (call : ℕ)
      → Keeps P (fetch_chunks node info_hash peers m max_chunks missing call)
  unfolding fetch_chunks
  fetch_chunks-Keeps info_hash peers max_chunks [] call s kept = kept
  fetch_chunks-Keeps info_hash peers max_chunks (i ∷ is) call s kept =
      let rest = fetch_chunks node info_hash peers m max_chunks is (suc call) in
      >>=-Keeps P (fetch_chunk node info_hash peers m i call)
        (λ _. if is_enough max_chunks (suc call) then pure tt else rest)
        (fetch_chunk-Keeps info_hash peers i call)
        (λ _.
          if-Keeps P (is_enough max_chunks (suc call)) (pure tt) rest (λ s2 p. p)
            (fetch_chunks-Keeps info_hash peers max_chunks is (suc call)))
        s kept

module _ (node : Setting) (m : FileManifest) (valid : IsManifest node.platform m) where
  pub write_chunk-Keeps :
      (chunk_index : ℕ) (chunk_data : Bytes)
      → Keeps
          (IsIntact node.platform m)
          (write_chunk node.platform node.now m (pos chunk_index) chunk_data)
  write_chunk-Keeps i chunk_data s intact =
      go (write_chunk node.platform node.now m (pos i) chunk_data s) refl
    where
      go :
          (r : Result (Unit {0}) × Local)
          → write_chunk node.platform node.now m (pos i) chunk_data s ≡ r
          → IsIntact node.platform m r.1
      go (ok tt, s') e =
          write_chunk-IsIntact node.platform node.now m i chunk_data s valid.shape intact s' e
      go (raise x, s') e =
          subst (IsIntact node.platform m)
            (sym (write_chunk_refused node.platform node.now m chunk_data s (pos i) x s' e)) intact

  -- Whatever the peers answer, and however the loop ends, an intact download stays intact.
  pub fetch_chunks-IsIntact :
      (info_hash : String) (peers : List SwarmPeerResponse) (max_chunks : Option ℤ)
      (missing : List ℕ) (call : ℕ) (s : Local)
      → IsIntact node.platform m s
      → IsIntact node.platform m (fetch_chunks node info_hash peers m max_chunks missing call s).1
  fetch_chunks-IsIntact = fetch_chunks-Keeps node m (IsIntact node.platform m) write_chunk-Keeps
