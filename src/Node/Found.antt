-- ===== src/Node/Found.antt =====
-- What another node finds of a file that a node shares (src/shardnet/client/core/node.py, with
-- tracker_client.py and the tracker behind it).
use shard_net.Base.{
  ℕ, pos, String, true, not, some, List, [], ◌∷◌, map, ◌-◌, ◌<◌, ◌≡◌, ◌≢◌, refl, ap, ◌∙◌, sym,
  subst, any, ◌==◌, ◌&&◌, nat_eq, text_eq, length, arith, eq_iff, Option-cases, inl, inr,
}
use shard_net.Base.SortedSet.{contains, range, contains-range}
use shard_net.Json.{Json}
use shard_net.Errors.{Result, ok, raise}
use shard_net.Platform.{Bytes}
use shard_net.Disk.{read_file}
use shard_net.Manifest.{FileManifest, text_within, validate}
use shard_net.Manifest.Shape.{IsManifest}
use shard_net.Manifest.Chunking.{slice, Describes, build_file_manifest-Describes}
use shard_net.Share.Store.{Shares, register_file, read_chunk}
use shard_net.Share.Served.{read_chunk-register_file}
use shard_net.Tracker.Tables.{Database, is_peer}
use shard_net.Tracker.Store.{is_stale}
use shard_net.Tracker.Store.Invariant.{IsValid}
use shard_net.Api.Schemas.{AnnounceFileResponse, SwarmPeerResponse, SwarmResponse}
use shard_net.Api.Routes.{Web, Tracker}
use shard_net.Api.Client.{announce_file, get_swarm}
use shard_net.Api.Relayed.{connected}
use shard_net.Api.Shared.{validate-swarm_manifest}
use shard_net.Node.Download.{is_index, has_chunk, swarm_manifest, select_peer_for_chunk}
use shard_net.Node.Resumable.{select_peer_for_chunk_lem}
use shard_net.Node.Sharing.{announced, announce_registered, share_file}

every_chunk : (i : ℕ) (cs : List ℕ) → any (is_index i) (map pos cs) ≡ any (λ x. i == x) cs
every_chunk i [] = refl
every_chunk i (c ∷ cs) = ground (arith, every_chunk i cs)

contains_flip : (i : ℕ) (cs : List ℕ) → any (λ x. i == x) cs ≡ contains i cs
contains_flip i [] = refl
contains_flip i (c ∷ cs) = ground (arith, contains_flip i cs)

-- A listed peer is another one for a node with another identity.
listed_elsewhere :
    (peer_id local_id : String) (i : ℕ) (peers : List SwarmPeerResponse)
    → peer_id ≢ local_id
    → any (λ p. p.peer_id == peer_id && has_chunk i p) peers ≡ true
    → any (λ p. not (p.peer_id == local_id) && has_chunk i p) peers ≡ true
listed_elsewhere peer_id local_id i [] other h = absurd (ground (arith, h))
listed_elsewhere peer_id local_id i (p ∷ peers) other h = ground (
  arith,
  h,
  listed_elsewhere peer_id local_id i peers other,
  eq_iff p.peer_id peer_id,
  eq_iff p.peer_id local_id,
  λ (a : p.peer_id ≡ peer_id) (b : p.peer_id ≡ local_id). other (sym a ∙ b),
)

module _ (web : Web) (to_text : Json → String) (tracker : Tracker) (now : ℕ) (peer_id path : String)
    (content : Bytes) (n : ℕ) (shares shares' : Shares) (db db' : Database) (m : FileManifest)
    (there : read_file path shares.disk ≡ some content)
    (named : text_within 1 256 (tracker.platform.base_name path) ≡ true)
    (size_pos : 0 < length content) (n_pos : 0 < n)
    (done : share_file (connected web to_text tracker) now peer_id path (pos n) shares db
      ≡ (some (ok m), shares', db')) where
  -- The three results of the registration, and the call of the tracker.
  record Steps : Type 0 where
    valid : IsManifest tracker.platform m
    sized : m.chunk_size_bytes ≡ n
    describes : Describes tracker.platform content m
    served :
        (i : ℕ)
        → i < m.total_chunks
        → read_chunk tracker.platform m.info_hash (pos i) shares' ≡ ok (some (slice n content i))
    answer : AnnounceFileResponse
    call :
        announce_file (connected web to_text tracker) peer_id m (map pos (range m.total_chunks)) db
        ≡ (ok answer, db')

  announced-call :
      (m0 : FileManifest) (s0 : Shares) (r : Result AnnounceFileResponse × Database)
      → announced m0 s0 r ≡ (some (ok m), shares', db')
      → (m0 ≡ m) × (s0 ≡ shares') × ((answer : AnnounceFileResponse) × (r ≡ (ok answer, db')))
  announced-call m0 s0 (ok answer, s) e =
      (ground (arith, e), ground (arith, e), (answer, ground (arith, e)))
  announced-call m0 s0 (raise x, s) e = absurd (ground (arith, e))

  registered-IsManifest :
      (m0 : FileManifest) (s0 : Shares)
      → register_file tracker.platform now path (pos n) shares ≡ (some (ok m0), s0)
      → IsManifest tracker.platform m0 × (m0.chunk_size_bytes ≡ n)
  unfolding register_file
  registered-IsManifest m0 s0 e =
      let (m1, built, valid, _, _, sized) =
        build_file_manifest-Describes tracker.platform (tracker.platform.base_name path) content n
          named size_pos n_pos in
      let same : m1 ≡ m0 = ground (arith, e, there, built) in
      (subst (IsManifest tracker.platform) same valid, ground (arith, same, sized))

  steps : Steps
  unfolding share_file
  steps =
      let (m0, s0, reg, d, read) =
        read_chunk-register_file tracker.platform now path content n shares there named size_pos
          n_pos in
      let client = connected web to_text tracker in
      let same : announce_registered client peer_id (some (ok m0), s0) db
          ≡ (some (ok m), shares', db') =
        ap (λ r. announce_registered client peer_id r db) (sym reg) ∙ done in
      let (m_eq, s_eq, (answer, call)) = announced-call m0 s0 _ same in
      record {
        valid = subst (IsManifest tracker.platform) m_eq (registered-IsManifest m0 s0 reg).0;
        sized =
            sym (ap (λ (k : FileManifest). k.chunk_size_bytes) m_eq)
            ∙ (registered-IsManifest m0 s0 reg).1;
        describes = subst (Describes tracker.platform content) m_eq d;
        served =
            subst
              (λ (k : FileManifest).
                (i : ℕ)
                → i < k.total_chunks
                → read_chunk tracker.platform k.info_hash (pos i) shares'
                  ≡ ok (some (slice n content i)))
              m_eq
              (subst
                (λ (t : Shares).
                  (i : ℕ)
                  → i < m0.total_chunks
                  → read_chunk tracker.platform m0.info_hash (pos i) t
                    ≡ ok (some (slice n content i)))
                s_eq read);
        answer = answer;
        call =
            subst
              (λ (k : FileManifest).
                announce_file client peer_id k (map pos (range k.total_chunks)) db
                ≡ (ok answer, db'))
              m_eq call;
      }

  pub shared_size : m.chunk_size_bytes ≡ n
  shared_size = steps.sized

  -- If a node shares a file that is there, not empty, with a name of 1 to 256 characters, in chunks of a
  -- positive size, over HTTP with a tracker of valid tables, and the call returns the manifest `m`, then `m`
  -- describes the file, and as long as the tracker does not find the node stale, a client that asks for the
  -- swarm gets an answer from which `m` is built, and from whose peers every node with another identity
  -- selects one for every chunk; and the node hands out each of these chunks as the piece of the file.
  pub share_file-get_swarm :
      (later : ℕ) (local_id : String)
      → IsValid db
      → any
          (λ p. is_peer peer_id p && not (is_stale (later - tracker.heartbeat_ttl_seconds) p))
          db.peers
        ≡ true
      → peer_id ≢ local_id
      → Describes tracker.platform content m
        × ((swarm : SwarmResponse) × ((get_swarm
                (connected web to_text (record tracker { now = later }))
                m.info_hash
                db').0
              ≡ ok swarm)
            × (validate tracker.platform (swarm_manifest swarm) ≡ ok m)
            × ((i : ℕ)
                → i < m.total_chunks
                → ((peer : SwarmPeerResponse) × (select_peer_for_chunk swarm.peers i local_id
                      ≡ some peer))
                  × (read_chunk tracker.platform m.info_hash (pos i) shares'
                      ≡ ok (some (slice n content i)))))
  share_file-get_swarm later local_id v live other =
      let st = steps in
      let (swarm, got, manifest, has) =
        validate-swarm_manifest web to_text tracker later peer_id m (map pos (range m.total_chunks))
          db db' st.answer v st.valid st.call live in
      (
        st.describes,
        (
          swarm,
          got,
          manifest,
          λ i p. (
            selected swarm i (
                has i (
                  every_chunk i (range m.total_chunks)
                  ∙ contains_flip i (range m.total_chunks)
                  ∙ contains-range i m.total_chunks
                  ∙ ground (arith, p))),
            st.served i p,
          ),
        ),
      )
    where
      selected :
          (swarm : SwarmResponse) (i : ℕ)
          → any (λ p. p.peer_id == peer_id && has_chunk i p) swarm.peers ≡ true
          → (peer : SwarmPeerResponse) × (select_peer_for_chunk swarm.peers i local_id ≡ some peer)
      selected swarm i h = elim (Option-cases (select_peer_for_chunk swarm.peers i local_id)) [
        | inl nobody ↦ absurd (
            ground (
              arith,
              (select_peer_for_chunk_lem swarm.peers i local_id).1 nobody,
              listed_elsewhere peer_id local_id i swarm.peers other h,
            ))
        | inr found ↦ found
      ]
