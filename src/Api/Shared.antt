-- ===== src/Api/Shared.antt =====
-- From an announcement to a swarm: what one client of src/shardnet/client/core/tracker_client.py announces,
-- another one gets from the tracker.
use shard_net.Base.{
  ℕ, ℤ, pos, String, Bool, true, not, List, [], ◌∷◌, map, ◌-◌, ◌≡◌, sym, ap, ◌∙◌, any, arith, ltb_ℤ,
  text_eq, nat_eq, ◌==◌, ◌&&◌, list_eq, list_beq_iff, inl, inr, eq_iff,
}
use shard_net.Base.SortedSet.{sorted_set}
use shard_net.Json.{Json}
use shard_net.Errors.{Result, ok, Result-cases}
use shard_net.Manifest.{FileManifest, validate, model_dump}
use shard_net.Manifest.Shape.{IsManifest, validate-model_dump}
use shard_net.Tracker.Tables.{Database, SwarmPeerRecord, SwarmSnapshot, is_peer}
use shard_net.Tracker.Chunks.{normalize_chunks, normalize_chunks_id}
use shard_net.Tracker.Store.{is_stale, announce_file as store_announce_file}
use shard_net.Tracker.Store.Invariant.{IsValid}
use shard_net.Tracker.Swarm.{get_swarm as store_get_swarm}
use shard_net.Tracker.Swarm.Announced.{get_swarm-announce_file}
use shard_net.Api.Schemas.{
  AnnounceFileRequest, AnnounceFileResponse, SwarmResponse, normalize_chunk_hashes,
  validate_chunk_bounds, validate_announce,
}
use shard_net.Api.Routes.{
  Tracker, Web, announcement, swarm_peer_response, swarm_response, get_swarm as get_swarm_endpoint,
  app,
}
use shard_net.Api.Client.{announce_fields, parse_response, announce_file, get_swarm}
use shard_net.Api.Accepted.{validate_announce-IsRequest, any-sorted_set}
use shard_net.Api.Relayed.{
  connected, IsRelayed, accepted, unknown_peer, conflicting, overflowing, announce_file-IsRelayed,
}
use shard_net.Node.Download.{is_index, has_chunk, swarm_manifest}

-- A returned call was accepted by the store.
IsRelayed-ok :
    {info_hash : String} {stored : Result ℕ × Database}
    {got : Result AnnounceFileResponse × Database} {answer : AnnounceFileResponse} {db' : Database}
    → IsRelayed info_hash stored got
    → got ≡ (ok answer, db')
    → (n : ℕ) × (stored ≡ (ok n, db'))
IsRelayed-ok (accepted n db) e = (n, ap (λ (d : Database). (ok n, d)) (ap (λ q. q.1) e))
IsRelayed-ok (unknown_peer x db) e = absurd (ground (arith, e))
IsRelayed-ok (conflicting x db) e = absurd (ground (arith, e))
IsRelayed-ok (overflowing db) e = absurd (ground (arith, e))

-- A listed peer with these chunks is a peer of the answer that has each of them.
listed-has_chunk :
    (peer_id : String) (cs : List ℕ) (i : ℕ) (peers : List SwarmPeerRecord)
    → any (is_index i) (map pos cs) ≡ true
    → any (λ r. r.peer_id == peer_id && r.available_chunks == cs) peers ≡ true
    → any (λ p. p.peer_id == peer_id && has_chunk i p) (map swarm_peer_response peers) ≡ true
listed-has_chunk peer_id cs i [] has h = absurd (ground (arith, h))
listed-has_chunk peer_id cs i (r ∷ peers) has h = ground (
  arith,
  h,
  listed-has_chunk peer_id cs i peers has,
  eq_iff r.peer_id peer_id,
  list_beq_iff r.available_chunks cs,
  λ (e : r.available_chunks ≡ cs). ap (λ (l : List ℕ). any (is_index i) (map pos l)) e ∙ has,
)

received_swarm :
    (web : Web) (to_text : Json → String) (tracker : Tracker) (info_hash : String) (db : Database)
    (snap : SwarmSnapshot)
    → (store_get_swarm tracker.now info_hash tracker.heartbeat_ttl_seconds db).0 ≡ ok snap
    → (get_swarm (connected web to_text tracker) info_hash db).0 ≡ ok (swarm_response snap)
unfolding get_swarm app get_swarm_endpoint parse_response
received_swarm web to_text tracker info_hash db snap e =
    let f = web.swarm.dump (swarm_response snap) in
    ground (
      arith,
      e,
      web.success_status f,
      web.success_json f,
      web.swarm.load-dump (swarm_response snap),
    )

module _ (web : Web) (to_text : Json → String) (tracker : Tracker) (peer_id : String)
    (m : FileManifest) (available_chunks : List ℤ) (db db' : Database)
    (answer : AnnounceFileResponse)
    (done : announce_file (connected web to_text tracker) peer_id m available_chunks db
      ≡ (ok answer, db')) where
  request_made :
      (r : AnnounceFileRequest) × (validate_announce tracker.platform
          (announce_fields peer_id m available_chunks)
        ≡ ok r)
  unfolding announce_file
  request_made =
      elim (Result-cases
        (validate_announce tracker.platform (announce_fields peer_id m available_chunks))) [
          | inl made ↦ made
          | inr refused ↦ absurd (ground (arith, done, refused.1))
        ]

  module _ (r : AnnounceFileRequest)
      (made : validate_announce tracker.platform (announce_fields peer_id m available_chunks)
        ≡ ok r) where
    stored : (n : ℕ) × (store_announce_file tracker.now (announcement r) db ≡ (ok n, db'))
    stored =
        IsRelayed-ok
          (announce_file-IsRelayed web to_text tracker peer_id m available_chunks r db made) done

    record SameFields : Type 0 where
      peer : r.peer_id ≡ peer_id
      info_hash : r.info_hash ≡ m.info_hash
      file_name : r.file_name ≡ m.file_name
      file_size_bytes : r.file_size_bytes ≡ m.file_size_bytes
      chunk_size_bytes : r.chunk_size_bytes ≡ m.chunk_size_bytes
      total_chunks : r.total_chunks ≡ m.total_chunks
      file_sha256 : r.file_sha256 ≡ m.file_sha256
      chunk_sha256 : r.chunk_sha256 ≡ m.chunk_sha256
      available : r.available_chunks ≡ sorted_set ltb_ℤ available_chunks

    same_fields : IsManifest tracker.platform m → SameFields
    unfolding validate_announce normalize_chunk_hashes validate_chunk_bounds
    same_fields h =
        ground (arith, made, h.info_hash_lower, h.file_sha256_lower, h.chunk_sha256_lower)

-- If the call by which a peer announces a manifest over HTTP returns, on valid tables, and the peer is not
-- stale at a later time, then a client that asks for the swarm at that time gets an answer from which the
-- same manifest is built, and in which the peer is listed with every chunk that it announced.
pub validate-swarm_manifest :
    (web : Web) (to_text : Json → String) (tracker : Tracker) (later : ℕ) (peer_id : String)
    (m : FileManifest) (available_chunks : List ℤ) (db db' : Database)
    (answer : AnnounceFileResponse)
    → IsValid db
    → IsManifest tracker.platform m
    → announce_file (connected web to_text tracker) peer_id m available_chunks db ≡ (ok answer, db')
    → any
        (λ p. is_peer peer_id p && not (is_stale (later - tracker.heartbeat_ttl_seconds) p))
        db.peers
      ≡ true
    → (swarm : SwarmResponse) × ((get_swarm
          (connected web to_text (record tracker { now = later }))
          m.info_hash
          db').0
        ≡ ok swarm)
      × (validate tracker.platform (swarm_manifest swarm) ≡ ok m)
      × ((i : ℕ)
          → any (is_index i) available_chunks ≡ true
          → any (λ p. p.peer_id == peer_id && has_chunk i p) swarm.peers ≡ true)
validate-swarm_manifest web to_text tracker later peer_id m available_chunks db db' answer v h done
      live =
    let (r, made) =
      request_made web to_text tracker peer_id m available_chunks db db' answer done in
    let (n, e) = stored web to_text tracker peer_id m available_chunks db db' answer done r made in
    let same =
      same_fields web to_text tracker peer_id m available_chunks db db' answer done r made h in
    let chunk_list = (validate_announce-IsRequest tracker.platform _ made).available in
    let cut : normalize_chunks r.available_chunks r.total_chunks ≡ chunk_list.chunks =
      ap (λ (l : List ℤ). normalize_chunks l r.total_chunks) chunk_list.naturals
      ∙ normalize_chunks_id r.total_chunks chunk_list.chunks chunk_list.chunk_set in
    let cutoff : ℕ = later - tracker.heartbeat_ttl_seconds in
    let (snap, got, listed, file) =
      get_swarm-announce_file tracker.now later tracker.heartbeat_ttl_seconds (announcement r) db v
        e
        (ap (λ (q : String). any (λ p. is_peer q p && not (is_stale cutoff p)) db.peers) same.peer
          ∙ live) in
    (
      swarm_response snap,
      received_swarm web to_text (record tracker { now = later }) m.info_hash db' snap
          (ap (λ (q : String). (store_get_swarm later q tracker.heartbeat_ttl_seconds db').0)
              (sym same.info_hash)
            ∙ got),
      ap (validate tracker.platform) (
            let q : swarm_manifest (swarm_response snap) ≡ model_dump m =
              ground (arith, file, same) in
            q)
          ∙ validate-model_dump tracker.platform m h,
      λ i has.
          listed-has_chunk peer_id chunk_list.chunks i snap.peers
            (ap (any (is_index i)) (sym chunk_list.naturals ∙ same.available)
              ∙ any-sorted_set (is_index i) available_chunks
              ∙ has)
            (ap (λ (q : String). any (listing q chunk_list.chunks) snap.peers) (sym same.peer)
              ∙ ap (λ (l : List ℕ). any (listing r.peer_id l) snap.peers) (sym cut)
              ∙ listed),
    )
  where
    listing : String → List ℕ → SwarmPeerRecord → Bool
    listing q l p = p.peer_id == q && p.available_chunks == l
