-- ===== src/Tracker/Swarm/Announced.antt =====
-- The answers of `get_swarm` of src/shardnet/tracker/store.py as a whole: who is listed, how, in which
-- order, and that an announcement is listed by a later query.
use shard_net.Base.{
  ℕ, String, Bool, true, not, some, List, [], ◌∷◌, map, ◌≡◌, refl, ◌∙◌, ap, arith, All, any, ◌&&◌,
  ◌==◌, text_eq, nat_eq, list_eq, eq_iff, list_beq_iff, Option-cases, inl, inr, ◌-◌,
}
use shard_net.Base.Rows.{find_row}
use shard_net.Base.Rows.Laws.{any-upsert_hit, find_row-holds}
use shard_net.Errors.{Result, ok}
use shard_net.Tracker.Tables.{
  PeerRow, FileRow, PeerFileState, Database, is_peer, is_file, is_state, FileRecord,
  SwarmPeerRecord, SwarmSnapshot,
}
use shard_net.Tracker.Chunks.{
  normalize_chunks, normalize_chunks-IsChunkSet, parse_chunks, parse_chunks-dumps,
}
use shard_net.Tracker.Store.{
  Announcement, is_stale, delete_stale, new_state, refresh_state, announce_file,
}
use shard_net.Tracker.Store.Invariant.{IsValid}
use shard_net.Tracker.Store.Conflict.{Agrees}
use shard_net.Tracker.Store.Announced.{announce_metadata-Announced, announce_file-IsValid}
use shard_net.Tracker.Store.Outcomes.{announce_file-ok}
use shard_net.Tracker.Swarm.{
  Joined, file_record, of_file, peer_rows, swarm_peer, snapshot, get_swarm,
}
use shard_net.Tracker.Swarm.Rows.{any-peer_rows}
use shard_net.Tracker.Swarm.Answer.{
  IsListed, IsRanked, peer_rows-All, peer_rows-IsOrdered, map-IsRanked, map-IsListed,
}

any-map-swarm_peer :
    (test : SwarmPeerRecord → Bool) (total : ℕ) (rows : List Joined)
    → any test (map (swarm_peer total) rows) ≡ any (λ row. test (swarm_peer total row)) rows
any-map-swarm_peer test total [] = refl
any-map-swarm_peer test total (x ∷ xs) = ground (arith, any-map-swarm_peer test total xs)

any_cong : {A : Type 0} (f g : A → Bool) (xs : List A) → ((x : A) → f x ≡ g x) → any f xs ≡ any g xs
any_cong f g [] h = refl
any_cong f g (x ∷ xs) h = ground (arith, h x, any_cong f g xs h)

module _ (now ttl_seconds : ℕ) (info_hash : String) (db : Database) {snap : SwarmSnapshot}
    {db' : Database} where
  -- An answer is the snapshot of the stored file.
  answered :
      get_swarm now info_hash ttl_seconds db ≡ (ok snap, db')
      → (f : FileRow) × (find_row (is_file info_hash) db.files ≡ some f)
        × (snap ≡ snapshot f (peer_rows info_hash (delete_stale (now - ttl_seconds) db)))
  unfolding get_swarm delete_stale
  answered e = elim (Option-cases (find_row (is_file info_hash) db.files)) [
    | inl absent ↦ absurd (ground arith)
    | inr (f, found) ↦ (f, found, ground arith)
  ]

  -- On valid tables every listed peer was seen within the time to live, has a chunk list in order and
  -- in range, and is marked complete exactly when that list holds every chunk; complete peers come
  -- first, and of two alike the one seen later.
  pub get_swarm-IsListed :
      IsValid db
      → get_swarm now info_hash ttl_seconds db ≡ (ok snap, db')
      → All (IsListed (now - ttl_seconds) snap.file.total_chunks) snap.peers × IsRanked snap.peers
  get_swarm-IsListed v e =
      let (f, found, same) = answered e in
      let rows = peer_rows-All (now - ttl_seconds) info_hash db {f = f} v found in
      rw same (
        map-IsListed (now - ttl_seconds) f.total_chunks _ rows,
        map-IsRanked (now - ttl_seconds) f.total_chunks _ rows (peer_rows-IsOrdered info_hash _),
      )

  -- On valid tables a peer is listed exactly when it is registered and not stale, and has a state of the
  -- file.
  pub get_swarm_members :
      (peer_id : String)
      → IsValid db
      → get_swarm now info_hash ttl_seconds db ≡ (ok snap, db')
      → any (λ r. r.peer_id == peer_id) snap.peers ≡ (
          any (λ p. is_peer peer_id p && not (is_stale (now - ttl_seconds) p)) db.peers
          && any (is_state peer_id info_hash) db.peer_file_state)
  get_swarm_members peer_id v e =
      let (f, found, same) = answered e in
      rw same (
        any-map-swarm_peer (λ r. r.peer_id == peer_id) f.total_chunks _
        ∙ any-peer_rows (now - ttl_seconds) (λ row. row.0.peer_id == peer_id) info_hash db
            v.peers_unique
        ∙ per_state db.peer_file_state)
    where
      live : PeerRow → Bool
      live p = not (is_stale (now - ttl_seconds) p)

      per_peer :
          (s : PeerFileState) (peers : List PeerRow)
          → any (λ p. live p && (is_peer s.peer_id p && is_peer peer_id p)) peers
            ≡ (s.peer_id == peer_id && any (λ p. is_peer peer_id p && live p) peers)
      per_peer s [] = ground arith
      per_peer s (p ∷ ps) = ground (
        arith,
        per_peer s ps,
        eq_iff p.peer_id s.peer_id,
        eq_iff p.peer_id peer_id,
        eq_iff s.peer_id peer_id,
      )

      per_state :
          (states : List PeerFileState)
          → any
              (λ s.
                of_file info_hash s
                && any (λ p. live p && (is_peer s.peer_id p && is_peer peer_id p)) db.peers)
              states
            ≡ (any (λ p. is_peer peer_id p && live p) db.peers
                && any (is_state peer_id info_hash) states)
      per_state [] = ground arith
      per_state (s ∷ states) = ground (arith, per_state states, per_peer s db.peers)

-- The file as its announcement describes it.
abbrev pub described : Announcement → FileRecord
described a = record {
  info_hash = a.info_hash;
  file_name = a.file_name;
  file_size_bytes = a.file_size_bytes;
  chunk_size_bytes = a.chunk_size_bytes;
  total_chunks = a.total_chunks;
  file_sha256 = a.file_sha256;
  chunk_sha256 = a.chunk_sha256;
}

-- A peer that has announced a file and is not stale is listed by a later query, with the chunks that it
-- announced, put in order and cut to the range; the answer describes the file by what was announced.
pub get_swarm-announce_file :
    (now later ttl_seconds : ℕ) (a : Announcement) (db : Database) {n : ℕ} {db' : Database}
    → IsValid db
    → announce_file now a db ≡ (ok n, db')
    → any (λ p. is_peer a.peer_id p && not (is_stale (later - ttl_seconds) p)) db.peers ≡ true
    → (snap : SwarmSnapshot) × ((get_swarm later a.info_hash ttl_seconds db').0 ≡ ok snap)
      × (any
            (λ r.
              r.peer_id == a.peer_id
              && r.available_chunks == normalize_chunks a.available_chunks a.total_chunks)
            snap.peers
          ≡ true)
      × (snap.file ≡ described a)
unfolding get_swarm delete_stale
get_swarm-announce_file now later ttl_seconds a db {n} {db'} v e live =
    let (files', written, same) = announce_file-ok now a db e in
    let an = announce_metadata-Announced now a db.files written in
    let cutoff : ℕ = later - ttl_seconds in
    let v' : IsValid db' =
      rw (ap (λ (r : Result ℕ × Database). r.1) e) at (announce_file-IsValid now a db v) in
    (
      snapshot an.file (peer_rows a.info_hash (delete_stale cutoff db')),
      ground (arith, an.found, ap (λ (d : Database). d.files) same),
      any-map-swarm_peer listed an.file.total_chunks _
          ∙ any-peer_rows cutoff (λ row. listed (swarm_peer an.file.total_chunks row)) a.info_hash
              db' v'.peers_unique
          ∙ rw same (
              any-upsert_hit (hit an.file.total_chunks) (is_state a.peer_id a.info_hash)
                (refresh_state new) new db.peer_file_state
                (λ s at.
                  accepts an.file.total_chunks an.agrees.total_chunks s.peer_id s.info_hash
                    (ground (arith, eq_iff s.peer_id a.peer_id))
                    (ground (arith, eq_iff s.info_hash a.info_hash)))
                (accepts an.file.total_chunks an.agrees.total_chunks a.peer_id a.info_hash refl
                  refl)),
      as_described an.file an.agrees
          (find_row-holds (is_file a.info_hash) files' {r = an.file} an.found),
    )
  where
    new : PeerFileState
    new = new_state now a

    norm : List ℕ
    norm = normalize_chunks a.available_chunks a.total_chunks

    listed : SwarmPeerRecord → Bool
    listed r = r.peer_id == a.peer_id && r.available_chunks == norm

    hit : ℕ → PeerFileState → Bool
    hit total s =
        of_file a.info_hash s
        && any
            (λ p.
              not (is_stale (later - ttl_seconds) p)
              && (is_peer s.peer_id p && listed (swarm_peer total (p, s))))
            db.peers

    found :
        (total : ℕ) (s : PeerFileState)
        → s.peer_id ≡ a.peer_id
        → (parse_chunks s.available_chunks total == norm) ≡ true
        → (peers : List PeerRow)
        → any (λ p. is_peer a.peer_id p && not (is_stale (later - ttl_seconds) p)) peers ≡ true
        → any
            (λ p.
              not (is_stale (later - ttl_seconds) p)
              && (is_peer s.peer_id p && listed (swarm_peer total (p, s))))
            peers
          ≡ true
    found total s owner parsed [] h = cc
    found total s owner parsed (p ∷ ps) h =
        ground (arith, found total s owner parsed ps, ap (λ id. is_peer id p) owner)

    as_described :
        (f : FileRow) → Agrees f a → is_file a.info_hash f ≡ true → file_record f ≡ described a
    as_described f g at = ground (arith, eq_iff f.info_hash a.info_hash)

    accepts :
        (total : ℕ)
        → total ≡ a.total_chunks
        → (id hash : String) → id ≡ a.peer_id
        → hash ≡ a.info_hash
        → hit total (record new { peer_id = id; info_hash = hash }) ≡ true
    accepts total t id hash owner file = ground (
      arith,
      (eq_iff hash a.info_hash).1 file,
      found total (record new { peer_id = id; info_hash = hash }) owner
          ((list_beq_iff _ norm).1 (
            ap (parse_chunks new.available_chunks) t
            ∙ parse_chunks-dumps a.total_chunks norm
                (normalize_chunks-IsChunkSet a.available_chunks a.total_chunks)))
          db.peers live,
    )
