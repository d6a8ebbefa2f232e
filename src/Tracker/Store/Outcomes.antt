-- ===== src/Tracker/Store/Outcomes.antt =====
-- How the methods of `TrackerStore` (src/shardnet/tracker/store.py) end, on every branch.
use shard_net.Base.{
  ℕ, String, Bool, true, false, none, ◌<◌, ltb, ◌||◌, some, List, ◌≡◌, ◌↔◌, refl, ◌==◌, nat_eq,
  text_eq, if◌then◌else◌, ◌&&◌, any, arith, eq_iff, Bool-cases, Option-cases, inl, inr, ◌⊎◌,
}
use shard_net.Base.Rows.{find_row, update_where}
use shard_net.Base.Rows.Laws.{
  find_row-any, update_where_none, count-eq-zero, count_pos, any-upsert_hit, any-update_where_hit,
}
use shard_net.Errors.{
  Result, ok, raise, Exception, peer_not_found_error, file_metadata_conflict_error, overflow_error,
}
use shard_net.Tracker.Tables.{PeerRow, FileRow, Database, is_peer, is_file}
use shard_net.Tracker.Store.{
  Announcement, see_peer, register_peer, heartbeat_peer, has_metadata_conflict, announce_metadata,
  announced_states, announce_file, has_overflow, max_sqlite_int,
}
use shard_net.Tracker.Store.Conflict.{Agrees, has_metadata_conflict-Agrees}

-- A successful announcement writes the `files` table of `announce_metadata` and the states.
pub announce_file-ok :
    (now : ℕ) (a : Announcement) (db : Database) {n : ℕ} {db' : Database}
    → announce_file now a db ≡ (ok n, db')
    → (files' : List FileRow) × (announce_metadata now a db.files ≡ ok files')
      × (db' ≡ record db {
        files = files';
        peer_file_state = announced_states now a db.peer_file_state;
      })
unfolding announce_file
announce_file-ok now a db {n} {db'} e =
    elim (Option-cases (find_row (is_peer a.peer_id) db.peers)) [
      | inl unknown ↦ absurd (ground arith)
      | inr (peer, known) ↦ written (announce_metadata now a db.files) refl peer known
    ]
  where
    written :
        (r : Result (List FileRow))
        → announce_metadata now a db.files ≡ r
        → (peer : PeerRow) → find_row (is_peer a.peer_id) db.peers ≡ some peer
        → (files' : List FileRow) × (announce_metadata now a db.files ≡ ok files')
          × (db' ≡ record db {
            files = files';
            peer_file_state = announced_states now a db.peer_file_state;
          })
    written (ok files') eq peer known = (files', eq, ground arith)
    written (raise x) eq peer known = absurd (ground arith)

-- A heartbeat succeeds with the current time exactly for a registered peer, whose time it sets; for any
-- other it raises and changes nothing.
pub heartbeat_peer_lem :
    (now : ℕ) (peer_id : String) (db : Database)
    → heartbeat_peer now peer_id db ≡ (
        if any (is_peer peer_id) db.peers
        then (ok now, record db { peers = update_where (is_peer peer_id) (see_peer now) db.peers })
        else (raise (peer_not_found_error peer_id), db))
unfolding heartbeat_peer
heartbeat_peer_lem now peer_id db = elim (Bool-cases (any (is_peer peer_id) db.peers)) [
  | inl known ↦ ground (arith, known, count_pos (is_peer peer_id) db.peers known)
  | inr unknown ↦ ground (
    arith,
    unknown,
    count-eq-zero (is_peer peer_id) db.peers unknown,
    update_where_none (is_peer peer_id) (see_peer now) db.peers unknown,
  )
]

-- A peer that has just registered is known to a heartbeat, and its heartbeat is recorded.
pub heartbeat_peer-register_peer :
    (now later : ℕ) (peer_id host : String) (port : ℕ) (client_version : String) (db : Database)
    → ((heartbeat_peer later peer_id (register_peer now peer_id host port client_version db).1).0
        ≡ ok later)
      × (any
            (λ p. is_peer peer_id p && (p.last_seen_at == later))
            (heartbeat_peer later peer_id
              (register_peer now peer_id host port client_version db).1).1.peers
          ≡ true)
unfolding register_peer
heartbeat_peer-register_peer now later peer_id host port client_version db =
    rw (heartbeat_peer_lem later peer_id, known)
      (
        refl,
        any-update_where_hit seen (is_peer peer_id) (see_peer later) _ (λ r at. ground (arith, at))
            known,
      )
  where
    seen : PeerRow → Bool
    seen p = is_peer peer_id p && (p.last_seen_at == later)

    known :
        any (is_peer peer_id) (register_peer now peer_id host port client_version db).1.peers ≡ true
    known =
        any-upsert_hit (is_peer peer_id) (is_peer peer_id) _ _ db.peers (λ r at. at)
          (ground (arith, eq_iff peer_id peer_id))

-- A number of the announcement that SQLite does not store.
pub data Overflows (a : Announcement) : Type 0 where
  file_size : max_sqlite_int < a.file_size_bytes → Overflows a
  chunk_size : max_sqlite_int < a.chunk_size_bytes → Overflows a
  chunks : max_sqlite_int < a.total_chunks → Overflows a

pub has_overflow-Overflows : (a : Announcement) → (has_overflow a ≡ true) ↔ Overflows a
unfolding has_overflow
has_overflow-Overflows a = (forth, back)
  where
    forth :
        (ltb max_sqlite_int a.file_size_bytes
            || ltb max_sqlite_int a.chunk_size_bytes
            || ltb max_sqlite_int a.total_chunks)
          ≡ true
        → Overflows a
    forth h = elim (Bool-cases (ltb max_sqlite_int a.file_size_bytes)) [
      | inl size ↦ file_size (ground (arith, size))
      | inr small ↦ elim (Bool-cases (ltb max_sqlite_int a.chunk_size_bytes)) [
        | inl size ↦ chunk_size (ground (arith, size))
        | inr few ↦ chunks (ground (arith, h, small, few))
      ]
    ]

    back :
        Overflows a
        → (ltb max_sqlite_int a.file_size_bytes
            || ltb max_sqlite_int a.chunk_size_bytes
            || ltb max_sqlite_int a.total_chunks)
          ≡ true
    back (file_size h) = ground (arith, h)
    back (chunk_size h) = ground (arith, h)
    back (chunks h) = ground (arith, h)

-- A known peer's announcement of a new hash with such a number is refused.
pub announce_file-Overflows :
    (now : ℕ) (a : Announcement) (db : Database)
    → any (is_peer a.peer_id) db.peers ≡ true
    → find_row (is_file a.info_hash) db.files ≡ none
    → Overflows a
    → announce_file now a db ≡ (raise overflow_error, db)
unfolding announce_file announce_metadata
announce_file-Overflows now a db known absent large =
    elim (Option-cases (find_row (is_peer a.peer_id) db.peers)) [
      | inl unknown ↦ absurd (ground (arith, known, find_row-any (is_peer a.peer_id) db.peers))
      | inr (peer, found) ↦ ground (arith, found, absent, (has_overflow-Overflows a).1 large)
    ]

-- A refused announcement changes nothing, and is refused because the peer is unknown, because the peer is
-- known and the stored file does not agree with it, or because the peer is known, no file of this hash is
-- stored, and a number of the announcement is larger than SQLite stores.
pub announce_file_refused :
    (now : ℕ) (a : Announcement) (db : Database) {e : Exception} {db' : Database}
    → announce_file now a db ≡ (raise e, db')
    → (db' ≡ db)
      × (((e ≡ peer_not_found_error a.peer_id) × (any (is_peer a.peer_id) db.peers ≡ false))
          ⊎ (((e ≡ file_metadata_conflict_error a.info_hash)
                × (any (is_peer a.peer_id) db.peers ≡ true)
                × ((f : FileRow) × (find_row (is_file a.info_hash) db.files ≡ some f)
                    × (¬ Agrees f a)))
              ⊎ ((e ≡ overflow_error)
                  × (any (is_peer a.peer_id) db.peers ≡ true)
                  × (find_row (is_file a.info_hash) db.files ≡ none)
                  × Overflows a)))
unfolding announce_file announce_metadata
announce_file_refused now a db {e} {db'} h =
    elim (Option-cases (find_row (is_peer a.peer_id) db.peers)) [
      | inl unknown ↦ (
        ground arith,
        inl (ground arith, ground (arith, find_row-any (is_peer a.peer_id) db.peers)),
      )
      | inr (peer, known) ↦ elim (Option-cases (find_row (is_file a.info_hash) db.files)) [
        | inl absent ↦ elim (Bool-cases (has_overflow a)) [
          | inl large ↦ (
            ground arith,
            inr (
                inr (
                  ground arith,
                  ground (arith, find_row-any (is_peer a.peer_id) db.peers),
                  absent,
                  (has_overflow-Overflows a).0 large,
                )),
          )
          | inr small ↦ absurd (ground arith)
        ]
        | inr (f, found) ↦ elim (Bool-cases (has_metadata_conflict f a)) [
          | inl conflict ↦ (
            ground arith,
            inr (
                inl (
                  ground arith,
                  ground (arith, find_row-any (is_peer a.peer_id) db.peers),
                  (f, found, λ agrees. ground (arith, (has_metadata_conflict-Agrees f a).1 agrees)),
                )),
          )
          | inr same ↦ absurd (ground arith)
        ]
      ]
    ]
