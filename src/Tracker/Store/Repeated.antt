-- ===== src/Tracker/Store/Repeated.antt =====
-- Announcements of one file after another: `announce_file` of src/shardnet/tracker/store.py keeps what
-- the first one said.
use shard_net.Base.{
  ℕ, true, some, ◌≡◌, ◌∙◌, sym, ap, ◌↔◌, any, arith, Bool-cases, Option-cases, inl, inr,
}
use shard_net.Base.Rows.{find_row}
use shard_net.Base.Rows.Laws.{find_row-any}
use shard_net.Errors.{ok, raise, file_metadata_conflict_error}
use shard_net.Tracker.Tables.{FileRow, Database, is_peer, is_file}
use shard_net.Tracker.Store.{Announcement, has_metadata_conflict, announce_metadata, announce_file}
use shard_net.Tracker.Store.Conflict.{Agrees, has_metadata_conflict-Agrees}
use shard_net.Tracker.Store.Announced.{announce_metadata-Announced}
use shard_net.Tracker.Store.Outcomes.{announce_file-ok}

-- The metadata that a peer and the tracker agree on, of an announcement against the first one.
pub record SameFile (a b : Announcement) : Type 0 where
  pub file_name : a.file_name ≡ b.file_name
  pub file_size_bytes : a.file_size_bytes ≡ b.file_size_bytes
  pub chunk_size_bytes : a.chunk_size_bytes ≡ b.chunk_size_bytes
  pub total_chunks : a.total_chunks ≡ b.total_chunks
  pub file_sha256 : a.file_sha256 ≡ b.file_sha256
  pub chunk_sha256 : a.chunk_sha256 ≡ b.chunk_sha256

Agrees-SameFile : (f : FileRow) (a b : Announcement) → Agrees f a → Agrees f b ↔ SameFile a b
Agrees-SameFile f a b g = (
  λ h. record {
    file_name = sym g.file_name ∙ h.file_name;
    file_size_bytes = sym g.file_size_bytes ∙ h.file_size_bytes;
    chunk_size_bytes = sym g.chunk_size_bytes ∙ h.chunk_size_bytes;
    total_chunks = sym g.total_chunks ∙ h.total_chunks;
    file_sha256 = sym g.file_sha256 ∙ h.file_sha256;
    chunk_sha256 = sym g.chunk_sha256 ∙ h.chunk_sha256;
  },
  λ s. record {
    file_name = g.file_name ∙ s.file_name;
    file_size_bytes = g.file_size_bytes ∙ s.file_size_bytes;
    chunk_size_bytes = g.chunk_size_bytes ∙ s.chunk_size_bytes;
    total_chunks = g.total_chunks ∙ s.total_chunks;
    file_sha256 = g.file_sha256 ∙ s.file_sha256;
    chunk_sha256 = g.chunk_sha256 ∙ s.chunk_sha256;
  },
)

-- A known file is refused exactly when the announcement differs from what is stored.
conflict_iff :
    (now : ℕ) (b : Announcement) (db : Database) (f : FileRow)
    → any (is_peer b.peer_id) db.peers ≡ true
    → find_row (is_file b.info_hash) db.files ≡ some f
    → (announce_file now b db ≡ (raise (file_metadata_conflict_error b.info_hash), db))
      ↔ (¬ Agrees f b)
unfolding announce_file announce_metadata
conflict_iff now b db f known found = elim (Option-cases (find_row (is_peer b.peer_id) db.peers)) [
  | inl unknown ↦ absurd (ground (arith, find_row-any (is_peer b.peer_id) db.peers))
  | inr (peer, at) ↦ elim (Bool-cases (has_metadata_conflict f b)) [
    | inl conflict ↦
        (λ h g. ground (arith, (has_metadata_conflict-Agrees f b).1 g), λ h. ground arith)
    | inr same ↦
        (λ h. absurd (ground arith), λ h. absurd (h ((has_metadata_conflict-Agrees f b).0 same)))
  ]
]

-- After a successful announcement of a file, a registered peer's announcement of the same hash is
-- refused, with the tables unchanged, exactly when it describes another file.
pub announce_file-announce_file :
    (now later : ℕ) (a b : Announcement) (db : Database) {n : ℕ} {db' : Database}
    → announce_file now a db ≡ (ok n, db')
    → b.info_hash ≡ a.info_hash
    → any (is_peer b.peer_id) db'.peers ≡ true
    → (announce_file later b db' ≡ (raise (file_metadata_conflict_error b.info_hash), db'))
      ↔ (¬ SameFile a b)
announce_file-announce_file now later a b db {n} {db'} e same known =
    let (files', written, state) = announce_file-ok now a db e in
    let an = announce_metadata-Announced now a db.files written in
    let (to, back) =
      conflict_iff later b db' an.file known
        (ground (arith, an.found, ap (λ (d : Database). d.files) state, same)) in
    let (weaken, strengthen) = Agrees-SameFile an.file a b an.agrees in
    (λ h s. to h (strengthen s), λ h. back (λ g. h (weaken g)))
