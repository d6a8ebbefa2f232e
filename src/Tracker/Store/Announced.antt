-- ===== src/Tracker/Store/Announced.antt =====
-- `announce_file` of src/shardnet/tracker/store.py keeps the invariant; what it does to `files`.
use shard_net.Base.{
  ℕ, true, none, some, List, [], ◌∷◌, ◌++◌, ◌≡◌, refl, ◌∙◌, subst, nat_eq, text_eq, if◌then◌else◌,
  any, All, arith, eq_iff, text_eq_comm, Bool-cases, Option-cases, inl, inr,
}
use shard_net.Base.Rows.{find_row, update_where}
use shard_net.Base.Rows.Laws.{
  UniqueBy, append_new-UniqueBy, All-append, All-imp, All-update_where, All-upsert,
  update_where-UniqueBy, upsert-UniqueBy, find_row-update_where, find_row-append,
  find_row-append_new, find_row-holds, find_row-any,
}
use shard_net.Errors.{Result, ok, raise, ◌>>=◌}
use shard_net.Tracker.Store.Conflict.{Agrees, has_metadata_conflict-Agrees}
use shard_net.Tracker.Tables.{PeerRow, FileRow, PeerFileState, Database, is_peer, is_file, is_state}
use shard_net.Tracker.Chunks.{
  normalize_chunks, normalize_chunks-IsChunkSet, parse_chunk_hashes-dumps,
}
use shard_net.Tracker.Store.{
  Announcement, transaction, has_metadata_conflict, new_file, touch_file, announce_metadata,
  new_state, refresh_state, announced_states, advertising, announce_file,
}
use shard_net.Tracker.Store.Invariant.{
  same_file, same_state, Records, IsStateOf, HasHashes, IsValid,
}

-- What a successful announcement does to the `files` table.
pub record Announced (a : Announcement) (files files' : List FileRow) : Type 0 where
  pub files_unique : UniqueBy same_file files → UniqueBy same_file files'
  pub hashes : All HasHashes files → All HasHashes files'
  pub kept : (s : PeerFileState) → IsStateOf files s → IsStateOf files' s
  pub file : FileRow
  pub found : find_row (is_file a.info_hash) files' ≡ some file
  pub agrees : Agrees file a

module _ (now : ℕ) (a : Announcement) (files : List FileRow) where
  Announced-append :
      find_row (is_file a.info_hash) files ≡ none → Announced a files (files ++ new_file now a ∷ [])
  Announced-append absent = record {
    files_unique =
        append_new-UniqueBy same_file (is_file a.info_hash) (new_file now a) files
          (λ r. text_eq_comm a.info_hash r.info_hash)
          (find_row-any (is_file a.info_hash) files ∙ rw absent);
    hashes = λ h. All-append HasHashes files (new_file now a ∷ []) h ((a.chunk_sha256, refl), tt);
    kept = λ s st. (
      st.0,
      find_row-append (is_file s.info_hash) files (new_file now a ∷ []) {r = st.0} st.1,
      st.2,
    );
    file = new_file now a;
    found =
        find_row-append_new (is_file a.info_hash) files (new_file now a ∷ []) absent
        ∙ ground (arith, eq_iff a.info_hash a.info_hash);
    agrees = record {
      file_name = refl;
      file_size_bytes = refl;
      chunk_size_bytes = refl;
      total_chunks = refl;
      file_sha256 = refl;
      chunk_sha256 = parse_chunk_hashes-dumps a.chunk_sha256;
    };
  }

  Announced-update_where :
      (row : FileRow)
      → find_row (is_file a.info_hash) files ≡ some row
      → Agrees row a
      → Announced a files (update_where (is_file a.info_hash) (touch_file now) files)
  Announced-update_where row present agrees = record {
    files_unique =
        update_where-UniqueBy same_file (is_file a.info_hash) (touch_file now) files (λ r q. refl)
          (λ r q. refl);
    hashes = All-update_where HasHashes (is_file a.info_hash) (touch_file now) files (λ r e h. h);
    kept = λ s st.
        let f = st.0 in
        (
          if is_file a.info_hash f then touch_file now f else f,
          find_row-update_where (is_file s.info_hash) (is_file a.info_hash) (touch_file now) files
              {r = f} (λ q. refl) st.1,
          elim (Bool-cases (is_file a.info_hash f)) [ inl y ↦ rw y st.2 | inr n ↦ rw n st.2 ],
        );
    file = touch_file now row;
    found =
        find_row-update_where (is_file a.info_hash) (is_file a.info_hash) (touch_file now) files
          {r = row} (λ q. refl) present
        ∙ ground (arith, find_row-holds (is_file a.info_hash) files {r = row} present);
    agrees = record {
      file_name = agrees.file_name;
      file_size_bytes = agrees.file_size_bytes;
      chunk_size_bytes = agrees.chunk_size_bytes;
      total_chunks = agrees.total_chunks;
      file_sha256 = agrees.file_sha256;
      chunk_sha256 = agrees.chunk_sha256;
    };
  }

  pub announce_metadata-Announced :
      {files' : List FileRow} → announce_metadata now a files ≡ ok files' → Announced a files files'
  unfolding announce_metadata
  announce_metadata-Announced {files'} e =
      elim (Option-cases (find_row (is_file a.info_hash) files)) [
        | inl absent ↦ subst (Announced a files) (ground arith) (Announced-append absent)
        | inr (row, present) ↦ elim (Bool-cases (has_metadata_conflict row a)) [
          | inl conflict ↦ absurd (ground arith)
          | inr same ↦
              subst (Announced a files) (ground arith)
                (Announced-update_where row present ((has_metadata_conflict-Agrees row a).0 same))
        ]
      ]

-- Under an announcement the new or refreshed state is of the announced file.
announced_states-All :
    (now : ℕ) (a : Announcement) (files files' : List FileRow) (states : List PeerFileState)
    → Announced a files files'
    → All (IsStateOf files) states
    → All (IsStateOf files') (announced_states now a states)
announced_states-All now a files files' states an h =
    All-upsert (IsStateOf files') (is_state a.peer_id a.info_hash) (refresh_state new) new states
      (λ s at st. (an.file, rw (key s at) an.found, recorded)) (an.file, an.found, recorded)
      (All-imp (IsStateOf files) (IsStateOf files') states an.kept h)
  where
    new : PeerFileState
    new = new_state now a

    recorded : Records an.file.total_chunks new.available_chunks new.completed
    recorded = rw an.agrees.total_chunks (record {
      chunks = normalize_chunks a.available_chunks a.total_chunks;
      stored = refl;
      chunk_set = normalize_chunks-IsChunkSet a.available_chunks a.total_chunks;
      flag = refl;
    })

    key : (s : PeerFileState) → is_state a.peer_id a.info_hash s ≡ true → s.info_hash ≡ a.info_hash
    key s at = ground (arith, eq_iff s.info_hash a.info_hash)

-- An announcement keeps the invariant, also when it is refused.
pub announce_file-IsValid :
    (now : ℕ) (a : Announcement) (db : Database) → IsValid db → IsValid (announce_file now a db).1
unfolding announce_file
announce_file-IsValid now a db v = elim (Option-cases (find_row (is_peer a.peer_id) db.peers)) [
  | inl unknown ↦ rw unknown v
  | inr (peer, known) ↦ rw known (committed peer known (announce_metadata now a db.files) refl)
]
  where
    same_key :
        (r : PeerFileState) → same_state r (new_state now a) ≡ is_state a.peer_id a.info_hash r
    same_key r =
        ground (arith, text_eq_comm a.peer_id r.peer_id, text_eq_comm a.info_hash r.info_hash)

    committed :
        (peer : PeerRow)
        → find_row (is_peer a.peer_id) db.peers ≡ some peer
        → (r : Result (List FileRow)) → announce_metadata now a db.files ≡ r
        → IsValid
            (transaction db (
              r >>= λ files. ok (
                advertising a.info_hash (announced_states now a db.peer_file_state),
                record db {
                  files = files;
                  peer_file_state = announced_states now a db.peer_file_state;
                },
              ))).1
    committed peer known (raise e) eq = v
    committed peer known (ok files') eq =
        let an = announce_metadata-Announced now a db.files eq in
        let new = new_state now a in
        record {
          peers_unique = v.peers_unique;
          files_unique = an.files_unique v.files_unique;
          states_unique =
              upsert-UniqueBy same_state (is_state a.peer_id a.info_hash) (refresh_state new) new
                db.peer_file_state (λ r q. refl) (λ r q. refl) (λ r. same_key r) v.states_unique;
          hashes = an.hashes v.hashes;
          owners =
              All-upsert (λ s. any (is_peer s.peer_id) db.peers ≡ true)
                (is_state a.peer_id a.info_hash) (refresh_state new) new db.peer_file_state
                (λ s at o. o) (find_row-any (is_peer a.peer_id) db.peers ∙ rw known) v.owners;
          states = announced_states-All now a db.files files' db.peer_file_state an v.states;
        }
