-- ===== src/Api/Relayed.antt =====
-- An announcement over HTTP: `announce_file` of src/shardnet/client/core/tracker_client.py, through the
-- application of src/shardnet/tracker/api.py, to the store.
use shard_net.Base.{ℕ, ℤ, pos, String, List, ◌≡◌, refl, ap, ◌∙◌, arith, inl, inr}
use shard_net.Json.{Json, int, set_field}
use shard_net.Errors.{
  ShardNetError, Result, ok, raise, Exception, to_dict, transfer, peer_not_found,
  file_metadata_conflict, overflow_error,
}
use shard_net.Manifest.{FileManifest}
use shard_net.Tracker.Tables.{Database}
use shard_net.Tracker.Store.{announce_file as store_announce_file}
use shard_net.Tracker.Store.Outcomes.{announce_file_refused}
use shard_net.Api.Schemas.{
  AnnounceFileRequest, AnnounceFileResponse, validate_announce, dump_announce,
}
use shard_net.Api.Routes.{Tracker, Web, announcement, announce_file as announce_file_endpoint, app}
use shard_net.Api.Client.{TrackerClient, non_json, announce_fields, parse_response, announce_file}
use shard_net.Api.Accepted.{validate_announce-dump_announce}

-- A tracker client whose requests reach the tracker's application.
abbrev pub connected : Web → (Json → String) → Tracker → TrackerClient Database
connected web to_text tracker = record {
  platform = tracker.platform;
  to_text = to_text;
  web = web;
  send = app web tracker;
}

-- The tracker's error as the client raises it.
abbrev pub relayed : ℕ → ShardNetError → Exception
relayed status_code e =
    transfer (record e { context = set_field "status_code" (int (pos status_code)) e.context })

-- What the store gives and leaves, and what the client gives and the tracker is left with.
pub data IsRelayed (info_hash : String)
    : Result ℕ × Database → Result AnnounceFileResponse × Database → Type 0 where
  accepted :
      (n : ℕ) (db : Database)
      → IsRelayed info_hash
          (ok n, db)
          (ok (record { info_hash = info_hash; peers_advertising = pos n }), db)
  unknown_peer :
      (e : ShardNetError) (db : Database)
      → IsRelayed info_hash (raise (peer_not_found e), db) (raise (relayed 404 e), db)
  conflicting :
      (e : ShardNetError) (db : Database)
      → IsRelayed info_hash (raise (file_metadata_conflict e), db) (raise (relayed 409 e), db)
  overflowing :
      (db : Database) → IsRelayed info_hash (raise overflow_error, db) (raise (non_json 500), db)

module _ (web : Web) (to_text : Json → String) (tracker : Tracker) (peer_id : String)
    (m : FileManifest) (available_chunks : List ℤ) (r : AnnounceFileRequest) (db : Database)
    (made : validate_announce tracker.platform (announce_fields peer_id m available_chunks)
      ≡ ok r) where
  again : validate_announce tracker.platform (dump_announce r) ≡ ok r
  again = (validate_announce-dump_announce tracker.platform _ made).0

  relayed_ok :
      (n : ℕ) (db' : Database)
      → store_announce_file tracker.now (announcement r) db ≡ (ok n, db')
      → announce_file (connected web to_text tracker) peer_id m available_chunks db
        ≡ (ok (record { info_hash = r.info_hash; peers_advertising = pos n }), db')
  unfolding announce_file app announce_file_endpoint parse_response
  relayed_ok n db' e =
      let f = web.announced.dump (record { info_hash = r.info_hash; peers_advertising = pos n }) in
      ground (
        arith,
        made,
        again,
        e,
        web.success_status f,
        web.success_json f,
        web.announced.load-dump (record { info_hash = r.info_hash; peers_advertising = pos n }),
      )

  relayed_404 :
      (e : ShardNetError) (db' : Database)
      → store_announce_file tracker.now (announcement r) db ≡ (raise (peer_not_found e), db')
      → announce_file (connected web to_text tracker) peer_id m available_chunks db
        ≡ (raise (relayed 404 e), db')
  unfolding announce_file app announce_file_endpoint parse_response
  relayed_404 e db' h =
      let d = to_dict e in
      ground (arith, made, again, h, web.failure_status 404 d, web.failure_json 404 d)

  relayed_409 :
      (e : ShardNetError) (db' : Database)
      → store_announce_file tracker.now (announcement r) db
        ≡ (raise (file_metadata_conflict e), db')
      → announce_file (connected web to_text tracker) peer_id m available_chunks db
        ≡ (raise (relayed 409 e), db')
  unfolding announce_file app announce_file_endpoint parse_response
  relayed_409 e db' h =
      let d = to_dict e in
      ground (arith, made, again, h, web.failure_status 409 d, web.failure_json 409 d)

  relayed_500 :
      (db' : Database)
      → store_announce_file tracker.now (announcement r) db ≡ (raise overflow_error, db')
      → announce_file (connected web to_text tracker) peer_id m available_chunks db
        ≡ (raise (non_json 500), db')
  unfolding announce_file app announce_file_endpoint parse_response
  relayed_500 db' h = ground (arith, made, again, h, web.server_error_status, web.server_error_json)

  -- If the client accepts the announcement as the request `r`, then the call over HTTP ends as the store's
  -- method on `r` does, and leaves the same tables: the count is returned, the error for an unknown peer
  -- and the one for a conflict come back with their code, message and context, and with the status 404 or
  -- 409 in the context, and an overflow in the database comes back as an answer with the status 500 that is
  -- no JSON. There is no other case.
  pub announce_file-IsRelayed :
      IsRelayed r.info_hash
        (store_announce_file tracker.now (announcement r) db)
        (announce_file (connected web to_text tracker) peer_id m available_chunks db)
  announce_file-IsRelayed = go (store_announce_file tracker.now (announcement r) db) refl
    where
      ended :
          (stored : Result ℕ × Database) (got : Result AnnounceFileResponse × Database)
          → store_announce_file tracker.now (announcement r) db ≡ stored
          → announce_file (connected web to_text tracker) peer_id m available_chunks db ≡ got
          → IsRelayed r.info_hash stored got
          → IsRelayed r.info_hash
              (store_announce_file tracker.now (announcement r) db)
              (announce_file (connected web to_text tracker) peer_id m available_chunks db)
      ended stored got h k rel = rw (h, k) rel

      go :
          (stored : Result ℕ × Database)
          → store_announce_file tracker.now (announcement r) db ≡ stored
          → IsRelayed r.info_hash
              (store_announce_file tracker.now (announcement r) db)
              (announce_file (connected web to_text tracker) peer_id m available_chunks db)
      go (ok n, db') h = ended _ _ h (relayed_ok n db' h) (accepted n db')
      go (raise x, db') h = elim (announce_file_refused tracker.now (announcement r) db h).1 [
        | inl unknown ↦
            let k = h ∙ ap (λ y. (raise y, db')) unknown.0 in
            ended _ _ k (relayed_404 _ db' k) (unknown_peer _ db')
        | inr (inl known) ↦
            let k = h ∙ ap (λ y. (raise y, db')) known.0 in
            ended _ _ k (relayed_409 _ db' k) (conflicting _ db')
        | inr (inr large) ↦
            let k = h ∙ ap (λ y. (raise y, db')) large.0 in
            ended _ _ k (relayed_500 db' k) (overflowing db')
      ]
