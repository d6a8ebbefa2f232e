-- ===== src/Api/Statuses.antt =====
-- The statuses that the endpoints of src/shardnet/tracker/api.py answer with.
use shard_net.Base.{
  ℕ, String, any, true, none, arith, ◌≡◌, ◌↔◌, refl, ◌-◌, Bool-cases, Option-cases, inl, inr,
}
use shard_net.Base.Rows.{find_row}
use shard_net.Json.{Json}
use shard_net.Errors.{Result, ok, raise, Exception, overflow_error}
use shard_net.Tracker.Tables.{Database, is_peer, is_file}
use shard_net.Tracker.Store.{announce_file as store_announce_file, delete_stale}
use shard_net.Tracker.Store.Outcomes.{
  heartbeat_peer_lem, announce_file_refused, Overflows, announce_file-Overflows,
}
use shard_net.Tracker.Swarm.{get_swarm as store_get_swarm}
use shard_net.Api.Schemas.{
  HeartbeatRequest, AnnounceFields, AnnounceFileRequest, validate_register, validate_heartbeat,
  validate_announce,
}
use shard_net.Api.Routes.{
  Tracker, Handled, Request, post_register, post_heartbeat, post_announce, get_file_swarm, Response,
  Schema, Web, Endpoint, announcement, endpoint, register_peer, heartbeat_peer, announce_file,
  get_swarm, app, returned, http_exception, escaped, respond, announce_answer,
}

-- A known peer announces a file of a new hash with a number that SQLite does not store.
pub record IsOverflowing (tracker : Tracker) (request : Request) (db : Database) : Type 0 where
  pub fields : AnnounceFields
  pub payload : AnnounceFileRequest
  pub announces : request ≡ post_announce fields
  pub valid : validate_announce tracker.platform fields ≡ ok payload
  pub known : any (is_peer payload.peer_id) db.peers ≡ true
  pub absent : find_row (is_file payload.info_hash) db.files ≡ none
  pub large : Overflows (announcement payload)

-- A response of the tracker: the one of a returned value, of an error that the endpoint raises itself, of
-- a request that was refused, or of a failure.
pub data IsExpected (Fails : Type 0) (status_code : ℕ) : Type 0 where
  success_response : status_code ≡ 200 → IsExpected Fails status_code
  not_found : status_code ≡ 404 → IsExpected Fails status_code
  conflict : status_code ≡ 409 → IsExpected Fails status_code
  refused : status_code ≡ 422 → IsExpected Fails status_code
  failed : Fails → status_code ≡ 500 → IsExpected Fails status_code

-- What an endpoint may end with.
data Ends {A : Type 0} (Fails : Type 0) : Handled A → Type 0 where
  by_value : (a : A) → Ends Fails (returned a)
  by_404 : (d : Json) → Ends Fails (http_exception 404 d)
  by_409 : (d : Json) → Ends Fails (http_exception 409 d)
  by_failure : Fails → (e : Exception) → Ends Fails (escaped e)

respond-IsExpected :
    {A : Type 0} (Fails : Type 0) (web : Web) (schema : Schema A) (h : Handled A)
    → Ends Fails h
    → IsExpected Fails (respond web schema h).status_code
respond-IsExpected Fails web schema _ (by_value a) =
    success_response (web.success_status (schema.dump a))
respond-IsExpected Fails web schema _ (by_404 d) = not_found (web.failure_status 404 d)
respond-IsExpected Fails web schema _ (by_409 d) = conflict (web.failure_status 409 d)
respond-IsExpected Fails web schema _ (by_failure why e) = failed why web.server_error_status

Answered : Type 0 → Result Response × Database → Type 0
Answered Fails got =
    (response : Response) × (got.0 ≡ ok response) × IsExpected Fails response.status_code

endpoint-Answered :
    {R A : Type 0} (Fails : Type 0) (web : Web) (schema : Schema A) (r : Result R)
    (route : R → Endpoint A) (db : Database)
    → ((payload : R) → r ≡ ok payload → Ends Fails (route payload db).0)
    → Answered Fails (endpoint web schema r route db)
unfolding Answered
endpoint-Answered Fails web schema (raise e) route db h =
    (web.unprocessable, refl, refused web.unprocessable_status)
endpoint-Answered Fails web schema (ok payload) route db h =
    (_, refl, respond-IsExpected Fails web schema (route payload db).0 (h payload refl))

module _ (tracker : Tracker) (request : Request) (db : Database) where
  abbrev EndsWell : {A : Type 0} → Handled A → Type 0
  EndsWell = Ends (IsOverflowing tracker request db)

  heartbeat-Ends : (payload : HeartbeatRequest) → EndsWell (heartbeat_peer tracker payload db).0
  unfolding heartbeat_peer
  heartbeat-Ends payload = elim (Bool-cases (any (is_peer payload.peer_id) db.peers)) [
    | inl known ↦ rw (heartbeat_peer_lem tracker.now payload.peer_id db, known) (by_value _)
    | inr unknown ↦ rw (heartbeat_peer_lem tracker.now payload.peer_id db, unknown) (by_404 _)
  ]

  announce-Ends :
      (fields : AnnounceFields) (payload : AnnounceFileRequest)
      → request ≡ post_announce fields
      → validate_announce tracker.platform fields ≡ ok payload
      → EndsWell (announce_file tracker payload db).0
  unfolding announce_file
  announce-Ends fields payload announces valid =
      go (store_announce_file tracker.now (announcement payload) db) refl
    where
      go :
          (stored : Result ℕ × Database)
          → store_announce_file tracker.now (announcement payload) db ≡ stored
          → EndsWell (announce_answer payload stored.0)
      go (ok n, db') e = by_value _
      go (raise x, db') e = elim (announce_file_refused tracker.now (announcement payload) db e).1 [
        | inl unknown ↦ rw (unknown.0) (by_404 _)
        | inr (inl known) ↦ rw (known.0) (by_409 _)
        | inr (inr (overflow, known, absent, large)) ↦ rw overflow (
            by_failure
              (record {
                fields = fields;
                payload = payload;
                announces = announces;
                valid = valid;
                known = known;
                absent = absent;
                large = large;
              })
              overflow_error)
      ]

  swarm-Ends : (info_hash : String) → EndsWell (get_swarm tracker info_hash db).0
  unfolding get_swarm store_get_swarm
  swarm-Ends info_hash =
      elim (Option-cases (
        find_row (is_file info_hash)
          (delete_stale (tracker.now - tracker.heartbeat_ttl_seconds) db).files)) [
            | inl absent ↦ rw absent (by_404 _)
            | inr (f, found) ↦ rw found (by_value _)
          ]

-- The failure does happen.
overflowing :
    (web : Web) (tracker : Tracker) (request : Request) (db : Database)
    → IsOverflowing tracker request db
    → (app web tracker request db).0 ≡ ok web.server_error
unfolding app announce_file
overflowing web tracker request db o = ground (
  arith,
  o.announces,
  o.valid,
  announce_file-Overflows tracker.now (announcement o.payload) db o.known o.absent o.large,
)

answered :
    (web : Web) (tracker : Tracker) (request : Request) (db : Database)
    → Answered (IsOverflowing tracker request db) (app web tracker request db)
unfolding app
answered web tracker (post_register f) db =
    endpoint-Answered _ web web.registered (validate_register f) (register_peer tracker) db
      (λ p e. unfold register_peer in by_value _)
answered web tracker (post_heartbeat peer_id) db =
    endpoint-Answered _ web web.seen (validate_heartbeat peer_id) (heartbeat_peer tracker) db
      (λ p e. heartbeat-Ends tracker _ db p)
answered web tracker (post_announce f) db =
    endpoint-Answered _ web web.announced (validate_announce tracker.platform f)
      (announce_file tracker) db (λ p e. announce-Ends tracker _ db f p refl e)
answered web tracker (get_file_swarm info_hash) db =
    endpoint-Answered _ web web.swarm (ok info_hash) (get_swarm tracker) db
      (λ p e. swarm-Ends tracker _ db p)

-- The tracker answers each request to the four endpoints that use its store, on any tables, with one of the
-- statuses 200, 404, 409, 422 and 500; and it answers with 500 exactly when a known peer announces, in a
-- request that is accepted, a file of a hash that is not stored with a number larger than SQLite stores.
pub app-IsExpected :
    (web : Web) (tracker : Tracker) (request : Request) (db : Database)
    → (response : Response) × ((app web tracker request db).0 ≡ ok response)
      × IsExpected (IsOverflowing tracker request db) response.status_code
      × ((response.status_code ≡ 500) ↔ IsOverflowing tracker request db)
unfolding Answered
app-IsExpected web tracker request db =
    let (response, e, expected) = answered web tracker request db in
    (
      response,
      e,
      expected,
      (
        λ h. why response.status_code h expected,
        λ o. ground (arith, e, overflowing web tracker request db o, web.server_error_status),
      ),
    )
  where
    why :
        (n : ℕ)
        → n ≡ 500
        → IsExpected (IsOverflowing tracker request db) n
        → IsOverflowing tracker request db
    why n h (success_response k) = absurd (omega (arith, h, k))
    why n h (not_found k) = absurd (omega (arith, h, k))
    why n h (conflict k) = absurd (omega (arith, h, k))
    why n h (refused k) = absurd (omega (arith, h, k))
    why n h (failed o k) = o
