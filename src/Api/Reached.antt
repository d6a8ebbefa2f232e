-- ===== src/Api/Reached.antt =====
-- The tracker as a whole (src/shardnet/tracker/api.py): request after request, from empty tables.
use shard_net.Base.{ℕ, List, [], ◌∷◌}
use shard_net.Errors.{Result, ok, raise}
use shard_net.Tracker.Tables.{Database, empty_database}
use shard_net.Tracker.Store.Invariant.{IsValid, register_peer-IsValid, heartbeat_peer-IsValid}
use shard_net.Tracker.Store.Announced.{announce_file-IsValid}
use shard_net.Tracker.Swarm.Answer.{get_swarm-IsValid}
use shard_net.Api.Schemas.{validate_register, validate_heartbeat, validate_announce}
use shard_net.Api.Routes.{
  Tracker, Request, post_register, post_heartbeat, post_announce, get_file_swarm, Schema, Web,
  Endpoint, announcement, endpoint, register_peer, heartbeat_peer, announce_file, get_swarm, app,
}

-- Requests with their times, one after another.
unfoldable pub serve_requests : Web → Tracker → List (ℕ × Request) → Database → Database
unfolding app
serve_requests web tracker [] db = db
serve_requests web tracker ((now, request) ∷ requests) db =
    serve_requests web tracker requests (app web (record tracker { now = now }) request db).1

endpoint-IsValid :
    {R A : Type 0} (web : Web) (schema : Schema A) (r : Result R) (route : R → Endpoint A)
    → ((payload : R) (db : Database) → IsValid db → IsValid (route payload db).1)
    → (db : Database) → IsValid db
    → IsValid (endpoint web schema r route db).1
endpoint-IsValid web schema (raise e) route h db v = v
endpoint-IsValid web schema (ok payload) route h db v = h payload db v

app-IsValid :
    (web : Web) (tracker : Tracker) (request : Request) (db : Database)
    → IsValid db
    → IsValid (app web tracker request db).1
unfolding app register_peer heartbeat_peer announce_file get_swarm
app-IsValid web tracker (post_register f) db v =
    endpoint-IsValid web web.registered (validate_register f) (register_peer tracker)
      (λ p db v. register_peer-IsValid tracker.now p.peer_id p.host p.port p.client_version db v) db
      v
app-IsValid web tracker (post_heartbeat peer_id) db v =
    endpoint-IsValid web web.seen (validate_heartbeat peer_id) (heartbeat_peer tracker)
      (λ p db v. heartbeat_peer-IsValid tracker.now p.peer_id db v) db v
app-IsValid web tracker (post_announce f) db v =
    endpoint-IsValid web web.announced (validate_announce tracker.platform f)
      (announce_file tracker) (λ p db v. announce_file-IsValid tracker.now (announcement p) db v) db
      v
app-IsValid web tracker (get_file_swarm info_hash) db v =
    get_swarm-IsValid tracker.now info_hash tracker.heartbeat_ttl_seconds db v

requests-IsValid :
    (web : Web) (tracker : Tracker) (requests : List (ℕ × Request)) (db : Database)
    → IsValid db
    → IsValid (serve_requests web tracker requests db)
unfolding serve_requests
requests-IsValid web tracker [] db v = v
requests-IsValid web tracker ((now, request) ∷ requests) db v =
    requests-IsValid web tracker requests _
      (app-IsValid web (record tracker { now = now }) request db v)

-- Whatever requests the tracker has received since its tables were made, accepted or refused, at whatever
-- times: the tables have unique keys, states of known peers and files only, chunk lists in order and in
-- range, and flags that agree with them.
pub serve_requests-IsValid :
    (web : Web) (tracker : Tracker) (requests : List (ℕ × Request))
    → IsValid (serve_requests web tracker requests empty_database)
serve_requests-IsValid web tracker requests =
    requests-IsValid web tracker requests empty_database (record {
      peers_unique = tt;
      files_unique = tt;
      states_unique = tt;
      hashes = tt;
      owners = tt;
      states = tt;
    })
