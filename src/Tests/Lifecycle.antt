-- ===== src/Tests/Lifecycle.antt =====
-- A node whose registration fails, and the heartbeats of a node, with the web server of Tests/Web.
use shard_net.Base.{ℕ, String, true, false, ◌≡◌, ◌↔◌, refl, any, ◌==◌, ◌&&◌, nat_eq, ◌+◌, ◌*◌}
use shard_net.Json.{Json}
use shard_net.Errors.{Result, ok, raise, Exception}
use shard_net.Tracker.Tables.{Database, empty_database, is_peer}
use shard_net.Tracker.Store.{register_peer}
use shard_net.Api.Routes.{Tracker}
use shard_net.Api.Client.{request_failed}
use shard_net.Node.Lifecycle.{new_node, start, stop, heartbeat_loop}
use shard_net.Node.Alive.{at_times, stop-start, heartbeat_loop_lem}
use shard_net.Tests.Toy.{toy}
use shard_net.Tests.Web.{toy_web}

abbrev no_text : Json → String
no_text j = ""

abbrev tracker : Tracker
tracker = record { platform = toy; heartbeat_ttl_seconds = 60; now = 100 }

abbrev with_alice : Database
with_alice = (register_peer 90 "alice" "10.0.0.1" 9000 "0.1.0" empty_database).1

abbrev every_minute : ℕ → ℕ
every_minute k = 100 + 60 * k

-- What the tracker client raises when the tracker answers with status 500.
abbrev no_answer : Result (Unit {0})
no_answer = raise (request_failed 500)

abbrev bound : Result (Unit {0})
bound = ok tt

stop-start_example :
    ((stop (start bound no_answer new_node).1).1.listening ≡ true)
    ↔ ((bound ≡ ok tt) × ((e : Exception) × (no_answer ≡ raise e)))
stop-start_example = stop-start bound no_answer

heartbeat_loop_lem_example :
    (any (is_peer "alice") with_alice.peers ≡ true
      → any
          (λ p. is_peer "alice" p && p.last_seen_at == 220)
          (heartbeat_loop 3
            (at_times toy_web no_text tracker "alice" refl every_minute)
            "alice"
            with_alice).peers
        ≡ true)
    × (any (is_peer "alice") with_alice.peers ≡ false
        → heartbeat_loop 3
            (at_times toy_web no_text tracker "alice" refl every_minute)
            "alice"
            with_alice
          ≡ with_alice)
heartbeat_loop_lem_example =
    heartbeat_loop_lem toy_web no_text tracker "alice" refl 2 every_minute with_alice
