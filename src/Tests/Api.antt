-- ===== src/Tests/Api.antt =====
-- The tracker and its client together, with the web server of Tests/Web.
use shard_net.Base.{
  ℕ, ℤ, pos, negsuc, String, true, some, List, [], ◌∷◌, ◌<◌, ◌≡◌, ◌↔◌, refl, any, ◌==◌, ◌&&◌,
  nat_eq, text_eq,
}
use shard_net.Base.SortedSet.{insert, sorted_set}
use shard_net.Json.{Json, str, obj, Fields, field, end}
use shard_net.Errors.{ok, raise, Exception, validation_error}
use shard_net.Platform.{is_hash}
use shard_net.Manifest.{validate, has_chunk_shape}
use shard_net.Disk.{read_file}
use shard_net.Tracker.Tables.{Database, empty_database}
use shard_net.Tracker.Chunks.{normalize_chunks, parse_chunks, parse_chunk_hashes}
use shard_net.Tracker.Store.{
  register_peer as store_register_peer, announce_file as store_announce_file, announce_metadata,
  has_overflow, has_metadata_conflict,
}
use shard_net.Tracker.Store.Invariant.{IsValid, register_peer-IsValid}
use shard_net.Api.Schemas.{
  AnnounceFields, AnnounceFileRequest, SwarmResponse, validate_register, validate_heartbeat,
  normalize_chunk_hashes, validate_chunk_bounds, validate_announce, dump_announce,
}
use shard_net.Api.Routes.{
  Request, post_register, post_heartbeat, post_announce, get_file_swarm, Tracker, Response,
  announcement, register_peer as on_register_peer, heartbeat_peer as on_heartbeat_peer,
  announce_file as on_announce_file, get_swarm as on_get_swarm, app,
}
use shard_net.Api.Client.{
  announce_fields, parse_response, register_peer, heartbeat, announce_file, get_swarm,
}
use shard_net.Api.Accepted.{IsRequest, validate_announce-dump_announce}
use shard_net.Api.Errors.{IsStatusError, parse_response_lem}
use shard_net.Api.Relayed.{connected, IsRelayed, announce_file-IsRelayed}
use shard_net.Api.Shared.{validate-swarm_manifest}
use shard_net.Api.Reached.{serve_requests, serve_requests-IsValid}
use shard_net.Api.Statuses.{IsOverflowing, IsExpected, app-IsExpected}
use shard_net.Node.Download.{is_index, has_chunk, swarm_manifest}
use shard_net.Tests.Toy.{toy, tune, tune-IsManifest, even_hash}
use shard_net.Tests.Web.{toy_web}

program : Unit {0}
unfolding validate has_chunk_shape is_hash read_file insert sorted_set store_register_peer
    store_announce_file announce_metadata has_overflow has_metadata_conflict normalize_chunks
    parse_chunks parse_chunk_hashes validate_register validate_heartbeat normalize_chunk_hashes
    validate_chunk_bounds validate_announce on_register_peer on_heartbeat_peer on_announce_file
    on_get_swarm app parse_response register_peer heartbeat announce_file get_swarm
program = tt

abbrev no_text : Json → String
no_text j = ""

abbrev tracker : Tracker
tracker = record { platform = toy; heartbeat_ttl_seconds = 60; now = 100 }

-- Python's ints may come in any order, repeated, and are put in order.
abbrev owned : List ℤ
owned = pos 2 ∷ pos 0 ∷ pos 2 ∷ []

abbrev with_alice : Database
with_alice = (store_register_peer 90 "alice" "10.0.0.1" 9000 "0.1.0" empty_database).1

abbrev with_tune : Database
with_tune = (announce_file (connected toy_web no_text tracker) "alice" tune owned with_alice).1

abbrev tune_request : AnnounceFileRequest
tune_request = record {
  peer_id = "alice";
  info_hash = tune.info_hash;
  file_name = tune.file_name;
  file_size_bytes = 5;
  chunk_size_bytes = 2;
  total_chunks = 3;
  file_sha256 = tune.file_sha256;
  chunk_sha256 = tune.chunk_sha256;
  available_chunks = pos 0 ∷ pos 2 ∷ [];
}

with_alice-IsValid : IsValid with_alice
with_alice-IsValid =
    register_peer-IsValid 90 "alice" "10.0.0.1" 9000 "0.1.0" empty_database (record {
      peers_unique = tt;
      files_unique = tt;
      states_unique = tt;
      hashes = tt;
      owners = tt;
      states = tt;
    })

-- A name of two characters is refused before anything is sent.
short_name :
    heartbeat (connected toy_web no_text tracker) "al" with_alice
    ≡ (raise validation_error, with_alice)
unfolding program
short_name = refl

-- A chunk out of range is refused, where the store would leave it out.
out_of_range :
    validate_announce toy (announce_fields "alice" tune (negsuc 0 ∷ [])) ≡ raise validation_error
unfolding program
out_of_range = refl

validate_announce-dump_announce_example :
    (validate_announce toy (dump_announce tune_request) ≡ ok tune_request)
    × IsRequest toy tune_request
unfolding program
validate_announce-dump_announce_example =
    validate_announce-dump_announce toy (announce_fields "alice" tune owned) refl

abbrev refusal : Response
refusal = record {
  status_code = 404;
  json = some (obj (field "detail" (obj (field "code" (str "peer_not_found") end)) end));
}

parse_response_lem_example :
    ((f : Fields)
      → (parse_response no_text refusal ≡ ok f) ↔ ((404 < 400) × (refusal.json ≡ some (obj f))))
    × ((e : Exception) → parse_response no_text refusal ≡ raise e → IsStatusError 404 e)
parse_response_lem_example = parse_response_lem no_text refusal

announce_file-IsRelayed_example :
    IsRelayed even_hash
      (store_announce_file 100 (announcement tune_request) with_alice)
      (announce_file (connected toy_web no_text tracker) "alice" tune owned with_alice)
unfolding program
announce_file-IsRelayed_example =
    announce_file-IsRelayed toy_web no_text tracker "alice" tune owned tune_request with_alice refl

validate-swarm_manifest_example :
    (swarm : SwarmResponse) × ((get_swarm
        (connected toy_web no_text (record tracker { now = 140 }))
        even_hash
        with_tune).0
      ≡ ok swarm)
    × (validate toy (swarm_manifest swarm) ≡ ok tune)
    × ((i : ℕ)
        → any (is_index i) owned ≡ true
        → any (λ p. p.peer_id == "alice" && has_chunk i p) swarm.peers ≡ true)
unfolding program
validate-swarm_manifest_example =
    validate-swarm_manifest toy_web no_text tracker 140 "alice" tune owned with_alice with_tune
      (record { info_hash = even_hash; peers_advertising = pos 1 }) with_alice-IsValid
      tune-IsManifest refl refl

abbrev first_requests : List (ℕ × Request)
first_requests =
    (
      90,
      post_register (record {
        peer_id = "alice";
        host = "10.0.0.1";
        port = pos 9000;
        client_version = "0.1.0";
      }),
    )
    ∷ (100, post_announce (dump_announce tune_request))
    ∷ (110, post_heartbeat "bob")
    ∷ (120, get_file_swarm even_hash)
    ∷ []

serve_requests-IsValid_example :
    IsValid (serve_requests toy_web tracker first_requests empty_database)
serve_requests-IsValid_example = serve_requests-IsValid toy_web tracker first_requests

-- A size of 2 ^ 63 bytes is accepted as a request, and fails in the database.
abbrev huge : AnnounceFields
huge = record (announce_fields "alice" tune owned) { file_size_bytes = pos 9223372036854775808 }

huge_fails : (app toy_web tracker (post_announce huge) with_alice).0 ≡ ok toy_web.server_error
unfolding program
huge_fails = refl

app-IsExpected_example :
    (response : Response) × ((app toy_web tracker (post_announce huge) with_alice).0 ≡ ok response)
    × IsExpected (IsOverflowing tracker (post_announce huge) with_alice) response.status_code
    × ((response.status_code ≡ 500) ↔ IsOverflowing tracker (post_announce huge) with_alice)
app-IsExpected_example = app-IsExpected toy_web tracker (post_announce huge) with_alice
