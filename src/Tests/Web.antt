-- ===== src/Tests/Web.antt =====
-- A web server and the JSON of the tracker's answers, to run the tracker and its client together.
use shard_net.Base.{ℤ, pos, String, Bool, false, none, some, List, [], ◌∷◌, ◌≡◌, refl, ap}
use shard_net.Json.{bool, int, str, arr, obj, Items, nil, cons, Fields, field, end, get_field, strs}
use shard_net.Errors.{ok}
use shard_net.Api.Schemas.{SwarmPeerResponse, SwarmResponse}
use shard_net.Api.Routes.{Web}

abbrev text_in : String → Fields → String
text_in k f = elim (get_field k f) [ some (str s) ↦ s | _ ↦ "" ]

abbrev int_in : String → Fields → ℤ
int_in k f = elim (get_field k f) [ some (int i) ↦ i | _ ↦ pos 0 ]

abbrev bool_in : String → Fields → Bool
bool_in k f = elim (get_field k f) [ some (bool b) ↦ b | _ ↦ false ]

abbrev items_in : String → Fields → Items
items_in k f = elim (get_field k f) [ some (arr js) ↦ js | _ ↦ nil ]

abbrev texts : Items → List String
texts nil = []
texts (cons (str s) js) = s ∷ texts js
texts (cons _ js) = texts js

abbrev all_ints : List ℤ → Items
all_ints [] = nil
all_ints (i ∷ is) = cons (int i) (all_ints is)

abbrev int_list : Items → List ℤ
int_list nil = []
int_list (cons (int i) js) = i ∷ int_list js
int_list (cons _ js) = int_list js

texts-strs : (hs : List String) → texts (strs hs) ≡ hs
texts-strs [] = refl
texts-strs (h ∷ hs) = ap (λ (l : List String). h ∷ l) (texts-strs hs)

int_list-all_ints : (is : List ℤ) → int_list (all_ints is) ≡ is
int_list-all_ints [] = refl
int_list-all_ints (i ∷ is) = ap (λ (l : List ℤ). i ∷ l) (int_list-all_ints is)

abbrev dump_peer : SwarmPeerResponse → Fields
dump_peer p = field "peer_id" (str p.peer_id) (
    field "host" (str p.host) (
      field "port" (int p.port) (
        field "available_chunks" (arr (all_ints p.available_chunks))
          (field "completed" (bool p.completed) (field "last_seen_at" (int p.last_seen_at) end)))))

abbrev load_peer : Fields → SwarmPeerResponse
load_peer f = record {
  peer_id = text_in "peer_id" f;
  host = text_in "host" f;
  port = int_in "port" f;
  available_chunks = int_list (items_in "available_chunks" f);
  completed = bool_in "completed" f;
  last_seen_at = int_in "last_seen_at" f;
}

load_peer-dump_peer : (p : SwarmPeerResponse) → load_peer (dump_peer p) ≡ p
load_peer-dump_peer p =
    ap (λ (l : List ℤ). record p { available_chunks = l }) (int_list-all_ints p.available_chunks)

abbrev dump_peers : List SwarmPeerResponse → Items
dump_peers [] = nil
dump_peers (p ∷ ps) = cons (obj (dump_peer p)) (dump_peers ps)

abbrev load_peers : Items → List SwarmPeerResponse
load_peers nil = []
load_peers (cons (obj f) js) = load_peer f ∷ load_peers js
load_peers (cons _ js) = load_peers js

load_peers-dump_peers : (ps : List SwarmPeerResponse) → load_peers (dump_peers ps) ≡ ps
load_peers-dump_peers [] = refl
load_peers-dump_peers (p ∷ ps) = cc (load_peer-dump_peer p, load_peers-dump_peers ps)

abbrev dump_swarm : SwarmResponse → Fields
dump_swarm s = field "info_hash" (str s.info_hash) (
    field "file_name" (str s.file_name) (
      field "file_size_bytes" (int s.file_size_bytes) (
        field "chunk_size_bytes" (int s.chunk_size_bytes) (
          field "total_chunks" (int s.total_chunks) (
            field "file_sha256" (str s.file_sha256) (
              field "chunk_sha256" (arr (strs s.chunk_sha256)) (
                field "swarm_size" (int s.swarm_size) (
                  field "seed_count" (int s.seed_count)
                    (field "peers" (arr (dump_peers s.peers)) end)))))))))

abbrev load_swarm : Fields → SwarmResponse
load_swarm f = record {
  info_hash = text_in "info_hash" f;
  file_name = text_in "file_name" f;
  file_size_bytes = int_in "file_size_bytes" f;
  chunk_size_bytes = int_in "chunk_size_bytes" f;
  total_chunks = int_in "total_chunks" f;
  file_sha256 = text_in "file_sha256" f;
  chunk_sha256 = texts (items_in "chunk_sha256" f);
  swarm_size = int_in "swarm_size" f;
  seed_count = int_in "seed_count" f;
  peers = load_peers (items_in "peers" f);
}

pub load_swarm-dump_swarm : (s : SwarmResponse) → load_swarm (dump_swarm s) ≡ s
load_swarm-dump_swarm s = cc (texts-strs s.chunk_sha256, load_peers-dump_peers s.peers)

abbrev seen_fields : String → ℤ → ℤ → Fields
seen_fields peer_id last_seen_at ttl =
    field "peer_id" (str peer_id)
      (field "last_seen_at" (int last_seen_at) (field "heartbeat_ttl_seconds" (int ttl) end))

abbrev pub toy_web : Web
toy_web = record {
  success = λ f. record { status_code = 200; json = some (obj f) };
  failure = λ n d. record { status_code = n; json = some (obj (field "detail" d end)) };
  unprocessable = record { status_code = 422; json = some (obj (field "detail" (arr nil) end)) };
  server_error = record { status_code = 500; json = none };
  success_status = λ f. refl;
  success_json = λ f. refl;
  failure_status = λ n d. refl;
  failure_json = λ n d. refl;
  unprocessable_status = refl;
  server_error_status = refl;
  server_error_json = refl;
  registered = record {
    dump = λ a. seen_fields a.peer_id a.last_seen_at a.heartbeat_ttl_seconds;
    load = λ f. ok (record {
      peer_id = text_in "peer_id" f;
      last_seen_at = int_in "last_seen_at" f;
      heartbeat_ttl_seconds = int_in "heartbeat_ttl_seconds" f;
    });
    load-dump = λ a. refl;
  };
  seen = record {
    dump = λ a. seen_fields a.peer_id a.last_seen_at a.heartbeat_ttl_seconds;
    load = λ f. ok (record {
      peer_id = text_in "peer_id" f;
      last_seen_at = int_in "last_seen_at" f;
      heartbeat_ttl_seconds = int_in "heartbeat_ttl_seconds" f;
    });
    load-dump = λ a. refl;
  };
  announced = record {
    dump = λ a.
        field "info_hash" (str a.info_hash)
          (field "peers_advertising" (int a.peers_advertising) end);
    load = λ f. ok (record {
      info_hash = text_in "info_hash" f;
      peers_advertising = int_in "peers_advertising" f;
    });
    load-dump = λ a. refl;
  };
  swarm = record {
    dump = dump_swarm;
    load = λ f. ok (load_swarm f);
    load-dump = λ s. ap ok (load_swarm-dump_swarm s);
  };
}
