-- ===== src/Node/Lifecycle.antt =====
-- `start`, `stop` and the heartbeats of src/shardnet/client/core/node.py, with `start` and `stop` of
-- peer_server.py. What the network gives is a parameter.
use shard_net.Base.{ℕ, zero, suc, String, Bool, true, false}
use shard_net.Errors.{Result, ok, raise}
use shard_net.Exec.{Exec, ◌>>=◌, ◌>>◌, pure, throw, lift, gets, modify}
use shard_net.Api.Client.{TrackerClient, heartbeat}

-- Whether the node runs, its server listens, its heartbeats go on, and its tracker client is open.
pub record Lifecycle : Type 0 where
  pub running : Bool
  pub listening : Bool
  pub heartbeats : Bool
  pub client_open : Bool

abbrev pub new_node : Lifecycle
new_node = record { running = false; listening = false; heartbeats = false; client_open = true }

-- `PeerServer.start`; `bound` is what `asyncio.start_server` gives.
abbrev pub start_server : Result (Unit {0}) → Exec Lifecycle (Unit {0})
start_server (raise e) = throw e
start_server (ok tt) = modify (λ n. record n { listening = true })

abbrev pub start_if_needed : Bool → Result (Unit {0}) → Exec Lifecycle (Unit {0})
start_if_needed true bound = pure tt
start_if_needed false bound = start_server bound

-- The part of `start` behind the test; `registered` is what the tracker client's `register_peer` gives.
abbrev pub start_stopped : Result (Unit {0}) → Result (Unit {0}) → Exec Lifecycle (Unit {0})
start_stopped bound registered = do
  listening ← gets (λ n. n.listening)
  start_if_needed listening bound
  lift registered
  modify (λ n. record n { running = true; heartbeats = true })

abbrev pub start_unless : Bool → Result (Unit {0}) → Result (Unit {0}) → Exec Lifecycle (Unit {0})
start_unless true bound registered = pure tt
start_unless false bound registered = start_stopped bound registered

unfoldable pub start : Result (Unit {0}) → Result (Unit {0}) → Exec Lifecycle (Unit {0})
start bound registered n = start_unless n.running bound registered n

-- The heartbeats are cancelled, the server and the client closed.
abbrev pub stop_running : Bool → Lifecycle → Lifecycle
stop_running false n = n
stop_running true n = record {
  running = false;
  listening = false;
  heartbeats = false;
  client_open = false;
}

unfoldable pub stop : Exec Lifecycle (Unit {0})
stop = modify (λ n. stop_running n.running n)

-- What is done to a node, one call after another.
pub data Call : Type 0 where
  starts : (bound registered : Result (Unit {0})) → Call
  stops : Call

unfoldable pub call : Call → Lifecycle → Lifecycle
unfolding start stop
call (starts bound registered) n = (start bound registered n).1
call stops n = (stop n).1

module _ {S : Type 0} where
  -- The rounds of `_heartbeat_loop`, each with the client at its time; an error is logged and dropped.
  unfoldable pub heartbeat_loop : ℕ → (ℕ → TrackerClient S) → String → S → S
  heartbeat_loop zero client peer_id s = s
  heartbeat_loop (suc rounds) client peer_id s =
      heartbeat_loop rounds (λ k. client (suc k)) peer_id (heartbeat (client 0) peer_id s).1
