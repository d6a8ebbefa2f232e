-- ===== src/Node/Alive.antt =====
-- What the life of a node comes to (src/shardnet/client/core/node.py): when its server listens, and whether
-- its heartbeats reach the tracker.
use shard_net.Base.{
  ℕ, zero, suc, String, true, false, List, [], ◌∷◌, ◌≡◌, ◌↔◌, refl, ap, ◌∙◌, any, ◌==◌, ◌&&◌,
  text_eq, nat_eq, if◌then◌else◌, arith, Bool-cases, inl, inr,
}
use shard_net.Base.Rows.{update_where}
use shard_net.Base.Rows.Laws.{any-update_where_hit}
use shard_net.Json.{Json}
use shard_net.Errors.{Result, ok, raise, Exception, Result-cases}
use shard_net.Manifest.{text_within}
use shard_net.Tracker.Tables.{Database, is_peer}
use shard_net.Tracker.Store.{see_peer, heartbeat_peer as store_heartbeat_peer}
use shard_net.Tracker.Store.Outcomes.{heartbeat_peer_lem}
use shard_net.Api.Schemas.{validate_heartbeat}
use shard_net.Api.Routes.{
  Web, Tracker, Schema, Response, respond, heartbeat_answer, heartbeat_peer, app,
}
use shard_net.Api.Client.{TrackerClient, parse_response, received, heartbeat}
use shard_net.Api.Relayed.{connected}
use shard_net.Node.Lifecycle.{
  Lifecycle, new_node, start, stop, Call, starts, stops, call, heartbeat_loop,
}

-- After any calls on a new node: it runs exactly while its heartbeats go on, and then its server listens.
pub record IsAlive (n : Lifecycle) : Type 0 where
  pub beating : n.heartbeats ≡ n.running
  pub serving : n.running ≡ true → n.listening ≡ true

unfoldable pub calls : List Call → Lifecycle → Lifecycle
unfolding call
calls [] n = n
calls (c ∷ cs) n = calls cs (call c n)

call-IsAlive : (c : Call) (n : Lifecycle) → IsAlive n → IsAlive (call c n)
unfolding call start stop
call-IsAlive (starts bound registered) n h = ground (arith, h.beating, h.serving)
call-IsAlive stops n h = ground (arith, h.beating, h.serving)

calls-IsAlive : (cs : List Call) (n : Lifecycle) → IsAlive n → IsAlive (calls cs n)
unfolding calls
calls-IsAlive [] n h = h
calls-IsAlive (c ∷ cs) n h = calls-IsAlive cs (call c n) (call-IsAlive c n h)

-- The server of a new node that is started and then stopped still listens exactly when it could be bound and
-- the registration raised an error.
pub stop-start :
    (bound registered : Result (Unit {0}))
    → ((stop (start bound registered new_node).1).1.listening ≡ true)
      ↔ ((bound ≡ ok tt) × ((e : Exception) × (registered ≡ raise e)))
unfolding start stop
stop-start (raise x) registered =
    (λ h. absurd (ground (arith, h)), λ h. absurd (ground (arith, h.0)))
stop-start (ok t) (ok u) = (λ h. absurd (ground (arith, h)), λ h. absurd (ground (arith, h.1.1)))
stop-start (ok t) (raise x) = (λ h. (refl, (x, refl)), λ h. refl)

received_state :
    {A : Type 0} {S : Type 0} (client : TrackerClient S) (schema : Schema A) (response : Response)
    (s : S)
    → (received client schema response s).1 ≡ s
received_state client schema response s =
    elim (Result-cases (parse_response client.to_text response)) [
      | inl (f, e) ↦ ground (arith, e)
      | inr (x, e) ↦ ground (arith, e)
    ]

accepted_name :
    (peer_id : String)
    → text_within 3 128 peer_id ≡ true
    → validate_heartbeat peer_id ≡ ok (record { peer_id = peer_id })
unfolding validate_heartbeat
accepted_name peer_id named = ground (arith, named)

-- A heartbeat over HTTP leaves the tracker as the store's method does, if the peer's name is accepted.
heartbeat_state :
    (web : Web) (to_text : Json → String) (tracker : Tracker) (peer_id : String) (db : Database)
    → text_within 3 128 peer_id ≡ true
    → (heartbeat (connected web to_text tracker) peer_id db).1
      ≡ (store_heartbeat_peer tracker.now peer_id db).1
unfolding heartbeat app heartbeat_peer
heartbeat_state web to_text tracker peer_id db named =
    let (r, db') = store_heartbeat_peer tracker.now peer_id db in
    let answer = respond web web.seen (heartbeat_answer tracker (record { peer_id = peer_id }) r) in
    ground (
      arith,
      accepted_name peer_id named,
      received_state (connected web to_text tracker) web.seen answer db',
    )

module _ (web : Web) (to_text : Json → String) (tracker : Tracker) (peer_id : String)
    (named : text_within 3 128 peer_id ≡ true) where
  -- The client of the node at given times.
  abbrev pub at_times : (ℕ → ℕ) → ℕ → TrackerClient Database
  at_times times k = connected web to_text (record tracker { now = times k })

  heartbeat_once :
      (now : ℕ) (db : Database)
      → (heartbeat (connected web to_text (record tracker { now = now })) peer_id db).1 ≡ (
          if any (is_peer peer_id) db.peers
          then record db { peers = update_where (is_peer peer_id) (see_peer now) db.peers }
          else db)
  heartbeat_once now db =
      heartbeat_state web to_text (record tracker { now = now }) peer_id db named
      ∙ ap (λ q. q.1) (heartbeat_peer_lem now peer_id db)
      ∙ elim (Bool-cases (any (is_peer peer_id) db.peers)) [
        | inl known ↦ rw known refl
        | inr unknown ↦ rw unknown refl
      ]

  forgotten :
      (rounds : ℕ) (times : ℕ → ℕ) (db : Database)
      → any (is_peer peer_id) db.peers ≡ false
      → heartbeat_loop rounds (at_times times) peer_id db ≡ db
  unfolding heartbeat_loop
  forgotten zero times db unknown = refl
  forgotten (suc rounds) times db unknown =
      ap (heartbeat_loop rounds (at_times (λ k. times (suc k))) peer_id)
        (heartbeat_once (times 0) db ∙ rw unknown refl)
      ∙ forgotten rounds (λ k. times (suc k)) db unknown

  abbrev SeenAt : ℕ → Database → Type 0
  SeenAt time db = any (λ p. is_peer peer_id p && p.last_seen_at == time) db.peers ≡ true

  seen_once :
      (now : ℕ) (db : Database)
      → any (is_peer peer_id) db.peers ≡ true
      → let db' = (heartbeat (connected web to_text (record tracker { now = now })) peer_id db).1 in
        SeenAt now db' × (any (is_peer peer_id) db'.peers ≡ true)
  seen_once now db known =
      rw (heartbeat_once now db, known)
        (
          any-update_where_hit (λ p. is_peer peer_id p && p.last_seen_at == now) (is_peer peer_id)
              (see_peer now) db.peers (λ p at. ground (arith, at)) known,
          any-update_where_hit (is_peer peer_id) (is_peer peer_id) (see_peer now) db.peers
              (λ p at. at) known,
        )

  remembered :
      (rounds : ℕ) (times : ℕ → ℕ) (db : Database)
      → any (is_peer peer_id) db.peers ≡ true
      → SeenAt (times rounds) (heartbeat_loop (suc rounds) (at_times times) peer_id db)
  unfolding heartbeat_loop
  remembered zero times db known = (seen_once (times 0) db known).0
  remembered (suc rounds) times db known =
      remembered rounds (λ k. times (suc k)) _ (seen_once (times 0) db known).1

  -- If the tracker accepts the name of a node and knows it, then behind any number of rounds of its
  -- heartbeats, at any times, it is recorded as seen at the time of the last one; if the tracker does not know
  -- it, they leave the tables as they are, however many they are.
  pub heartbeat_loop_lem :
      (rounds : ℕ) (times : ℕ → ℕ) (db : Database)
      → (any (is_peer peer_id) db.peers ≡ true
          → any
              (λ p. is_peer peer_id p && p.last_seen_at == times rounds)
              (heartbeat_loop (suc rounds) (at_times times) peer_id db).peers
            ≡ true)
        × (any (is_peer peer_id) db.peers ≡ false
            → heartbeat_loop (suc rounds) (at_times times) peer_id db ≡ db)
  heartbeat_loop_lem rounds times db = (remembered rounds times db, forgotten (suc rounds) times db)
