-- ===== src/Tracker/Swarm/Rows.antt =====
-- Which rows the query of `get_swarm` (src/shardnet/tracker/store.py) finds after the stale peers have
-- been deleted: the pairs of a live peer and its state of the file.
use shard_net.Base.{
  ℕ, String, Bool, true, false, not, List, [], ◌∷◌, map, ◌≡◌, refl, ◌∙◌, arith, any, ◌&&◌, text_eq,
  eq_iff,
}
use shard_net.Base.Rows.{select_where, delete_where}
use shard_net.Base.Rows.Laws.{UniqueBy, any-append, any-select_where}
use shard_net.Tracker.Tables.{PeerRow, PeerFileState, Database, is_peer}
use shard_net.Tracker.Store.{is_stale, delete_stale}
use shard_net.Tracker.Store.Invariant.{same_peer}
use shard_net.Tracker.Swarm.{Joined, of_file, join_peers, peer_rows}
use shard_net.Tracker.Swarm.Order.{any-order_rows}

module _ (test : Joined → Bool) where
  any-map_pair :
      (s : PeerFileState) (peers : List PeerRow)
      → any test (map (λ p. (p, s)) peers) ≡ any (λ p. test (p, s)) peers
  any-map_pair s [] = refl
  any-map_pair s (p ∷ ps) = ground (arith, any-map_pair s ps)

  any-join_peers :
      (peers : List PeerRow) (states : List PeerFileState)
      → any test (join_peers peers states)
        ≡ any (λ s. any (λ p. is_peer s.peer_id p && test (p, s)) peers) states
  unfolding join_peers
  any-join_peers peers [] = refl
  any-join_peers peers (s ∷ states) =
      let mine = select_where (is_peer s.peer_id) peers in
      ground (
        arith,
        any-append test (map (λ p. (p, s)) mine) (join_peers peers states),
        any-map_pair s mine,
        any-select_where (λ p. test (p, s)) (is_peer s.peer_id) peers,
        any-join_peers peers states,
      )

module _ (cutoff : ℕ) where
  -- A peer that is stale and one that is not are never the same.
  none_stale :
      (id : String) (good : PeerRow → Bool) (peers : List PeerRow)
      → UniqueBy same_peer peers
      → any (λ p. not (is_stale cutoff p) && (is_peer id p && good p)) peers ≡ true
      → any (is_peer id) (select_where (is_stale cutoff) peers) ≡ false
  none_stale id good [] u h = refl
  none_stale id good (p ∷ ps) u h = ground (
    arith,
    eq_iff p.peer_id id,
    none_stale id good ps u.1,
    λ (e : p.peer_id ≡ id). absent e ps u.0,
    absent_good ps,
  )
    where
      absent :
          p.peer_id ≡ id
          → (qs : List PeerRow) → any (same_peer p) qs ≡ false
          → any (is_peer id) (select_where (is_stale cutoff) qs) ≡ false
      absent e [] h' = refl
      absent e (q ∷ qs) h' = rw (← e) (ground (arith, absent e qs, e))

      absent_good :
          (qs : List PeerRow)
          → any (λ q. not (is_stale cutoff q) && (is_peer id q && good q)) qs ≡ true
          → any (is_peer id) qs ≡ true
      absent_good [] h' = cc
      absent_good (q ∷ qs) h' = ground (arith, absent_good qs)

  -- A row that a test accepts is found exactly when a state of the file and a live peer with that
  -- state's id make one.
  pub any-peer_rows :
      (test : Joined → Bool) (info_hash : String) (db : Database)
      → UniqueBy same_peer db.peers
      → any test (peer_rows info_hash (delete_stale cutoff db))
        ≡ any
            (λ s.
              of_file info_hash s
              && any
                  (λ p. not (is_stale cutoff p) && (is_peer s.peer_id p && test (p, s)))
                  db.peers)
            db.peer_file_state
  unfolding peer_rows delete_stale
  any-peer_rows test info_hash db u =
      any-order_rows test _
      ∙ any-join_peers test (delete_where (is_stale cutoff) db.peers)
          (select_where (of_file info_hash) (delete_where gone db.peer_file_state))
      ∙ per_state db.peer_file_state
    where
      gone : PeerFileState → Bool
      gone s = any (is_peer s.peer_id) (select_where (is_stale cutoff) db.peers)

      live : PeerFileState → PeerRow → Bool
      live s p = not (is_stale cutoff p) && (is_peer s.peer_id p && test (p, s))

      per_state :
          (states : List PeerFileState)
          → any
              (λ s.
                any
                  (λ p. is_peer s.peer_id p && test (p, s))
                  (delete_where (is_stale cutoff) db.peers))
              (select_where (of_file info_hash) (delete_where gone states))
            ≡ any (λ s. of_file info_hash s && any (live s) db.peers) states
      per_state [] = refl
      per_state (s ∷ states) = ground (
        arith,
        per_state states,
        any-select_where (λ p. is_peer s.peer_id p && test (p, s)) (λ p. not (is_stale cutoff p))
            db.peers,
        none_stale s.peer_id (λ p. test (p, s)) db.peers u,
      )
