-- ===== src/Tracker/Swarm/Answer.antt =====
-- What `get_swarm` of src/shardnet/tracker/store.py answers on valid tables.
use shard_net.Base.{
  ℕ, String, true, false, not, some, List, [], ◌∷◌, map, ◌≡◌, ◌∙◌, ap, subst, arith, All, ◌==◌, ◌↔◌,
  if◌then◌else◌, text_eq, nat_eq, eq_iff, Option-cases, inl, inr, ◌≤◌, ◌<◌, ◌-◌, ◌+◌, length,
}
use shard_net.Base.SortedSet.{range, length-range_from, increasing_full}
use shard_net.Base.Rows.{find_row, select_where, delete_where}
use shard_net.Base.Rows.Laws.{All-append, All-imp, select_where-All, All-select_where, selected}
use shard_net.Tracker.Tables.{
  PeerRow, FileRow, PeerFileState, Database, is_peer, is_file, SwarmPeerRecord,
}
use shard_net.Tracker.Chunks.{IsChunkSet, parse_chunks, parse_chunks-dumps}
use shard_net.Tracker.Store.{is_stale, delete_stale}
use shard_net.Tracker.Store.Invariant.{Records, IsStateOf, IsValid, delete_stale-IsValid}
use shard_net.Tracker.Swarm.{
  Joined, of_file, in_order, join_peers, peer_rows, swarm_peer, get_swarm,
}
use shard_net.Tracker.Swarm.Order.{IsOrdered, order_rows-IsOrdered, order_rows-All}

-- `get_swarm` keeps the invariant, whether it answers or raises.
pub get_swarm-IsValid :
    (now : ℕ) (info_hash : String) (ttl_seconds : ℕ) (db : Database)
    → IsValid db
    → IsValid (get_swarm now info_hash ttl_seconds db).1
unfolding get_swarm
get_swarm-IsValid now info_hash ttl_seconds db v =
    let live = delete_stale (now - ttl_seconds) db in
    elim (Option-cases (find_row (is_file info_hash) live.files)) [
      | inl absent ↦ rw absent v
      | inr (f, found) ↦ rw found (delete_stale-IsValid (now - ttl_seconds) db v)
    ]

-- A row of the query: a live peer with a state that the store wrote for a file of so many chunks.
pub record IsRow (cutoff total : ℕ) (row : Joined) : Type 0 where
  pub live : is_stale cutoff row.0 ≡ false
  pub state : Records total row.1.available_chunks row.1.completed

module _ (cutoff total : ℕ) where
  paired-All :
      (s : PeerFileState) (peers : List PeerRow)
      → Records total s.available_chunks s.completed
      → All (λ p. is_stale cutoff p ≡ false) peers
      → All (IsRow cutoff total) (map (λ p. (p, s)) peers)
  paired-All s [] r h = tt
  paired-All s (p ∷ ps) r h = (record { live = h.0; state = r }, paired-All s ps r h.1)

  join_peers-All :
      (peers : List PeerRow) (states : List PeerFileState)
      → All (λ p. is_stale cutoff p ≡ false) peers
      → All (λ s. Records total s.available_chunks s.completed) states
      → All (IsRow cutoff total) (join_peers peers states)
  unfolding join_peers
  join_peers-All peers [] hp hs = tt
  join_peers-All peers (s ∷ states) hp hs =
      let mine = select_where (is_peer s.peer_id) peers in
      All-append (IsRow cutoff total) (map (λ p. (p, s)) mine) (join_peers peers states)
        (paired-All s mine hs.0
          (All-select_where (λ p. is_stale cutoff p ≡ false) (is_peer s.peer_id) peers hp))
        (join_peers-All peers states hp hs.1)

pub peer_rows-All :
    (cutoff : ℕ) (info_hash : String) (db : Database) {f : FileRow}
    → IsValid db
    → find_row (is_file info_hash) db.files ≡ some f
    → All (IsRow cutoff f.total_chunks) (peer_rows info_hash (delete_stale cutoff db))
unfolding peer_rows delete_stale
peer_rows-All cutoff info_hash db {f} v found = order_rows-All (IsRow cutoff f.total_chunks) _ (
    join_peers-All cutoff f.total_chunks (delete_where (is_stale cutoff) db.peers) _
      (All-imp (λ p. not (is_stale cutoff p) ≡ true) (λ p. is_stale cutoff p ≡ false) _
        (λ p h. ground arith) (selected (λ p. not (is_stale cutoff p)) db.peers))
      (select_where-All (IsStateOf db.files)
        (λ s. Records f.total_chunks s.available_chunks s.completed) (of_file info_hash) _
        (λ s mine st.
          subst (λ g. Records g.total_chunks s.available_chunks s.completed)
            (same_file s mine st.0 st.1) st.2)
        (All-select_where (IsStateOf db.files) _ db.peer_file_state v.states)))
  where
    same_file :
        (s : PeerFileState)
        → of_file info_hash s ≡ true
        → (g : FileRow) → find_row (is_file s.info_hash) db.files ≡ some g
        → g ≡ f
    same_file s mine g e = ground (arith, eq_iff s.info_hash info_hash, e, found)

pub peer_rows-IsOrdered : (info_hash : String) (db : Database) → IsOrdered (peer_rows info_hash db)
unfolding peer_rows
peer_rows-IsOrdered info_hash db =
    order_rows-IsOrdered (join_peers db.peers (select_where (of_file info_hash) db.peer_file_state))

-- What a listed peer is to its file.
pub record IsListed (cutoff total : ℕ) (r : SwarmPeerRecord) : Type 0 where
  pub seen : cutoff ≤ r.last_seen_at
  pub chunk_set : IsChunkSet total r.available_chunks
  pub full : (r.completed ≡ true) ↔ (r.available_chunks ≡ range total)

full_iff :
    (total : ℕ) (cs : List ℕ) → IsChunkSet total cs → (length cs ≡ total) ↔ (cs ≡ range total)
full_iff total cs h = (
  λ e. increasing_full 0 total cs h.increasing (at_least cs) (below cs h.in_range) e,
  λ e. ap length e ∙ length-range_from 0 total,
)
  where
    at_least : (xs : List ℕ) → All (λ x. 0 ≤ x) xs
    at_least [] = tt
    at_least (x ∷ xs) = (omega arith, at_least xs)

    below : (xs : List ℕ) → All (λ x. x < total) xs → All (λ x. x < 0 + total) xs
    below [] a = tt
    below (x ∷ xs) a = (omega arith, below xs a.1)

swarm_peer-IsListed :
    (cutoff total : ℕ) (row : Joined)
    → IsRow cutoff total row
    → IsListed cutoff total (swarm_peer total row)
swarm_peer-IsListed cutoff total (p, s) h =
    let r = h.state in
    let parsed : parse_chunks s.available_chunks total ≡ r.chunks =
      ap (λ raw. parse_chunks raw total) r.stored ∙ parse_chunks-dumps total r.chunks r.chunk_set in
    record {
      seen = ground (arith, h.live);
      chunk_set = rw parsed r.chunk_set;
      full = rw parsed (iff_of_flag r.chunks r.flag (full_iff total r.chunks r.chunk_set));
    }
  where
    iff_of_flag :
        (cs : List ℕ)
        → s.completed ≡ (if length cs == total then 1 else 0)
        → (length cs ≡ total) ↔ (cs ≡ range total)
        → (not (s.completed == 0) ≡ true) ↔ (cs ≡ range total)
    iff_of_flag cs e (there, back) =
        (λ h. there (ground arith), λ h. let l = back h in ground arith)

-- The order of the answer: complete peers first, and of two alike the one seen later.
abbrev pub Precedes : SwarmPeerRecord → SwarmPeerRecord → Type 0
Precedes r q =
    (q.completed ≡ true → r.completed ≡ true)
    × (r.completed ≡ q.completed → q.last_seen_at ≤ r.last_seen_at)

abbrev pub IsRanked : List SwarmPeerRecord → Type 0
IsRanked [] = Unit
IsRanked (r ∷ rs) = All (Precedes r) rs × IsRanked rs

module _ (cutoff total : ℕ) where
  Precedes-in_order :
      (x y : Joined)
      → IsRow cutoff total x
      → IsRow cutoff total y
      → in_order x y ≡ true
      → Precedes (swarm_peer total x) (swarm_peer total y)
  unfolding in_order
  Precedes-in_order (p, s) (q, t) hx hy e =
      let fx = hx.state.flag in let fy = hy.state.flag in ground arith

  pub map-IsRanked :
      (rows : List Joined)
      → All (IsRow cutoff total) rows
      → IsOrdered rows
      → IsRanked (map (swarm_peer total) rows)
  map-IsRanked [] h o = tt
  map-IsRanked (x ∷ xs) h o = (ranked xs h.1 o.0, map-IsRanked xs h.1 o.1)
    where
      ranked :
          (ys : List Joined)
          → All (IsRow cutoff total) ys
          → All (λ y. in_order x y ≡ true) ys
          → All (Precedes (swarm_peer total x)) (map (swarm_peer total) ys)
      ranked [] hs os = tt
      ranked (y ∷ ys) hs os = (Precedes-in_order x y h.0 hs.0 os.0, ranked ys hs.1 os.1)

  pub map-IsListed :
      (rows : List Joined)
      → All (IsRow cutoff total) rows
      → All (IsListed cutoff total) (map (swarm_peer total) rows)
  map-IsListed [] h = tt
  map-IsListed (x ∷ xs) h = (swarm_peer-IsListed cutoff total x h.0, map-IsListed xs h.1)
