-- ===== src/Tests/Tracker.antt =====
-- The tracker's store at concrete tables.
use shard_net.Base.{
  none, pos, negsuc, true, false, not, some, [], ◌∷◌, ◌≡◌, refl, ◌↔◌, ◌⊎◌, any, All, ◌==◌, ◌&&◌,
  nat_eq, text_eq, list_eq, if◌then◌else◌,
}
use shard_net.Base.SortedSet.{sorted_set}
use shard_net.Base.Rows.{find_row, update_where}
use shard_net.Errors.{ok, raise, peer_not_found_error, file_metadata_conflict_error, overflow_error}
use shard_net.Tracker.Tables.{
  FileRow, Database, empty_database, is_peer, is_file, is_state, SwarmSnapshot, seed_count,
}
use shard_net.Tracker.Chunks.{normalize_chunks, parse_chunks, parse_chunk_hashes}
use shard_net.Tracker.Store.{
  Announcement, is_stale, see_peer, register_peer, heartbeat_peer, has_overflow,
  has_metadata_conflict, announce_metadata, announce_file,
}
use shard_net.Tracker.Store.Invariant.{IsValid, register_peer-IsValid}
use shard_net.Tracker.Store.Announced.{announce_file-IsValid}
use shard_net.Tracker.Store.Conflict.{Agrees}
use shard_net.Tracker.Store.Outcomes.{heartbeat_peer_lem, announce_file_refused, Overflows}
use shard_net.Tracker.Store.Repeated.{SameFile, announce_file-announce_file}
use shard_net.Tracker.Swarm.{in_order, get_swarm}
use shard_net.Tracker.Swarm.Answer.{IsListed, IsRanked}
use shard_net.Tracker.Swarm.Announced.{
  get_swarm-IsListed, get_swarm_members, described, get_swarm-announce_file,
}

program : Unit {0}
unfolding register_peer heartbeat_peer announce_file announce_metadata has_overflow
    has_metadata_conflict normalize_chunks parse_chunks parse_chunk_hashes sorted_set get_swarm
    in_order seed_count
program = tt

abbrev song : Announcement
song = record {
  peer_id = "alice";
  info_hash = "h1";
  file_name = "song.bin";
  file_size_bytes = 10;
  chunk_size_bytes = 4;
  total_chunks = 3;
  file_sha256 = "f1";
  chunk_sha256 = "c0" ∷ "c1" ∷ "c2" ∷ [];
  available_chunks = pos 2 ∷ pos 0 ∷ negsuc 0 ∷ pos 2 ∷ pos 7 ∷ pos 1 ∷ [];
}

abbrev partial_song : Announcement
partial_song = record song { peer_id = "bob"; available_chunks = pos 1 ∷ [] }

abbrev other_song : Announcement
other_song = record partial_song { total_chunks = 4 }

abbrev with_alice : Database
with_alice = (register_peer 100 "alice" "10.0.0.1" 9000 "0.1.0" empty_database).1

abbrev with_bob : Database
with_bob = (register_peer 130 "bob" "10.0.0.2" 9001 "0.1.0" with_alice).1

abbrev shared : Database
shared = (announce_file 140 song with_bob).1

abbrev both : Database
both = (announce_file 150 partial_song shared).1

empty_database-IsValid : IsValid empty_database
empty_database-IsValid = record {
  peers_unique = tt;
  files_unique = tt;
  states_unique = tt;
  hashes = tt;
  owners = tt;
  states = tt;
}

with_bob-IsValid : IsValid with_bob
with_bob-IsValid = register_peer-IsValid 130 "bob" "10.0.0.2" 9001 "0.1.0" with_alice (
    register_peer-IsValid 100 "alice" "10.0.0.1" 9000 "0.1.0" empty_database empty_database-IsValid)

both-IsValid : IsValid both
both-IsValid =
    announce_file-IsValid 150 partial_song shared
      (announce_file-IsValid 140 song with_bob with_bob-IsValid)

-- Out of range and repeated chunks are dropped.
normalized : normalize_chunks song.available_chunks 3 ≡ 0 ∷ 1 ∷ 2 ∷ []
unfolding program
normalized = refl

announced_twice : (announce_file 150 partial_song shared).0 ≡ ok 2
unfolding program
announced_twice = refl

abbrev swarm_of_both : SwarmSnapshot
swarm_of_both = record {
  file = described song;
  peers =
      record {
        peer_id = "alice";
        host = "10.0.0.1";
        port = 9000;
        available_chunks = 0 ∷ 1 ∷ 2 ∷ [];
        completed = true;
        last_seen_at = 100;
      }
      ∷ record {
        peer_id = "bob";
        host = "10.0.0.2";
        port = 9001;
        available_chunks = 1 ∷ [];
        completed = false;
        last_seen_at = 130;
      }
      ∷ [];
}

-- The complete peer stands first, though it was seen earlier.
swarm_listed : (get_swarm 160 "h1" 120 both).0 ≡ ok swarm_of_both
unfolding program
swarm_listed = refl

one_seed : seed_count swarm_of_both ≡ 1
unfolding program
one_seed = refl

register_peer-IsValid_example :
    IsValid (register_peer 100 "alice" "10.0.0.1" 9000 "0.1.0" empty_database).1
register_peer-IsValid_example =
    register_peer-IsValid 100 "alice" "10.0.0.1" 9000 "0.1.0" empty_database empty_database-IsValid

announce_file-IsValid_example : IsValid (announce_file 140 song with_bob).1
announce_file-IsValid_example = announce_file-IsValid 140 song with_bob with_bob-IsValid

heartbeat_peer_lem_example : heartbeat_peer 120 "carol" with_alice ≡ (
    if any (is_peer "carol") with_alice.peers
    then (
      ok 120,
      record with_alice { peers = update_where (is_peer "carol") (see_peer 120) with_alice.peers },
    )
    else (raise (peer_not_found_error "carol"), with_alice))
heartbeat_peer_lem_example = heartbeat_peer_lem 120 "carol" with_alice

announce_file_refused_example :
    (shared ≡ shared)
    × (((file_metadata_conflict_error "h1" ≡ peer_not_found_error "bob")
          × (any (is_peer "bob") shared.peers ≡ false))
        ⊎ (((file_metadata_conflict_error "h1" ≡ file_metadata_conflict_error "h1")
              × (any (is_peer "bob") shared.peers ≡ true)
              × ((f : FileRow) × (find_row (is_file "h1") shared.files ≡ some f)
                  × (¬ Agrees f other_song)))
            ⊎ ((file_metadata_conflict_error "h1" ≡ overflow_error)
                × (any (is_peer "bob") shared.peers ≡ true)
                × (find_row (is_file "h1") shared.files ≡ none)
                × Overflows other_song)))
unfolding program
announce_file_refused_example = announce_file_refused 150 other_song shared refl

announce_file-announce_file_example :
    (announce_file 150 other_song shared ≡ (raise (file_metadata_conflict_error "h1"), shared))
    ↔ (¬ SameFile song other_song)
unfolding program
announce_file-announce_file_example =
    announce_file-announce_file 140 150 song other_song with_bob {n = 1} refl refl refl

get_swarm-IsListed_example : All (IsListed 40 3) swarm_of_both.peers × IsRanked swarm_of_both.peers
unfolding program
get_swarm-IsListed_example =
    get_swarm-IsListed 160 120 "h1" both {snap = swarm_of_both}
      {db' = (get_swarm 160 "h1" 120 both).1} both-IsValid refl

get_swarm_members_example : any (λ r. r.peer_id == "bob") swarm_of_both.peers ≡ (
    any (λ p. is_peer "bob" p && not (is_stale 40 p)) both.peers
    && any (is_state "bob" "h1") both.peer_file_state)
unfolding program
get_swarm_members_example =
    get_swarm_members 160 120 "h1" both {snap = swarm_of_both}
      {db' = (get_swarm 160 "h1" 120 both).1} "bob" both-IsValid refl

get_swarm-announce_file_example :
    (snap : SwarmSnapshot) × ((get_swarm 160 "h1" 120 shared).0 ≡ ok snap)
    × (any
          (λ r.
            r.peer_id == "alice" && r.available_chunks == normalize_chunks song.available_chunks 3)
          snap.peers
        ≡ true)
    × (snap.file ≡ described song)
unfolding program
get_swarm-announce_file_example =
    get_swarm-announce_file 140 160 120 song with_bob {n = 1} with_bob-IsValid refl refl
