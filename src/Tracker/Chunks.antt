-- ===== src/Tracker/Chunks.antt =====
-- The chunk lists of src/shardnet/tracker/store.py: `_normalize_chunks`, `_parse_chunks` and
-- `_parse_chunk_hashes`.
use shard_net.Base.{
  ℕ, ℤ, pos, String, true, false, Option, none, some, List, [], ◌∷◌, map, ◌≡◌, refl, arith, ltb,
  index_below, filter_map, All, ◌<◌,
}
use shard_net.Base.SortedSet.{
  sorted_set, IsIncreasing, sorted_set-IsIncreasing, sorted_set-All, sorted_set_of_IsIncreasing,
}
use shard_net.Json.{Json, bool, int, str, arr, Text, doc, dumps, to_list, ints, strs}

unfoldable pub normalize_chunks : List ℤ → ℕ → List ℕ
normalize_chunks chunks total_chunks = sorted_set ltb (filter_map (index_below total_chunks) chunks)

-- `isinstance(value, int)`: Python's `True` and `False` are the ints 1 and 0.
abbrev pub as_int : Json → Option ℤ
as_int (int i) = some i
as_int (bool true) = some (pos 1)
as_int (bool false) = some (pos 0)
as_int _ = none

abbrev pub chunk_below : ℕ → Json → Option ℕ
chunk_below total_chunks value = elim (as_int value) [
  | none ↦ none
  | some i ↦ index_below total_chunks i
]

-- `json.loads` and the test for a list; every other text stands for no values.
abbrev pub parsed_list : Text → List Json
parsed_list (doc (arr js)) = to_list js
parsed_list _ = []

unfoldable pub parse_chunks : Text → ℕ → List ℕ
parse_chunks raw_chunks total_chunks =
    sorted_set ltb (filter_map (chunk_below total_chunks) (parsed_list raw_chunks))

abbrev pub as_str : Json → Option String
as_str (str s) = some s
as_str _ = none

unfoldable pub parse_chunk_hashes : Text → List String
parse_chunk_hashes raw_hashes = filter_map as_str (parsed_list raw_hashes)

-- A chunk list that the store wrote or may hand out: in order, without repetition, and in range.
pub record IsChunkSet (total : ℕ) (chunks : List ℕ) : Type 0 where
  pub increasing : IsIncreasing chunks
  pub in_range : All (λ c. c < total) chunks

in_range-All :
    (total : ℕ) (chunks : List ℤ) → All (λ c. c < total) (filter_map (index_below total) chunks)
in_range-All total [] = tt
in_range-All total (i ∷ is) = ground (arith, in_range-All total is)

pub normalize_chunks-IsChunkSet :
    (chunks : List ℤ) (total : ℕ) → IsChunkSet total (normalize_chunks chunks total)
unfolding normalize_chunks
normalize_chunks-IsChunkSet chunks total = record {
  increasing = sorted_set-IsIncreasing (filter_map (index_below total) chunks);
  in_range =
      sorted_set-All (λ c. c < total) (filter_map (index_below total) chunks)
        (in_range-All total chunks);
}

parsed-All : (total : ℕ) (js : List Json) → All (λ c. c < total) (filter_map (chunk_below total) js)
parsed-All total [] = tt
parsed-All total (j ∷ js) = ground (arith, parsed-All total js)

-- Whatever the text, what is parsed is in order and in range.
pub parse_chunks-IsChunkSet : (raw : Text) (total : ℕ) → IsChunkSet total (parse_chunks raw total)
unfolding parse_chunks
parse_chunks-IsChunkSet raw total = record {
  increasing = sorted_set-IsIncreasing (filter_map (chunk_below total) (parsed_list raw));
  in_range =
      sorted_set-All (λ c. c < total) (filter_map (chunk_below total) (parsed_list raw))
        (parsed-All total (parsed_list raw));
}

parsed-ints :
    (total : ℕ) (cs : List ℕ)
    → All (λ c. c < total) cs
    → filter_map (chunk_below total) (to_list (ints cs)) ≡ cs
parsed-ints total [] h = refl
parsed-ints total (c ∷ cs) h = ground (arith, parsed-ints total cs h.1)

-- What the store wrote it reads back unchanged.
pub parse_chunks-dumps :
    (total : ℕ) (cs : List ℕ)
    → IsChunkSet total cs
    → parse_chunks (dumps (arr (ints cs))) total ≡ cs
unfolding parse_chunks
parse_chunks-dumps total cs h =
    ground (arith, parsed-ints total cs h.in_range, sorted_set_of_IsIncreasing cs h.increasing)

pub parse_chunk_hashes-dumps : (hs : List String) → parse_chunk_hashes (dumps (arr (strs hs))) ≡ hs
unfolding parse_chunk_hashes
parse_chunk_hashes-dumps [] = refl
parse_chunk_hashes-dumps (h ∷ hs) = ground (arith, parse_chunk_hashes-dumps hs)

in_range-pos :
    (total : ℕ) (cs : List ℕ)
    → All (λ c. c < total) cs
    → filter_map (index_below total) (map pos cs) ≡ cs
in_range-pos total [] h = refl
in_range-pos total (c ∷ cs) h = ground (arith, in_range-pos total cs h.1)

-- A chunk list that is in order and in range is left as it is.
pub normalize_chunks_id :
    (total : ℕ) (cs : List ℕ) → IsChunkSet total cs → normalize_chunks (map pos cs) total ≡ cs
unfolding normalize_chunks
normalize_chunks_id total cs h =
    ground (arith, in_range-pos total cs h.in_range, sorted_set_of_IsIncreasing cs h.increasing)
