-- ===== src/Errors.antt =====
-- The exceptions: src/shardnet/common/errors.py, src/shardnet/tracker/errors.py, and those of Python
-- and pydantic that the code raises, lets through or catches.
use shard_net.Base.{String, ◌≡◌, ◌⊎◌, inl, inr, refl}
use shard_net.Json.{Json, obj, str, Fields, end, field}

-- `ShardNetError`; `context` is a dict.
pub record ShardNetError : Type 0 where
  pub code : String
  pub message : String
  pub context : Fields

-- The subclasses of `ShardNetError`, by name, and the other classes.
pub data Exception : Type 0 where
  configuration protocol transfer : ShardNetError → Exception
  peer_not_found file_metadata_conflict info_hash_not_found : ShardNetError → Exception
  value_error index_error validation_error overflow_error : Exception
  timeout_error os_error incomplete_read_error : Exception

pub data Result {ℓ} (A : Type ℓ) : Type ℓ where
  ok : A → Result A
  raise : Exception → Result A

infixl 5 ◌>>=◌ ◌>>◌
abbrev pub ◌>>=◌ {ℓ κ} : {T : Type ℓ} {U : Type κ} → Result T → (T → Result U) → Result U
raise e >>= next = raise e
ok value >>= next = next value

abbrev pub ◌>>◌ {ℓ} : {U : Type ℓ} → Result (Unit {0}) → Result U → Result U
first >> second = first >>= (λ _. second)

pub Result-cases {ℓ} :
    {T : Type ℓ} (r : Result T) → ((t : T) × (r ≡ ok t)) ⊎ ((e : Exception) × (r ≡ raise e))
Result-cases (ok t) = inl (t, refl)
Result-cases (raise e) = inr (e, refl)

-- `ShardNetError.to_dict`.
abbrev pub to_dict : ShardNetError → Json
to_dict e = obj (
    field "code" (str e.code)
      (field "message" (str e.message) (field "context" (obj e.context) end)))

abbrev pub peer_not_found_error : String → Exception
peer_not_found_error peer_id = peer_not_found (record {
  code = "peer_not_found";
  message = "Peer is not registered with the tracker.";
  context = field "peer_id" (str peer_id) end;
})

abbrev pub file_metadata_conflict_error : String → Exception
file_metadata_conflict_error info_hash = file_metadata_conflict (record {
  code = "file_metadata_conflict";
  message = "File metadata for this info_hash does not match existing tracker state.";
  context = field "info_hash" (str info_hash) end;
})

abbrev pub info_hash_not_found_error : String → Exception
info_hash_not_found_error info_hash = info_hash_not_found (record {
  code = "info_hash_not_found";
  message = "No tracker metadata exists for the provided info_hash.";
  context = field "info_hash" (str info_hash) end;
})
