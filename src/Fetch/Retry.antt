-- ===== src/Fetch/Retry.antt =====
-- `request_chunk` of src/shardnet/client/core/peer_client.py: the attempts, one after another. The pauses
-- between them are left out.
use shard_net.Base.{
  ℕ, zero, suc, ℤ, String, Bool, true, false, Option, none, some, length, if◌then◌else◌,
}
use shard_net.Json.{str, int, field, end}
use shard_net.Base.{pos}
use shard_net.Errors.{Result, ok, raise, Exception, protocol, timeout_error, os_error}
use shard_net.Platform.{Bytes}
use shard_net.Wire.Frames.{Stream, protocol_error}
use shard_net.Fetch.Request.{Client, Opened, failed, opened, Connection, request_chunk_once}

-- Where a chunk is asked for, and what each attempt meets: the identifier that `uuid4` gives, and the
-- connection. `describe` is Python's `str` on an exception.
pub record Target : Type 0 where
  pub client : Client
  pub retry_attempts : ℕ
  pub host : String
  pub port : ℤ
  pub request_id : ℕ → String
  pub open_connection : ℕ → Opened
  pub describe : Exception → String

-- A read takes at least one byte, so one round more than bytes arrive is enough.
abbrev pub rounds_for : Stream → ℕ
rounds_for stream = suc (length stream.buffer)

abbrev pub result_of : Option (Result Bytes × Connection) → Option (Result Bytes)
result_of none = none
result_of (some (r, c)) = some r

abbrev pub attempt_on : Client → String → String → ℕ → Opened → Option (Result Bytes)
attempt_on client request_id info_hash chunk_index (failed e) = some (raise e)
attempt_on client request_id info_hash chunk_index (opened stream) =
    result_of
      (request_chunk_once (rounds_for stream) client request_id info_hash chunk_index stream)

unfoldable pub attempt : Target → String → ℕ → ℕ → Option (Result Bytes)
attempt target info_hash chunk_index k =
    attempt_on target.client (target.request_id k) info_hash chunk_index (target.open_connection k)

-- `except (TimeoutError, OSError, ProtocolError)`.
abbrev pub is_caught : Exception → Bool
is_caught timeout_error = true
is_caught os_error = true
is_caught (protocol e) = true
is_caught _ = false

abbrev pub last_error_text : Target → Option Exception → String
last_error_text target none = "unknown"
last_error_text target (some e) = target.describe e

abbrev pub chunk_request_failed : Target → String → ℕ → Option Exception → Exception
chunk_request_failed target info_hash chunk_index last_error =
    protocol_error "chunk_request_failed" "Failed to fetch chunk from peer after retries." (
      field "host" (str target.host) (
        field "port" (int target.port) (
          field "info_hash" (str info_hash) (
            field "chunk_index" (int (pos chunk_index)) (
              field "retries" (int (pos target.retry_attempts))
                (field "last_error" (str (last_error_text target last_error)) end))))))

-- What is raised behind the loop.
abbrev pub gave_up : Target → String → ℕ → Option Exception → Exception
gave_up target info_hash chunk_index (some (protocol e)) = protocol e
gave_up target info_hash chunk_index last_error =
    chunk_request_failed target info_hash chunk_index last_error

-- What becomes of an attempt: it is returned, raised, or followed by the next.
abbrev pub next_attempt :
    Option (Result Bytes) → (Exception → Option (Result Bytes)) → Option (Result Bytes)
next_attempt none retry = none
next_attempt (some (ok chunk_data)) retry = some (ok chunk_data)
next_attempt (some (raise e)) retry = if is_caught e then retry e else some (raise e)

-- `for attempt in range(…)` with `left` attempts to go, of which the next is attempt `k`.
unfoldable pub attempts_from :
    Target → String → ℕ → (left k : ℕ) → Option Exception → Option (Result Bytes)
unfolding attempt
attempts_from target info_hash chunk_index zero k last_error =
    some (raise (gave_up target info_hash chunk_index last_error))
attempts_from target info_hash chunk_index (suc left) k last_error =
    next_attempt (attempt target info_hash chunk_index k)
      (λ e. attempts_from target info_hash chunk_index left (suc k) (some e))

unfoldable pub request_chunk : Target → String → ℕ → Option (Result Bytes)
unfolding attempts_from
request_chunk target info_hash chunk_index =
    attempts_from target info_hash chunk_index (suc target.retry_attempts) 0 none
