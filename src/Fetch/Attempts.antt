-- ===== src/Fetch/Attempts.antt =====
-- The attempts of `request_chunk` (src/shardnet/client/core/peer_client.py): they end, and which of them
-- gives the chunk.
use shard_net.Base.{
  ℕ, zero, suc, String, true, Option, none, some, ◌≡◌, ◌↔◌, refl, ap, ◌∙◌, subst, ◌+◌, ◌<◌, ◌≤◌,
  ◌==◌, nat_eq, arith, Bool-cases, inl, inr,
}
use shard_net.Errors.{Result, ok, raise, Exception, Result-cases}
use shard_net.Platform.{Bytes}
use shard_net.Fetch.Request.{Opened, failed, opened}
use shard_net.Fetch.Retry.{
  Target, rounds_for, result_of, attempt_on, attempt, is_caught, next_attempt, attempts_from,
  request_chunk,
}
use shard_net.Fetch.Rounds.{once-Ends}

module _ (target : Target) (info_hash : String) (chunk_index : ℕ) where
  abbrev Tried : ℕ → Type 0
  Tried j =
      (e : Exception) × (attempt target info_hash chunk_index j ≡ some (raise e))
      × (is_caught e ≡ true)

  -- Attempt `m` is the first of those from `k` on that does not fail with a caught error.
  record IsFirst (k m : ℕ) (chunk_data : Bytes) : Type 0 where
    from : k ≤ m
    gives : attempt target info_hash chunk_index m ≡ some (ok chunk_data)
    before : (j : ℕ) → k ≤ j → j < m → Tried j

  ended : (k : ℕ) → (r : Result Bytes) × (attempt target info_hash chunk_index k ≡ some r)
  unfolding attempt
  ended k = go (target.open_connection k)
    where
      go :
          (o : Opened)
          → (r : Result Bytes) × (attempt_on target.client
                (target.request_id k)
                info_hash
                chunk_index
                o
              ≡ some r)
      go (failed e) = (raise e, refl)
      go (opened stream) =
          let ((r, c), e) =
            once-Ends target.client (target.request_id k) (rounds_for stream) info_hash chunk_index
              stream (omega arith) in
          (r, ap result_of e)

  next_ends :
      (o : Option (Result Bytes)) (retry : Exception → Option (Result Bytes))
      → ((r : Result Bytes) × (o ≡ some r))
      → ((e : Exception) → (r : Result Bytes) × (retry e ≡ some r))
      → (r : Result Bytes) × (next_attempt o retry ≡ some r)
  next_ends none retry (r, e) h = absurd (ground (arith, e))
  next_ends (some (ok d)) retry p h = (ok d, refl)
  next_ends (some (raise e)) retry p h = elim (Bool-cases (is_caught e)) [
    | inl caught ↦ rw caught (h e)
    | inr other ↦ rw other (raise e, refl)
  ]

  attempts_end :
      (left k : ℕ) (last_error : Option Exception)
      → (r : Result Bytes) × (attempts_from target info_hash chunk_index left k last_error ≡ some r)
  unfolding attempts_from
  attempts_end zero k last_error = (_, refl)
  attempts_end (suc left) k last_error =
      next_ends (attempt target info_hash chunk_index k) _ (ended k)
        (λ e. attempts_end left (suc k) (some e))

  IsFirst-Tried :
      {k m : ℕ} {chunk_data : Bytes}
      → Tried k
      → IsFirst (suc k) m chunk_data
      → IsFirst k m chunk_data
  IsFirst-Tried {k} {m} failed_before f = record {
    from = omega (arith, f.from);
    gives = f.gives;
    before = λ j p q. elim (Bool-cases (k == j)) [
      | inl same ↦ subst Tried (ground (arith, same)) failed_before
      | inr later ↦ f.before j (ground (arith, later)) q
    ];
  }

  IsFirst-given :
      (left k : ℕ) (last_error : Option Exception) (chunk_data : Bytes)
      → attempts_from target info_hash chunk_index left k last_error ≡ some (ok chunk_data)
      → (m : ℕ) × (m < k + left) × IsFirst k m chunk_data
  unfolding attempts_from
  IsFirst-given zero k last_error chunk_data e = absurd (ground (arith, e))
  IsFirst-given (suc left) k last_error chunk_data e =
      let (r, at) = ended k in
      elim (Result-cases r) [
        | inl (d, good) ↦ (
          k,
          omega arith,
          record {
            from = omega arith;
            gives = ground (arith, e, at, good);
            before = λ j p q. absurd (omega arith);
          },
        )
        | inr (x, bad) ↦ elim (Bool-cases (is_caught x)) [
          | inr other ↦ absurd (ground (arith, e, at, bad, other))
          | inl caught ↦
              let (m, below, f) =
                IsFirst-given left (suc k) (some x) chunk_data
                  (ground (arith, e, at, bad, caught)) in
              (m, omega (arith, below), IsFirst-Tried (x, at ∙ ap (λ q. some q) bad, caught) f)
        ]
      ]

  given_first :
      (left k m : ℕ) (last_error : Option Exception) (chunk_data : Bytes)
      → m < k + left
      → IsFirst k m chunk_data
      → attempts_from target info_hash chunk_index left k last_error ≡ some (ok chunk_data)
  unfolding attempts_from
  given_first zero k m last_error chunk_data below f = absurd (omega (arith, f.from))
  given_first (suc left) k m last_error chunk_data below f = elim (Bool-cases (k == m)) [
    | inl same ↦
        let gives : attempt target info_hash chunk_index k ≡ some (ok chunk_data) =
          subst (λ j. attempt target info_hash chunk_index j ≡ some (ok chunk_data))
            (ground (arith, same)) f.gives in
        ground (arith, gives)
    | inr other ↦
        let (x, at, caught) = f.before k (omega arith) (ground (arith, f.from, other)) in
        ground (
          arith,
          at,
          caught,
          given_first left (suc k) m (some x) chunk_data (omega (arith, below)) (record {
            from = ground (arith, f.from, other);
            gives = f.gives;
            before = λ j p q. f.before j (omega (arith, p)) q;
          }),
        )
  ]

-- The attempts end, with the chunk or an error; and they give a chunk exactly when one of the first
-- `retry_attempts + 1` attempts gives it and every attempt before it failed with a caught error.
pub request_chunk_lem :
    (target : Target) (info_hash : String) (chunk_index : ℕ)
    → ((r : Result Bytes) × (request_chunk target info_hash chunk_index ≡ some r))
      × ((chunk_data : Bytes)
          → (request_chunk target info_hash chunk_index ≡ some (ok chunk_data)) ↔ (
              (m : ℕ) × (m ≤ target.retry_attempts)
              × (attempt target info_hash chunk_index m ≡ some (ok chunk_data))
              × ((j : ℕ)
                  → j < m
                  → (e : Exception) × (attempt target info_hash chunk_index j ≡ some (raise e))
                    × (is_caught e ≡ true))))
unfolding request_chunk
request_chunk_lem target info_hash i = (
  attempts_end target info_hash i (suc target.retry_attempts) 0 none,
  λ chunk_data. (
    λ e.
        let (m, below, f) =
          IsFirst-given target info_hash i (suc target.retry_attempts) 0 none chunk_data e in
        (m, omega (arith, below), f.gives, λ j p. f.before j (omega arith) p),
    λ (m, below, gives, before).
        given_first target info_hash i (suc target.retry_attempts) 0 m none chunk_data
          (omega (arith, below))
          (record { from = omega arith; gives = gives; before = λ j p q. before j q }),
  ),
)
