-- ===== src/Api/Errors.antt =====
-- `_parse_response` of src/shardnet/client/core/tracker_client.py: what it accepts, and the error that it
-- raises otherwise.
use shard_net.Base.{
  ℕ, pos, String, false, Option, none, some, ◌≡◌, ◌↔◌, refl, subst, ◌<◌, text_eq, leb, arith,
  eq_iff, Bool-cases, Option-cases, inl, inr,
}
use shard_net.Json.{Json, int, obj, Fields, field, end, get_field, set_field}
use shard_net.Errors.{ShardNetError, ok, raise, Exception, transfer}
use shard_net.Api.Routes.{Response}
use shard_net.Api.Client.{
  detail_context, non_json, unexpected_shape, detail_of, failed_with, parse_payload, parse_response,
}

get_field-set_field : (k : String) (v : Json) (f : Fields) → get_field k (set_field k v f) ≡ some v
get_field-set_field k v end = ground (arith, eq_iff k k)
get_field-set_field k v (field name j rest) =
    ground (arith, eq_iff k k, eq_iff name k, get_field-set_field k v rest)

-- A `TransferError` whose context has the status of the response.
pub record IsStatusError (status_code : ℕ) (e : Exception) : Type 0 where
  pub error : ShardNetError
  pub kind : e ≡ transfer error
  pub status : get_field "status_code" error.context ≡ some (int (pos status_code))

failed_with-IsStatusError :
    (to_text : Json → String) (status_code : ℕ) (detail : Option Json)
    → IsStatusError status_code (failed_with to_text status_code detail)
failed_with-IsStatusError to_text n none = record { error = _; kind = refl; status = refl }
failed_with-IsStatusError to_text n (some (obj d)) = record {
  error = _;
  kind = refl;
  status = get_field-set_field "status_code" (int (pos n)) (detail_context d);
}
failed_with-IsStatusError to_text n (some _) = record { error = _; kind = refl; status = refl }

payload-IsStatusError :
    (to_text : Json → String) (status_code : ℕ) (payload : Json) {e : Exception}
    → parse_payload to_text status_code payload ≡ raise e
    → IsStatusError status_code e
payload-IsStatusError to_text n payload {e} h = elim (Bool-cases (leb 400 n)) [
  | inl high ↦
      subst (IsStatusError n) (ground (arith, h, high))
        (failed_with-IsStatusError to_text n (detail_of payload))
  | inr low ↦
      subst (IsStatusError n) (shape payload low h)
        (record { error = _; kind = refl; status = refl })
]
  where
    shape :
        (payload : Json)
        → leb 400 n ≡ false
        → parse_payload to_text n payload ≡ raise e
        → unexpected_shape n ≡ e
    shape payload low h = ground (arith, low, h)

payload_ok :
    (to_text : Json → String) (status_code : ℕ) (payload : Json) (f : Fields)
    → (parse_payload to_text status_code payload ≡ ok f) ↔ ((status_code < 400) × (payload ≡ obj f))
payload_ok to_text n payload f = elim (Bool-cases (leb 400 n)) [
  | inl high ↦ (λ h. absurd (ground (arith, h, high)), λ h. absurd (ground (arith, h, high)))
  | inr low ↦ (λ h. ground (arith, h, low), λ h. ground (arith, h, low))
]

-- A response gives fields exactly when its status is below 400 and its body is an object with these
-- fields; every other response raises a `TransferError` that has the status in its context.
pub parse_response_lem :
    (to_text : Json → String) (response : Response)
    → ((f : Fields)
        → (parse_response to_text response ≡ ok f)
          ↔ ((response.status_code < 400) × (response.json ≡ some (obj f))))
      × ((e : Exception)
          → parse_response to_text response ≡ raise e
          → IsStatusError response.status_code e)
unfolding parse_response
parse_response_lem to_text response = elim (Option-cases response.json) [
  | inl nothing ↦ (
    λ f. (λ h. absurd (ground (arith, h, nothing)), λ h. absurd (ground (arith, h, nothing))),
    λ e h.
        subst (IsStatusError response.status_code)
          (let q : non_json response.status_code ≡ e = ground (arith, h, nothing) in q)
          (record { error = _; kind = refl; status = refl }),
  )
  | inr (payload, got) ↦ (
    λ f.
        let (to, back) = payload_ok to_text response.status_code payload f in
        (
          λ h. ground (arith, got, let q : _ = to (ground (arith, h, got)) in q),
          λ h. ground (arith, got, h, let q : _ = back (h.0, ground (arith, got, h)) in q),
        ),
    λ e h. payload-IsStatusError to_text response.status_code payload (ground (arith, h, got)),
  )
]
