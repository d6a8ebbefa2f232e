-- ===== src/Platform.antt =====
-- What the program uses of Python and does not define: `hashlib.sha256`, `str.lower` and the bytes of a
-- JSON document. They are parameters of the development, with the documented facts that it rests on.
use Prim.Native.Char.{code}
use shard_net.Base.{
  ℕ, String, Bool, List, [], ◌∷◌, ◌≡◌, true, ◌==◌, nat_eq, leb, ◌&&◌, ◌||◌, length, all,
}
use shard_net.Json.{Json}

-- The bytes of a file or a message.
abbrev pub Bytes : Type 0
Bytes = List ℕ

abbrev pub codes : String → List ℕ
codes String.[] = []
codes (String.◌∷◌ c s) = code c ∷ codes s

abbrev pub is_hex_digit : ℕ → Bool
is_hex_digit c =
    leb b'a' c && leb c b'f' || (leb b'A' c && leb c b'F') || (leb b'0' c && leb c b'9')

-- `HASH_PATTERN`, `^[a-fA-F0-9]{64}$`.
unfoldable pub is_hash : String → Bool
is_hash s = length (codes s) == 64 && all is_hex_digit (codes s)

pub record Platform : Type 0 where
  -- `hashlib.sha256(data).hexdigest()`; `update` in pieces hashes their concatenation.
  pub sha256 : Bytes → String
  -- `value.lower()`
  pub lower : String → String
  -- `Path(value).name`
  pub base_name : String → String
  -- `json.dumps(value, sort_keys=True, separators=(",", ":")).encode("utf-8")`
  pub json_bytes : Json → Bytes
  pub sha256-is_hash : (data_bytes : Bytes) → is_hash (sha256 data_bytes) ≡ true
  -- A digest has no capital letters.
  pub lower-sha256 : (data_bytes : Bytes) → lower (sha256 data_bytes) ≡ sha256 data_bytes
  pub lower-lower : (s : String) → lower (lower s) ≡ lower s
  pub lower-is_hash : (s : String) → is_hash s ≡ true → is_hash (lower s) ≡ true
