-- ===== src/Platform.antt =====
-- What the program takes from Python's library, the `cryptography` package and the operating system:
-- every function is a parameter, and nothing is assumed of it here. A theorem that needs a law of
-- one of them has it as a hypothesis.
use perimetr.Prelude.{ℕ, String, Bool, Option}
use perimetr.Json.{Json}
use perimetr.Redaction.{Patterns}

-- `urllib.parse.urlparse`, with the first value of each parameter of `parse_qs(parsed.query)`.
pub record Url : Type 0 where
  pub scheme : String
  pub username : Option String
  pub hostname : Option String
  pub port : Option ℕ
  pub query : String → Option String

-- `urllib.parse.urlsplit` of an address; the port is read when it is asked for.
pub record Origin : Type 0 where
  pub scheme : String
  pub hostname : Option String
  pub port : Option ℕ
  pub username : Option String
  pub password : Option String
  pub query : String
  pub fragment : String
  pub path : String

pub record Platform : Type 0 where
  -- `str.strip`, `str.lower`, `str.upper`
  pub strip : String → String
  pub lower : String → String
  pub upper : String → String
  -- the characters of `\s`
  pub is_space : ℕ → Bool
  -- `none`: the address or its port is a `ValueError`
  pub urlsplit : String → Option Origin
  pub urlparse : String → Url
  -- `re.fullmatch(r"[0-9a-fA-F-]{32,36}", value)`
  pub is_vless_identity : String → Bool
  -- `hashlib.sha256(value.encode()).hexdigest()`
  pub sha256_hex : String → String
  -- `hmac.new(key, text, sha256).hexdigest()`
  pub hmac_hex : String → String → String
  -- `hashlib.pbkdf2_hmac("sha256", value, salt, iterations)`, behind `urlsafe_b64encode`; the salt
  -- and the digest are named by the texts that encode them
  pub pbkdf2 : String → String → ℕ → String
  -- `urlsafe_b64decode(text)`: the canonical text of the same bytes, or `ValueError`
  pub b64_canonical : String → Option String
  -- `int(text)`, or `ValueError`
  pub parse_int : String → Option ℕ
  -- the Fernet cipher under a key derived from the secret; `none` is `InvalidToken`
  pub fernet_encrypt : String → String → String
  pub fernet_decrypt : String → String → Option String
  -- `urlsafe_b64encode(json.dumps(value, sort_keys=True, …))`, and the way back, where `none` is
  -- any of the exceptions that the caller handles
  pub encode_json : Json → String
  pub decode_json : String → Option Json
  -- the ECDSA P-256 key in a PEM text (`none`: no such key), its fingerprint, and a signature check
  pub p256_fingerprint : String → Option String
  pub is_public_key : String → Bool
  pub verify_signature : String → Json → String → Bool
  -- `datetime.fromisoformat`, in microseconds
  pub fromisoformat : String → Option ℕ
  -- `hashlib.scrypt(value, salt, …)`, in the same texts as `pbkdf2`, and the number of bytes of one
  pub scrypt : String → String → String
  pub byte_count : String → ℕ
  -- `func.octet_length` of a JSON column
  pub column_bytes : Json → ℕ
  -- the regular expressions of app/redaction.py
  pub patterns : Patterns
