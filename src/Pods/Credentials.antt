-- ===== src/Pods/Credentials.antt =====
-- app/pod_service.py: Pod passwords, the access mode that a login gives, enrollment secrets and
-- access grants.
pub mod Laws
use Prim.Native.Char.{Char, code}
use Prim.Native.String
use Prim.Native.String.{String, [], ◌∷◌}
use perimetr.Prelude.{
  ℕ, ◌+◌, Bool, true, false, not, Option, none, some, ◌==◌, ◌!=◌, ◌&&◌, ◌||◌, ltb, nat_eq,
  if◌then◌else◌,
}
use perimetr.Prelude.Text.{text_length, cut}
use perimetr.Json.{Json, Fields, Number, null, bool, num, str, obj, end, field, get_field, text_of}
use perimetr.Http.{Outcome, done, deny, ◌>>=◌, ◌>>◌, refuse_if}
use perimetr.Platform.{Platform}
use perimetr.Settings.{Env}

infixr 66 ◌+++◌
abbrev pub ◌+++◌ : String → String → String
s +++ t = String.◌++◌ s t

-- Two texts with a separator between them.
abbrev pub joined : Char → String → String → String
joined c a b = a +++ (c ∷ b)

unfoldable pub is_ascii : String → Bool
is_ascii [] = true
is_ascii (c ∷ s) = ltb (code c) 128 && is_ascii s

-- `secrets.compare_digest` on texts: a `TypeError` (here `none`) unless both are ASCII.
unfoldable pub compare_digest : String → String → Option Bool
unfolding is_ascii
compare_digest a b = if is_ascii a && is_ascii b then some (a == b) else none

abbrev pub dollar : ℕ
dollar = b'$'

abbrev pub iterations : ℕ
iterations = 310000

abbrev pub is_mode : String → Bool
is_mode mode = mode == "primary" || mode == "decoy"

abbrev pub grant_value : String → String → String → Json
grant_value pod_id mode nonce = obj (
    field "access_mode" (str mode) (
      field "nonce" (str nonce)
        (field "pod_id" (str pod_id) (field "version" (num (Number.pos 1)) end))))

-- `grant.get("version") != 1` fails for each value that Python finds equal to 1.
abbrev pub is_one : Option Json → Bool
is_one (some (num (Number.pos n))) = nat_eq n 1
is_one (some (num (Number.float s))) = s == "1.0"
is_one (some (bool b)) = b
is_one _ = false

abbrev pub invalid_grant : {S : Type 0} → S → Outcome S String
invalid_grant db = deny db 403 "invalid_pod_access_grant"

-- The decoded grant. Only the holder of the secret signs grants, so the fields are texts.
unfoldable pub read_grant : {S : Type 0} → S → String → Option Json → Outcome S String
unfolding get_field compare_digest
read_grant db pod_id (some (obj fs)) =
    if not (is_one (get_field "version" fs))
    then invalid_grant db
    else elim (compare_digest (text_of (get_field "pod_id" fs)) pod_id) [
      | none ↦ invalid_grant db
      | some same ↦
          let mode = text_of (get_field "access_mode" fs) in
          if not same
          then invalid_grant db
          else if not (is_mode mode)
          then invalid_grant db
          else done mode
    ]
read_grant db pod_id (some _) = deny db 500 "AttributeError"
read_grant db pod_id none = invalid_grant db

module _ (env : Env) where
  -- `encrypt_secret`, `decrypt_secret` and `hash_token`.
  unfoldable pub encrypt_secret : String → String
  encrypt_secret value =
      if value == ""
      then ""
      else env.platform.fernet_encrypt env.settings.perimetr_pod_signing_secret value

  unfoldable pub decrypt_secret : {S : Type 0} → S → String → Outcome S String
  decrypt_secret db value =
      if value == ""
      then done ""
      else elim (env.platform.fernet_decrypt env.settings.perimetr_pod_signing_secret value) [
        | none ↦ deny db 500 "pod_secret_key_mismatch"
        | some plain ↦ done plain
      ]

  unfoldable pub hash_token : String → String
  hash_token value = env.platform.sha256_hex value

  -- The stored form of a password, with the random salt `salt`.
  unfoldable pub password_record : String → String → String
  password_record salt value =
      joined "$" "pbkdf2_sha256"
        (joined "$" "310000" (joined "$" salt (env.platform.pbkdf2 value salt iterations)))

  -- `hash_pod_password`; the salt is the n-th secret of the request.
  unfoldable pub hash_pod_password : {S : Type 0} → S → ℕ → String → Outcome S String
  unfolding password_record
  hash_pod_password db n value =
      if ltb (text_length value) 8
      then deny db 400 "pod_password_too_short"
      else done (password_record (env.fresh n) value)

  -- The comparison at the end of `verify_pod_password`; a part that is no base64 text and a count
  -- that is no number are a `ValueError`.
  digest_matches : String → Option String → Option String → Option ℕ → Bool
  digest_matches value (some salt) (some expected) (some n) =
      env.platform.pbkdf2 value salt n == expected
  digest_matches value _ _ _ = false

  -- The tail of a stored verifier, after its algorithm.
  verify_parts : String → String → Bool
  unfolding digest_matches
  verify_parts value rest = elim (cut dollar rest) [
    | none ↦ false
    | some (count, tail) ↦ elim (cut dollar tail) [
      | none ↦ false
      | some (salt, digest) ↦
          digest_matches value (env.platform.b64_canonical salt) (env.platform.b64_canonical digest)
            (env.platform.parse_int count)
    ]
  ]

  -- `verify_pod_password`: `stored.split("$", 3)` must give four parts.
  unfoldable pub verify_pod_password : String → String → Bool
  unfolding verify_parts cut
  verify_pod_password value stored = elim (cut dollar stored) [
    | none ↦ false
    | some (algorithm, rest) ↦
        if algorithm == "pbkdf2_sha256" then verify_parts value rest else false
  ]

  -- `pod_access_mode`: the mode that a user name and a password give, if any. A name outside ASCII
  -- ends in the `TypeError` of `compare_digest`, which nothing handles.
  unfoldable pub pod_access_mode :
      {S : Type 0} → S → String → String → String → String → String → Outcome S (Option String)
  unfolding verify_pod_password compare_digest
  pod_access_mode db username password login password_hash decoy_password_hash =
      elim (compare_digest username login) [
        | none ↦ deny db 500 "TypeError"
        | some same ↦
            if not same
            then done none
            else if password_hash != "" && verify_pod_password password password_hash
            then done (some "primary")
            else if decoy_password_hash != "" && verify_pod_password password decoy_password_hash
            then done (some "decoy")
            else done none
      ]

  abbrev pub grant_signature : String → String
  grant_signature encoded = env.platform.hmac_hex env.settings.perimetr_pod_signing_secret encoded

  -- `issue_pod_access_grant`; the nonce is the n-th secret of the request.
  unfoldable pub issue_pod_access_grant : {S : Type 0} → S → ℕ → String → String → Outcome S String
  issue_pod_access_grant db n pod_id mode =
      if not (is_mode mode)
      then deny db 500 "invalid_pod_access_mode"
      else let encoded = env.platform.encode_json (grant_value pod_id mode (env.fresh n)) in
        done (joined "." encoded (grant_signature encoded))

  -- `verify_pod_access_grant`: `token.split(".", 1)`, the signature over the encoded part, and then
  -- its content.
  unfoldable pub verify_pod_access_grant : {S : Type 0} → S → String → String → Outcome S String
  unfolding cut compare_digest
  verify_pod_access_grant db token pod_id = elim (cut b'.' token) [
    | none ↦ invalid_grant db
    | some (encoded, supplied) ↦ elim (compare_digest supplied (grant_signature encoded)) [
      | none ↦ invalid_grant db
      | some same ↦
          if not same
          then invalid_grant db
          else read_grant db pod_id (env.platform.decode_json encoded)
    ]
  ]
