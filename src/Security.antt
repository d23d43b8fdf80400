-- ===== src/Security.antt =====
-- app/security.py: the stored verifier of the Access Key.
pub mod Laws
pub mod Startup
use perimetr.Prelude.{
  ℕ, String, Bool, true, false, Option, none, some, ◌==◌, ◌&&◌, nat_eq, if◌then◌else◌,
}
use perimetr.Prelude.Text.{cut}
use perimetr.Platform.{Platform}
use perimetr.Pods.Credentials.{joined, dollar}

module _ (p : Platform) where
  -- `hash_password`, with the random salt `salt`.
  unfoldable pub hash_password : String → String → String
  hash_password salt password = joined "$" "scrypt" (joined "$" salt (p.scrypt password salt))

  -- 16 bytes of salt and `SCRYPT_DKLEN` bytes of digest; a part that is no base64 is a `ValueError`.
  abbrev pub sizes_fit : Option String → Option String → Bool
  sizes_fit (some salt) (some digest) =
      nat_eq (p.byte_count salt) 16 && nat_eq (p.byte_count digest) 64
  sizes_fit _ _ = false

  abbrev pub digest_equal : String → Option String → Option String → Bool
  digest_equal password (some salt) (some expected) = p.scrypt password salt == expected
  digest_equal password _ _ = false

  -- `verify_password`: `encoded.split("$", 2)` must give three parts.
  unfoldable pub verify_password : String → String → Bool
  unfolding cut
  verify_password password encoded = elim (cut dollar encoded) [
    | none ↦ false
    | some (algorithm, rest) ↦
        if algorithm == "scrypt"
        then elim (cut dollar rest) [
          | none ↦ false
          | some (salt, digest) ↦
              sizes_fit (p.b64_canonical salt) (p.b64_canonical digest)
              && digest_equal password (p.b64_canonical salt) (p.b64_canonical digest)
        ]
        else false
  ]
