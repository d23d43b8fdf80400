-- ===== src/Security/Laws.antt =====
-- The Access Key verifies against its own verifier.
use perimetr.Prelude.{String, ◌≡◌, true, some, ◌==◌, arith, eq_self, ◌∙◌}
use perimetr.Prelude.Text.{cut-append, Lacks}
use perimetr.Platform.{Platform}
use perimetr.Pods.Credentials.{joined, dollar}
use perimetr.Security.{hash_password, verify_password}

-- What base64 does on the two parts of a verifier, and their sizes.
pub record FitsVerifier (p : Platform) (salt digest : String) : Type 0 where
  pub salt_text : Lacks dollar salt
  pub salt_canonical : p.b64_canonical salt ≡ some salt
  pub digest_canonical : p.b64_canonical digest ≡ some digest
  pub salt_size : p.byte_count salt ≡ 16
  pub digest_size : p.byte_count digest ≡ 64

module _ (p : Platform) (salt key : String) (fits : FitsVerifier p salt (p.scrypt key salt)) where
  verify-digest :
      (other : String)
      → verify_password p other (hash_password p salt key)
        ≡ (p.scrypt other salt == p.scrypt key salt)
  unfolding verify_password hash_password
  verify-digest other =
      let digest = p.scrypt key salt in
      ground (
        arith,
        cut-append "$" "scrypt" (joined "$" salt digest) (omega arith),
        cut-append "$" salt digest fits.salt_text,
        fits.salt_canonical,
        fits.digest_canonical,
        fits.salt_size,
        fits.digest_size,
      )

  -- If the salt and the digest are base64 texts of 16 and 64 bytes without `$`: a key is accepted by
  -- the verifier exactly if its digest under the stored salt is the stored one, and the key that was
  -- stored is accepted.
  pub verify-hash_password :
      (other : String)
      → (verify_password p other (hash_password p salt key)
          ≡ (p.scrypt other salt == p.scrypt key salt))
        × (verify_password p key (hash_password p salt key) ≡ true)
  verify-hash_password other = (verify-digest other, verify-digest key ∙ eq_self _)
