-- ===== src/Pods/Credentials/Laws.antt =====
-- Passwords verify against their own record, and grants against their own Pod.
use perimetr.Prelude.{
  ℕ, String, ◌≡◌, true, Option, some, ◌==◌, ◌∙◌, arith, eq_iff, eq_self, inl, inr, Option-cases,
  ◌≢◌,
}
use perimetr.Prelude.Text.{cut, cut-append, Lacks}
use perimetr.Json.{Json, get_field, obj}
use perimetr.Http.{done, deny}
use perimetr.Settings.{Env}
use perimetr.Pods.Credentials.{
  joined, dollar, iterations, is_ascii, compare_digest, password_record, verify_pod_password,
  verify_parts, digest_matches, is_mode, grant_value, grant_signature, issue_pod_access_grant,
  read_grant, verify_pod_access_grant,
}

-- What base64 and `int` do on the parts of a stored verifier.
pub record ReadsBack (env : Env) (salt digest : String) : Type 0 where
  pub salt_text : Lacks dollar salt
  pub salt_canonical : env.platform.b64_canonical salt ≡ some salt
  pub digest_canonical : env.platform.b64_canonical digest ≡ some digest
  pub count_read : env.platform.parse_int "310000" ≡ some iterations

module _ (env : Env) (salt value : String)
    (back : ReadsBack env salt (env.platform.pbkdf2 value salt iterations)) where
  first_cut :
      (rest : String) → cut dollar (joined "$" "pbkdf2_sha256" rest) ≡ some ("pbkdf2_sha256", rest)
  first_cut rest = cut-append "$" "pbkdf2_sha256" rest (omega arith)

  second_cut : (rest : String) → cut dollar (joined "$" "310000" rest) ≡ some ("310000", rest)
  second_cut rest = cut-append "$" "310000" rest (omega arith)

  third_cut : (rest : String) → cut dollar (joined "$" salt rest) ≡ some (salt, rest)
  third_cut rest = cut-append "$" salt rest back.salt_text

  verify-digest :
      (other : String)
      → verify_pod_password env other (password_record env salt value)
        ≡ (env.platform.pbkdf2 other salt iterations == env.platform.pbkdf2 value salt iterations)
  unfolding verify_pod_password verify_parts digest_matches password_record
  verify-digest other =
      let digest = env.platform.pbkdf2 value salt iterations in
      ground (
        arith,
        first_cut (joined "$" "310000" (joined "$" salt digest)),
        second_cut (joined "$" salt digest),
        third_cut digest,
        back.salt_canonical,
        back.digest_canonical,
        back.count_read,
      )

  -- A stored Pod password, read back: if the salt and the digest are base64 texts without `$`, then
  -- a password is accepted exactly if its digest under the stored salt is the stored one; so the
  -- password that was stored is accepted.
  pub verify-password_record :
      (other : String)
      → (verify_pod_password env other (password_record env salt value) ≡ (
          env.platform.pbkdf2 other salt iterations == env.platform.pbkdf2 value salt iterations))
        × (verify_pod_password env value (password_record env salt value) ≡ true)
  verify-password_record other = (verify-digest other, verify-digest value ∙ eq_self _)

module _ {S : Type 0} (env : Env) (db : S) where
  -- The compared texts of a grant.
  compare_digest-eq : (a b : String) → compare_digest a b ≡ some true → a ≡ b
  unfolding compare_digest
  compare_digest-eq a b h = ground (arith, eq_iff a b)

  compare_digest-ne : (a b : String) → b ≢ a → compare_digest a b ≢ some true
  unfolding compare_digest
  compare_digest-ne a b h e = ground (arith, eq_iff a b)

  read_grant-mode :
      (pod_id mode : String) (v : Option Json)
      → read_grant db pod_id v ≡ done mode
      → is_mode mode ≡ true
  unfolding read_grant
  read_grant-mode pod_id mode (some (obj fs)) h = ground arith
  read_grant-mode pod_id mode v h = cc

  compare_digest_self : (a : String) → is_ascii a ≡ true → compare_digest a a ≡ some true
  unfolding compare_digest
  compare_digest_self a h = ground (arith, eq_self a)

  module _ (n : ℕ) (pod_id mode token : String)
      (decodes : env.platform.decode_json
          (env.platform.encode_json (grant_value pod_id mode (env.fresh n)))
        ≡ some (grant_value pod_id mode (env.fresh n)))
      (no_dot : Lacks b'.' (env.platform.encode_json (grant_value pod_id mode (env.fresh n))))
      (ascii_signature : is_ascii
          (grant_signature env (env.platform.encode_json (grant_value pod_id mode (env.fresh n))))
        ≡ true)
      (ascii_id : is_ascii pod_id ≡ true) where
    -- If the encoding of the grant is read back and has no dot, and its signature and the identifier
    -- are ASCII: a grant that was issued for a Pod and a mode is verified as that mode for that
    -- Pod, and refused with 403 for every other Pod.
    pub verify-issue_grant :
        (other : String)
        → issue_pod_access_grant env db n pod_id mode ≡ done token
        → other ≢ pod_id
        → (verify_pod_access_grant env db token pod_id ≡ done mode)
          × (verify_pod_access_grant env db token other ≡ deny db 403 "invalid_pod_access_grant")
    unfolding issue_pod_access_grant verify_pod_access_grant read_grant get_field
    verify-issue_grant other issued differs =
        let value = grant_value pod_id mode (env.fresh n) in
        let encoded = env.platform.encode_json value in
        let signature = grant_signature env encoded in
        let parts = cut-append "." encoded signature no_dot in
        (
          ground (
            arith,
            parts,
            compare_digest_self signature ascii_signature,
            decodes,
            compare_digest_self pod_id ascii_id,
            eq_self "version",
          ),
          ground (
            arith,
            parts,
            compare_digest_self signature ascii_signature,
            decodes,
            compare_digest-ne pod_id other,
          ),
        )

  -- A token that is accepted for a Pod carries the signature of its first part under the signing
  -- secret.
  pub verify_grant-IsSigned :
      (token pod_id mode : String)
      → verify_pod_access_grant env db token pod_id ≡ done mode
      → (encoded : String) × (cut b'.' token ≡ some (encoded, grant_signature env encoded))
        × (is_mode mode ≡ true)
  unfolding verify_pod_access_grant
  verify_grant-IsSigned token pod_id mode h = elim (Option-cases (cut b'.' token)) [
    | inl e ↦ absurd (ground arith)
    | inr ((encoded, supplied), e) ↦
        let signed : compare_digest supplied (grant_signature env encoded) ≡ some true =
          ground arith in
        let content : read_grant db pod_id (env.platform.decode_json encoded) ≡ done mode =
          ground arith in
        (
          encoded,
          rw (← compare_digest-eq supplied (grant_signature env encoded) signed) e,
          read_grant-mode pod_id mode (env.platform.decode_json encoded) content,
        )
  ]
