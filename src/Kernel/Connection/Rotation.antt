-- ===== src/Kernel/Connection/Rotation.antt =====
-- The theorem on `rotate` of app/kernel_connection.py.
use perimetr.Prelude.{
  ℕ, String, ◌≡◌, ◌∙◌, subst, ap, true, false, not, Option, none, some, ◌==◌, ◌||◌, not-false,
}
use perimetr.Json.{Json, Fields}
use perimetr.Http.{done, >>=-eq-done, done-injective, refuse_if, refuse_if-done}
use perimetr.Settings.{Env}
use perimetr.RateLimiter.{check, fail}
use perimetr.Security.{verify_password}
use perimetr.Pods.Credentials.{◌+++◌}
use perimetr.Artifacts.{Try, returns, error, crash}
use perimetr.Artifacts.Version.{all_chars}
use perimetr.Kernel.{RegisterSettings}
use perimetr.Kernel.Snapshot.{load_snapshot}
use perimetr.Kernel.Apply.{apply_register}
use perimetr.Kernel.Connection.{
  Link, Surroundings, probed, probe, token_payload, required_payload, is_token_char, check_key,
  rotate,
}

module _ (env : Env) (w : Surroundings) where
  probed-done :
      {A : Type 0} (l : Link) (m : Try A) {a : A} → probed env w l m ≡ done a → m ≡ returns a
  probed-done l (returns a) h = ap returns (done-injective h)
  probed-done l (error t) h = cc
  probed-done l (crash t) h = cc

  -- A token that was probed: the Kernel gave a snapshot for it, which could be applied.
  IsReached : String → String → Type 0
  IsReached url token =
      (snapshot : Fields) × (fields : RegisterSettings) × ((load_snapshot w.register
          (w.snapshot token) url token true false w.file).1
        ≡ returns snapshot)
      × (apply_register w.register (w.resolution url token) snapshot w.current ≡ returns fields)

  probe-IsReached :
      (l : Link) (url token : String) {r : Option Json}
      → probe env w l url token ≡ done r
      → IsReached url token
  unfolding probe IsReached
  probe-IsReached l url token h =
      let (_, _, h1) =
        >>=-eq-done (refuse_if (token == "") l 409 "Configure the Kernel service token first") _
          h in
      let (s, e, h2) =
        >>=-eq-done
          (probed env w l
            (load_snapshot w.register (w.snapshot token) url token true false w.file).1)
          _ h1 in
      let (f, e', _) =
        >>=-eq-done
          (probed env w l (apply_register w.register (w.resolution url token) s w.current)) _ h2 in
      (s, f, probed-done l _ e, probed-done l _ e')

  required-some :
      (l : Link) (o : Option (String × String)) {p : String × String}
      → required_payload env w l o ≡ done p
      → o ≡ some p
  required-some l none h = cc
  required-some l (some p) h = ap some (done-injective h)

  check_key-done :
      (clock : ℕ) (identity key : String) (l : Link) {l' : Link}
      → check_key env w clock identity key l ≡ done l'
      → ((check l.limiter identity clock).0.allowed ≡ true)
        × (verify_password env.platform key l.db.access_key_hash ≡ true)
  unfolding check_key
  check_key-done clock identity key l h =
      let (decision, limiter) = check l.limiter identity clock in
      let (_, a, h1) =
        >>=-eq-done
          (refuse_if (not decision.allowed) (record l { limiter = limiter }) 429
            "Too many unsuccessful key checks")
          _ h in
      let (_, v, _) =
        >>=-eq-done
          (refuse_if (not (verify_password env.platform key l.db.access_key_hash))
            (record l { limiter = fail limiter identity clock }) 403
            "Current Access Key is incorrect")
          _ h1 in
      (
        not-false (refuse_if-done (not decision.allowed) _ 429 _ a),
        not-false (
            refuse_if-done (not (verify_password env.platform key l.db.access_key_hash)) _ 403 _ v),
      )

  -- A rotation that succeeds was let through by the limiter, was made with the Access Key, stores the
  -- token that was sent, and stores it only after the Kernel gave a snapshot for it that could be
  -- applied.
  pub rotate-IsChecked :
      (clock : ℕ) (client : String) (payload : Fields) (l l' : Link)
      → rotate env w clock client payload l ≡ done l'
      → (key : String) × (token_payload env w payload ≡ some (key, l'.token))
        × ((check l.limiter ("kernel-rotation:" +++ client) clock).0.allowed ≡ true)
        × (verify_password env.platform key l.db.access_key_hash ≡ true)
        × (snapshot : Fields) × (fields : RegisterSettings) × ((load_snapshot w.register
              (w.snapshot l'.token)
              w.kernel_url
              l'.token
              true
              false
              w.file).1
            ≡ returns snapshot)
        × (apply_register w.register (w.resolution w.kernel_url l'.token) snapshot w.current
            ≡ returns fields)
  unfolding rotate IsReached
  rotate-IsChecked clock client payload l l' h =
      let ((key, token), p, h1) =
        >>=-eq-done (required_payload env w l (token_payload env w payload)) _ h in
      let (known, c, h2) =
        >>=-eq-done (check_key env w clock ("kernel-rotation:" +++ client) key l) _ h1 in
      let (_, _, h3) =
        >>=-eq-done
          (refuse_if (token == "" || not (all_chars (is_token_char env w) token)) known 422
            "Invalid machine token transport encoding")
          _ h2 in
      let (_, r, h4) = >>=-eq-done (probe env w known w.kernel_url token) _ h3 in
      let (allowed, verified) = check_key-done clock ("kernel-rotation:" +++ client) key l c in
      let stored : token ≡ l'.token = ap Link.token (done-injective h4) in
      let (s, f, e, e') =
        subst (IsReached w.kernel_url) stored (probe-IsReached known w.kernel_url token r) in
      (key, required-some l _ p ∙ ap (λ t. some (key, t)) stored, allowed, verified, s, f, e, e')
