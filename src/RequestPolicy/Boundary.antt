-- ===== src/RequestPolicy/Boundary.antt =====
-- `RequestBoundary` of app/request_policy.py: the host of a request and the size of its body.
use perimetr.Prelude.{
  ℕ, ◌+◌, ◌*◌, ◌≤◌, String, ◌≡◌, refl, sym, Bool, true, false, not, Option, none, some, List, [],
  ◌∷◌, ◌==◌, ◌&&◌, ◌||◌, ltb, is_some, if◌then◌else◌, arith,
}
use perimetr.RequestPolicy.{is_safe_method}
use perimetr.Kernel.References.{after_exact}

-- The next message of the server: a part of the body with its number of bytes, and whether more
-- follows; the end of the connection; and none in time.
pub data Message : Type 0 where
  body : ℕ → Bool → Message
  disconnect timeout : Message

-- What becomes of a request: an answer with its status and message, nothing, or the messages that the
-- application is given.
pub data Passage : Type 0 where
  answered : ℕ → String → Passage
  dropped : Passage
  passed : List ℕ → Passage

abbrev pub add_part : ℕ → Passage → Passage
add_part n (passed ns) = passed (n ∷ ns)
add_part n p = p

-- The loop over the messages; the server waits for a message where the list ends, until the deadline.
unfoldable pub buffer : ℕ → ℕ → List Message → Passage
buffer limit total [] = answered 408 "Request timed out"
buffer limit total (timeout ∷ ms) = answered 408 "Request timed out"
buffer limit total (disconnect ∷ ms) = dropped
buffer limit total (body n more ∷ ms) =
    let rest = buffer limit (total + n) ms in
    if ltb limit (total + n)
    then answered 413 "Request body too large"
    else if more
    then add_part n rest
    else passed (n ∷ [])

abbrev pub starts_with : String → String → Bool
starts_with prefix path = is_some (after_exact prefix path)

abbrev pub default_limit : ℕ
default_limit = 16 * (1024 * 1024)

-- Uploads of backups and updates may be larger.
unfoldable pub body_limit : ℕ → String → ℕ
unfolding after_exact
body_limit max_upload path =
    if starts_with "/v1/backups/" path
      || starts_with "/v1/updater/" path
      || path == "/v1/internal/updater/restore"
    then max_upload + 65536
    else default_limit

-- In production the host is that of the public address or a local one; `none`: it cannot be read.
abbrev pub is_local : String → Bool
is_local h = h == "127.0.0.1" || h == "localhost" || h == "::1"

abbrev pub is_host : Option String → Option (Option String) → Bool
is_host public none = false
is_host public (some none) = not (is_some public)
is_host none (some (some h)) = is_local h
is_host (some p) (some (some h)) = h == p || is_local h

-- `RequestBoundary.__call__` for a request; a request of a safe method is passed on as it is, in turn
-- or, for the paths that need no lock, at once.
unfoldable pub boundary :
    Bool → Option String → Option (Option String) → ℕ → String → String → List Message → Passage
unfolding buffer body_limit
boundary production public host max_upload method path messages =
    if production && not (is_host public host)
    then answered 404 "Not found"
    else if is_safe_method method
    then passed []
    else buffer (body_limit max_upload path) 0 messages

unfoldable pub total_of : List ℕ → ℕ
total_of [] = 0
total_of (n ∷ ns) = n + total_of ns

passed-injective : {ms ns : List ℕ} → passed ms ≡ passed ns → ms ≡ ns
passed-injective h = cc

add_part-passed :
    (n : ℕ) (p : Passage) (ns : List ℕ)
    → add_part n p ≡ passed ns
    → (ms : List ℕ) × (p ≡ passed ms) × (ns ≡ n ∷ ms)
add_part-passed n (passed ms) ns h = (ms, refl, sym (passed-injective h))
add_part-passed n (answered c t) ns h = cc
add_part-passed n dropped ns h = cc

part-limit :
    (limit total n : ℕ) (rest : Passage) (ns : List ℕ) (b : Bool)
    → ltb limit (total + n) ≡ b
    → (more : Bool)
    → (total + n ≤ limit → (ms : List ℕ) → rest ≡ passed ms → total + n + total_of ms ≤ limit)
    → (if b
        then answered 413 "Request body too large"
        else if more
        then add_part n rest
        else passed (n ∷ []))
      ≡ passed ns
    → total + total_of ns ≤ limit
unfolding total_of
part-limit limit total n rest ns true e more f h = cc
part-limit limit total n rest ns false e true f h =
    let (ms, q, r) = add_part-passed n rest ns h in
    let le : total + n ≤ limit = ground arith in rw r (omega (arith, f le ms q))
part-limit limit total n rest ns false e false f h =
    let le : total + n ≤ limit = ground arith in rw⁻¹ (passed-injective h) (omega (arith, le))

-- What is passed on has at most the bytes that are left.
buffer-limit :
    (limit total : ℕ) (ms : List Message) (ns : List ℕ)
    → buffer limit total ms ≡ passed ns
    → total + total_of ns ≤ limit
unfolding buffer
buffer-limit limit total [] ns h = cc
buffer-limit limit total (timeout ∷ ms) ns h = cc
buffer-limit limit total (disconnect ∷ ms) ns h = cc
buffer-limit limit total (body n more ∷ ms) ns h =
    part-limit limit total n (buffer limit (total + n) ms) ns (ltb limit (total + n)) refl more
      (λ le ns' e. buffer-limit limit (total + n) ms ns' e) h

-- A request that is passed to the application has no more bytes in its body than the limit of its
-- path, and in production it names the public host or a local one.
pub boundary-limit :
    (production : Bool) (public : Option String) (host : Option (Option String)) (max_upload : ℕ)
    (method path : String) (messages : List Message) (ns : List ℕ)
    → boundary production public host max_upload method path messages ≡ passed ns
    → (total_of ns ≤ body_limit max_upload path)
      × ((production && not (is_host public host)) ≡ false)
unfolding boundary total_of
boundary-limit production public host max_upload method path messages ns h =
    chosen (production && not (is_host public host)) refl (is_safe_method method) h
  where
    chosen :
        (b : Bool)
        → (production && not (is_host public host)) ≡ b
        → (safe : Bool)
        → (if b
            then answered 404 "Not found"
            else if safe
            then passed []
            else buffer (body_limit max_upload path) 0 messages)
          ≡ passed ns
        → (total_of ns ≤ body_limit max_upload path)
          × ((production && not (is_host public host)) ≡ false)
    chosen true e safe k = cc
    chosen false e true k = (rw⁻¹ (passed-injective k) (omega arith), e)
    chosen false e false k =
        (omega (arith, buffer-limit (body_limit max_upload path) 0 messages ns k), e)
