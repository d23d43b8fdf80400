-- ===== src/RateLimiter/Refinement.antt =====
-- Every use of the limiter keeps it in step with the history, so the answers of `check` are those of
-- the history.
use perimetr.Prelude.{
  ℕ, ◌+◌, ◌≤◌, ◌<◌, String, ◌≡◌, refl, some, List, [], ◌∷◌, ◌++◌, arith, ltb, if◌then◌else◌, length,
  or_else, inl, inr, Option-cases, eq_self, ◌==◌, subst, sym, ap, ◌∙◌, All,
}
use mathlib.Core.Path.{ap₂}
use perimetr.RateLimiter.{
  LoginRateLimiter, get, put, trim, window, check_kept, check, fail, evict, success,
}
use perimetr.RateLimiter.Attempts.{
  IsOrdered, recent, trim-eq-recent, length-put, length-pop, length-put_known,
}
use perimetr.RateLimiter.Recent.{
  recent-later, recent-append, All-le-recent, recent-IsOrdered, snoc-IsOrdered, snoc-le,
}
use perimetr.RateLimiter.Window.{attempts_of, check-allowed, check_known, check_unknown}
use perimetr.RateLimiter.History.{
  Event, checked, failed, succeeded, run, history, IsTimed, failures, Tracks, wait-Tracks,
  put-Tracks, pop-Tracks,
}

module _ (l : LoginRateLimiter) (k : String) (now : ℕ) where
  -- `fail` where no client has to be evicted.
  fail-eq :
      length l.attempts < l.max_clients
      → fail l k now ≡ record l {
        attempts = put k (trim (window l) now (attempts_of k l) ++ now ∷ []) l.attempts;
      }
  unfolding fail evict trim
  fail-eq room = elim (Option-cases (get k l.attempts)) [
    | inl e ↦ rw (e, fail) (ground arith)
    | inr (ts, e) ↦ rw (e, fail)
  ]

module _ (l : LoginRateLimiter) (now later : ℕ) (h : String → List ℕ) (t : Tracks l now h)
    (le : now ≤ later) (k : String) where
  -- What `_trim` leaves of the attempts of `k`.
  Trimmed : List ℕ → Type 0
  Trimmed ts =
      IsOrdered ts
      × All (λ u. u ≤ later) ts
      × (recent (window l) later ts ≡ recent (window l) later (h k))
      × (ts ≡ recent (window l) later (h k))

  trimmed : Trimmed (trim (window l) later (attempts_of k l))
  unfolding Trimmed
  trimmed =
      let w = wait-Tracks l now later h t le in
      rw (trim-eq-recent (window l) later (attempts_of k l) (t.ordered k)) (
        recent-IsOrdered (window l) later (attempts_of k l) (w.ordered k),
        All-le-recent (window l) later later (attempts_of k l) (w.past k),
        recent-later (window l) later later (attempts_of k l) (omega arith) ∙ w.same k,
        w.same k,
      )

  kept-Tracks : (ts : List ℕ) → Trimmed ts → Tracks (check_kept l k later ts).1 later h
  unfolding check_kept Trimmed
  kept-Tracks [] (ord, le', same, e) = pop-Tracks l now later h t le k h (λ j q. refl) (sym e)
  kept-Tracks (u ∷ us) (ord, le', same, e) =
      put-Tracks l now later h t le k h (λ j q. refl) (u ∷ us) ord le' same

  check-Tracks : Tracks (check l k later).1 later h
  check-Tracks = elim (Option-cases (get k l.attempts)) [
    | inl e ↦ rw (check_unknown l k later e) (wait-Tracks l now later h t le)
    | inr (ts, e) ↦
        let kept : Trimmed (trim (window l) later ts) =
          subst (λ o. Trimmed (trim (window l) later (or_else o []))) e trimmed in
        rw (check_known l k later ts e) (kept-Tracks (trim (window l) later ts) kept)
  ]

  success-Tracks : Tracks (success l k) later (λ j. if k == j then [] else h j)
  unfolding success recent
  success-Tracks =
      pop-Tracks l now later h t le k (λ j. if k == j then [] else h j) (λ j q. rw q refl)
        (rw (eq_self k) refl)

  fail-Tracks :
      length l.attempts < l.max_clients
      → Tracks (fail l k later) later (λ j. if k == j then h j ++ later ∷ [] else h j)
  unfolding Trimmed
  fail-Tracks room =
      let (ord, le', same, e) = trimmed in
      rw (fail-eq l k later room) (
        put-Tracks l now later h t le k (λ j. if k == j then h j ++ later ∷ [] else h j)
          (λ j q. rw q refl) (trim (window l) later (attempts_of k l) ++ later ∷ [])
          (snoc-IsOrdered later _ ord le') (snoc-le later _ le')
          (rw (eq_self k) (
            recent-append (window l) later (trim (window l) later (attempts_of k l)) (later ∷ [])
            ∙ ap (λ us. us ++ recent (window l) later (later ∷ [])) same
            ∙ sym (recent-append (window l) later (h k) (later ∷ [])))))

-- The parameters of a limiter, which no use changes.
abbrev config : LoginRateLimiter → LoginRateLimiter
config l = record l { attempts = [] }

module _ (l : LoginRateLimiter) (k : String) (now : ℕ) where
  config-check : config (check l k now).1 ≡ config l
  unfolding check check_kept
  config-check = ground arith

  config-fail : config (fail l k now) ≡ config l
  unfolding fail
  config-fail = ground arith

  length-check_kept :
      (ts us : List ℕ)
      → get k l.attempts ≡ some us
      → length (check_kept l k now ts).1.attempts ≤ length l.attempts
  unfolding check_kept
  length-check_kept [] us e = length-pop k l.attempts
  length-check_kept (t ∷ ts) us e = omega (arith, length-put_known k (t ∷ ts) us l.attempts e)

  pub length-check : length (check l k now).1.attempts ≤ length l.attempts
  length-check = elim (Option-cases (get k l.attempts)) [
    | inl e ↦ rw (check_unknown l k now e) (omega arith)
    | inr (ts, e) ↦ rw (check_known l k now ts e) (length-check_kept (trim (window l) now ts) ts e)
  ]

  length-fail :
      length l.attempts < l.max_clients → length (fail l k now).attempts ≤ length l.attempts + 1
  length-fail room =
      rw (fail-eq l k now room)
        (length-put k (trim (window l) now (attempts_of k l) ++ now ∷ []) l.attempts)

-- After any sequence of uses with at most `max_clients` failures, the object knows the history.
run-Tracks :
    (l : LoginRateLimiter) (es : List Event) (start end : ℕ) (h : String → List ℕ)
    → Tracks l start h
    → IsTimed start end es
    → length l.attempts + failures es ≤ l.max_clients
    → Tracks (run l es) end (λ key. history key (h key) es) × (config (run l es) ≡ config l)
unfolding run history success
run-Tracks l [] start end h t le room = (wait-Tracks l start end h t le, refl)
run-Tracks l (checked k now ∷ es) start end h t (le, timed) room =
    let same = config-check l k now in
    let (done, c) =
      run-Tracks (check l k now).1 es now end h (check-Tracks l start now h t le k) timed
        (omega (arith, length-check l k now, ap (λ (c : LoginRateLimiter). c.max_clients) same)) in
    (done, c ∙ same)
run-Tracks l (failed k now ∷ es) start end h t (le, timed) room =
    let same = config-fail l k now in
    let (done, c) =
      run-Tracks (fail l k now) es now end (λ j. if k == j then h j ++ now ∷ [] else h j)
        (fail-Tracks l start now h t le k (omega arith)) timed
        (omega (arith, length-fail l k now, ap (λ (c : LoginRateLimiter). c.max_clients) same)) in
    (done, c ∙ same)
run-Tracks l (succeeded k ∷ es) start end h t timed room =
    run-Tracks (success l k) es start end (λ j. if k == j then [] else h j)
      (success-Tracks l start start h t (omega arith) k) timed
      (omega (arith, length-pop k l.attempts))

init-Tracks : (l : LoginRateLimiter) → l.attempts ≡ [] → Tracks l 0 (λ key. [])
unfolding recent get
init-Tracks l e = record {
  dict = rw e tt;
  ordered = λ key. rw e tt;
  past = λ key. rw e tt;
  same = λ key. rw e refl;
}

-- For a limiter that starts empty, with a positive limit, and any sequence of checks, failures and
-- successes in the order of time with at most `max_clients` failures: a check at the end lets a
-- client in exactly if fewer than `max_attempts` of the failures since that client's last success
-- are younger than the window, whatever the other clients did.
pub check-run :
    (l : LoginRateLimiter) (es : List Event) (now : ℕ) (key : String)
    → l.attempts ≡ []
    → 0 < l.max_attempts
    → IsTimed 0 now es
    → failures es ≤ l.max_clients
    → (check (run l es) key now).0.allowed
      ≡ ltb (length (recent (window l) now (history key [] es))) l.max_attempts
check-run l es now key empty pos timed room =
    let (t, c) =
      run-Tracks l es 0 now (λ key. []) (init-Tracks l empty) timed
        (omega (arith, ap (λ (m : List (String × List ℕ)). length m) empty)) in
    let limit : (run l es).max_attempts ≡ l.max_attempts =
      ap (λ (c : LoginRateLimiter). c.max_attempts) c in
    let width : window (run l es) ≡ window l = ap (λ (c : LoginRateLimiter). window c) c in
    check-allowed (run l es) key now (omega arith) (t.ordered key)
    ∙ ap (λ n. ltb (length n) (run l es).max_attempts) (t.same key)
    ∙ ap₂ (λ w n. ltb (length (recent w now (history key [] es))) n) width limit
