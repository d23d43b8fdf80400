-- ===== src/RateLimiter/Window.antt =====
-- What one `check` decides, and what its `Retry-After` promises.
use perimetr.Prelude.{
  ℕ, ◌+◌, ◌*◌, ◌≤◌, ◌<◌, String, ◌≡◌, refl, true, false, none, some, List, [], ◌∷◌, arith, ltb,
  length, or_else, inl, inr, Option-cases, eq_self, lt→ltb, subst, sym, ap, ◌∙◌,
}
use mathlib.Core.Bool.{true≢false}
use perimetr.RateLimiter.{
  LoginRateLimiter, get, put, trim, window, retry_after, decide_for, check_kept, check, welcome,
}
use perimetr.RateLimiter.Attempts.{IsOrdered, recent, trim-eq-recent, get-put}

abbrev pub attempts_of : String → LoginRateLimiter → List ℕ
attempts_of key l = or_else (get key l.attempts) []

check_kept-allowed :
    (l : LoginRateLimiter) (key : String) (now : ℕ) (kept : List ℕ)
    → 0 < l.max_attempts
    → (check_kept l key now kept).0.allowed ≡ ltb (length kept) l.max_attempts
unfolding check_kept decide_for
check_kept-allowed l key now [] h = ground arith
check_kept-allowed l key now (t ∷ ts) h = ground arith

pub check_unknown :
    (l : LoginRateLimiter) (key : String) (now : ℕ)
    → get key l.attempts ≡ none
    → check l key now ≡ (welcome, l)
unfolding check
check_unknown l key now e = rw (e, check)

pub check_known :
    (l : LoginRateLimiter) (key : String) (now : ℕ) (ts : List ℕ)
    → get key l.attempts ≡ some ts
    → check l key now ≡ check_kept l key now (trim (window l) now ts)
unfolding check
check_known l key now ts e = rw (e, check)

-- For a positive limit and attempts in the order of time: `check` lets a client in exactly if fewer
-- than `max_attempts` of its recorded failures are younger than the window, also where the client
-- has no record.
pub check-allowed :
    (l : LoginRateLimiter) (key : String) (now : ℕ)
    → 0 < l.max_attempts
    → IsOrdered (attempts_of key l)
    → (check l key now).0.allowed
      ≡ ltb (length (recent (window l) now (attempts_of key l))) l.max_attempts
unfolding recent
check-allowed l key now pos ordered = elim (Option-cases (get key l.attempts)) [
  | inl e ↦ rw (check_unknown l key now e) (rw e (ground arith))
  | inr (ts, e) ↦
      let sorted : IsOrdered ts = subst (λ o. IsOrdered (or_else o [])) e ordered in
      rw (check_known l key now ts e, e, ← trim-eq-recent (window l) now ts sorted)
        (check_kept-allowed l key now (trim (window l) now ts) pos)
]

length-trim : (w now : ℕ) (ts : List ℕ) → length (trim w now ts) ≤ length ts
unfolding trim
length-trim w now [] = omega arith
length-trim w now (t ∷ ts) = ground (arith, length-trim w now ts)

-- A round of waiting that lets the oldest attempt leave the window.
trim-shorter : (w now t : ℕ) (ts : List ℕ) → t + w ≤ now → length (trim w now (t ∷ ts)) ≤ length ts
unfolding trim
trim-shorter w now t ts h = ground (arith, length-trim w now ts)

retry_after-enough : (w now t : ℕ) → t + w ≤ now + retry_after w now t * 1000000000 + 1000000
unfolding retry_after
retry_after-enough w now t = omega arith

retry_after-early :
    (w now later t : ℕ)
    → now < t + w
    → later + 1000000000 ≤ now + retry_after w now t * 1000000000
    → later < t + w
unfolding retry_after
retry_after-early w now later t h k = omega arith

trim-young : (w now : ℕ) (ts rest : List ℕ) (t : ℕ) → trim w now ts ≡ t ∷ rest → now < t + w
unfolding trim
trim-young w now [] rest t e = cc
trim-young w now (u ∷ us) rest t e = ground (arith, trim-young w now us rest t)

trim-keeps : (w now t : ℕ) (ts : List ℕ) → now < t + w → trim w now (t ∷ ts) ≡ t ∷ ts
unfolding trim
trim-keeps w now t ts h = ground arith

check_kept-refused :
    (l : LoginRateLimiter) (key : String) (now : ℕ) (kept : List ℕ)
    → (check_kept l key now kept).0.allowed ≡ false
    → (t : ℕ) × (ts : List ℕ) × (kept ≡ t ∷ ts)
      × ((check_kept l key now kept).0.retry_after_seconds ≡ retry_after (window l) now t)
      × ((check_kept l key now kept).1 ≡ record l { attempts = put key (t ∷ ts) l.attempts })
unfolding check_kept decide_for
check_kept-refused l key now [] h = cc
check_kept-refused l key now (t ∷ ts) h = (t, ts, refl, ground arith, refl)

-- The state that a refusal leaves: the trimmed attempts, headed by the oldest one.
check-refused :
    (l : LoginRateLimiter) (key : String) (now : ℕ)
    → (check l key now).0.allowed ≡ false
    → (t : ℕ) × (ts : List ℕ) × (trim (window l) now (attempts_of key l) ≡ t ∷ ts)
      × ((check l key now).0.retry_after_seconds ≡ retry_after (window l) now t)
      × ((check l key now).1 ≡ record l { attempts = put key (t ∷ ts) l.attempts })
check-refused l key now h = elim (Option-cases (get key l.attempts)) [
  | inl e ↦
      let d : welcome.allowed ≡ false = rw (check_unknown l key now e) at h in absurd (true≢false d)
  | inr (ts, e) ↦
      rw (check_known l key now ts e, e)
        (check_kept-refused l key now (trim (window l) now ts)
          (rw (check_known l key now ts e) at h))
]

-- The answer of a second check on what the first one stored.
check-stored :
    (l : LoginRateLimiter) (key : String) (later : ℕ) (ts : List ℕ)
    → 0 < l.max_attempts
    → (check (record l { attempts = put key ts l.attempts }) key later).0.allowed
      ≡ ltb (length (trim (window l) later ts)) l.max_attempts
check-stored l key later ts pos =
    let l' : LoginRateLimiter = record l { attempts = put key ts l.attempts } in
    let e : get key l'.attempts ≡ some ts = rw (get-put key key ts l.attempts, eq_self key) in
    rw (check_known l' key later ts e)
      (check_kept-allowed l' key later (trim (window l) later ts) pos)

-- `Retry-After` is right to a millisecond. Where a client with exactly `max_attempts` young failures is
-- refused and makes no further failure, it is let in at every moment that is at least a millisecond
-- after the announced seconds, and it is still refused at every moment at least one second before
-- their end.
pub check-retry :
    (l : LoginRateLimiter) (key : String) (now early later : ℕ)
    → 0 < l.max_attempts
    → (check l key now).0.allowed ≡ false
    → length (trim (window l) now (attempts_of key l)) ≡ l.max_attempts
    → early + 1000000000 ≤ now + (check l key now).0.retry_after_seconds * 1000000000
    → now + (check l key now).0.retry_after_seconds * 1000000000 + 1000000 ≤ later
    → ((check (check l key now).1 key later).0.allowed ≡ true)
      × ((check (check l key now).1 key early).0.allowed ≡ false)
check-retry l key now early later pos h full soon late =
    let (t, ts, kept, wait, state) = check-refused l key now h in
    let young : now < t + window l = trim-young (window l) now (attempts_of key l) ts t kept in
    let count : length (t ∷ ts) ≡ l.max_attempts = sym (ap length kept) ∙ full in
    let soon' : early + 1000000000 ≤ now + retry_after (window l) now t * 1000000000 =
      rw wait at soon in
    let late' : now + retry_after (window l) now t * 1000000000 + 1000000 ≤ later =
      rw wait at late in
    let still = retry_after-early (window l) now early t young soon' in
    let over : t + window l ≤ later = omega (arith, retry_after-enough (window l) now t) in
    let opened = trim-shorter (window l) later t ts over in
    rw state (
      rw (check-stored l key later (t ∷ ts) pos) (lt→ltb _ _ (omega arith)),
      rw (check-stored l key early (t ∷ ts) pos, trim-keeps (window l) early t ts still)
          (ground arith),
    )
