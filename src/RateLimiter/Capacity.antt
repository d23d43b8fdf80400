-- ===== src/RateLimiter/Capacity.antt =====
-- The memory of the limiter is bounded, whoever tries to log in.
use perimetr.Prelude.{
  ℕ, suc, ◌+◌, ◌≤◌, ◌<◌, String, List, [], ◌∷◌, ◌++◌, arith, length, inl, inr, Option-cases,
}
use perimetr.RateLimiter.{
  LoginRateLimiter, get, trim, window, check, fail, evict, success, pop_first,
}
use perimetr.RateLimiter.Attempts.{length-put, length-pop, length-put_known}
use perimetr.RateLimiter.Refinement.{length-check}

length-pop_first : (m : List (String × List ℕ)) → length (pop_first m) + 1 ≤ suc (length m)
length-pop_first [] = omega arith
length-pop_first (e ∷ m) = omega arith

length-pop_first_full :
    (m : List (String × List ℕ)) → 0 < length m → length (pop_first m) + 1 ≤ length m
length-pop_first_full [] h = h
length-pop_first_full (e ∷ m) h = omega arith

length-evict :
    (l : LoginRateLimiter)
    → 0 < l.max_clients
    → length l.attempts ≤ l.max_clients
    → length (evict l) + 1 ≤ l.max_clients
unfolding evict
length-evict l pos h = ground (arith, length-pop_first_full l.attempts)

fail-IsBounded :
    (l : LoginRateLimiter) (key : String) (now : ℕ)
    → 0 < l.max_clients
    → length l.attempts ≤ l.max_clients
    → length (fail l key now).attempts ≤ l.max_clients
unfolding fail
fail-IsBounded l key now pos h = elim (Option-cases (get key l.attempts)) [
  | inl e ↦ rw (e, fail) (omega (arith, length-put key (now ∷ []) (evict l), length-evict l pos h))
  | inr (ts, e) ↦
      rw (e, fail)
        (omega (arith, length-put_known key (trim (window l) now ts ++ now ∷ []) ts l.attempts e))
]

-- For a positive `max_clients`: a limiter that holds at most `max_clients` clients still does so
-- after each of its three methods, a failure of a new client at a full limiter included.
pub attempts-IsBounded :
    (l : LoginRateLimiter) (key : String) (now : ℕ)
    → 0 < l.max_clients
    → length l.attempts ≤ l.max_clients
    → (length (check l key now).1.attempts ≤ l.max_clients)
      × (length (fail l key now).attempts ≤ l.max_clients)
      × (length (success l key).attempts ≤ l.max_clients)
unfolding success
attempts-IsBounded l key now pos h = (
  omega (arith, length-check l key now),
  fail-IsBounded l key now pos h,
  omega (arith, length-pop key l.attempts),
)
