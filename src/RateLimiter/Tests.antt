-- ===== src/RateLimiter/Tests.antt =====
-- Runs of the limiter, and the theorems at concrete inputs.
use perimetr.Prelude.{◌≤◌, ◌≡◌, refl, true, false, List, [], ◌∷◌, arith, ltb, length}
use perimetr.RateLimiter.{LoginRateLimiter, check, fail, success, window, get}
use perimetr.RateLimiter.Attempts.{recent, IsOrdered}
use perimetr.RateLimiter.Window.{attempts_of, check-allowed, check-retry}
use perimetr.RateLimiter.History.{Event, checked, failed, succeeded, run, history}
use perimetr.RateLimiter.Refinement.{check-run}
use perimetr.RateLimiter.Capacity.{attempts-IsBounded}

-- Two attempts in a window of ten seconds, one client at a time.
abbrev strict : LoginRateLimiter
strict = record {
  max_attempts = 2;
  window_seconds = 10;
  base_delay = 250000000;
  maximum_delay = 2000000000;
  max_clients = 1;
  attempts = ("a", 1000000000 ∷ 2500000000 ∷ []) ∷ [];
}

refused :
    (check strict "a" 3000000000).0 ≡ record { allowed = false; retry_after_seconds = 8; delay = 0 }
unfolding check
refused = refl

slowed :
    (check strict "a" 11000000000).0
    ≡ record { allowed = true; retry_after_seconds = 0; delay = 250000000 }
unfolding check
slowed = refl

evicted : (fail strict "b" 3000000000).attempts ≡ ("b", 3000000000 ∷ []) ∷ []
unfolding fail
evicted = refl

check-allowed_example :
    (check strict "a" 3000000000).0.allowed
    ≡ ltb (length (recent (window strict) 3000000000 (attempts_of "a" strict))) 2
unfolding get
check-allowed_example = check-allowed strict "a" 3000000000 (omega arith) sorted
  where
    sorted : IsOrdered (attempts_of "a" strict)
    sorted = omega arith

check-retry_example :
    ((check (check strict "a" 3000000000).1 "a" 11001000000).0.allowed ≡ true)
    × ((check (check strict "a" 3000000000).1 "a" 10000000000).0.allowed ≡ false)
unfolding check
check-retry_example =
    check-retry strict "a" 3000000000 10000000000 11001000000 (omega arith) refl refl (omega arith)
      (omega arith)

-- Half a millisecond over five seconds is left: five seconds are announced, and are too few.
too_short :
    ((check strict "a" 5999500000).0.retry_after_seconds ≡ 5)
    × ((check (check strict "a" 5999500000).1 "a" 10999500000).0.allowed ≡ false)
unfolding check
too_short = (refl, refl)

abbrev story : List Event
story =
    failed "a" 1000000000
    ∷ failed "b" 1500000000
    ∷ checked "a" 2000000000
    ∷ succeeded "b"
    ∷ failed "a" 2500000000
    ∷ []

check-run_example :
    (check (run (record strict { attempts = []; max_clients = 5 }) story) "a" 3000000000).0.allowed
    ≡ ltb (length (recent 10000000000 3000000000 (history "a" [] story))) 2
check-run_example =
    check-run (record strict { attempts = []; max_clients = 5 }) story 3000000000 "a" refl
      (omega arith) (omega arith) (omega arith)

attempts-IsBounded_example :
    (length (check strict "b" 3000000000).1.attempts ≤ 1)
    × (length (fail strict "b" 3000000000).attempts ≤ 1)
    × (length (success strict "b").attempts ≤ 1)
attempts-IsBounded_example = attempts-IsBounded strict "b" 3000000000 (omega arith) (omega arith)
