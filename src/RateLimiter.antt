-- ===== src/RateLimiter.antt =====
-- app/security.py: `LoginDecision` and `LoginRateLimiter`, the throttle of the operator login.
-- Times and delays are nanoseconds, the resolution of `time.monotonic`, so the defaults 0.25 s, 2.0 s
-- and the rounding term 0.999 are exact; the rounding of a float is not modelled.
-- The lock makes every method one step, so a method is a function on the whole object.
mod Attempts
mod Recent
mod Window
mod History
mod Refinement
mod Capacity
mod Tests
use perimetr.Prelude.{
  ℕ, ◌+◌, ◌-◌, ◌*◌, ◌/◌, String, Bool, true, false, Option, none, some, List, [], ◌∷◌, ◌++◌, leb,
  ◌==◌, if◌then◌else◌, length,
}
use Prim.Native.Nat.{max, min}

pub record LoginDecision : Type 0 where
  pub allowed : Bool
  pub retry_after_seconds : ℕ
  pub delay : ℕ

-- `_attempts` is a dict: its entries stand in the order of their insertion.
pub record LoginRateLimiter : Type 0 where
  pub max_attempts : ℕ
  pub window_seconds : ℕ
  pub base_delay : ℕ
  pub maximum_delay : ℕ
  pub max_clients : ℕ
  pub attempts : List (String × List ℕ)

-- The constructor with its default arguments.
unfoldable pub init : LoginRateLimiter
init = record {
  max_attempts = 10;
  window_seconds = 10 * 60;
  base_delay = 250000000;
  maximum_delay = 2000000000;
  max_clients = 10000;
  attempts = [];
}

-- `dict.get`, `dict.pop(key, None)` and `dict[key] = value` on the entries.
unfoldable pub get : String → List (String × List ℕ) → Option (List ℕ)
get k [] = none
get k ((j, ts) ∷ m) = if j == k then some ts else get k m

unfoldable pub pop : String → List (String × List ℕ) → List (String × List ℕ)
pop k [] = []
pop k ((j, ts) ∷ m) = let rest = pop k m in if j == k then m else (j, ts) ∷ rest

unfoldable pub put : String → List ℕ → List (String × List ℕ) → List (String × List ℕ)
put k ts [] = (k, ts) ∷ []
put k ts ((j, us) ∷ m) = let rest = put k ts m in if j == k then (k, ts) ∷ m else (j, us) ∷ rest

-- `_trim`: drop the attempts at the head that have left the window of `w` nanoseconds. The test
-- `attempts[0] <= timestamp - window` is written without a negative number.
unfoldable pub trim : ℕ → ℕ → List ℕ → List ℕ
trim w now [] = []
trim w now (t ∷ ts) = if leb (t + w) now then trim w now ts else t ∷ ts

abbrev pub window : LoginRateLimiter → ℕ
window l = l.window_seconds * 1000000000

-- `max(1, int(window - (now - oldest) + 0.999))`, with the three terms in nanoseconds. `trim` has
-- left an oldest attempt inside the window, so the difference is not negative.
unfoldable pub retry_after : ℕ → ℕ → ℕ → ℕ
retry_after w now oldest = max 1 ((oldest + w - now + 999000000) / 1000000000)

-- The answer of `check` for a client whose trimmed attempts are not empty.
unfoldable pub decide_for : LoginRateLimiter → ℕ → ℕ → List ℕ → LoginDecision
unfolding retry_after
decide_for l now oldest kept =
    if leb l.max_attempts (length kept)
    then (record {
      allowed = false;
      retry_after_seconds = retry_after (window l) now oldest;
      delay = 0;
    })
    else (record {
      allowed = true;
      retry_after_seconds = 0;
      delay = min l.maximum_delay (l.base_delay * length kept);
    })

abbrev pub welcome : LoginDecision
welcome = record { allowed = true; retry_after_seconds = 0; delay = 0 }

pub check_kept : LoginRateLimiter → String → ℕ → List ℕ → LoginDecision × LoginRateLimiter
unfolding decide_for
check_kept l key now [] = (welcome, record l { attempts = pop key l.attempts })
check_kept l key now (t ∷ ts) =
    (decide_for l now t (t ∷ ts), record l { attempts = put key (t ∷ ts) l.attempts })

-- `check(key, now=now)`. The deque is trimmed in place, also where the login is refused.
unfoldable pub check : LoginRateLimiter → String → ℕ → LoginDecision × LoginRateLimiter
unfolding check_kept get trim pop put
check l key now = elim (get key l.attempts) [
  | none ↦ (welcome, l)
  | some ts ↦ check_kept l key now (trim (window l) now ts)
]

-- `self._attempts.pop(next(iter(self._attempts)))`: the client that was inserted first goes. On an
-- empty dict, which is full only if `max_clients` is 0, the source raises StopIteration.
abbrev pub pop_first : List (String × List ℕ) → List (String × List ℕ)
pop_first [] = []
pop_first (e ∷ m) = m

unfoldable pub evict : LoginRateLimiter → List (String × List ℕ)
evict l = if leb l.max_clients (length l.attempts) then pop_first l.attempts else l.attempts

-- `fail(key, now=now)`.
unfoldable pub fail : LoginRateLimiter → String → ℕ → LoginRateLimiter
unfolding get trim put evict
fail l key now = elim (get key l.attempts) [
  | none ↦ record l { attempts = put key (now ∷ []) (evict l) }
  | some ts ↦ record l { attempts = put key (trim (window l) now ts ++ now ∷ []) l.attempts }
]

-- `success(key)`.
unfoldable pub success : LoginRateLimiter → String → LoginRateLimiter
unfolding pop
success l key = record l { attempts = pop key l.attempts }
