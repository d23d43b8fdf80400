-- ===== src/RateLimiter/Recent.antt =====
-- The attempts that are younger than the window, as time goes on.
use perimetr.Prelude.{ℕ, ◌≤◌, ◌≡◌, refl, List, [], ◌∷◌, ◌++◌, arith, All}
use perimetr.RateLimiter.Attempts.{IsOrdered, recent}

pub recent-later :
    (w now later : ℕ) (ts : List ℕ)
    → now ≤ later
    → recent w later (recent w now ts) ≡ recent w later ts
unfolding recent
recent-later w now later [] h = refl
recent-later w now later (t ∷ ts) h = ground (arith, recent-later w now later ts h)

pub recent-append :
    (w now : ℕ) (ts us : List ℕ) → recent w now (ts ++ us) ≡ recent w now ts ++ recent w now us
unfolding recent
recent-append w now [] us = refl
recent-append w now (t ∷ ts) us = ground (arith, recent-append w now ts us)

pub IsOrdered-recent-All :
    (w now t : ℕ) (ts : List ℕ) → All (λ u. t ≤ u) ts → All (λ u. t ≤ u) (recent w now ts)
unfolding recent
IsOrdered-recent-All w now t [] h = tt
IsOrdered-recent-All w now t (u ∷ us) (k, h) = ground (arith, IsOrdered-recent-All w now t us h)

pub All-le-recent :
    (w now n : ℕ) (ts : List ℕ) → All (λ u. u ≤ n) ts → All (λ u. u ≤ n) (recent w now ts)
unfolding recent
All-le-recent w now n [] h = tt
All-le-recent w now n (u ∷ us) (k, h) = ground (arith, All-le-recent w now n us h)

pub All-le-later : (n m : ℕ) (ts : List ℕ) → n ≤ m → All (λ u. u ≤ n) ts → All (λ u. u ≤ m) ts
All-le-later n m [] h k = tt
All-le-later n m (t ∷ ts) h (a, k) = (omega arith, All-le-later n m ts h k)

pub recent-IsOrdered : (w now : ℕ) (ts : List ℕ) → IsOrdered ts → IsOrdered (recent w now ts)
unfolding recent
recent-IsOrdered w now [] h = tt
recent-IsOrdered w now (t ∷ ts) (low, h) =
    ground (arith, recent-IsOrdered w now ts h, IsOrdered-recent-All w now t ts low)

pub snoc-All :
    (t n : ℕ) (ts : List ℕ) → All (λ u. t ≤ u) ts → t ≤ n → All (λ u. t ≤ u) (ts ++ n ∷ [])
snoc-All t n [] h k = (k, tt)
snoc-All t n (u ∷ us) (a, h) k = (a, snoc-All t n us h k)

pub snoc-IsOrdered :
    (n : ℕ) (ts : List ℕ) → IsOrdered ts → All (λ u. u ≤ n) ts → IsOrdered (ts ++ n ∷ [])
snoc-IsOrdered n [] h k = (tt, tt)
snoc-IsOrdered n (t ∷ ts) (low, h) (le, k) = (snoc-All t n ts low le, snoc-IsOrdered n ts h k)

pub snoc-le : (n : ℕ) (ts : List ℕ) → All (λ u. u ≤ n) ts → All (λ u. u ≤ n) (ts ++ n ∷ [])
snoc-le n [] h = (omega arith, tt)
snoc-le n (t ∷ ts) (a, h) = (a, snoc-le n ts h)
