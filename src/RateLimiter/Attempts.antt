-- ===== src/RateLimiter/Attempts.antt =====
-- The dict of attempts behind `LoginRateLimiter`, and the deque that `_trim` shortens.
use perimetr.Prelude.{
  ℕ, ◌+◌, ◌≤◌, String, ◌≡◌, refl, true, false, none, some, List, [], ◌∷◌, arith, ltb, ◌==◌,
  if◌then◌else◌, length, keep, All, eq_iff,
}
use perimetr.RateLimiter.{get, pop, put, trim}

module _ (k j : String) where
  pub get-put :
      (ts : List ℕ) (m : List (String × List ℕ))
      → get j (put k ts m) ≡ (if k == j then some ts else get j m)
  unfolding get put
  get-put ts [] = refl
  get-put ts ((i, us) ∷ m) = ground (arith, eq_iff k j, eq_iff i k, eq_iff i j, get-put ts m)

  pub get-pop_other : (m : List (String × List ℕ)) → (k == j) ≡ false → get j (pop k m) ≡ get j m
  unfolding get pop
  get-pop_other [] h = refl
  get-pop_other ((i, us) ∷ m) h =
      ground (arith, eq_iff k j, eq_iff i k, eq_iff i j, get-pop_other m h)

-- The keys of a dict are distinct.
abbrev pub Absent : String → List (String × List ℕ) → Type 0
Absent k [] = Unit
Absent k ((j, ts) ∷ m) = ((j == k) ≡ false) × Absent k m

abbrev pub IsDict : List (String × List ℕ) → Type 0
IsDict [] = Unit
IsDict ((k, ts) ∷ m) = Absent k m × IsDict m

pub get-Absent : (k : String) (m : List (String × List ℕ)) → Absent k m → get k m ≡ none
unfolding get
get-Absent k [] h = refl
get-Absent k ((j, ts) ∷ m) h = ground (arith, get-Absent k m)

pub get-pop_self : (k : String) (m : List (String × List ℕ)) → IsDict m → get k (pop k m) ≡ none
unfolding get pop
get-pop_self k [] h = refl
get-pop_self k ((j, ts) ∷ m) (fresh, h) =
    ground (arith, eq_iff j k, get-pop_self k m h, get-Absent j m fresh)

Absent-pop : (k j : String) (m : List (String × List ℕ)) → Absent j m → Absent j (pop k m)
unfolding pop
Absent-pop k j [] h = tt
Absent-pop k j ((i, us) ∷ m) h = ground (arith, Absent-pop k j m)

pub pop-IsDict : (k : String) (m : List (String × List ℕ)) → IsDict m → IsDict (pop k m)
unfolding pop
pop-IsDict k [] h = tt
pop-IsDict k ((j, ts) ∷ m) h = ground (arith, pop-IsDict k m, Absent-pop k j m)

Absent-put :
    (k j : String) (ts : List ℕ) (m : List (String × List ℕ))
    → (k == j) ≡ false
    → Absent j m
    → Absent j (put k ts m)
unfolding put
Absent-put k j ts [] e h = (e, tt)
Absent-put k j ts ((i, us) ∷ m) e h = ground (arith, Absent-put k j ts m, eq_iff i k)

pub put-IsDict :
    (k : String) (ts : List ℕ) (m : List (String × List ℕ)) → IsDict m → IsDict (put k ts m)
unfolding put
put-IsDict k ts [] h = (tt, tt)
put-IsDict k ts ((j, us) ∷ m) h =
    ground (arith, put-IsDict k ts m, Absent-put k j ts m, eq_iff j k, eq_iff k j)

pub length-pop : (k : String) (m : List (String × List ℕ)) → length (pop k m) ≤ length m
unfolding pop
length-pop k [] = omega arith
length-pop k ((j, ts) ∷ m) = ground (arith, length-pop k m)

pub length-put :
    (k : String) (ts : List ℕ) (m : List (String × List ℕ)) → length (put k ts m) ≤ length m + 1
unfolding put
length-put k ts [] = omega arith
length-put k ts ((j, us) ∷ m) = ground (arith, length-put k ts m)

pub length-put_known :
    (k : String) (ts us : List ℕ) (m : List (String × List ℕ))
    → get k m ≡ some us
    → length (put k ts m) ≡ length m
unfolding put get
length-put_known k ts us [] h = ground arith
length-put_known k ts us ((j, vs) ∷ m) h = ground (arith, length-put_known k ts us m)

-- Attempts in the order in which they were made, none of them in the future of `now`.
abbrev pub IsOrdered : List ℕ → Type 0
IsOrdered [] = Unit
IsOrdered (t ∷ ts) = All (λ u. t ≤ u) ts × IsOrdered ts

-- The attempts that are younger than the window, wherever they stand.
unfoldable pub recent : ℕ → ℕ → List ℕ → List ℕ
recent w now ts = keep (λ t. ltb now (t + w)) ts

recent-All :
    (w now t : ℕ) (ts : List ℕ)
    → All (λ u. t ≤ u) ts
    → ltb now (t + w) ≡ true
    → recent w now ts ≡ ts
unfolding recent
recent-All w now t [] h e = refl
recent-All w now t (u ∷ ts) (le, h) e = ground (arith, recent-All w now t ts h e)

-- On an ordered deque, trimming from the left is filtering.
pub trim-eq-recent : (w now : ℕ) (ts : List ℕ) → IsOrdered ts → trim w now ts ≡ recent w now ts
unfolding trim recent
trim-eq-recent w now [] h = refl
trim-eq-recent w now (t ∷ ts) (low, h) =
    ground (arith, trim-eq-recent w now ts h, recent-All w now t ts low)
