-- ===== src/RateLimiter/History.antt =====
-- The limiter against the history of what happened: `check` answers as if every failure since the
-- client's last success were remembered for ever.
use perimetr.Prelude.{
  ℕ, suc, ◌≤◌, String, ◌≡◌, false, List, [], ◌∷◌, ◌++◌, arith, if◌then◌else◌, or_else, inl, inr,
  Bool-cases, ◌==◌, sym, ap, ◌∙◌, All, eq_of_test,
}
use perimetr.RateLimiter.{LoginRateLimiter, get, put, pop, window, check, fail, success}
use perimetr.RateLimiter.Attempts.{
  IsOrdered, recent, get-put, IsDict, get-pop_self, get-pop_other, pop-IsDict, put-IsDict,
}
use perimetr.RateLimiter.Recent.{recent-later, All-le-later}
use perimetr.RateLimiter.Window.{attempts_of}

-- One use of the limiter by the login handler.
pub data Event : Type 0 where
  checked failed : String → ℕ → Event
  succeeded : String → Event

-- The limiter after a sequence of uses.
unfoldable pub run : LoginRateLimiter → List Event → LoginRateLimiter
run l [] = l
run l (checked key now ∷ es) = run (check l key now).1 es
run l (failed key now ∷ es) = run (fail l key now) es
run l (succeeded key ∷ es) = run (success l key) es

-- The failures of one client since its last success, oldest first.
unfoldable pub history : String → List ℕ → List Event → List ℕ
history key past [] = past
history key past (checked k now ∷ es) = history key past es
history key past (failed k now ∷ es) = history key (if k == key then past ++ now ∷ [] else past) es
history key past (succeeded k ∷ es) = history key (if k == key then [] else past) es

-- The clock does not run backwards from `start`, and the last use is no later than `end`.
abbrev pub IsTimed : ℕ → ℕ → List Event → Type 0
IsTimed start end [] = start ≤ end
IsTimed start end (checked k now ∷ es) = (start ≤ now) × IsTimed now end es
IsTimed start end (failed k now ∷ es) = (start ≤ now) × IsTimed now end es
IsTimed start end (succeeded k ∷ es) = IsTimed start end es

abbrev pub failures : List Event → ℕ
failures [] = 0
failures (failed k now ∷ es) = suc (failures es)
failures (_ ∷ es) = failures es

-- What the object knows at time `now` of the failures `h key` of every client.
pub record Tracks (l : LoginRateLimiter) (now : ℕ) (h : String → List ℕ) : Type 0 where
  pub dict : IsDict l.attempts
  pub ordered : (key : String) → IsOrdered (attempts_of key l)
  pub past : (key : String) → All (λ u. u ≤ now) (attempts_of key l)
  pub same :
      (key : String) → recent (window l) now (attempts_of key l) ≡ recent (window l) now (h key)

-- The attempts after a write, and after a removal.
attempts-put :
    (l : LoginRateLimiter) (k j : String) (ts : List ℕ) (m : List (String × List ℕ))
    → attempts_of j (record l { attempts = put k ts m })
      ≡ (if k == j then ts else or_else (get j m) [])
attempts-put l k j ts m = rw (get-put k j ts m) (ground arith)

attempts-pop :
    (l : LoginRateLimiter) (k j : String)
    → IsDict l.attempts
    → attempts_of j (record l { attempts = pop k l.attempts })
      ≡ (if k == j then [] else attempts_of j l)
attempts-pop l k j d = elim (Bool-cases (k == j)) [
  | inl e ↦ rw (e, ← eq_of_test k j e) (rw (get-pop_self k l.attempts d))
  | inr e ↦ rw (e, get-pop_other k j l.attempts e)
]

module _ (l : LoginRateLimiter) (now later : ℕ) (h : String → List ℕ) (t : Tracks l now h)
    (le : now ≤ later) where
  -- Time passes.
  wait-same :
      (key : String) → recent (window l) later (attempts_of key l) ≡ recent (window l) later (h key)
  wait-same key =
      sym (recent-later (window l) now later (attempts_of key l) le)
      ∙ ap (recent (window l) later) (t.same key)
      ∙ recent-later (window l) now later (h key) le

  pub wait-Tracks : Tracks l later h
  wait-Tracks = record {
    dict = t.dict;
    ordered = t.ordered;
    past = λ key. All-le-later now later (attempts_of key l) le (t.past key);
    same = wait-same;
  }

  module _ (k : String) (h' : String → List ℕ)
      (others : (j : String) → (k == j) ≡ false → h' j ≡ h j) where
    pub put-Tracks :
        (ts : List ℕ)
        → IsOrdered ts
        → All (λ u. u ≤ later) ts
        → recent (window l) later ts ≡ recent (window l) later (h' k)
        → Tracks (record l { attempts = put k ts l.attempts }) later h'
    put-Tracks ts ord le' e = record {
      dict = put-IsDict k ts l.attempts t.dict;
      ordered = λ j. rw (attempts-put l k j ts l.attempts) (by_key j).0;
      past = λ j. rw (attempts-put l k j ts l.attempts) (by_key j).1;
      same = λ j. rw (attempts-put l k j ts l.attempts) (by_key j).2;
    }
      where
        by_key :
            (j : String)
            → IsOrdered (if k == j then ts else attempts_of j l)
              × All (λ u. u ≤ later) (if k == j then ts else attempts_of j l)
              × (recent (window l) later (if k == j then ts else attempts_of j l)
                  ≡ recent (window l) later (h' j))
        by_key j = elim (Bool-cases (k == j)) [
          | inl q ↦ rw (q, ← eq_of_test k j q) (ord, le', e)
          | inr q ↦
              rw (q, others j q) (wait-Tracks.ordered j, wait-Tracks.past j, wait-Tracks.same j)
        ]

    pub pop-Tracks :
        recent (window l) later (h' k) ≡ []
        → Tracks (record l { attempts = pop k l.attempts }) later h'
    pop-Tracks e = record {
      dict = pop-IsDict k l.attempts t.dict;
      ordered = λ j. rw (attempts-pop l k j t.dict) (by_key j).0;
      past = λ j. rw (attempts-pop l k j t.dict) (by_key j).1;
      same = λ j. rw (attempts-pop l k j t.dict) (by_key j).2;
    }
      where
        by_key :
            (j : String)
            → IsOrdered (if k == j then [] else attempts_of j l)
              × All (λ u. u ≤ later) (if k == j then [] else attempts_of j l)
              × (recent (window l) later (if k == j then [] else attempts_of j l)
                  ≡ recent (window l) later (h' j))
        by_key j = elim (Bool-cases (k == j)) [
          | inl q ↦ rw (q, ← eq_of_test k j q) (tt, tt, unfold recent in sym e)
          | inr q ↦
              rw (q, others j q) (wait-Tracks.ordered j, wait-Tracks.past j, wait-Tracks.same j)
        ]
