-- ===== src/Kernel/Values/Replaced.antt =====
-- What `_resolve` reads after `_replace_resolved`.
use perimetr.Prelude.{
  String, ◌≡◌, ◌≢◌, refl, sym, ◌∙◌, Option, none, some, List, [], ◌∷◌, eq_self, test_of_ne, ◌⊎◌,
  inl, inr, All,
}
use perimetr.Json.{Json, Fields, null, bool, num, str, arr, obj, get_field, set_field}
use perimetr.Json.Laws.{get_field-set_field}
use perimetr.Artifacts.{Try, returns, >>=-eq-returns, returns-injective}
use perimetr.Kernel.Values.{parts, resolve, inside, set_path, replace_resolved}

-- Two paths part: at some place each has a part, and these differ.
unfoldable pub IsApart : List String → List String → Type 0
IsApart (p ∷ ps) (q ∷ qs) = (p ≢ q) ⊎ ((p ≡ q) × IsApart ps qs)
IsApart _ _ = ⊥

get-set_same : (k : String) (v : Json) (fs : Fields) → get_field k (set_field k v fs) ≡ some v
get-set_same k v fs = rw (get_field-set_field k k v fs, eq_self k) refl

get-set_other :
    (k j : String) (v : Json) (fs : Fields)
    → k ≢ j
    → get_field j (set_field k v fs) ≡ get_field j fs
get-set_other k j v fs q = rw (get_field-set_field k j v fs, test_of_ne k j q) refl

-- What was done inside the `dict` at `p`.
inside-returns :
    (p : String) (fs : Fields) (f : Fields → Try Fields) (o : Option Json) {gs : Fields}
    → inside p fs f o ≡ returns gs
    → (a : Fields) × (b : Fields) × (o ≡ some (obj a))
      × (f a ≡ returns b)
      × (gs ≡ set_field p (obj b) fs)
inside-returns p fs f (some (obj a)) h =
    let (b, e, q) = >>=-eq-returns (f a) _ h in (a, b, refl, e, sym (returns-injective q))
inside-returns p fs f (some null) h = cc
inside-returns p fs f (some (bool b)) h = cc
inside-returns p fs f (some (num n)) h = cc
inside-returns p fs f (some (str s)) h = cc
inside-returns p fs f (some (arr vs)) h = cc
inside-returns p fs f none h = cc

resolve-set_path :
    (ps : List String) (v : String) (fs : Fields) {gs : Fields}
    → set_path ps v fs ≡ returns gs
    → resolve ps (obj gs) ≡ some (str v)
unfolding resolve set_path
resolve-set_path [] v fs h = cc
resolve-set_path (p ∷ []) v fs h = rw⁻¹ (returns-injective h) (rw (get-set_same p (str v) fs) refl)
resolve-set_path (p ∷ (q ∷ qs)) v fs h =
    let (a, b, _, e, g) = inside-returns p fs (set_path (q ∷ qs) v) (get_field p fs) h in
    rw (g, get-set_same p (obj b) fs) (resolve-set_path (q ∷ qs) v a e)

resolve-set_path_apart :
    (ps qs : List String) (v : String) (fs : Fields) {gs : Fields}
    → IsApart ps qs
    → set_path ps v fs ≡ returns gs
    → resolve qs (obj gs) ≡ resolve qs (obj fs)
unfolding resolve set_path IsApart
resolve-set_path_apart [] qs v fs a h = absurd a
resolve-set_path_apart (p ∷ ps) [] v fs a h = absurd a
resolve-set_path_apart (p ∷ []) (q ∷ qs) v fs (inl n) h =
    rw⁻¹ (returns-injective h) (rw (get-set_other p q (str v) fs n) refl)
resolve-set_path_apart (p ∷ []) (q ∷ qs) v fs (inr (_, a)) h = absurd a
resolve-set_path_apart (p ∷ (r ∷ ps)) (q ∷ qs) v fs (inl n) h =
    let (a, b, _, e, g) = inside-returns p fs (set_path (r ∷ ps) v) (get_field p fs) h in
    rw (g, get-set_other p q (obj b) fs n) refl
resolve-set_path_apart (p ∷ (r ∷ ps)) (q ∷ qs) v fs (inr (s, d)) h =
    let (a, b, o, e, g) = inside-returns p fs (set_path (r ∷ ps) v) (get_field p fs) h in
    rw (g, sym s, get-set_same p (obj b) fs, o) (resolve-set_path_apart (r ∷ ps) qs v a d e)

-- The keys part from a path, and from each other.
abbrev pub PartFrom : List String → List (String × String) → Type 0
PartFrom qs items = All (λ i. IsApart (parts i.0) qs) items

unfoldable pub ArePairwiseApart : List (String × String) → Type 0
ArePairwiseApart [] = Unit
ArePairwiseApart (i ∷ items) = PartFrom (parts i.0) items × ArePairwiseApart items

resolve-replace_resolved_other :
    (items : List (String × String)) (qs : List String) (values : Fields) {gs : Fields}
    → PartFrom qs items
    → replace_resolved items values ≡ returns gs
    → resolve qs (obj gs) ≡ resolve qs (obj values)
unfolding replace_resolved
resolve-replace_resolved_other [] qs values a h = rw (returns-injective h) refl
resolve-replace_resolved_other ((key, v) ∷ rest) qs values (d, a) h =
    let (next, e, h') = >>=-eq-returns (set_path (parts key) v values) _ h in
    resolve-replace_resolved_other rest qs next a h'
    ∙ resolve-set_path_apart (parts key) qs v values d e

-- If the keys part from each other, each resolves to its own value after all were replaced.
pub resolve-replace_resolved :
    (items : List (String × String)) (values replaced : Fields)
    → ArePairwiseApart items
    → replace_resolved items values ≡ returns replaced
    → All (λ i. resolve (parts i.0) (obj replaced) ≡ some (str i.1)) items
unfolding replace_resolved ArePairwiseApart
resolve-replace_resolved [] values replaced a h = tt
resolve-replace_resolved ((key, v) ∷ rest) values replaced (d, a) h =
    let (next, e, h') = >>=-eq-returns (set_path (parts key) v values) _ h in
    (
      resolve-replace_resolved_other rest (parts key) next d h'
          ∙ resolve-set_path (parts key) v values e,
      resolve-replace_resolved rest next replaced a h',
    )
