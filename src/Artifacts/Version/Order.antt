-- ===== src/Artifacts/Version/Order.antt =====
-- The order of `compare_versions`.
use Prim.Native.Nat.{Ordering, lt, eq, gt}
use Prim.Native.String
use Prim.Native.String.{[], ◌∷◌}
use text.Mathlib.TextEquality.{path_by_compare}
use text.Mathlib.TextPositions.{compare_refl}
use perimetr.Prelude.{
  String, ◌≡◌, ℕ, List, refl, sym, ap, ◌∙◌, ◌≢◌, ◌>>=◌, Option, none, some, arith,
}
use perimetr.Prelude.Order.{flip, then_by, lex, IsOrder, compare-IsOrder, lex-IsOrder}
use perimetr.Platform.{Platform}
use perimetr.Artifacts.Version.{
  Identifier, number, word, release, Semver, semver, compare_identifier, compare_semver,
  compare_versions,
}

text-turned : (s t : String) → String.compare t s ≡ flip (String.compare s t)
text-turned [] [] = rw String.compare.nil-nil refl
text-turned [] (d ∷ t) = rw (String.compare.nil-cons, String.compare.cons-nil) refl
text-turned (c ∷ s) [] = rw (String.compare.nil-cons, String.compare.cons-nil) refl
text-turned (c ∷ s) (d ∷ t) =
    rw (String.compare.cons-cons c d s t, String.compare.cons-cons d c t s)
      (ground (arith, text-turned s t))

text-below :
    (s t u : String) → String.compare s t ≡ lt → String.compare t u ≡ lt → String.compare s u ≡ lt
text-below [] t [] h k = ground (arith, text-turned [] t)
text-below [] t (e ∷ u) h k = String.compare.nil-cons e u
text-below (c ∷ s) [] u h k = ground (arith, String.compare.cons-nil c s)
text-below (c ∷ s) (d ∷ t) [] h k = ground (arith, String.compare.cons-nil d t)
text-below (c ∷ s) (d ∷ t) (e ∷ u) h k =
    let h' = sym (String.compare.cons-cons c d s t) ∙ h in
    let k' = sym (String.compare.cons-cons d e t u) ∙ k in
    rw (String.compare.cons-cons c e s u) (ground (arith, text-below s t u))

text-IsOrder : IsOrder String.compare
text-IsOrder = record {
  equal = path_by_compare;
  same = compare_refl;
  turned = text-turned;
  below = text-below;
}

identifier-below :
    (a b c : Identifier)
    → compare_identifier a b ≡ lt
    → compare_identifier b c ≡ lt
    → compare_identifier a c ≡ lt
identifier-below (number a) (number b) (number c) h k = compare-IsOrder.below a b c h k
identifier-below (word a) (word b) (word c) h k = text-below a b c h k
identifier-below (number a) b (word c) h k = refl
identifier-below (number a) b release h k = refl
identifier-below (word a) b release h k = refl
identifier-below (number a) (word b) (number c) h k = cc
identifier-below (number a) release (number c) h k = cc
identifier-below (word a) (number b) c h k = cc
identifier-below (word a) (word b) (number c) h k = cc
identifier-below (word a) release c h k = ground arith
identifier-below release b c h k = ground arith

identifier-equal : (a b : Identifier) → compare_identifier a b ≡ eq → a ≡ b
identifier-equal (number a) (number b) h = rw (compare-IsOrder.equal a b h) refl
identifier-equal (word a) (word b) h = rw (path_by_compare a b h) refl
identifier-equal release release h = refl
identifier-equal (number a) (word b) h = cc
identifier-equal (number a) release h = cc
identifier-equal (word a) (number b) h = cc
identifier-equal (word a) release h = cc
identifier-equal release (number b) h = cc
identifier-equal release (word b) h = cc

identifier-IsOrder : IsOrder compare_identifier
identifier-IsOrder = record {
  equal = identifier-equal;
  same = same;
  turned = turned;
  below = identifier-below;
}
  where
    same : (a : Identifier) → compare_identifier a a ≡ eq
    same (number n) = compare-IsOrder.same n
    same (word s) = compare_refl s
    same release = refl

    turned : (a b : Identifier) → compare_identifier b a ≡ flip (compare_identifier a b)
    turned (number a) (number b) = compare-IsOrder.turned a b
    turned (word a) (word b) = text-turned a b
    turned release release = refl
    turned (number a) (word b) = refl
    turned (number a) release = refl
    turned (word a) (number b) = refl
    turned (word a) release = refl
    turned release (number b) = refl
    turned release (word b) = refl

suffix-IsOrder : IsOrder (lex compare_identifier)
suffix-IsOrder = lex-IsOrder identifier-IsOrder

-- Two orders in turn are an order of pairs.
module _ {A B : Type 0} {f : A → A → Ordering} {g : B → B → Ordering} (p : IsOrder f)
    (q : IsOrder g) where
  by_both : A × B → A × B → Ordering
  by_both a b = then_by (f a.0 b.0) (g a.1 b.1)

  both-IsOrder : IsOrder by_both
  unfolding by_both
  both-IsOrder = record {
    equal = λ (a, b) (c, d) h. ground (arith, p.equal a c, q.equal b d);
    same = λ (a, b). ground (arith, p.same a, q.same b);
    turned = λ (a, b) (c, d). ground (arith, p.turned a c, q.turned b d);
    below = λ (a, b) (c, d) (e, s) h k.
        ground (arith, p.equal a c, p.equal c e, p.same a, p.below a c e, q.below b d s);
  }

pub semver-IsOrder : IsOrder compare_semver
unfolding compare_semver by_both
semver-IsOrder = record {
  equal = λ a b h. ap build (order.equal (fields a) (fields b) h);
  same = λ a. order.same (fields a);
  turned = λ a b. order.turned (fields a) (fields b);
  below = λ a b c. order.below (fields a) (fields b) (fields c);
}
  where
    order : IsOrder (
        by_both compare-IsOrder
          (both-IsOrder compare-IsOrder (both-IsOrder compare-IsOrder suffix-IsOrder)))
    order =
        both-IsOrder compare-IsOrder
          (both-IsOrder compare-IsOrder (both-IsOrder compare-IsOrder suffix-IsOrder))

    fields : Semver → ℕ × (ℕ × (ℕ × List Identifier))
    fields a = (a.major, (a.minor, (a.patch, a.suffix)))

    build : ℕ × (ℕ × (ℕ × List Identifier)) → Semver
    build (a, (b, (c, d))) = record { major = a; minor = b; patch = c; suffix = d }

abbrev compare_parsed : Option Semver → Option Semver → Option Ordering
compare_parsed x y = x >>= λ a. y >>= λ b. some (compare_semver a b)

parsed_trans :
    (x y z : Option Semver)
    → compare_parsed x y ≡ some lt
    → compare_parsed y z ≡ some lt
    → (compare_parsed x z ≡ some lt) × (compare_parsed z x ≡ some gt)
parsed_trans none y z h k = cc
parsed_trans (some a) none z h k = cc
parsed_trans (some a) (some b) none h k = cc
parsed_trans (some a) (some b) (some c) h k =
    ground (arith, semver-IsOrder.below a b c, semver-IsOrder.turned a c)

-- A version that is older than one that is older than a third is older than the third, and the
-- third is newer than it.
pub compare_versions_trans :
    (platform : Platform) (a b c : String)
    → compare_versions platform a b ≡ some lt
    → compare_versions platform b c ≡ some lt
    → (compare_versions platform a c ≡ some lt) × (compare_versions platform c a ≡ some gt)
unfolding compare_versions
compare_versions_trans platform a b c h k =
    parsed_trans (semver platform a) (semver platform b) (semver platform c) h k

parsed_self : (x : Option Semver) → compare_parsed x x ≢ some lt
parsed_self none h = cc
parsed_self (some v) h = ground (arith, semver-IsOrder.same v)

pub compare_versions_self :
    (platform : Platform) (a : String) → compare_versions platform a a ≢ some lt
unfolding compare_versions
compare_versions_self platform a h = parsed_self (semver platform a) h
