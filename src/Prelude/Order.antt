-- ===== src/Prelude/Order.antt =====
-- Three-way comparisons, as Python compares numbers, texts and tuples, and the laws of an order.
use Prim.Native.Nat.{Ordering, lt, eq, gt, compare}
use mathlib.Core.Path.{◌≡◌, refl}
use mathlib.Core.List.{List}
use native.Mathlib.Omega.{arith}

abbrev pub flip : Ordering → Ordering
flip lt = gt
flip eq = eq
flip gt = lt

-- The second comparison decides where the first finds no difference.
abbrev pub then_by : Ordering → Ordering → Ordering
then_by lt o = lt
then_by eq o = o
then_by gt o = gt

-- A comparison is a strict total order.
pub record IsOrder {ℓ} {A : Type ℓ} (cmp : A → A → Ordering) : Type ℓ where
  pub equal : (a b : A) → cmp a b ≡ eq → a ≡ b
  pub same : (a : A) → cmp a a ≡ eq
  pub turned : (a b : A) → cmp b a ≡ flip (cmp a b)
  pub below : (a b c : A) → cmp a b ≡ lt → cmp b c ≡ lt → cmp a c ≡ lt

pub compare-IsOrder : IsOrder compare
compare-IsOrder = record {
  equal = λ a b h. ground arith;
  same = λ a. ground arith;
  turned = λ a b. ground arith;
  below = λ a b c h k. ground arith;
}

module _ {ℓ} {A : Type ℓ} (cmp : A → A → Ordering) where
  -- Tuples of any length: the first difference decides, and a prefix is smaller.
  unfoldable pub lex : List A → List A → Ordering
  lex List.[] List.[] = eq
  lex List.[] (List.◌∷◌ b bs) = lt
  lex (List.◌∷◌ a as') List.[] = gt
  lex (List.◌∷◌ a as') (List.◌∷◌ b bs) = then_by (cmp a b) (lex as' bs)

module _ {ℓ} {A : Type ℓ} {cmp : A → A → Ordering} (o : IsOrder cmp) where
  lex-equal : (as' bs : List A) → lex cmp as' bs ≡ eq → as' ≡ bs
  unfolding lex
  lex-equal List.[] List.[] h = refl
  lex-equal List.[] (List.◌∷◌ b bs) h = cc
  lex-equal (List.◌∷◌ a as') List.[] h = cc
  lex-equal (List.◌∷◌ a as') (List.◌∷◌ b bs) h = ground (arith, o.equal a b, lex-equal as' bs)

  lex-same : (as' : List A) → lex cmp as' as' ≡ eq
  unfolding lex
  lex-same List.[] = refl
  lex-same (List.◌∷◌ a as') = ground (arith, o.same a, lex-same as')

  lex-turned : (as' bs : List A) → lex cmp bs as' ≡ flip (lex cmp as' bs)
  unfolding lex
  lex-turned List.[] List.[] = refl
  lex-turned List.[] (List.◌∷◌ b bs) = refl
  lex-turned (List.◌∷◌ a as') List.[] = refl
  lex-turned (List.◌∷◌ a as') (List.◌∷◌ b bs) = ground (arith, o.turned a b, lex-turned as' bs)

  lex-below : (as' bs cs : List A) → lex cmp as' bs ≡ lt → lex cmp bs cs ≡ lt → lex cmp as' cs ≡ lt
  unfolding lex
  lex-below List.[] List.[] cs h k = cc
  lex-below List.[] (List.◌∷◌ b bs) List.[] h k = cc
  lex-below List.[] (List.◌∷◌ b bs) (List.◌∷◌ c cs) h k = refl
  lex-below (List.◌∷◌ a as') List.[] cs h k = cc
  lex-below (List.◌∷◌ a as') (List.◌∷◌ b bs) List.[] h k = cc
  lex-below (List.◌∷◌ a as') (List.◌∷◌ b bs) (List.◌∷◌ c cs) h k =
      ground (arith, o.equal a b, o.equal b c, o.same a, o.below a b c, lex-below as' bs cs)

  pub lex-IsOrder : IsOrder (lex cmp)
  lex-IsOrder = record {
    equal = lex-equal;
    same = lex-same;
    turned = lex-turned;
    below = lex-below;
  }
