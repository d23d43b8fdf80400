-- ===== src/Prelude/Text.antt =====
-- Texts that are walked character by character.
use Prim.Native.Nat.{ℕ, zero, suc, ◌≤◌}
use Prim.Native.Char.{Char, code}
use Prim.Native.String
use Prim.Native.String.{String, [], ◌∷◌}
use mathlib.Core.Path.{◌≡◌, refl}
use mathlib.Core.Logic.{◌≢◌}
use mathlib.Core.Option.{Option, none, some}
use mathlib.Core.List.{List}
use native.Mathlib.Omega.{arith}
use text.Mathlib.TextLemmas.{nil-append, cons-append}
use perimetr.Prelude.Tests.{nat_eq, ◌==◌, if◌then◌else◌}

-- `len(text)`: the number of code points.
abbrev pub text_length : String → ℕ
text_length [] = 0
text_length (c ∷ s) = suc (text_length s)

-- `text[:n]`.
abbrev pub truncate : ℕ → String → String
truncate zero s = []
truncate (suc n) [] = []
truncate (suc n) (c ∷ s) = c ∷ truncate n s

pub text_length-truncate : (n : ℕ) (s : String) → text_length (truncate n s) ≤ n
text_length-truncate zero s = omega arith
text_length-truncate (suc n) [] = omega arith
text_length-truncate (suc n) (c ∷ s) = omega (arith, text_length-truncate n s)

pub truncate-truncate : (a b : ℕ) (s : String) → a ≤ b → truncate a (truncate b s) ≡ truncate a s
truncate-truncate zero b s h = refl
truncate-truncate (suc a) zero s h = absurd (omega arith)
truncate-truncate (suc a) (suc b) [] h = refl
truncate-truncate (suc a) (suc b) (c ∷ s) h = rw (truncate-truncate a b s (omega arith))

cons_head : Char → Option (String × String) → Option (String × String)
cons_head c none = none
cons_head c (some (a, b)) = some (c ∷ a, b)

-- The parts before and after the first character `sep`; `none` if there is none.
unfoldable pub cut : ℕ → String → Option (String × String)
unfolding cons_head
cut sep [] = none
cut sep (c ∷ s) =
    let rest = cut sep s in if nat_eq (code c) sep then some ([], s) else cons_head c rest

-- The character does not occur.
abbrev pub Lacks : ℕ → String → Type 0
Lacks sep [] = Unit
Lacks sep (c ∷ s) = (code c ≢ sep) × Lacks sep s

-- Cutting a text that was joined gives back the parts.
pub cut-append :
    (c : Char) (a b : String)
    → Lacks (code c) a
    → cut (code c) (String.◌++◌ a (c ∷ b)) ≡ some (a, b)
unfolding cut cons_head
cut-append c [] b h = rw nil-append (ground arith)
cut-append c (d ∷ a) b (q, h) = rw cons-append (ground (arith, cut-append c a b h))

push_char : Char → List String → List String
push_char c List.[] = List.◌∷◌ (c ∷ []) List.[]
push_char c (List.◌∷◌ w ws) = List.◌∷◌ (c ∷ w) ws

-- `text.split(sep)`.
unfoldable pub split : ℕ → String → List String
unfolding push_char
split sep [] = List.◌∷◌ [] List.[]
split sep (c ∷ s) =
    let rest = split sep s in if nat_eq (code c) sep then List.◌∷◌ [] rest else push_char c rest

-- `text[:-len(suffix)] if text.endswith(suffix) else text`
unfoldable pub drop_suffix : String → String → String
drop_suffix suffix [] = []
drop_suffix suffix (c ∷ s) =
    let rest = drop_suffix suffix s in if (c ∷ s) == suffix then [] else c ∷ rest
