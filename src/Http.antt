-- ===== src/Http.antt =====
-- How a request ends: fastapi's `HTTPException`, the commit of app/database.py's session, and the
-- reading of `get_db`, whose `close` rolls back what was not committed. Requests are serialized by
-- the advisory lock of `serialize_application_transactions`, so a request is one step.
use Prim.Native.String
use perimetr.Prelude.{ℕ, String, ◌≡◌, refl, Bool, true, false}

-- What a handler returns. `deny` holds the database as it was last committed, the status and the
-- detail of the exception.
pub data Outcome (S : Type 0) (A : Type 0) : Type 0 where
  done : A → Outcome S A
  deny : S → ℕ → String → Outcome S A

infixl 5 ◌>>=◌ ◌>>◌
abbrev pub ◌>>=◌ : {S A B : Type 0} → Outcome S A → (A → Outcome S B) → Outcome S B
done a >>= f = f a
deny s code detail >>= f = deny s code detail

abbrev pub ◌>>◌ : {S B : Type 0} → Outcome S (Unit {0}) → Outcome S B → Outcome S B
m >> k = m >>= λ _. k

-- `if test: raise HTTPException(code, detail)`, with `s` the committed database.
abbrev pub refuse_if : {S : Type 0} → Bool → S → ℕ → String → Outcome S (Unit {0})
refuse_if true s code detail = deny s code detail
refuse_if false s code detail = done tt

-- The database after the request.
abbrev pub committed : {S A : Type 0} → Outcome S (S × A) → S
committed (done (s, a)) = s
committed (deny s code detail) = s

abbrev pub is_done : {S A : Type 0} → Outcome S A → Bool
is_done (done a) = true
is_done (deny s code detail) = false

pub >>=-eq-done :
    {S A B : Type 0} (m : Outcome S A) (f : A → Outcome S B) {b : B}
    → (m >>= f) ≡ done b
    → (a : A) × (m ≡ done a) × (f a ≡ done b)
>>=-eq-done (done a) f h = (a, refl, h)
>>=-eq-done (deny s code detail) f h = cc

pub done-injective : {S A : Type 0} {a b : A} → ◌≡◌ {A = Outcome S A} (done a) (done b) → a ≡ b
done-injective h = cc

pub refuse_if-done :
    {S : Type 0} (b : Bool) (s : S) (code : ℕ) (detail : String) {u : Unit {0}}
    → refuse_if b s code detail ≡ done u
    → b ≡ false
refuse_if-done true s code detail h = cc
refuse_if-done false s code detail h = refl

pub is_done-absurd :
    {S A : Type 0} (m : Outcome S A) → ((a : A) → m ≡ done a → ⊥) → is_done m ≡ false
is_done-absurd (done a) h = absurd (h a refl)
is_done-absurd (deny s code detail) h = refl

-- The detail of `ensure_exists`: `f"{entity} {entity_id} not found"`.
abbrev pub missing : String → String → String
missing entity i = String.◌++◌ entity (String.◌++◌ " " (String.◌++◌ i " not found"))
