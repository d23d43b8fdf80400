-- ===== src/Json.antt =====
-- The values of a JSON column or payload, as Python's `dict`, `list`, `str`, `int`, `float`, `bool`
-- and `None`. A float is kept as the text of its literal; the program never computes with one.
pub mod Laws
use perimetr.Prelude.{
  ℕ, suc, ◌+◌, String, Bool, true, false, Option, none, some, not, nat_eq, ◌==◌, ◌!=◌, ◌&&◌,
  if◌then◌else◌, List, [], ◌∷◌,
}

pub data Number : Type 0 where
  pos negsuc : ℕ → Number
  float : String → Number

mutual
  pub data Json : Type 0 where
    null : Json
    bool : Bool → Json
    num : Number → Json
    str : String → Json
    arr : Items → Json
    obj : Fields → Json

  pub data Items : Type 0 where
    nil : Items
    cons : Json → Items → Items

  pub data Fields : Type 0 where
    end : Fields
    field : String → Json → Fields → Fields

-- `dict.get(key)`, and `dict[key] = value`, which keeps the place of a key that is there.
unfoldable pub get_field : String → Fields → Option Json
get_field k end = none
get_field k (field j v fs) = if j == k then some v else get_field k fs

unfoldable pub set_field : String → Json → Fields → Fields
set_field k v end = field k v end
set_field k v (field j w fs) =
    let rest = set_field k v fs in if j == k then field k v fs else field j w rest

-- `dict.setdefault(key, value)`.
unfoldable pub set_default : String → Json → Fields → Fields
unfolding get_field set_field
set_default k v fs = elim (get_field k fs) [ none ↦ set_field k v fs | some w ↦ fs ]

-- `dict.pop(key, None)`.
unfoldable pub drop_field : String → Fields → Fields
drop_field k end = end
drop_field k (field j v fs) = let rest = drop_field k fs in if j == k then fs else field j v rest

-- `{**left, **right}`.
unfoldable pub merge : Fields → Fields → Fields
unfolding set_field
merge fs end = fs
merge fs (field k v gs) = merge (set_field k v fs) gs

-- `isinstance(value, str)`, and `str(value or "")` for a value that is a text or missing.
abbrev pub text_of : Option Json → String
text_of (some (str s)) = s
text_of _ = ""

-- `bool(value)`, and of `dict.get(key)`; a float is 0 where its literal is.
abbrev pub is_true : Option Json → Bool
is_true none = false
is_true (some null) = false
is_true (some (bool b)) = b
is_true (some (num (pos n))) = not (nat_eq n 0)
is_true (some (num (negsuc n))) = true
is_true (some (num (float s))) = s != "0.0" && s != "-0.0"
is_true (some (str s)) = s != ""
is_true (some (arr nil)) = false
is_true (some (arr (cons v vs))) = true
is_true (some (obj end)) = false
is_true (some (obj (field k v fs))) = true
