-- ===== src/Kernel/Values.antt =====
-- `_resolve`, `_replace_resolved`, `resolve_values` and the readers of one value of
-- app/kernel_register.py.
pub mod Replaced
use perimetr.Prelude.{
  ℕ, ◌*◌, String, Bool, true, false, not, Option, none, some, List, [], ◌∷◌, ◌==◌, ◌!=◌, ◌&&◌, ◌||◌,
  ltb, leb, if◌then◌else◌,
}
use perimetr.Prelude.Text.{split}
use perimetr.Json.{
  Json, Fields, Number, pos, negsuc, float, null, bool, num, str, arr, obj, end, field, get_field,
  set_field,
}
use perimetr.Pods.Config.{is_empty_text}
use perimetr.Pods.Credentials.{◌+++◌}
use perimetr.Artifacts.{
  Try, returns, error, crash, ◌>>=◌, ◌>>◌, raise_if, Reply, replied, http_error, failed,
}
use perimetr.Artifacts.Manifest.{address}
use perimetr.Kernel.{Register}

-- `key.split(".")`
abbrev pub parts : String → List String
parts key = split b'.' key

-- A step into a value that may be missing.
abbrev pub step : (Json → Option Json) → Option Json → Option Json
step f none = none
step f (some v) = f v

-- `_resolve`, at the parts of the key. A value that is `None` and one that is missing are read alike.
unfoldable pub resolve : List String → Json → Option Json
unfolding get_field
resolve [] v = some v
resolve (p ∷ ps) (obj fs) = step (resolve ps) (get_field p fs)
resolve (p ∷ ps) _ = none

-- What is done in the `dict` at `p`.
abbrev pub inside : String → Fields → (Fields → Try Fields) → Option Json → Try Fields
inside p fs f (some (obj gs)) = f gs >>= λ hs. returns (set_field p (obj hs) fs)
inside p fs f (some v) = crash "TypeError"
inside p fs f none = crash "KeyError"

-- `cursor[part]…[last] = value` of `_replace_resolved`.
unfoldable pub set_path : List String → String → Fields → Try Fields
unfolding get_field set_field
set_path [] v fs = crash "IndexError"
set_path (p ∷ []) v fs = returns (set_field p (str v) fs)
set_path (p ∷ (q ∷ qs)) v fs = inside p fs (set_path (q ∷ qs) v) (get_field p fs)

-- `_replace_resolved`: the values with those that were resolved, in their order.
unfoldable pub replace_resolved : List (String × String) → Fields → Try Fields
unfolding set_path
replace_resolved [] values = returns values
replace_resolved ((key, v) ∷ rest) values =
    set_path (parts key) v values >>= λ next. replace_resolved rest next

-- `int(value)`; `none` is a `TypeError` or `ValueError`.
abbrev pub to_int : Register → Option Json → Option Number
to_int k (some (num (float s))) = some (k.truncate s)
to_int k (some (num n)) = some n
to_int k (some (bool b)) = some (pos (if b then 1 else 0))
to_int k (some (str s)) = k.parse_int s
to_int k _ = none

-- A number in the bounds.
abbrev pub within : ℕ → ℕ → Option Number → Option ℕ
within low high (some (pos n)) = if leb low n && leb n high then some n else none
within low high _ = none

module _ (k : Register) where
  abbrev pub nonempty : String → Option Json → Try String
  nonempty key (some (str s)) =
      if k.runtime.platform.strip s == ""
      then error ("Kernel Register is missing required key " +++ key)
      else returns (k.runtime.platform.strip s)
  nonempty key _ = error ("Kernel Register is missing required key " +++ key)

  -- `_required_string`
  unfoldable pub required_string : Fields → String → Try String
  unfolding resolve split
  required_string values key = nonempty key (resolve (parts key) (obj values))

  -- `_required_url`
  unfoldable pub required_url : Fields → String → Try String
  unfolding required_string
  required_url values key = do
    value ← required_string values key
    parsed ← address k.runtime value
    raise_if (parsed.scheme != "https" || is_empty_text parsed.hostname)
        ("Kernel Register key " +++ (key +++ " must be a valid HTTPS URL"))
    returns value

  -- `_positive_int`
  unfoldable pub positive_int : Fields → String → ℕ → ℕ → ℕ → ℕ
  unfolding resolve split
  positive_int values key current minimum maximum =
      elim (within minimum maximum (to_int k (resolve (parts key) (obj values)))) [
        | some n ↦ n
        | none ↦ current
      ]

  abbrev pub port_of : String → Option Number → Try ℕ
  port_of key none = error ("Kernel Register key " +++ (key +++ " must be an integer port"))
  port_of key (some (pos n)) =
      if leb 1 n && leb n 65535
      then returns n
      else error ("Kernel Register key " +++ (key +++ " must be between 1 and 65535"))
  port_of key (some n) = error ("Kernel Register key " +++ (key +++ " must be between 1 and 65535"))

  -- `_required_port`
  unfoldable pub required_port : Fields → String → Try ℕ
  unfolding required_string
  required_port values key = required_string values key >>= λ value. port_of key (k.parse_int value)

-- `payload["values"][key]["value"]`
abbrev pub item_value : Option Json → Try Json
item_value (some (obj item)) = elim (get_field "value" item) [
  | some v ↦ returns v
  | none ↦ error "Kernel value resolution failed"
]
item_value _ = error "Kernel value resolution failed"

unfoldable pub pick : List String → Fields → Try (List (String × Json))
unfolding get_field
pick [] values = returns []
pick (key ∷ keys) values = item_value (get_field key values) >>= λ v.
    pick keys values >>= λ rest. returns ((key, v) ∷ rest)

-- The values that were picked, which are all texts.
unfoldable pub texts : List (String × Json) → Try (List (String × String))
texts [] = returns []
texts ((key, str s) ∷ items) = texts items >>= λ rest. returns ((key, s) ∷ rest)
texts ((key, _) ∷ items) = error "unsupported Kernel resolution response"

abbrev pub resolution_values : List String → Fields → Try (List (String × String))
resolution_values keys payload = elim (get_field "values" payload) [
  | some (obj values) ↦ pick keys values >>= texts
  | _ ↦ error "Kernel value resolution failed"
]

abbrev pub max_resolution_bytes : ℕ
max_resolution_bytes = 1024 * 1024

abbrev pub is_resolution : Option Json → Bool
is_resolution (some (str s)) = s == "exocortex.register.resolution.v1"
is_resolution _ = false

-- The payload of a resolution; a payload that is no object has no `get`.
abbrev pub read_resolution : List String → Json → Try (List (String × String))
read_resolution keys (obj payload) =
    raise_if (not (is_resolution (get_field "schema" payload)))
      "unsupported Kernel resolution schema"
    >> resolution_values keys payload
read_resolution keys _ = crash "AttributeError"

-- `resolve_values`, at the reply.
unfoldable pub resolve_values : List String → Reply → Try (List (String × String))
unfolding pick texts get_field
resolve_values keys (replied size body etag) =
    if ltb max_resolution_bytes size
    then error "Kernel resolution response is too large"
    else elim body [
      | none ↦ error "Kernel value resolution failed"
      | some v ↦ read_resolution keys v
    ]
resolve_values keys (http_error code t) = error "Kernel value resolution failed"
resolve_values keys (failed t) = error "Kernel value resolution failed"
