-- ===== src/Pods/Names.antt =====
-- `pod_executable_name` of app/pod_service.py. A space of `\s` is a parameter of the platform.
use Prim.Native.Char.{Char, code}
use Prim.Native.String.{String, [], ◌∷◌}
use perimetr.Prelude.{ℕ, Bool, false, ◌==◌, ◌&&◌, ◌||◌, ltb, nat_eq, if◌then◌else◌}
use perimetr.Prelude.Text.{truncate}
use perimetr.Platform.{Platform}
use perimetr.Pods.Credentials.{◌+++◌}

-- `[<>:"/\\|?*\x00-\x1f]`
abbrev pub is_forbidden : ℕ → Bool
is_forbidden c =
    nat_eq c 60
    || nat_eq c 62
    || nat_eq c 58
    || nat_eq c 34
    || nat_eq c 47
    || nat_eq c 92
    || nat_eq c 124
    || nat_eq c 63
    || nat_eq c 42
    || ltb c 32

-- `re.sub("[…]+", mark, text)`: every longest run of the class becomes one mark. `inside` says that
-- the previous character was in the run.
unfoldable pub sub_runs : (ℕ → Bool) → Char → Bool → String → String
sub_runs p mark inside [] = []
sub_runs p mark inside (c ∷ s) =
    let rest = sub_runs p mark (p (code c)) s in
    if p (code c) then (if inside then rest else mark ∷ rest) else c ∷ rest

-- `text.strip(" .")`
abbrev pub is_space_or_dot : ℕ → Bool
is_space_or_dot c = nat_eq c 32 || nat_eq c 46

unfoldable pub strip_left : String → String
strip_left [] = []
strip_left (c ∷ s) = let rest = strip_left s in if is_space_or_dot (code c) then rest else c ∷ s

unfoldable pub strip_right : String → String
strip_right [] = []
strip_right (c ∷ s) =
    let rest = strip_right s in if is_space_or_dot (code c) && rest == "" then [] else c ∷ rest

abbrev pub strip_dots : String → String
strip_dots s = strip_right (strip_left s)

-- `COM1` to `COM9` and `LPT1` to `LPT9`, and the four names without a number.
abbrev pub is_reserved : String → Bool
is_reserved s =
    s == "CON"
    || s == "PRN"
    || s == "AUX"
    || s == "NUL"
    || s == "COM1"
    || s == "COM2"
    || s == "COM3"
    || s == "COM4"
    || s == "COM5"
    || s == "COM6"
    || s == "COM7"
    || s == "COM8"
    || s == "COM9"
    || s == "LPT1"
    || s == "LPT2"
    || s == "LPT3"
    || s == "LPT4"
    || s == "LPT5"
    || s == "LPT6"
    || s == "LPT7"
    || s == "LPT8"
    || s == "LPT9"

module _ (p : Platform) where
  unfoldable pub executable_stem : String → String
  unfolding sub_runs strip_left strip_right
  executable_stem login =
      let first = strip_dots (sub_runs is_forbidden "-" false (p.strip login)) in
      let second = strip_dots (truncate 80 (sub_runs p.is_space " " false first)) in
      let candidate = if second == "" then "pod" else second in
      if is_reserved (p.upper candidate) then "pod-" +++ candidate else candidate

  unfoldable pub pod_executable_name : String → String
  unfolding executable_stem
  pod_executable_name login = executable_stem login +++ ".exe"
