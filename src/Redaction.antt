-- ===== src/Redaction.antt =====
-- app/redaction.py: `text`, `redact` and `bounded`, through which every audit event passes. The
-- regular expressions are parameters of `Platform`; what is done with their matches is modelled.
pub mod Clean
mod Tests
use Prim.Native.String
use perimetr.Prelude.{
  ℕ, zero, suc, ◌+◌, String, Bool, true, false, Option, none, some, ◌==◌, ◌||◌, leb, ltb,
  if◌then◌else◌, or_else,
}
use perimetr.Prelude.Text.{truncate}
use perimetr.Json.{
  Json, Items, Fields, null, bool, num, str, arr, obj, nil, cons, end, field, set_field,
}

-- `urlsplit(match.group())`. The outer `none` of `port` is the `ValueError` of `.port`, the inner one a
-- port that is missing or 0.
pub record SplitUrl : Type 0 where
  pub scheme : String
  pub hostname : Option String
  pub host_has_colon : Bool
  pub port : Option (Option String)
  pub path : String
  pub has_query : Bool

pub record Patterns : Type 0 where
  -- `URL.sub(url, value)`, the removal of private key blocks, `INLINE.sub("[REDACTED]", value)`
  pub sub_urls : (String → String) → String → String
  pub sub_keys : String → String
  pub sub_inline : String → String
  -- `PRIVATE.search(key)` finds a match
  pub is_private : String → Bool
  -- `urlsplit`; `none` is its `ValueError`
  pub urlsplit : String → Option SplitUrl
  -- `urlunsplit((scheme, host, path, query, ""))`
  pub urlunsplit : String → String → String → String → String
  -- `len(json.dumps(value, ensure_ascii=True).encode())`
  pub json_bytes : Json → ℕ

-- The value that takes the place of an event that is too large.
abbrev pub size_notice : Json
size_notice = obj (field "truncated" (bool true) (field "reason" (str "event_size_limit") end))

module _ (p : Patterns) where
  split_host : SplitUrl → Option String → String
  split_host u found =
      let host = or_else u.hostname "" in
      let bracketed = if u.host_has_colon then String.◌++◌ "[" (String.◌++◌ host "]") else host in
      elim found [ none ↦ bracketed | some port ↦ String.◌++◌ bracketed (String.◌++◌ ":" port) ]

  -- The replacement of one URL.
  unfoldable pub redact_url : String → String
  unfolding split_host
  redact_url match = elim (p.urlsplit match) [
    | none ↦ "[REDACTED URL]"
    | some u ↦
        if u.scheme == "http" || u.scheme == "https"
        then elim u.port [
          | none ↦ "[REDACTED URL]"
          | some found ↦
              p.urlunsplit u.scheme (split_host u found) u.path
                (if u.has_query then "[REDACTED]" else "")
        ]
        else String.◌++◌ u.scheme "://[REDACTED]"
  ]

  -- `text(value)`.
  unfoldable pub text : String → String
  text value = truncate 4096 (p.sub_inline (p.sub_keys (p.sub_urls redact_url value)))

  unfoldable mutual
    -- `redact(value, depth)`.
    pub redact : ℕ → Json → Json
    redact depth (obj fs) =
        if ltb 8 depth then str "[DEPTH LIMIT]" else obj (redact_fields 128 (depth + 1) end fs)
    redact depth (arr xs) =
        if ltb 8 depth then str "[DEPTH LIMIT]" else arr (redact_items 128 (depth + 1) xs)
    redact depth (str s) = if ltb 8 depth then str "[DEPTH LIMIT]" else str (text s)
    redact depth null = if ltb 8 depth then str "[DEPTH LIMIT]" else null
    redact depth (bool b) = if ltb 8 depth then str "[DEPTH LIMIT]" else bool b
    redact depth (num n) = if ltb 8 depth then str "[DEPTH LIMIT]" else num n

    -- The first entries of a dict, into the dict that the comprehension builds.
    pub redact_fields : ℕ → ℕ → Fields → Fields → Fields
    redact_fields room depth done end = done
    redact_fields room depth done (field k v fs) = elim room [
      | zero ↦ done
      | suc n ↦
          redact_fields n depth
            (set_field (truncate 128 k)
              (if p.is_private k then str "[REDACTED]" else redact depth v) done)
            fs
    ]

    pub redact_items : ℕ → ℕ → Items → Items
    redact_items room depth nil = nil
    redact_items room depth (cons x xs) = elim room [
      | zero ↦ nil
      | suc n ↦ cons (redact depth x) (redact_items n depth xs)
    ]

  -- `bounded(value, limit)`.
  unfoldable pub bounded : ℕ → Json → Json
  bounded limit value =
      let result = redact 0 value in if leb (p.json_bytes result) limit then result else size_notice
