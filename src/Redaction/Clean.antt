-- ===== src/Redaction/Clean.antt =====
-- What is left after redaction.
use perimetr.Prelude.{
  ℕ, zero, suc, ◌+◌, ◌≤◌, String, ◌≡◌, refl, true, ◌==◌, ltb, if◌then◌else◌, inl, inr, ◌⊎◌,
  Bool-cases, arith,
}
use perimetr.Prelude.Text.{text_length, truncate, text_length-truncate}
use perimetr.Json.{
  Json, Items, Fields, null, bool, num, str, arr, obj, nil, cons, end, field, set_field,
}
use perimetr.Redaction.{Patterns, text, redact_url, redact, redact_fields, redact_items}

unfoldable pub count_fields : Fields → ℕ
count_fields end = 0
count_fields (field k v fs) = suc (count_fields fs)

unfoldable pub count_items : Items → ℕ
count_items nil = 0
count_items (cons x xs) = suc (count_items xs)

module _ (p : Patterns) where
  -- A text that may stand in a redacted value: one of the two marks, or what is left of a text when its
  -- URLs are replaced, then its private key blocks, then its inline secrets, and it is cut.
  unfoldable pub IsScrubbed : String → Type 0
  IsScrubbed s =
      (s ≡ "[REDACTED]")
      ⊎ ((s ≡ "[DEPTH LIMIT]")
          ⊎ ((t : String) × (s
                ≡ truncate 4096 (p.sub_inline (p.sub_keys (p.sub_urls (redact_url p) t))))))

  unfoldable mutual
    -- No private key has a value but the mark, every text is scrubbed and has at most 4096 characters,
    -- and no dict or list has more than 128 entries, at any depth.
    pub IsClean : Json → Type 0
    IsClean null = Unit
    IsClean (bool b) = Unit
    IsClean (num n) = Unit
    IsClean (str s) = IsScrubbed s × (text_length s ≤ 4096)
    IsClean (arr xs) = (count_items xs ≤ 128) × AreCleanItems xs
    IsClean (obj fs) = (count_fields fs ≤ 128) × AreCleanFields fs

    pub AreCleanItems : Items → Type 0
    AreCleanItems nil = Unit
    AreCleanItems (cons x xs) = IsClean x × AreCleanItems xs

    pub AreCleanFields : Fields → Type 0
    AreCleanFields end = Unit
    AreCleanFields (field k v fs) =
        (p.is_private k ≡ true → v ≡ str "[REDACTED]") × IsClean v × AreCleanFields fs

  set_field-AreCleanFields :
      (k : String) (v : Json) (fs : Fields)
      → (p.is_private k ≡ true → v ≡ str "[REDACTED]")
      → IsClean v
      → AreCleanFields fs
      → AreCleanFields (set_field k v fs)
  unfolding IsClean AreCleanFields AreCleanItems set_field
  set_field-AreCleanFields k v end priv c h = (priv, c, tt)
  set_field-AreCleanFields k v (field j w fs) priv c (a, b, h) = elim (Bool-cases (j == k)) [
    | inl e ↦ rw e (priv, c, h)
    | inr e ↦ rw e (a, b, set_field-AreCleanFields k v fs priv c h)
  ]

  count_fields-set_field :
      (k : String) (v : Json) (fs : Fields) → count_fields (set_field k v fs) ≤ count_fields fs + 1
  unfolding count_fields set_field
  count_fields-set_field k v end = omega arith
  count_fields-set_field k v (field j w fs) = ground (arith, count_fields-set_field k v fs)

  IsClean-text : (s : String) → IsScrubbed (text p s) × (text_length (text p s) ≤ 4096)
  unfolding text IsScrubbed
  IsClean-text s = (inr (inr (s, refl)), text_length-truncate 4096 _)

  redacted-IsClean : IsClean (str "[REDACTED]")
  unfolding IsClean IsScrubbed
  redacted-IsClean = (inl refl, omega arith)

  depth_limit-IsClean : IsClean (str "[DEPTH LIMIT]")
  unfolding IsClean IsScrubbed
  depth_limit-IsClean = (inr (inl refl), omega arith)

module _ (p : Patterns)
    (of_prefix : (s : String) → p.is_private (truncate 128 s) ≡ true → p.is_private s ≡ true) where
  private_mark :
      (k : String) (v : Json)
      → p.is_private (truncate 128 k) ≡ true
      → (if p.is_private k then str "[REDACTED]" else v) ≡ str "[REDACTED]"
  private_mark k v h = rw (of_prefix k h)

  private-IsClean :
      (k : String) (v : Json)
      → IsClean p v
      → IsClean p (if p.is_private k then str "[REDACTED]" else v)
  private-IsClean k v h = elim (Bool-cases (p.is_private k)) [
    | inl e ↦ rw e (redacted-IsClean p)
    | inr e ↦ rw e h
  ]

  limit-IsClean :
      (d : ℕ) (v : Json) → IsClean p v → IsClean p (if ltb 8 d then str "[DEPTH LIMIT]" else v)
  limit-IsClean d v h = elim (Bool-cases (ltb 8 d)) [
    | inl e ↦ rw e (depth_limit-IsClean p)
    | inr e ↦ rw e h
  ]

  mutual
    unfolding redact redact_fields redact_items IsClean AreCleanFields AreCleanItems count_items
        count_fields

    redact-IsClean_at : (d : ℕ) (v : Json) → IsClean p (redact p d v)
    redact-IsClean_at d (obj fs) =
        limit-IsClean d (obj (redact_fields p 128 (d + 1) end fs))
          (redact_fields-clean 128 (d + 1) end fs (omega arith) tt)
    redact-IsClean_at d (arr xs) =
        limit-IsClean d (arr (redact_items p 128 (d + 1) xs)) (redact_items-clean 128 (d + 1) xs)
    redact-IsClean_at d (str s) = limit-IsClean d (str (text p s)) (IsClean-text p s)
    redact-IsClean_at d null = limit-IsClean d null tt
    redact-IsClean_at d (bool b) = limit-IsClean d (bool b) tt
    redact-IsClean_at d (num n) = limit-IsClean d (num n) tt

    redact_fields-clean :
        (room d : ℕ) (before fs : Fields)
        → count_fields before + room ≤ 128
        → AreCleanFields p before
        → (count_fields (redact_fields p room d before fs) ≤ 128)
          × AreCleanFields p (redact_fields p room d before fs)
    redact_fields-clean room d before end n h = (omega arith, h)
    redact_fields-clean zero d before (field k v fs) n h = (omega arith, h)
    redact_fields-clean (suc room) d before (field k v fs) n h =
        let v' : Json = if p.is_private k then str "[REDACTED]" else redact p d v in
        redact_fields-clean room d (set_field (truncate 128 k) v' before) fs
          (omega (arith, count_fields-set_field p (truncate 128 k) v' before))
          (set_field-AreCleanFields p (truncate 128 k) v' before (private_mark k (redact p d v))
            (private-IsClean k (redact p d v) (redact-IsClean_at d v)) h)

    redact_items-clean :
        (room d : ℕ) (xs : Items)
        → (count_items (redact_items p room d xs) ≤ room)
          × AreCleanItems p (redact_items p room d xs)
    redact_items-clean room d nil = (omega arith, tt)
    redact_items-clean zero d (cons x xs) = (omega arith, tt)
    redact_items-clean (suc room) d (cons x xs) =
        let (n, h) = redact_items-clean room d xs in (omega arith, (redact-IsClean_at d x, h))
