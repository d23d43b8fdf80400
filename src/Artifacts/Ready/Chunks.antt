-- ===== src/Artifacts/Ready/Chunks.antt =====
-- The loop of `_download_artifact` over the chunks of a response: how much it reads, and the prefix.
use Prim.Native.String.{[], ◌∷◌}
use text.Mathlib.TextLemmas.{nil-append, cons-append}
use perimetr.Prelude.{
  ℕ, ◌+◌, ◌≤◌, String, ◌≡◌, ◌≢◌, refl, sym, ◌∙◌, subst, ap, Bool, true, false, ◌==◌, ◌⊎◌, inl, inr,
  arith, eq_iff, test_of_ne, ltb, if◌then◌else◌,
}
use perimetr.Prelude.Text.{text_length, truncate}
use perimetr.Pods.Credentials.{◌+++◌}
use perimetr.Artifacts.{Try, returns, error, returns-injective, Stream, finished, broken, chunk}
use perimetr.Artifacts.Download.{read_chunks}

text_length-append : (s t : String) → text_length (s +++ t) ≡ text_length s + text_length t
text_length-append [] t = rw nil-append (omega arith)
text_length-append (c ∷ s) t = rw cons-append (omega (arith, text_length-append s t))

-- The first two characters stay.
truncate-append : (s t : String) → truncate 2 s ≡ "MZ" → truncate 2 (s +++ t) ≡ "MZ"
truncate-append [] t h = absurd (omega (arith, ap text_length h))
truncate-append (c ∷ []) t h = absurd (omega (arith, ap text_length h))
truncate-append (c ∷ (d ∷ s)) t h = rw (cons-append, cons-append) h

truncate-nonempty : (s : String) → s ≢ "" → truncate 2 s ≢ ""
truncate-nonempty [] q h = q refl
truncate-nonempty (c ∷ s) q h = omega (arith, ap text_length h)

-- The prefix that was kept is that of the bytes so far, where it is the one that is asked for.
unfoldable pub Reads : ℕ → String → String → Type 0
Reads limit prefix content =
    (text_length content ≤ limit)
    × (((prefix ≡ "") × (content ≡ ""))
        ⊎ ((prefix ≢ "") × (prefix ≡ "MZ" → truncate 2 content ≡ "MZ")))

pub Reads-header :
    (limit : ℕ) (prefix content : String)
    → Reads limit prefix content
    → prefix ≡ "MZ"
    → truncate 2 content ≡ "MZ"
unfolding Reads
Reads-header limit prefix content (_, inl (p, e)) q =
    absurd (omega (arith, ap text_length (sym p ∙ q)))
Reads-header limit prefix content (_, inr (p, e)) q = e q

-- A chunk that is not empty is read.
extend-Reads :
    (limit : ℕ) (prefix content c : String)
    → c ≢ ""
    → text_length content + text_length c ≤ limit
    → Reads limit prefix content
    → Reads limit (if prefix == "" then truncate 2 c else prefix) (content +++ c)
unfolding Reads
extend-Reads limit prefix content c q le (_, inl (p, e)) = (
  rw (text_length-append content c) le,
  rw (p, e, nil-append) (inr (truncate-nonempty c q, λ h. h)),
)
extend-Reads limit prefix content c q le (_, inr (p, e)) = (
  rw (text_length-append content c) le,
  rw (test_of_ne prefix "" p) (inr (p, λ h. truncate-append content c (e h))),
)

stop-Reads :
    (limit : ℕ) (prefix content : String) {r : String × String}
    → Reads limit prefix content
    → returns (prefix, content) ≡ returns r
    → Reads limit r.0 r.1
stop-Reads limit prefix content i h = subst (λ r. Reads limit r.0 r.1) (returns-injective h) i

-- What the loop does with a chunk, where `next` is what it gives for the rest.
chunk-Reads :
    (limit : ℕ) (prefix : String) (total : ℕ) (content c : String) (next : Try (String × String))
    {r : String × String}
    → Reads limit prefix content
    → (c ≢ "" → total + text_length c ≤ limit → next ≡ returns r → Reads limit r.0 r.1)
    → (if c == ""
        then returns (prefix, content)
        else if ltb limit (total + text_length c)
        then error "Pod executable exceeds the configured size limit"
        else next)
      ≡ returns r
    → Reads limit r.0 r.1
chunk-Reads limit prefix total content c next {r} i k h =
    step (c == "") refl (ltb limit (total + text_length c)) refl h
  where
    step :
        (a : Bool)
        → (c == "") ≡ a
        → (b : Bool) → ltb limit (total + text_length c) ≡ b
        → (if a
            then returns (prefix, content)
            else if b
            then error "Pod executable exceeds the configured size limit"
            else next)
          ≡ returns r
        → Reads limit r.0 r.1
    step true e b f k' = stop-Reads limit prefix content i k'
    step false e true f k' = cc
    step false e false f k' = k (ground (arith, eq_iff c "")) (ground arith) k'

pub read_chunks-Reads :
    (limit : ℕ) (prefix : String) (total : ℕ) (content : String) (s : Stream) {r : String × String}
    → total ≡ text_length content
    → Reads limit prefix content
    → read_chunks limit prefix total content s ≡ returns r
    → Reads limit r.0 r.1
unfolding read_chunks
read_chunks-Reads limit prefix total content finished t i h = stop-Reads limit prefix content i h
read_chunks-Reads limit prefix total content (broken text) t i h = cc
read_chunks-Reads limit prefix total content (chunk c rest) t i h =
    chunk-Reads limit prefix total content c
      (read_chunks limit (if prefix == "" then truncate 2 c else prefix) (total + text_length c)
        (content +++ c) rest)
      i
      (λ q le.
        read_chunks-Reads limit (if prefix == "" then truncate 2 c else prefix)
          (total + text_length c) (content +++ c) rest (rw (text_length-append content c, t) refl)
          (extend-Reads limit prefix content c q (rw⁻¹ t le) i))
      h
