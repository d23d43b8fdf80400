-- ===== src/Audit/Retention.antt =====
-- The bounds of the audit table.
use Prim.Native.Nat.{max}
use perimetr.Prelude.{
  ℕ, ◌+◌, ◌*◌, ◌≤◌, String, ◌≡◌, refl, Bool, true, false, List, [], ◌∷◌, ◌==◌, ltb, ◌||◌,
  if◌then◌else◌, arith, any, keep, All, length, eq_iff, eq_self,
}
use perimetr.Platform.{Platform}
use perimetr.Settings.{Settings}
use perimetr.Database.{AuditEvent}
use perimetr.Audit.{event_size, stale, day, drop_expired, delete_events, trim_audit_events}

-- No event carries the identifier, and the identifiers of a table are distinct.
abbrev pub IsFresh : String → List AuditEvent → Type 0
IsFresh i [] = Unit
IsFresh i (e ∷ es) = ((i == e.id) ≡ false) × IsFresh i es

abbrev pub HasDistinctIds : List AuditEvent → Type 0
HasDistinctIds [] = Unit
HasDistinctIds (e ∷ es) = IsFresh e.id es × HasDistinctIds es

module _ (p : Platform) (s : Settings) where
  abbrev pub total_size : List AuditEvent → ℕ
  total_size [] = 0
  total_size (e ∷ es) = event_size p s e + total_size es

  -- The newest events that fit both limits, when `count` events of `used` bytes came before.
  unfoldable pub newest : ℕ → ℕ → List AuditEvent → List AuditEvent
  newest count used [] = []
  newest count used (e ∷ es) =
      let rest = newest (count + 1) (used + event_size p s e) es in
      if ltb s.perimetr_audit_max_entries (count + 1)
        || ltb s.perimetr_audit_max_bytes (used + event_size p s e)
      then []
      else e ∷ rest

  newest-bounds :
      (count used : ℕ) (es : List AuditEvent)
      → count ≤ s.perimetr_audit_max_entries
      → used ≤ s.perimetr_audit_max_bytes
      → (count + length (newest count used es) ≤ s.perimetr_audit_max_entries)
        × (used + total_size (newest count used es) ≤ s.perimetr_audit_max_bytes)
  unfolding newest
  newest-bounds count used [] h k = (omega arith, omega arith)
  newest-bounds count used (e ∷ es) h k =
      ground (arith, newest-bounds (count + 1) (used + event_size p s e) es)

  IsFresh-stale :
      (i : String) (count used : ℕ) (es : List AuditEvent)
      → IsFresh i es
      → any (λ j. j == i) (stale p s count used es) ≡ false
  unfolding stale
  IsFresh-stale i count used [] h = refl
  IsFresh-stale i count used (e ∷ es) (q, h) = ground (
    arith,
    IsFresh-stale i (count + 1) (used + event_size p s e) es h,
    eq_iff i e.id,
    eq_iff e.id i,
  )

  delete_events-fresh :
      (i : String) (ids : List String) (es : List AuditEvent)
      → IsFresh i es
      → delete_events p s (i ∷ ids) es ≡ delete_events p s ids es
  unfolding delete_events
  delete_events-fresh i ids [] h = refl
  delete_events-fresh i ids (e ∷ es) (q, h) = ground (arith, delete_events-fresh i ids es h)

  -- Past a limit, every event is stale.
  delete_all :
      (count used : ℕ) (es : List AuditEvent)
      → HasDistinctIds es
      → (ltb s.perimetr_audit_max_entries count || ltb s.perimetr_audit_max_bytes used) ≡ true
      → delete_events p s (stale p s count used es) es ≡ []
  unfolding delete_events stale
  delete_all count used [] d h = refl
  delete_all count used (e ∷ es) (f, d) h =
      let size = event_size p s e in
      ground (
        arith,
        delete_all (count + 1) (used + size) es d,
        delete_events-fresh e.id (stale p s (count + 1) (used + size) es) es f,
        eq_self e.id,
      )

  delete-eq-newest :
      (count used : ℕ) (es : List AuditEvent)
      → HasDistinctIds es
      → delete_events p s (stale p s count used es) es ≡ newest count used es
  unfolding delete_events stale newest
  delete-eq-newest count used [] d = refl
  delete-eq-newest count used (e ∷ es) (f, d) =
      let size = event_size p s e in
      ground (
        arith,
        delete-eq-newest (count + 1) (used + size) es d,
        delete_all (count + 1) (used + size) es d,
        delete_events-fresh e.id (stale p s (count + 1) (used + size) es) es f,
        IsFresh-stale e.id (count + 1) (used + size) es f,
        eq_self e.id,
      )

  IsFresh-keep :
      (q : AuditEvent → Bool) (i : String) (es : List AuditEvent)
      → IsFresh i es
      → IsFresh i (keep q es)
  IsFresh-keep q i [] h = tt
  IsFresh-keep q i (e ∷ es) (a, h) = ground (arith, IsFresh-keep q i es h)

  HasDistinctIds-keep :
      (q : AuditEvent → Bool) (es : List AuditEvent)
      → HasDistinctIds es
      → HasDistinctIds (keep q es)
  HasDistinctIds-keep q [] h = tt
  HasDistinctIds-keep q (e ∷ es) (f, h) =
      ground (arith, HasDistinctIds-keep q es h, IsFresh-keep q e.id es f)

  All-newest :
      (P : AuditEvent → Type 0) (count used : ℕ) (es : List AuditEvent)
      → All P es
      → All P (newest count used es)
  unfolding newest
  All-newest P count used [] h = tt
  All-newest P count used (e ∷ es) (q, h) =
      ground (arith, All-newest P (count + 1) (used + event_size p s e) es h)

  unexpired :
      (now : ℕ) (es : List AuditEvent)
      → All
          (λ e. now ≤ e.created_at + max s.perimetr_audit_retention_days 1 * day)
          (drop_expired p s now es)
  unfolding drop_expired
  unexpired now [] = tt
  unexpired now (e ∷ es) = ground (arith, unexpired now es)

  -- For events with distinct identifiers, newest first: trimming keeps exactly the longest run of
  -- newest unexpired events that fits both limits; so at most `perimetr_audit_max_entries` events of
  -- at most `perimetr_audit_max_bytes` bytes stay, and none that is past the retention time.
  pub trim-eq-newest :
      (now : ℕ) (es : List AuditEvent)
      → HasDistinctIds es
      → (trim_audit_events p s now es ≡ newest 0 0 (drop_expired p s now es))
        × (length (trim_audit_events p s now es) ≤ s.perimetr_audit_max_entries)
        × (total_size (trim_audit_events p s now es) ≤ s.perimetr_audit_max_bytes)
        × All
            (λ e. now ≤ e.created_at + max s.perimetr_audit_retention_days 1 * day)
            (trim_audit_events p s now es)
  unfolding trim_audit_events
  trim-eq-newest now es d =
      let young = drop_expired p s now es in
      let same = delete-eq-newest 0 0 young (unfold drop_expired in HasDistinctIds-keep _ es d) in
      let (few, small) = newest-bounds 0 0 young (omega arith) (omega arith) in
      rw same (refl, omega arith, omega arith, All-newest _ 0 0 young (unexpired now es))
