-- ===== src/Audit/Tests.antt =====
-- The trimming of a small table.
use Prim.Native.Nat.{max}
use perimetr.Prelude.{ℕ, ◌+◌, ◌*◌, ◌≤◌, String, ◌≡◌, refl, List, [], ◌∷◌, All, length}
use perimetr.Json.{null}
use perimetr.Database.{AuditEvent}
use perimetr.Audit.{day, drop_expired, trim_audit_events}
use perimetr.Audit.Retention.{newest, total_size, trim-eq-newest}
use perimetr.Samples.{platform, settings}

abbrev event : String → ℕ → AuditEvent
event i at = record {
  id = i;
  actor_type = "perimetr";
  actor_id = "core";
  action = "pod.renamed";
  target_type = "pod";
  target_id = "p";
  payload = null;
  result = null;
  created_at = at;
}

abbrev table : List AuditEvent
table = event "c" 300 ∷ event "b" 200 ∷ event "a" 100 ∷ []

-- Two entries are allowed.
trimmed : trim_audit_events platform settings 400 table ≡ event "c" 300 ∷ event "b" 200 ∷ []
unfolding trim_audit_events
trimmed = refl

trim-eq-newest_example :
    (trim_audit_events platform settings 400 table
      ≡ newest platform settings 0 0 (drop_expired platform settings 400 table))
    × (length (trim_audit_events platform settings 400 table) ≤ 2)
    × (total_size platform settings (trim_audit_events platform settings 400 table) ≤ 100000)
    × All (λ e. 400 ≤ e.created_at + max 30 1 * day) (trim_audit_events platform settings 400 table)
trim-eq-newest_example =
    trim-eq-newest platform settings 400 table ((refl, (refl, tt)), ((refl, tt), (tt, tt)))
