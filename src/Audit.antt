-- ===== src/Audit.antt =====
-- `audit` of app/services.py and `trim_audit_events` of app/logs_service/service.py. The table of
-- events stands in the order of the trimming query: newest first, by `created_at` and then `id`.
pub mod Retention
mod Tests
use Prim.Native.Nat.{max}
use Prim.Native.String.{compare as text_compare}
use Prim.Native.Nat.{Ordering}
use perimetr.Prelude.{
  ℕ, suc, ◌+◌, ◌-◌, ◌*◌, String, Bool, true, false, Option, none, some, List, [], ◌∷◌, ◌++◌, ◌==◌,
  ◌&&◌, ◌||◌, not, ltb, leb, nat_eq, if◌then◌else◌, any, keep,
}
use perimetr.Prelude.Text.{truncate}
use perimetr.Json.{Json}
use perimetr.Platform.{Platform}
use perimetr.Redaction.{text, bounded}
use perimetr.Settings.{Settings, Env, second}
use perimetr.Database.{AuditEvent, Database}

abbrev text_lt : String → String → Bool
text_lt s t = elim (text_compare s t) [ Ordering.lt ↦ true | _ ↦ false ]

-- `order_by(created_at.desc(), id.desc())`
newer : AuditEvent → AuditEvent → Bool
newer e f = ltb f.created_at e.created_at || (nat_eq e.created_at f.created_at && text_lt f.id e.id)

unfoldable pub insert_event : AuditEvent → List AuditEvent → List AuditEvent
unfolding newer
insert_event e [] = e ∷ []
insert_event e (f ∷ fs) = let rest = insert_event e fs in if newer e f then e ∷ f ∷ fs else f ∷ rest

abbrev pub day : ℕ
day = 86400 * second

module _ (p : Platform) (s : Settings) where
  -- `byte_length(payload) + byte_length(result) + 4096`
  unfoldable pub event_size : AuditEvent → ℕ
  event_size e = p.column_bytes e.payload + p.column_bytes e.result + 4096

  -- The identifiers that the loop over the ordered events finds stale.
  unfoldable pub stale : ℕ → ℕ → List AuditEvent → List String
  unfolding event_size
  stale count used [] = []
  stale count used (e ∷ es) =
      let rest = stale (count + 1) (used + event_size e) es in
      if ltb s.perimetr_audit_max_entries (count + 1)
        || ltb s.perimetr_audit_max_bytes (used + event_size e)
      then e.id ∷ rest
      else rest

  -- `delete(AuditEvent).where(created_at < now - timedelta(days=max(retention, 1)))`, where the
  -- cutoff is moved to the other side of the test.
  unfoldable pub drop_expired : ℕ → List AuditEvent → List AuditEvent
  drop_expired now es =
      keep (λ e. leb now (e.created_at + max s.perimetr_audit_retention_days 1 * day)) es

  -- `delete(AuditEvent).where(AuditEvent.id.in_(stale))`; the batches of 200 change nothing.
  unfoldable pub delete_events : List String → List AuditEvent → List AuditEvent
  delete_events ids es = keep (λ e. not (any (λ i. i == e.id) ids)) es

  -- `trim_audit_events`.
  unfoldable pub trim_audit_events : ℕ → List AuditEvent → List AuditEvent
  unfolding stale drop_expired delete_events
  trim_audit_events now es =
      let young = drop_expired now es in delete_events (stale 0 0 young) young

-- What a handler says of an event.
pub record Report : Type 0 where
  pub actor_type : String
  pub actor_id : String
  pub action : String
  pub target_type : String
  pub target_id : String
  pub payload : Json
  pub result : Json

-- The row, with the identifier `id`.
unfoldable pub event_of : Env → String → Report → AuditEvent
event_of env id r =
    let p = env.platform.patterns in
    record {
      id = id;
      actor_type = truncate 64 (text p r.actor_type);
      actor_id = truncate 128 (text p r.actor_id);
      action = truncate 128 (text p r.action);
      target_type = truncate 64 (text p r.target_type);
      target_id = truncate 128 (text p r.target_id);
      payload = bounded p 7000 r.payload;
      result = bounded p 7000 r.result;
      created_at = env.now;
    }

-- `audit(db, …)`: the event is flushed, and the table is trimmed in the same transaction.
unfoldable pub audited : Env → String → Report → List AuditEvent → List AuditEvent
unfolding event_of insert_event
audited env id r es =
    trim_audit_events env.platform env.settings env.now (insert_event (event_of env id r) es)

abbrev pub audit : Env → ℕ → Report → Database → Database
audit env n r db = record db { audit_events = audited env (env.fresh n) r db.audit_events }
