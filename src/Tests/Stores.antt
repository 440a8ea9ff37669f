-- ===== src/Tests/Stores.antt =====
-- The stores and the audit log at concrete tables.
use jitsudo.Prelude.{
  ◌+◌, ◌*◌, ◌^◌, ◌==◌, ◌||◌, inl, inr, Bool-cases, ◌≡◌, refl, ◌⊎◌, true, none, some, String, str_eq,
  List, [], ◌∷◌, map, arith, if◌then◌else◌,
}
use Prim.Native.String.{count}
use jitsudo.Prelude.Int.{pos}
use jitsudo.Rows.{pending, AuditEventRow, approval, PolicyRow, RequestRow}
use jitsudo.Lifecycle.{IsChain}
use jitsudo.Lifecycle.Tamper.{SameRows, HasClash, tamper_evident, disguised, disguised-IsChain}
use jitsudo.Store.Audit.{last_hash, canonical, compute_hash, append_audit_event}
use jitsudo.Store.Audit.Append.{IsAllOrNothing, append_audit_event-IsAllOrNothing}
use jitsudo.Store.Principals.{upsert_principal_last_seen, set_principal_trust_tier}
use jitsudo.Store.Principals.Range.{KeepsRange, principals-KeepsRange}
use jitsudo.Workflow.{elevation_request}
use jitsudo.Workflow.Duration.{elevation_request-duration}
use jitsudo.World.{serialization, Env, World}
use jitsudo.World.Keeps.{Guarantees, Rely}
use jitsudo.Tests.Fixtures.{calm, row, world}

abbrev created : AuditEventRow
created = record {
  id = 1;
  timestamp = 1_700_000_000_000_000_000;
  actor_identity = "alice@example.com";
  action = "request.created";
  request_id = "req_1";
  provider = "aws";
  resource_scope = "123456789012";
  outcome = "success";
  details_json = "{}";
  prev_hash = "";
  hash = "";
}

-- The database aborts the first two attempts.
abbrev busy : Env
busy = record calm { db_fault = λ n. if n == 1 || n == 7 then some serialization else none }

abbrev empty : World
empty = world []

append_audit_event-IsAllOrNothing_example :
    let (r, w') = append_audit_event busy created empty in
    IsAllOrNothing busy.sha256_hex created empty.db r w'.db
append_audit_event-IsAllOrNothing_example =
    append_audit_event-IsAllOrNothing busy (λ n d. refl) created empty

-- A hash of 64 digits that tells apart the empty text alone.
abbrev digest : String → String
digest s =
    if str_eq s ""
    then "0000000000000000000000000000000000000000000000000000000000000000"
    else "1111111111111111111111111111111111111111111111111111111111111111"

digest-count : (s : String) → count (digest s) ≡ 64
digest-count s = elim (Bool-cases (str_eq s "")) [ inl e ↦ rw e | inr e ↦ rw e ]

abbrev sealed : AuditEventRow
sealed = record created {
  hash = "1111111111111111111111111111111111111111111111111111111111111111";
}

abbrev log : List AuditEventRow
log = sealed ∷ []

log-IsChain : IsChain digest 2 log
unfolding compute_hash canonical
log-IsChain = (omega arith, refl, refl, tt)

abbrev elsewhere : AuditEventRow → AuditEventRow
elsewhere e = record e { provider = "gcp"; details_json = "{}" }

disguised-IsChain_example :
    IsChain digest 2 (map (disguised elsewhere) log)
    × (last_hash (map (disguised elsewhere) log) ≡ last_hash log)
disguised-IsChain_example = disguised-IsChain digest elsewhere 2 log log-IsChain

-- The same log with another provider: every covered field is the same.
tamper_evident_example :
    SameRows log (map (disguised elsewhere) log)
    ⊎ HasClash digest log (map (disguised elsewhere) log)
tamper_evident_example =
    tamper_evident digest digest-count 2 2 log (map (disguised elsewhere) log) log-IsChain
      (disguised-IsChain digest elsewhere 2 log log-IsChain).0 refl refl

abbrev policy : String → String → PolicyRow
policy id name = record {
  id = id;
  name = name;
  type = approval;
  rego = "package jitsudo.approval";
  description = "";
  enabled = true;
  created_at = 1_600_000_000_000_000_000;
  updated_at = 1_600_000_000_000_000_000;
  updated_by = "";
}

calm-KeepsRange : Rely calm KeepsRange
calm-KeepsRange = record {
  same = λ w h. h;
  after = λ u v w p q h. q (p h);
  asked = λ w h. h;
  others = λ w h. h;
}

principals-KeepsRange_example :
    Guarantees KeepsRange (upsert_principal_last_seen calm "agent")
    × Guarantees KeepsRange (set_principal_trust_tier calm "agent" (pos 7) "bob@example.com")
principals-KeepsRange_example =
    principals-KeepsRange calm-KeepsRange "agent" (pos 7) "bob@example.com"

abbrev request : RequestRow
request = row "req_1" pending

elevation_request-duration_example :
    ((elevation_request (record request { duration_seconds = pos 3600 })).duration
      ≡ pos (3600 * 1_000_000_000))
    × ((elevation_request (record request { duration_seconds = pos (3600 + 2 ^ 55) })).duration
        ≡ pos (3600 * 1_000_000_000))
elevation_request-duration_example = elevation_request-duration request 3600 (omega arith)
