-- ===== src/Workflow/Quiet.antt =====
-- In a quiet environment the audit and provider calls of the engine leave the requests alone.
pub mod Append
pub mod Issue
use jitsudo.Prelude.{◌≡◌, refl, ◌∙◌, Option, none, some}
use jitsudo.Rows.{RequestRow}
use jitsudo.Audit.{Entry}
use jitsudo.Providers.{Provider, call_revoke}
use jitsudo.Workflow.AuditFrame.{append_audit-Guarantees}
use jitsudo.Workflow.{append_audit, revoke_at_provider, notify}
use jitsudo.World.{ElevationGrant, Event, Effect, notified, World, Env, emit}
use jitsudo.World.Keeps.{Guarantees, Rely, Guarantees-emit, guarantee_rules}
use jitsudo.World.Quiet.{IsQuiet}

-- The requests, and the sweep lock, are as they were.
abbrev pub SameRequests : World → World → Type 0
SameRequests v w = (w.db.requests ≡ v.db.requests) × (w.db.sweep_lock ≡ v.db.sweep_lock)

pub quiet-rely : {env : Env} → IsQuiet env → Rely env SameRequests
quiet-rely quiet = record {
  same = λ w. (refl, refl);
  after = λ u v w p q. (q.0 ∙ p.0, q.1 ∙ p.1);
  asked = λ w. (refl, refl);
  others = λ w. rw (quiet.alone w.calls w.db) (refl, refl);
}

emit-SameRequests : (e : Effect) → Guarantees SameRequests (emit e)
emit-SameRequests e = Guarantees-emit e λ w. (refl, refl)

pub notify-SameRequests : (e : Event) → Guarantees SameRequests (notify e)
unfolding notify
notify-SameRequests e = emit-SameRequests (notified e)

module _ {env : Env} (rely : Rely env SameRequests) where
  pub append_audit-SameRequests : (e : Entry) → Guarantees SameRequests (append_audit env e)
  append_audit-SameRequests = append_audit-Guarantees rely λ w n l. (refl, refl)

  call_revoke-SameRequests :
      (p : Provider) (g : ElevationGrant) → Guarantees SameRequests (call_revoke p g)
  unfolding call_revoke
  call_revoke-SameRequests p g = search (guarantee_rules, emit-SameRequests) depth 8

  pub revoke_at_provider-SameRequests :
      (p : Option Provider) (req : RequestRow)
      → Guarantees SameRequests (revoke_at_provider env p req)
  unfolding revoke_at_provider
  revoke_at_provider-SameRequests none req = search guarantee_rules
  revoke_at_provider-SameRequests (some p) req =
      search (guarantee_rules, call_revoke-SameRequests) depth 8
