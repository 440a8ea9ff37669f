-- ===== src/Audit.antt =====
-- internal/server/audit/audit.go: the audit logger.
pub mod Action
use jitsudo.Prelude.{String, str_eq, if◌then◌else◌}
use jitsudo.Rows.{AuditEventRow}
use jitsudo.Store.Audit.{append_audit_event}
use jitsudo.World.{Env, M, wrap_err, pure, ◌>>=◌, ◌>>◌}

abbrev pub outcome_success : String
outcome_success = "success"

-- audit.Entry
pub record Entry : Type 0 where
  pub actor_identity : String
  pub action : String
  pub request_id : String
  pub provider : String
  pub resource_scope : String
  pub outcome : String
  pub details_json : String

-- The row that `Append` hands to the store; the store sets the last fields.
unfoldable pub entry_row : Entry → AuditEventRow
entry_row e = record {
  id = 0;
  timestamp = 0;
  actor_identity = e.actor_identity;
  action = e.action;
  request_id = e.request_id;
  provider = e.provider;
  resource_scope = e.resource_scope;
  outcome = e.outcome;
  details_json = if str_eq e.details_json "" then "{}" else e.details_json;
  prev_hash = "";
  hash = "";
}

unfoldable pub append : Env → Entry → M (Unit {0})
unfolding entry_row
append env e = do wrap_err "audit: append" (append_audit_event env (entry_row e)); pure tt
