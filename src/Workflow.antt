-- ===== src/Workflow.antt =====
-- internal/server/workflow/workflow.go: what the operations of the engine share.
pub mod Create
pub mod Approve
pub mod Ai
pub mod Revoke
pub mod Credentials
pub mod Sweep
pub mod AuditFrame
pub mod Effects
pub mod Duration
pub mod Quiet
use jitsudo.Prelude.{
  ℕ, Bool, true, false, Option, none, some, String, str_eq, List, [], ◌∷◌, if◌then◌else◌,
}
use jitsudo.Prelude.Int.{ℤ, mul_int64}
use jitsudo.Rows.{State, StringMap, RequestRow, RequestUpdate}
use jitsudo.Audit.{Entry, outcome_success, append}
use jitsudo.Audit.Action
use jitsudo.Providers.{Provider, call_grant, call_revoke}
use jitsudo.Store.Requests.{transition_request}
use jitsudo.World.{
  Result, ok, err, ElevationRequest, ElevationGrant, EventType, Event, Effect, notified, Env, M,
  pure, try, wrap_err, emit, ◌>>=◌, ◌>>◌,
}

-- store.RequestUpdate{}
abbrev pub no_update : RequestUpdate
no_update = record {
  approver_identity = "";
  approver_comment = "";
  expires_at = none;
  revoke_token = "";
  credentials_json = none;
  ai_reasoning_json = "";
}

-- An audit entry about a row, with the outcome "success".
abbrev pub success : String → String → String → RequestRow → String → Entry
success actor action id req details = record {
  actor_identity = actor;
  action = action;
  request_id = id;
  provider = req.provider;
  resource_scope = req.resource_scope;
  outcome = outcome_success;
  details_json = details;
}

abbrev pub event : EventType → String → String → RequestRow → String → Option ℕ → Event
event type id actor req reason expires_at = record {
  type = type;
  request_id = id;
  actor = actor;
  provider = req.provider;
  role = req.role;
  scope = req.resource_scope;
  reason = reason;
  expires_at = expires_at;
}

-- time.Duration(seconds) * time.Second
abbrev pub to_duration : ℤ → ℤ
to_duration seconds = mul_int64 seconds 1_000_000_000

-- `provReq`, as four operations build it from the row.
unfoldable pub elevation_request : RequestRow → ElevationRequest
elevation_request req = record {
  request_id = req.id;
  user_identity = req.requester_identity;
  provider = req.provider;
  role_name = req.role;
  resource_scope = req.resource_scope;
  duration = to_duration req.duration_seconds;
  reason = req.reason;
  metadata = none;
}

abbrev or_zero : Option ℕ → ℕ
or_zero none = 0
or_zero (some t) = t

-- The grant that is handed to `Revoke`; a nil deadline is the zero time.
unfoldable pub grant_of_row : RequestRow → ElevationGrant
grant_of_row req = record {
  request_id = req.id;
  credentials = none;
  issued_at = 0;
  expires_at = or_zero req.expires_at;
  revoke_token = req.revoke_token;
}

unfoldable pub grant_update : ElevationGrant → RequestUpdate
grant_update g = record no_update {
  expires_at = some g.expires_at;
  revoke_token = g.revoke_token;
  credentials_json = g.credentials;
}

-- Notify on the dispatcher: it never fails, and the notifiers run in goroutines of their own.
unfoldable pub notify : Event → M (Unit {0})
notify e = emit (notified e)

module _ (env : Env) where
  -- An audit failure is logged and dropped.
  unfoldable pub append_audit : Entry → M (Unit {0})
  append_audit entry = do try (append env entry); pure tt

  -- Credentials from the provider, then APPROVED → ACTIVE; with the deadline of the grant.
  unfoldable pub issue_grant : String → String → Provider → String → RequestRow → M (RequestRow × ℕ)
  unfolding elevation_request grant_update
  issue_grant grant_failed active_failed p id req = do
    g ← wrap_err grant_failed (call_grant p (elevation_request req))
    row ←
        wrap_err active_failed
          (transition_request env id State.approved State.active (grant_update g))
    pure (row, g.expires_at)

  -- Best-effort revocation at the provider, if it is registered.
  unfoldable pub revoke_at_provider : Option Provider → RequestRow → M (Unit {0})
  unfolding grant_of_row
  revoke_at_provider none req = pure tt
  revoke_at_provider (some p) req = do try (call_revoke p (grant_of_row req)); pure tt
