-- ===== src/Workflow/Create.antt =====
-- `CreateRequest`, `createBreakGlass` and `autoApproveRequest`.
pub mod Alert
pub mod Eligibility
pub mod Route
pub mod Waiting
use jitsudo.Prelude.{
  ℕ, Bool, true, false, not, none, some, String, str_eq, str_append, if◌then◌else◌,
}
use jitsudo.Prelude.Int.{ℤ}
use jitsudo.Rows.{State, StringMap, RequestRow, RequestUpdate}
use jitsudo.Audit.Action
use jitsudo.Policy.{Identity, eval_eligibility, eval_approval_tier}
use jitsudo.Providers.{Provider, Registry, get, of_option}
use jitsudo.Store.Principals.{upsert_principal_last_seen}
use jitsudo.Store.Requests.{create_request as insert_request, transition_request}
use jitsudo.Workflow.{no_update, success, event, to_duration, notify, append_audit, issue_grant}
use jitsudo.World.{
  message_of, ElevationRequest, EventType, Env, M, pure, ask, lift, try, wrap_err, or_raise,
  raise_if, ◌>>=◌, ◌>>◌,
}

-- The message CreateRequestInput.
pub record CreateRequestInput : Type 0 where
  pub provider : String
  pub role : String
  pub resource_scope : String
  pub duration_seconds : ℤ
  pub reason : String
  pub break_glass : Bool
  pub metadata : StringMap

-- `provReq` of `CreateRequest`
unfoldable pub validation_request : Identity → CreateRequestInput → ElevationRequest
validation_request identity input = record {
  request_id = "validate";
  user_identity = identity.email;
  provider = input.provider;
  role_name = input.role;
  resource_scope = input.resource_scope;
  duration = to_duration input.duration_seconds;
  reason = input.reason;
  metadata = none;
}

-- The row of a new request, at its id, tier and time.
abbrev pub new_row : Identity → CreateRequestInput → Bool → String → String → ℕ → RequestRow
new_row identity input break_glass tier ulid now = record {
  id = str_append "req_" ulid;
  state = State.pending;
  requester_identity = identity.email;
  provider = input.provider;
  role = input.role;
  resource_scope = input.resource_scope;
  duration_seconds = input.duration_seconds;
  reason = input.reason;
  break_glass = break_glass;
  metadata = input.metadata;
  approver_tier = tier;
  approver_identity = "";
  approver_comment = "";
  expires_at = none;
  revoke_token = "";
  credentials_json = none;
  ai_reasoning_json = "";
  created_at = now;
  updated_at = now;
}

abbrev or_denied : String → String
or_denied reason = if str_eq reason "" then "policy denied the request" else reason

abbrev pub break_glass_details : String
break_glass_details = "{\"break_glass\":true}"

abbrev break_glass_update : RequestUpdate
break_glass_update = record no_update {
  approver_identity = "break-glass";
  approver_comment = "Break-glass auto-approved";
}

abbrev auto_update : RequestUpdate
auto_update = record no_update {
  approver_identity = "policy";
  approver_comment = "Auto-approved by policy (Tier 1)";
}

module _ (env : Env) where
  unfoldable pub auto_approve_request : Identity → RequestRow → Provider → M RequestRow
  auto_approve_request identity created p = do
    req ←
        wrap_err "workflow: auto-approve transition"
          (transition_request env created.id State.pending State.approved auto_update)
    append_audit env (success identity.email Action.request_auto_approved req.id req "")
    issued ←
        issue_grant env "workflow: auto-approve provider grant"
          "workflow: auto-approve active transition" p req.id req
    append_audit env (success identity.email Action.grant_issued issued.0.id issued.0 "")
    notify (event EventType.auto_approved issued.0.id identity.email issued.0 "" (some issued.1))
    pure issued.0

  -- `createBreakGlass` below the alert
  unfoldable pub break_glass_issue : Identity → Provider → String → M RequestRow
  break_glass_issue identity p id = do
    req ←
        wrap_err "workflow: break-glass approve transition"
          (transition_request env id State.pending State.approved break_glass_update)
    append_audit env (success identity.email Action.request_approved req.id req break_glass_details)
    issued ←
        issue_grant env "workflow: break-glass provider grant"
          "workflow: break-glass active transition" p req.id req
    append_audit env
        (success identity.email Action.grant_issued issued.0.id issued.0 break_glass_details)
    notify (event EventType.approved issued.0.id identity.email issued.0 "" (some issued.1))
    pure issued.0

  unfoldable pub create_break_glass : Identity → CreateRequestInput → Provider → M RequestRow
  create_break_glass identity input p = do
    now ← ask env.now
    ulid ← ask env.ulid
    let created = new_row identity input true "" ulid now
    wrap_err "workflow: break-glass create request" (insert_request env created)
    append_audit env
        (success identity.email Action.request_created created.id created break_glass_details)
    notify (event EventType.break_glass created.id identity.email created created.reason none)
    break_glass_issue identity p created.id

  -- The last part of `CreateRequest`, by the tier.
  unfoldable pub route_by_tier : Identity → RequestRow → String → Provider → M RequestRow
  route_by_tier identity req tier p =
      if str_eq tier "auto" then auto_approve_request identity req p else (do
        notify (event EventType.request_created req.id identity.email req req.reason none)
        pure req)

  -- `CreateRequest` below the branch to break-glass
  unfoldable pub create_by_policy : Identity → CreateRequestInput → Provider → M RequestRow
  create_by_policy identity input p = do
    try (upsert_principal_last_seen env identity.email)
    verdict ← wrap_err "workflow: eligibility eval" (
        eval_eligibility env identity input.provider input.role input.resource_scope
          input.duration_seconds)
    raise_if (not verdict.0) (message_of "workflow: not eligible" (or_denied verdict.1))
    tier ← wrap_err "workflow: approval tier eval" (
        eval_approval_tier env identity input.provider input.role input.resource_scope
          input.duration_seconds)
    now ← ask env.now
    ulid ← ask env.ulid
    let req = new_row identity input false tier ulid now
    wrap_err "workflow: create request" (insert_request env req)
    append_audit env (success identity.email Action.request_created req.id req "")
    route_by_tier identity req tier p

  unfoldable pub create_request : Registry → Identity → CreateRequestInput → M RequestRow
  unfolding validation_request
  create_request registry identity input = do
    p ←
        or_raise (message_of "workflow: unknown provider" input.provider)
          (get registry input.provider)
    wrap_err "workflow: validation"
        (lift (of_option (p.validate_request (validation_request identity input))))
    if input.break_glass
        then create_break_glass identity input p
        else create_by_policy identity input p
