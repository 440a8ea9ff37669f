-- ===== src/Workflow/Ai.antt =====
-- `AIApproveRequest`, `AIDenyRequest` and `AIEscalateRequest`.
pub mod Grant
use jitsudo.Prelude.{none, some, String}
use jitsudo.Rows.{State, RequestRow, RequestUpdate}
use jitsudo.Audit.Action
use jitsudo.Providers.{Registry, get}
use jitsudo.Store.Requests.{get_request, set_approver_tier, transition_request}
use jitsudo.Workflow.{no_update, success, event, notify, append_audit, issue_grant}
use jitsudo.World.{message_of, EventType, Env, M, pure, wrap_err, or_raise, ◌>>=◌, ◌>>◌}

abbrev pub ai_update : String → String → String → RequestUpdate
ai_update agent comment reasoning = record no_update {
  approver_identity = agent;
  approver_comment = comment;
  ai_reasoning_json = reasoning;
}

module _ (env : Env) where
  unfoldable pub ai_approve_request : Registry → String → String → String → M RequestRow
  ai_approve_request registry id agent reasoning = do
    req ← wrap_err "workflow: AI approve transition" (
        transition_request env id State.pending State.approved
          (ai_update agent "Approved by AI agent (Tier 2)" reasoning))
    append_audit env (success agent Action.request_ai_approved id req reasoning)
    p ←
        or_raise (message_of "workflow: AI approve: unknown provider" req.provider)
          (get registry req.provider)
    issued ←
        issue_grant env "workflow: AI approve provider grant"
          "workflow: AI approve active transition" p req.id req
    append_audit env (success agent Action.grant_issued issued.0.id issued.0 "")
    notify (event EventType.ai_approved id agent issued.0 "" (some issued.1))
    pure issued.0

  unfoldable pub ai_deny_request : String → String → String → M RequestRow
  ai_deny_request id agent reasoning = do
    req ← wrap_err "workflow: AI deny transition" (
        transition_request env id State.pending State.rejected
          (ai_update agent "Denied by AI agent (Tier 2)" reasoning))
    append_audit env (success agent Action.request_ai_denied id req reasoning)
    notify (event EventType.ai_denied id agent req reasoning none)
    pure req

  unfoldable pub ai_escalate_request : String → String → String → M RequestRow
  ai_escalate_request id agent reasoning = do
    wrap_err "workflow: AI escalate set tier" (set_approver_tier env id "human")
    req ← wrap_err "workflow: AI escalate get request" (get_request env id)
    append_audit env (success agent Action.request_ai_escalated id req reasoning)
    notify (event EventType.ai_escalated id agent req reasoning none)
    pure req
