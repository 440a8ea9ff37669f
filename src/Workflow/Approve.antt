-- ===== src/Workflow/Approve.antt =====
-- `ApproveRequest` and `DenyRequest`.
pub mod Policy
pub mod Grant
pub mod Rollback
use jitsudo.Prelude.{Bool, none, some, String, str_eq, if◌then◌else◌}
use jitsudo.Rows.{State, RequestRow, RequestUpdate}
use jitsudo.Audit.Action
use jitsudo.Policy.{Identity, eval_approval}
use jitsudo.Providers.{Registry, get}
use jitsudo.Store.Requests.{transition_request}
use jitsudo.Workflow.{no_update, success, event, notify, append_audit, issue_grant}
use jitsudo.World.{
  Error, message_of, wrap, Result, ok, err, EventType, Env, M, pure, raise, try, wrap_err, or_raise,
  ◌>>=◌, ◌>>◌,
}

-- The update that names who decided, and the comment.
abbrev pub decided_by : Identity → String → RequestUpdate
decided_by who comment = record no_update {
  approver_identity = who.email;
  approver_comment = comment;
}

abbrev or_denied : String → String
or_denied reason = if str_eq reason "" then "approval policy denied" else reason

module _ (env : Env) where
  -- Back to PENDING, where an error is logged and dropped; then the error of the call.
  unfoldable pub rollback : String → Error → M (Unit {0})
  rollback id e = do try (transition_request env id State.approved State.pending no_update); raise e

  unfoldable pub check_approval : String → Result (Bool × String) → M (Unit {0})
  check_approval id (err e) = rollback id (wrap "workflow: approval eval" e)
  check_approval id (ok (allowed, reason)) =
      if allowed
      then pure tt
      else rollback id (message_of "workflow: approval denied" (or_denied reason))

  unfoldable pub approve_request : Registry → Identity → String → String → M RequestRow
  approve_request registry approver id comment = do
    req ←
        wrap_err "workflow: approve transition"
          (transition_request env id State.pending State.approved (decided_by approver comment))
    verdict ← try (eval_approval env approver req)
    check_approval id verdict
    append_audit env (success approver.email Action.request_approved id req "")
    p ←
        or_raise (message_of "workflow: provider not registered" req.provider)
          (get registry req.provider)
    issued ← issue_grant env "workflow: provider grant" "workflow: active transition" p id req
    append_audit env (success approver.email Action.grant_issued id issued.0 "")
    notify (event EventType.approved id approver.email issued.0 "" (some issued.1))
    pure issued.0

  unfoldable pub deny_request : Identity → String → String → M RequestRow
  deny_request denier id reason = do
    req ←
        wrap_err "workflow: deny transition"
          (transition_request env id State.pending State.rejected (decided_by denier reason))
    append_audit env (success denier.email Action.request_denied id req "")
    notify (event EventType.denied id denier.email req reason none)
    pure req
