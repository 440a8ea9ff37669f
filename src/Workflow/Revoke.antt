-- ===== src/Workflow/Revoke.antt =====
-- `RevokeRequest`.
pub mod Outcome
use jitsudo.Prelude.{Bool, true, false, ◌||◌, not, none, String, str_eq, any, if◌then◌else◌}
use jitsudo.Rows.{State, state_eq, RequestRow, RequestUpdate}
use jitsudo.Audit.Action
use jitsudo.Policy.{Identity}
use jitsudo.Providers.{Registry, get}
use jitsudo.Store.Requests.{get_request, transition_request}
use jitsudo.Workflow.{no_update, success, event, notify, append_audit, revoke_at_provider}
use jitsudo.World.{
  Error, wrong_state, message, wrap, Result, ok, err, EventType, Env, M, pure, raise, try, wrap_err,
  raise_if, ◌>>=◌, ◌>>◌,
}

-- errors.Is(err, store.ErrWrongState)
unfoldable pub is_wrong_state : Error → Bool
is_wrong_state (wrong_state _ _) = true
is_wrong_state (wrap _ e) = is_wrong_state e
is_wrong_state _ = false

unfoldable pub may_revoke : Identity → RequestRow → Bool
may_revoke actor req =
    str_eq req.requester_identity actor.email || any (λ g. str_eq g "jitsudo-admins") actor.groups

abbrev pub is_terminal : State → Bool
is_terminal s = state_eq s State.revoked || state_eq s State.expired || state_eq s State.rejected

abbrev pub revoke_update : String → RequestUpdate
revoke_update reason = record no_update { approver_comment = reason }

module _ (env : Env) where
  unfoldable pub after_transition :
      Registry → Identity → String → String → Result RequestRow → M RequestRow
  unfolding is_wrong_state
  after_transition registry actor id reason (err e) =
      if is_wrong_state e then get_request env id else raise (wrap "workflow: revoke transition" e)
  after_transition registry actor id reason (ok req) = do
    revoke_at_provider env (get registry req.provider) req
    append_audit env (success actor.email Action.grant_revoked id req "")
    notify (event EventType.revoked id actor.email req reason none)
    pure req

  unfoldable pub revoke_request : Registry → Identity → String → String → M RequestRow
  unfolding may_revoke
  revoke_request registry actor id reason = do
    req ← wrap_err "workflow: revoke" (get_request env id)
    raise_if (not (may_revoke actor req)) (message "workflow: revoke: access denied")
    if is_terminal req.state then pure req else (do
      result ← try (transition_request env id State.active State.revoked (revoke_update reason))
      after_transition registry actor id reason result)
