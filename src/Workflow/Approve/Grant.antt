-- ===== src/Workflow/Approve/Grant.antt =====
-- What `ApproveRequest` does on its way to an issued grant.
use jitsudo.Prelude.{ℕ, ◌+◌, ◌≡◌, refl, true, none, some, String, ◌∷◌}
use jitsudo.Rows.{State, pending, active, state_eq, RequestRow, AuditEventRow}
use jitsudo.Audit.{entry_row}
use jitsudo.Audit.Action
use jitsudo.Policy.{Identity, eval_approval}
use jitsudo.Providers.{Provider, Registry, get}
use jitsudo.Store.Requests.{updated_row, transition_row, keep, keep_text, timestamptz}
use jitsudo.Store.Requests.Table.{find_request}
use jitsudo.Store.Requests.Transition.{transition_moves, find-transition}
use jitsudo.Workflow.{to_duration, elevation_request, grant_update, success, event, notify}
use jitsudo.Workflow.Approve.{decided_by, check_approval, approve_request}
use jitsudo.Workflow.Quiet.Append.{audited, append_audit_quiet}
use jitsudo.Workflow.Quiet.Issue.{active_row, issued, eval_approval_quiet, issue_grant_quiet}
use jitsudo.World.{
  ok, ElevationRequest, ElevationGrant, EventType, notified, grant_called, World, Env, ◌>>=◌,
}
use jitsudo.World.Quiet.{IsQuiet}

-- What the requester asked for, as the provider gets it; a duration in nanoseconds wraps around.
abbrev pub asked_of : RequestRow → ElevationRequest
asked_of r = record {
  request_id = r.id;
  user_identity = r.requester_identity;
  provider = r.provider;
  role_name = r.role;
  resource_scope = r.resource_scope;
  duration = to_duration r.duration_seconds;
  reason = r.reason;
  metadata = none;
}

-- The row is ACTIVE with what the grant `g` brought, and the provider was called once, for it;
-- then the notification went out. The log has the two actions, the grant after the approval.
pub record IsGranted (id : String) (who : String) (action : String) (r : RequestRow)
    (g : ElevationGrant) (type : EventType) (v w : World) (row : RequestRow) : Type 0 where
  pub found : find_request id w.db.requests ≡ some row
  pub state : row.state ≡ active
  pub deadline : row.expires_at ≡ some (timestamptz g.expires_at)
  pub credentials : row.credentials_json ≡ keep g.credentials r.credentials_json
  pub decided : row.approver_identity ≡ keep_text who r.approver_identity
  pub effects :
      w.effects
      ≡ notified (event type id who row "" (some g.expires_at))
        ∷ grant_called (asked_of r)
        ∷ v.effects
  pub log :
      (issue : AuditEventRow) × (decision : AuditEventRow) × (w.db.audit_events
        ≡ issue ∷ decision ∷ v.db.audit_events)
      × (issue.action ≡ Action.grant_issued)
      × (issue.actor_identity ≡ who)
      × (decision.action ≡ action)
      × (decision.actor_identity ≡ who)

module _ (env : Env) (approver : Identity) (id comment : String) (r : RequestRow) (w : World) where
  abbrev pub approved_row : RequestRow
  approved_row =
      updated_row State.approved (decided_by approver comment) (env.now (w.calls + 1 + 1)) r

  abbrev pub approved_world : World
  approved_world = record w {
    db =
        transition_row id State.approved (decided_by approver comment) (env.now (w.calls + 1 + 1))
          w.db;
    calls = w.calls + 1 + 1 + 1 + 1 + 1 + 1;
  }

  abbrev pub evaluated_world : World
  evaluated_world = record approved_world {
    calls = (eval_approval env approver approved_row approved_world).1.calls;
  }

  abbrev decided_world : World
  decided_world =
      audited env (success approver.email Action.request_approved id approved_row "")
        evaluated_world

module _ (env : Env) (approver : Identity) (id comment : String) (g : ElevationGrant)
    (r : RequestRow) (w : World) where
  abbrev granted_row : RequestRow
  granted_row =
      active_row env g id (decided_world env approver id comment r w)
        (approved_row env approver id comment r w)

  abbrev granted_world : World
  granted_world = audited env (success approver.email Action.grant_issued id granted_row "") (
      issued env g id (decided_world env approver id comment r w)
        (approved_row env approver id comment r w) (approved_row env approver id comment r w))

  abbrev notified_world : World
  notified_world = record granted_world {
    effects =
        notified (event EventType.approved id approver.email granted_row "" (some g.expires_at))
        ∷ granted_world.effects;
  }

module _ {env : Env} (quiet : IsQuiet env) (registry : Registry) (approver : Identity)
    (id comment reason : String) (p : Provider) (g : ElevationGrant) (r : RequestRow) (w : World)
    (found : find_request id w.db.requests ≡ some r) (is_pending : r.state ≡ pending)
    (registered : get registry r.provider ≡ some p)
    (grants : (n : ℕ) → p.grant n (elevation_request r) ≡ ok g)
    (allows : (eval_approval env approver
        (approved_row env approver id comment r w)
        (approved_world env approver id comment r w)).0
      ≡ ok (true, reason)) where
  evaluated :
      eval_approval env approver
        (approved_row env approver id comment r w)
        (approved_world env approver id comment r w)
      ≡ (ok (true, reason), evaluated_world env approver id comment r w)
  evaluated = rw (← allows) (
      eval_approval_quiet quiet approver (approved_row env approver id comment r w)
        (approved_world env approver id comment r w))

  found_approved :
      find_request id (approved_world env approver id comment r w).db.requests
      ≡ some (approved_row env approver id comment r w)
  found_approved = find-transition quiet id State.approved _ _ w.db r found

  same_request : elevation_request (approved_row env approver id comment r w) ≡ elevation_request r
  unfolding elevation_request updated_row
  same_request = refl

  registered_approved : get registry (approved_row env approver id comment r w).provider ≡ some p
  unfolding updated_row
  registered_approved = registered

  is_approved : state_eq (approved_row env approver id comment r w).state State.approved ≡ true
  unfolding updated_row
  is_approved = refl

  approve_request_grants : approve_request env registry approver id comment w ≡ (
    ok (granted_row env approver id comment g r w),
    notified_world env approver id comment g r w,
  )
  unfolding approve_request check_approval notify ◌>>=◌
  approve_request_grants = rw (
    transition_moves quiet id State.pending State.approved (decided_by approver comment) w r found
        (rw is_pending),
    evaluated,
    append_audit_quiet quiet _ (evaluated_world env approver id comment r w),
    registered_approved,
    issue_grant_quiet quiet "workflow: provider grant" "workflow: active transition" p g id
        (approved_row env approver id comment r w) (approved_row env approver id comment r w)
        (decided_world env approver id comment r w) found_approved is_approved
        (rw same_request (grants _)),
    append_audit_quiet quiet _ _,
  )

  found_granted :
      find_request id (notified_world env approver id comment g r w).db.requests
      ≡ some (granted_row env approver id comment g r w)
  found_granted =
      find-transition quiet id State.active (grant_update g) _
        (decided_world env approver id comment r w).db _ found_approved

  -- With no fault and no other instance, `ApproveRequest` on a PENDING request that the approval
  -- policy allows and whose registered provider grants returns the ACTIVE row that is then stored, with the
  -- grant's deadline and credentials and the approver's name; it calls the provider exactly once,
  -- for the user, the role, the scope, the duration and the reason of the request, and notifies after that; and it adds exactly two audit rows of the
  -- approver, request.approved and then grant.issued.
  pub approve_request-IsGranted :
      let (result, w') = approve_request env registry approver id comment w in
      (row : RequestRow) × (result ≡ ok row)
      × IsGranted id approver.email Action.request_approved r g EventType.approved w w' row
  unfolding updated_row grant_update elevation_request entry_row
  approve_request-IsGranted = rw approve_request_grants (
    granted_row env approver id comment g r w,
    refl,
    record {
      found = found_granted;
      state = refl;
      deadline = refl;
      credentials = refl;
      decided = refl;
      effects = refl;
      log = (_, _, refl, refl, refl, refl, refl);
    },
  )
