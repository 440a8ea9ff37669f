-- ===== src/Workflow/Ai/Grant.antt =====
-- What `AIApproveRequest` does on its way to an issued grant.
use jitsudo.Prelude.{ℕ, ◌+◌, ◌≡◌, refl, true, some, String, ◌∷◌}
use jitsudo.Rows.{State, pending, state_eq, RequestRow}
use jitsudo.Audit.{entry_row}
use jitsudo.Audit.Action
use jitsudo.Providers.{Provider, Registry, get}
use jitsudo.Store.Requests.{updated_row, transition_row}
use jitsudo.Store.Requests.Table.{find_request}
use jitsudo.Store.Requests.Transition.{transition_moves, find-transition}
use jitsudo.Workflow.{elevation_request, grant_update, issue_grant, success, event, notify}
use jitsudo.Workflow.Ai.{ai_update, ai_approve_request}
use jitsudo.Workflow.Approve.Grant.{IsGranted}
use jitsudo.Workflow.Quiet.Append.{audited, append_audit_quiet}
use jitsudo.Workflow.Quiet.Issue.{active_row, issued, issue_grant_quiet}
use jitsudo.World.{ok, ElevationGrant, EventType, notified, World, Env, ◌>>=◌}
use jitsudo.World.Quiet.{IsQuiet}

module _ (env : Env) (agent reasoning : String) (r : RequestRow) (w : World) where
  abbrev approved_row : RequestRow
  approved_row =
      updated_row State.approved (ai_update agent "Approved by AI agent (Tier 2)" reasoning)
        (env.now (w.calls + 1 + 1)) r

  abbrev approved_world : World
  approved_world = record w {
    db =
        transition_row r.id State.approved
          (ai_update agent "Approved by AI agent (Tier 2)" reasoning) (env.now (w.calls + 1 + 1))
          w.db;
    calls = w.calls + 1 + 1 + 1 + 1 + 1 + 1;
  }

  abbrev decided_world : World
  decided_world =
      audited env (success agent Action.request_ai_approved r.id approved_row reasoning)
        approved_world

  module _ (g : ElevationGrant) where
    abbrev granted_row : RequestRow
    granted_row = active_row env g r.id decided_world approved_row

    abbrev granted_world : World
    granted_world =
        audited env (success agent Action.grant_issued r.id granted_row "")
          (issued env g r.id decided_world approved_row approved_row)

    abbrev notified_world : World
    notified_world = record granted_world {
      effects =
          notified (event EventType.ai_approved r.id agent granted_row "" (some g.expires_at))
          ∷ granted_world.effects;
    }

module _ {env : Env} (quiet : IsQuiet env) (registry : Registry) (agent reasoning : String)
    (p : Provider) (g : ElevationGrant) (r : RequestRow) (w : World)
    (found : find_request r.id w.db.requests ≡ some r) (is_pending : r.state ≡ pending)
    (registered : get registry r.provider ≡ some p)
    (grants : (n : ℕ) → p.grant n (elevation_request r) ≡ ok g) where
  found_approved :
      find_request r.id (approved_world env agent reasoning r w).db.requests
      ≡ some (approved_row env agent reasoning r w)
  found_approved = find-transition quiet r.id State.approved _ _ w.db r found

  same_request : elevation_request (approved_row env agent reasoning r w) ≡ elevation_request r
  unfolding elevation_request updated_row
  same_request = refl

  registered_approved : get registry (approved_row env agent reasoning r w).provider ≡ some p
  unfolding updated_row
  registered_approved = registered

  is_approved : state_eq (approved_row env agent reasoning r w).state State.approved ≡ true
  unfolding updated_row
  is_approved = refl

  same_id : (approved_row env agent reasoning r w).id ≡ r.id
  unfolding updated_row
  same_id = refl

  issue_approved :
      issue_grant env "workflow: AI approve provider grant" "workflow: AI approve active transition"
        p
        (approved_row env agent reasoning r w).id
        (approved_row env agent reasoning r w)
        (decided_world env agent reasoning r w)
      ≡ (
        ok (granted_row env agent reasoning r w g, g.expires_at),
        issued env g r.id
            (decided_world env agent reasoning r w)
            (approved_row env agent reasoning r w)
            (approved_row env agent reasoning r w),
      )
  unfolding updated_row
  issue_approved =
      issue_grant_quiet quiet "workflow: AI approve provider grant"
        "workflow: AI approve active transition" p g r.id (approved_row env agent reasoning r w)
        (approved_row env agent reasoning r w) (decided_world env agent reasoning r w)
        found_approved is_approved (rw same_request (grants _))

  ai_approve_request_grants :
      ai_approve_request env registry r.id agent reasoning w
      ≡ (ok (granted_row env agent reasoning r w g), notified_world env agent reasoning r w g)
  unfolding ai_approve_request notify ◌>>=◌
  ai_approve_request_grants =
      rw
        (
          transition_moves quiet r.id State.pending State.approved
              (ai_update agent "Approved by AI agent (Tier 2)" reasoning) w r found (rw is_pending),
          append_audit_quiet quiet _ (approved_world env agent reasoning r w),
          registered_approved,
          issue_approved,
          append_audit_quiet quiet _ _,
        )
        (unfold updated_row in refl)

  found_granted :
      find_request r.id (notified_world env agent reasoning r w g).db.requests
      ≡ some (granted_row env agent reasoning r w g)
  found_granted =
      find-transition quiet r.id State.active (grant_update g) _
        (decided_world env agent reasoning r w).db _ found_approved

  -- With no fault and no other instance, `AIApproveRequest` on a PENDING request whose registered provider grants
  -- returns the ACTIVE row that is then stored, whatever the tier that the request was routed to: no
  -- policy is asked. It calls the provider exactly once and notifies after that, and it adds exactly two
  -- audit rows of the agent, request.ai_approved and then grant.issued.
  pub ai_approve_request-IsGranted :
      let (result, w') = ai_approve_request env registry r.id agent reasoning w in
      (row : RequestRow) × (result ≡ ok row)
      × (row.approver_tier ≡ r.approver_tier)
      × IsGranted r.id agent Action.request_ai_approved r g EventType.ai_approved w w' row
  unfolding updated_row grant_update elevation_request entry_row
  ai_approve_request-IsGranted = rw ai_approve_request_grants (
    granted_row env agent reasoning r w g,
    refl,
    refl,
    record {
      found = found_granted;
      state = refl;
      deadline = refl;
      credentials = refl;
      decided = refl;
      effects = refl;
      log = (_, _, refl, refl, refl, refl, refl);
    },
  )
