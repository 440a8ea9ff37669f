-- ===== src/Tests/Grants.antt =====
-- Grants, refusals and revocations at concrete worlds.
use jitsudo.Prelude.{◌≡◌, refl, false, [], ◌∷◌}
use jitsudo.Rows.{pending, active, state_eq, RequestRow}
use jitsudo.Audit.Action
use jitsudo.Policy.{decision, loaded, eval_loaded, principal_trust_tier, eval}
use jitsudo.Providers.{get}
use jitsudo.Workflow.{elevation_request}
use jitsudo.World.{ok, ElevationGrant, EventType, World, ◌>>=◌}
use jitsudo.Policy.{eval_approval}
use jitsudo.Store.Requests.Table.{find_request}
use jitsudo.Workflow.Ai.{ai_approve_request}
use jitsudo.Workflow.Ai.Grant.{ai_approve_request-IsGranted}
use jitsudo.Workflow.Approve.{approve_request}
use jitsudo.Workflow.Approve.Grant.{IsGranted, approve_request-IsGranted}
use jitsudo.Workflow.Approve.Rollback.{IsRolledBack, approve_request-IsRolledBack}
use jitsudo.Workflow.Revoke.{may_revoke, revoke_request}
use jitsudo.Workflow.Revoke.Outcome.{Outcome, revoke_request_lem}
use jitsudo.World.Stops.{IsErr}
use jitsudo.Tests.Fixtures.{
  calm, calm-IsQuiet, calm_answering, calm_answering-IsQuiet, registry, aws, aws_grant, bob, row,
  world,
}

abbrev request : RequestRow
request = row "req_1" pending

abbrev one : World
one = world (request ∷ [])

abbrev granted : ElevationGrant
granted = aws_grant "req_1"

approve_request-IsGranted_example :
    let (result, w') = approve_request calm registry bob "req_1" "ok" one in
    (r : RequestRow) × (result ≡ ok r)
    × IsGranted "req_1" bob.email Action.request_approved request granted EventType.approved one w'
        r
unfolding find_request get elevation_request eval_approval decision loaded eval_loaded
    principal_trust_tier eval ◌>>=◌
approve_request-IsGranted_example =
    approve_request-IsGranted calm-IsQuiet registry bob "req_1" "ok" "" aws granted request one refl
      refl refl (λ n. refl) refl

approve_request-IsRolledBack_example :
    let (result, w') = approve_request (calm_answering false) registry bob "req_1" "ok" one in
    IsErr result × IsRolledBack "req_1" bob.email request one w'
unfolding find_request eval_approval decision loaded eval_loaded principal_trust_tier eval ◌>>=◌
approve_request-IsRolledBack_example =
    approve_request-IsRolledBack (calm_answering-IsQuiet false) registry bob "req_1" "ok" request
      one refl refl refl

ai_approve_request-IsGranted_example :
    let (result, w') = ai_approve_request calm registry "req_1" "agent" "{}" one in
    (r : RequestRow) × (result ≡ ok r)
    × (r.approver_tier ≡ "human")
    × IsGranted "req_1" "agent" Action.request_ai_approved request granted EventType.ai_approved one
        w' r
unfolding find_request get elevation_request
ai_approve_request-IsGranted_example =
    ai_approve_request-IsGranted calm-IsQuiet registry "agent" "{}" aws granted request one refl
      refl refl (λ n. refl)

revoke_request_lem_example :
    let (result, w') = revoke_request calm registry bob "req_1" "leaving" one in
    Outcome
      (may_revoke bob request)
      (state_eq request.state active)
      "req_1"
      bob.email
      "leaving"
      request
      one
      result
      w'
unfolding find_request get
revoke_request_lem_example =
    revoke_request_lem calm-IsQuiet registry bob "req_1" "leaving" aws request one refl refl
