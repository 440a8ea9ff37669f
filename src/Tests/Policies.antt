-- ===== src/Tests/Policies.antt =====
-- The policy engine at concrete worlds.
use jitsudo.Prelude.{◌≡◌, refl, true, false, [], ◌∷◌}
use jitsudo.Prelude.Int.{pos}
use jitsudo.Rows.{pending, RequestRow}
use jitsudo.Policy.{
  decision, loaded, eval_loaded, principal_trust_tier, eval, eval_tier_loaded, eval_tier,
  build_input, eval_approval, eval_eligibility, eval_approval_tier, tier_of_results,
}
use jitsudo.Policy.Decision.{HasAllowed, eval_approval-HasAllowed}
use jitsudo.Policy.Tier.{eval_approval_tier-is_tier}
use jitsudo.Store.Requests.{is_tier}
use jitsudo.Workflow.Create.{create_request}
use jitsudo.Workflow.Create.Eligibility.{Nothing, create_request_refused}
use jitsudo.Workflow.Create.Route.{create_request-IsWaiting}
use jitsudo.Workflow.Create.Waiting.{IsWaiting}
use jitsudo.Providers.{get}
use jitsudo.Store.Requests.Table.{find_request}
use jitsudo.Store.Principals.{upsert_principal_last_seen, get_principal}
use jitsudo.World.{db_call, World, ◌>>=◌}
use jitsudo.World.Stops.{IsErr}
use jitsudo.Tests.Engine.{refuses}
use jitsudo.Tests.Fixtures.{
  calm, calm-IsQuiet, calm_answering, aws, registry, alice, bob, input, row, world,
}

abbrev request : RequestRow
request = row "req_1" pending

abbrev one : World
one = world (request ∷ [])

eval_approval-HasAllowed_example :
    HasAllowed calm one.loaded.approval_query
      (build_input bob request.provider request.role request.resource_scope
        request.duration_seconds)
      bob.email
      one
unfolding eval_approval decision loaded eval_loaded principal_trust_tier eval ◌>>=◌
eval_approval-HasAllowed_example = eval_approval-HasAllowed calm bob request one "" refl

eval_approval_tier-is_tier_example : is_tier "human" ≡ true
unfolding eval_approval_tier eval_tier_loaded loaded eval_tier principal_trust_tier tier_of_results
    ◌>>=◌
eval_approval_tier-is_tier_example =
    eval_approval_tier-is_tier calm alice "aws" "prod-infra-admin" "123456789012" (pos 3600) one
      "human" refl

create_request_refused_example :
    let (result, w') = create_request (calm_answering false) registry alice (input false) one in
    IsErr result × Nothing one w'
create_request_refused_example =
    create_request_refused (calm_answering false) (λ n d. refl) refuses registry alice (input false)
      one refl

abbrev fresh_world : World
fresh_world = world []

create_request-IsWaiting_example :
    let (result, w') = create_request calm registry alice (input false) fresh_world in
    IsWaiting alice (input false) "human" fresh_world result w'
unfolding find_request get eval_eligibility decision loaded eval_loaded eval_approval_tier
    eval_tier_loaded eval_tier principal_trust_tier tier_of_results eval ◌>>=◌
    upsert_principal_last_seen get_principal db_call
create_request-IsWaiting_example =
    create_request-IsWaiting calm-IsQuiet alice (input false) aws "" "human" fresh_world refl refl
      refl (λ n. refl) registry refl refl refl
