-- ===== src/Tests/Api.antt =====
-- Calls of the service at concrete worlds.
use jitsudo.Prelude.{◌≡◌, refl, ◌⊎◌, true, some, [], ◌∷◌}
use jitsudo.Prelude.Int.{pos}
use jitsudo.Rows.{pending}
use jitsudo.Policy.{reload, eval_raw, eval_raw_loaded, eval, decision, loaded}
use jitsudo.Policy.Program.{AreCompiled, enabled, with_row}
use jitsudo.Policy.Reload.{IsReloaded, reload-IsReloaded}
use jitsudo.Api.{is_admin, policy_row, serve, handle, authenticated, fail_as}
use jitsudo.Api.Messages.{ApplyPolicyInput, Rpc, Response}
use jitsudo.Api.Wire.{ProtoPolicyType, proto_policy_type_to_store}
use jitsudo.Api.Access.{serve_refused}
use jitsudo.Api.Policies.{SamePolicies, apply_policy-AreCompiled}
use jitsudo.World.{World, ok, err, status, invalid_argument, message, ◌>>=◌}
use jitsudo.World.Stops.{IsErr}
use jitsudo.Tests.Fixtures.{calm, calm-IsQuiet, registry, alice, row, world}

abbrev one : World
one = world (row "req_1" pending ∷ [])

reload-IsReloaded_example : let (result, w') = reload calm one in IsReloaded calm one result w'
reload-IsReloaded_example = reload-IsReloaded calm-IsQuiet one

serve_refused_example :
    IsErr (serve calm registry [] (some alice) (Rpc.set_principal_trust_tier "agent" (pos 4)) one).0
    × ((serve calm registry [] (some alice) (Rpc.set_principal_trust_tier "agent" (pos 4)) one).1
        ≡ one)
unfolding is_admin
serve_refused_example =
    serve_refused calm registry [] (some alice) (Rpc.set_principal_trust_tier "agent" (pos 4)) one
      refl

abbrev proposal : ApplyPolicyInput
proposal = record {
  name = "approvers";
  type = ProtoPolicyType.type_approval;
  rego = "package jitsudo.approval\nallow := true";
  description = "";
  enabled = true;
}

apply_policy-AreCompiled_example :
    let p = policy_row alice proposal (calm.ulid 0) in
    SamePolicies one (serve calm registry [] (some alice) (Rpc.apply_policy proposal) one).1
    ⊎ AreCompiled calm p.type (
        with_row
          (record p { name = proposal.name; rego = proposal.rego; enabled = proposal.enabled })
          (enabled p.type one.db))
apply_policy-AreCompiled_example =
    apply_policy-AreCompiled calm (λ n d. refl) registry [] alice proposal one

-- A dry run without a document, and one that the calm policies allow.
eval_policy_runs :
    (serve calm registry [] (some alice) (Rpc.eval_policy ProtoPolicyType.type_approval "") one
      ≡ (err (status invalid_argument (message "unexpected end of JSON input")), one))
    × ((serve calm registry []
          (some alice)
          (Rpc.eval_policy ProtoPolicyType.type_approval "{}")
          one).0
        ≡ ok (Response.evaluation true ""))
unfolding proto_policy_type_to_store serve handle eval_raw eval_raw_loaded eval decision loaded
    authenticated fail_as ◌>>=◌
eval_policy_runs = (refl, refl)
