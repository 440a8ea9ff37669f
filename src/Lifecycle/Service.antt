-- ===== src/Lifecycle/Service.antt =====
-- The whole service: the RPCs of api.go, the endpoint of mcp.go and the sweeper, in any order.
use jitsudo.Prelude.{Option, String, List}
use jitsudo.Prelude.Int.{ℤ}
use jitsudo.Policy.{Identity}
use jitsudo.Policy.Check.{compile_check-Guarantees, compile_check_without-Guarantees}
use jitsudo.Providers.{Registry}
use jitsudo.Api.{
  apply_policy, delete_policy_rpc, reload_policies, set_trust_tier, get_grant, handle, serve,
}
use jitsudo.Api.Messages.{Rpc, ApplyPolicyInput}
use jitsudo.World.{Env}
use jitsudo.World.Keeps.{Guarantees, Guarantees-bind, guarantee_rules}
use jitsudo.Lifecycle.{Keeps, IsCooperative}
use jitsudo.Lifecycle.Requests.{get_request-Evolves}
use jitsudo.Lifecycle.Operations.{
  create-Evolves, approve-Evolves, deny-Evolves, revoke-Evolves, get_credentials-Evolves,
}
use jitsudo.Policy.Frame.{eval_raw-Guarantees, get_principal-Guarantees}
use jitsudo.Lifecycle.Stores.{
  fail_as-Evolves, authenticated-Evolves, upsert_policy-Evolves, delete-Evolves, get_policy-Evolves,
  list_policies-Evolves, list_requests-Evolves, query_audit-Evolves, reload-Evolves,
  set_tier-Evolves,
}

module _ {env : Env} (rely : IsCooperative env) (registry : Registry) (admins : List String) where
  apply_policy-Evolves :
      (who : Identity) (input : ApplyPolicyInput)
      → Guarantees (Keeps env) (apply_policy env registry admins who input)
  unfolding apply_policy
  apply_policy-Evolves who input =
      search
        (
          guarantee_rules, fail_as-Evolves, compile_check-Guarantees, upsert_policy-Evolves,
          reload-Evolves,
        )
        depth 14

  delete_policy-Evolves :
      (id : String) → Guarantees (Keeps env) (delete_policy_rpc env registry admins id)
  unfolding delete_policy_rpc
  delete_policy-Evolves id =
      search
        (
          guarantee_rules, fail_as-Evolves, get_policy-Evolves, compile_check_without-Guarantees,
          delete-Evolves, reload-Evolves,
        )
        depth 14

  reload_policies-Evolves : Guarantees (Keeps env) (reload_policies env registry admins)
  unfolding reload_policies
  reload_policies-Evolves =
      search (guarantee_rules, fail_as-Evolves, list_policies-Evolves, reload-Evolves) depth 14

  set_trust_tier-Evolves :
      (who : Identity) (identity : String) (tier : ℤ)
      → Guarantees (Keeps env) (set_trust_tier env registry admins who identity tier)
  unfolding set_trust_tier
  set_trust_tier-Evolves who identity tier =
      search (guarantee_rules, fail_as-Evolves, set_tier-Evolves) depth 14

  get_grant-Evolves :
      (who : Identity) (id : String) → Guarantees (Keeps env) (get_grant env registry admins who id)
  unfolding get_grant
  get_grant-Evolves who id =
      search (guarantee_rules, fail_as-Evolves, get_request-Evolves, get_credentials-Evolves) depth
        14

  handle-Evolves :
      (who : Identity) (rpc : Rpc) → Guarantees (Keeps env) (handle env registry admins who rpc)
  unfolding handle
  handle-Evolves who (Rpc.create_request x) =
      search (guarantee_rules, fail_as-Evolves, create-Evolves) depth 8
  handle-Evolves who (Rpc.get_request x) =
      search (guarantee_rules, fail_as-Evolves, get_request-Evolves) depth 8
  handle-Evolves who (Rpc.list_requests x y) =
      search (guarantee_rules, fail_as-Evolves, list_requests-Evolves) depth 8
  handle-Evolves who (Rpc.approve_request x y) =
      search (guarantee_rules, fail_as-Evolves, approve-Evolves) depth 8
  handle-Evolves who (Rpc.deny_request x y) =
      search (guarantee_rules, fail_as-Evolves, deny-Evolves) depth 8
  handle-Evolves who (Rpc.revoke_request x y) =
      search (guarantee_rules, fail_as-Evolves, revoke-Evolves) depth 8
  handle-Evolves who (Rpc.get_credentials x) = get_grant-Evolves who x
  handle-Evolves who Rpc.list_policies =
      search (guarantee_rules, fail_as-Evolves, list_policies-Evolves) depth 8
  handle-Evolves who (Rpc.get_policy x) =
      search (guarantee_rules, fail_as-Evolves, get_policy-Evolves) depth 8
  handle-Evolves who (Rpc.apply_policy x) = apply_policy-Evolves who x
  handle-Evolves who (Rpc.delete_policy x) = delete_policy-Evolves x
  handle-Evolves who Rpc.reload_policies = reload_policies-Evolves
  handle-Evolves who (Rpc.eval_policy x y) =
      search (guarantee_rules, fail_as-Evolves, eval_raw-Guarantees) depth 10
  handle-Evolves who (Rpc.query_audit x) =
      search (guarantee_rules, fail_as-Evolves, query_audit-Evolves) depth 8
  handle-Evolves who (Rpc.set_principal_trust_tier x y) = set_trust_tier-Evolves who x y
  handle-Evolves who (Rpc.get_principal x) =
      search (guarantee_rules, fail_as-Evolves, get_principal-Guarantees) depth 8

  pub serve-Evolves :
      (caller : Option Identity) (rpc : Rpc)
      → Guarantees (Keeps env) (serve env registry admins caller rpc)
  unfolding serve
  serve-Evolves caller rpc =
      Guarantees-bind rely _ _ (authenticated-Evolves rely caller) λ who. handle-Evolves who rpc
