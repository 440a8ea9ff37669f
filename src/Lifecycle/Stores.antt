-- ===== src/Lifecycle/Stores.antt =====
-- The calls of the policy and principal stores and of the queries leave the lifecycle (internal/store).
use jitsudo.Prelude.{refl, Option, String, List, []}
use jitsudo.Prelude.Int.{ℤ}
use jitsudo.Rows.{PolicyRow, PolicyType, AuditFilter}
use jitsudo.Policy.{Identity, reload, build_query, set_loaded}
use jitsudo.Policy.Check.{compile_modules-Guarantees, list_enabled-Guarantees}
use jitsudo.Store.Audit.{query_audit_events}
use jitsudo.Store.Policies.{
  get_policy, get_policy_by_name, list_policies, upsert_policy, delete_policy,
}
use jitsudo.Store.Principals.{set_principal_trust_tier}
use jitsudo.Store.Requests.{list_requests, list_pending_ai_review}
use jitsudo.Api.{fail_as, authenticated}
use jitsudo.World.{Error, M, World, Env, Loaded}
use jitsudo.World.Keeps.{Guarantees, Guarantees-modify, guarantee_rules}
use jitsudo.Lifecycle.{Keeps, IsCooperative, Follows-refl}
use jitsudo.Lifecycle.Operations.{principals-Evolves}
use jitsudo.Policy.Frame.{get_principal-Guarantees}

-- What the policies and the principals are does not enter the lifecycle.
policies-Evolves :
    (env : Env) (ps : List PolicyRow) (w : World)
    → Keeps env w (record w { db = record w.db { policies = ps } })
policies-Evolves env ps w = record {
  requests = λ id r e. (r, e, Follows-refl r);
  log = ([], refl);
  sound = λ s. record { chain = s.chain; keys = s.keys; rows = s.rows };
}

module _ {env : Env} (rely : IsCooperative env) where
  pub fail_as-Evolves :
      {A : Type 0} (f : Error → Error) (m : M A)
      → Guarantees (Keeps env) m
      → Guarantees (Keeps env) (fail_as f m)
  unfolding fail_as
  fail_as-Evolves f m k = record { at = k.at }

  pub authenticated-Evolves :
      (caller : Option Identity) → Guarantees (Keeps env) (authenticated caller)
  unfolding authenticated
  authenticated-Evolves caller = search guarantee_rules depth 4

  pub upsert_policy-Evolves : (p : PolicyRow) → Guarantees (Keeps env) (upsert_policy env p)
  unfolding upsert_policy get_policy_by_name
  upsert_policy-Evolves p = search (guarantee_rules, Guarantees-modify, policies-Evolves) depth 14

  pub delete-Evolves : (id : String) → Guarantees (Keeps env) (delete_policy env id)
  unfolding delete_policy
  delete-Evolves id = search (guarantee_rules, Guarantees-modify, policies-Evolves) depth 14

  pub get_policy-Evolves : (id : String) → Guarantees (Keeps env) (get_policy env id)
  unfolding get_policy
  get_policy-Evolves id = search guarantee_rules depth 8

  pub list_policies-Evolves : (t : Option PolicyType) → Guarantees (Keeps env) (list_policies env t)
  unfolding list_policies
  list_policies-Evolves t = search guarantee_rules depth 8

  pub list_requests-Evolves : (f : _) → Guarantees (Keeps env) (list_requests env f)
  unfolding list_requests
  list_requests-Evolves f = search guarantee_rules depth 8

  pub list_pending-Evolves : Guarantees (Keeps env) (list_pending_ai_review env)
  unfolding list_pending_ai_review
  list_pending-Evolves = search guarantee_rules depth 8

  pub query_audit-Evolves : (f : AuditFilter) → Guarantees (Keeps env) (query_audit_events env f)
  unfolding query_audit_events
  query_audit-Evolves f = search guarantee_rules depth 8

  pub build_query-Evolves :
      (t : PolicyType) (q : String) → Guarantees (Keeps env) (build_query env t q)
  unfolding build_query
  build_query-Evolves t q =
      search (guarantee_rules, list_enabled-Guarantees, compile_modules-Guarantees) depth 8

  pub set_loaded-Evolves : (l : Loaded) → Guarantees (Keeps env) (set_loaded l)
  unfolding set_loaded
  set_loaded-Evolves l = record { at = λ w. rely.same w }

  pub reload-Evolves : Guarantees (Keeps env) (reload env)
  unfolding reload
  reload-Evolves = search (guarantee_rules, build_query-Evolves, set_loaded-Evolves) depth 12

  pub set_tier-Evolves :
      (identity : String) (tier : ℤ) (by : String)
      → Guarantees (Keeps env) (set_principal_trust_tier env identity tier by)
  unfolding set_principal_trust_tier
  set_tier-Evolves identity tier by =
      search (guarantee_rules, Guarantees-modify, principals-Evolves, get_principal-Guarantees)
        depth 14
