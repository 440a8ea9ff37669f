-- ===== src/Api.antt =====
-- internal/server/api/api.go: the RPCs of the service, over the engine and the stores.
pub mod Messages
pub mod Wire
pub mod Access
pub mod Policies
use jitsudo.Prelude.{
  ℕ, ◌+◌, ◌||◌, Bool, true, false, not, Option, none, some, String, str_eq, str_append, List, [],
  ◌∷◌, any, map, length, select, if◌then◌else◌,
}
use jitsudo.Prelude.Int.{ℤ}
use jitsudo.Rows.{PolicyRow, AuditFilter}
use jitsudo.Policy.{Identity, reload, eval_raw, compile_check, compile_check_without}
use jitsudo.Providers.{Registry}
use jitsudo.Store.Audit.{query_audit_events}
use jitsudo.Store.Policies.{get_policy, list_policies, upsert_policy, delete_policy}
use jitsudo.Store.Principals.{out_of_range, get_principal, set_principal_trust_tier}
use jitsudo.Store.Requests.{get_request, list_requests}
use jitsudo.Workflow.Create.{CreateRequestInput, create_request}
use jitsudo.Workflow.Approve.{approve_request, deny_request}
use jitsudo.Workflow.Credentials.{get_credentials}
use jitsudo.Workflow.Revoke.{revoke_request}
use Messages.{ApplyPolicyInput, Rpc, Response}
use Wire.{
  ProtoPolicyType, proto_state_to_store, proto_policy_type_to_store, request_to_proto,
  policy_to_proto, audit_event_to_proto,
}
use jitsudo.World.{
  Code, unauthenticated, permission_denied, invalid_argument, failed_precondition, absent, internal,
  Error, not_found, message, status, Result, ok, err, Env, M, pure, lift, ask, or_raise, raise_if,
  ◌>>=◌, ◌>>◌,
}

-- storeErr
unfoldable pub store_err : Error → Error
store_err not_found = status absent not_found
store_err e = status internal e

abbrev pub mapped : {A : Type 0} → (Error → Error) → Result A → Result A
mapped f (ok a) = ok a
mapped f (err e) = err (f e)

-- `if err != nil { return nil, f(err) }`
unfoldable pub fail_as : {A : Type 0} → (Error → Error) → M A → M A
fail_as f m w = let (r, w') = m w in (mapped f r, w')

-- `auth.FromContext(ctx) == nil`
unfoldable pub authenticated : Option Identity → M Identity
authenticated = or_raise (status unauthenticated (message "not authenticated"))

-- The row of `ApplyPolicy`; the store sets the times.
abbrev pub policy_row : Identity → ApplyPolicyInput → String → PolicyRow
policy_row who input ulid = record {
  id = str_append "pol_" ulid;
  name = input.name;
  type = proto_policy_type_to_store input.type;
  rego = input.rego;
  description = input.description;
  enabled = input.enabled;
  updated_by = who.email;
  created_at = 0;
  updated_at = 0;
}

module _ (env : Env) (registry : Registry) (admin_emails : List String) where
  unfoldable pub is_admin : Identity → Bool
  is_admin who =
      any (λ g. str_eq g "jitsudo-admins") who.groups || any (λ e. str_eq e who.email) admin_emails

  unfoldable pub apply_policy : Identity → ApplyPolicyInput → M Response
  apply_policy who input = do
    ulid ← ask env.ulid
    let row = policy_row who input ulid
    fail_as (status invalid_argument) (compile_check env row)
    saved ← fail_as (status internal) (upsert_policy env row)
    fail_as (status internal) (reload env)
    pure (Response.policy (policy_to_proto saved))

  unfoldable pub delete_policy_rpc : String → M Response
  delete_policy_rpc id = do
    existing ← fail_as store_err (get_policy env id)
    fail_as (status invalid_argument) (compile_check_without env id existing.type)
    fail_as store_err (delete_policy env id)
    fail_as (status internal) (reload env)
    pure Response.deleted

  unfoldable pub reload_policies : M Response
  reload_policies = do
    fail_as (status internal) (reload env)
    rows ← fail_as (status internal) (list_policies env none)
    pure (Response.policies_loaded (length (select (λ p. p.enabled) rows)))

  unfoldable pub set_trust_tier : Identity → String → ℤ → M Response
  unfolding is_admin
  set_trust_tier who identity tier = do
    raise_if (not (is_admin who))
        (status permission_denied (message "requires jitsudo-admins group membership"))
    raise_if (str_eq identity "") (status invalid_argument (message "identity is required"))
    raise_if (out_of_range tier) (status invalid_argument (message "trust_tier must be 0–4"))
    p ← fail_as store_err (set_principal_trust_tier env identity tier who.email)
    pure (Response.principal p)

  unfoldable pub get_grant : Identity → String → M Response
  get_grant who id = do
    creds ← fail_as (status failed_precondition) (get_credentials env who id)
    req ← fail_as store_err (get_request env id)
    pure (Response.grant id creds req.expires_at)

  -- Each handler below its check of the caller.
  abbrev pub list_policies_rpc : M Response
  list_policies_rpc = do
    rows ← fail_as (status internal) (list_policies env none)
    pure (Response.policies (map policy_to_proto rows))

  abbrev pub get_policy_rpc : String → M Response
  get_policy_rpc id = do
    p ← fail_as store_err (get_policy env id)
    pure (Response.policy (policy_to_proto p))

  abbrev pub eval_policy_rpc : ProtoPolicyType → String → M Response
  eval_policy_rpc ptype input_json = do
    input ← fail_as (status invalid_argument) (lift (env.unmarshal_object input_json))
    answer ← fail_as (status internal) (eval_raw env (proto_policy_type_to_store ptype) input)
    pure (Response.evaluation answer.0 answer.1)

  abbrev pub query_audit_rpc : AuditFilter → M Response
  query_audit_rpc f = do
    rows ← fail_as (status internal) (query_audit_events env f)
    pure (Response.audit_events (map audit_event_to_proto rows))

  abbrev pub get_principal_rpc : String → M Response
  get_principal_rpc identity = do
    p ← fail_as store_err (get_principal env identity)
    pure (Response.principal p)

  unfoldable pub handle : Identity → Rpc → M Response
  handle who (Rpc.create_request input) = do
    req ← fail_as (status invalid_argument) (create_request env registry who input)
    pure (Response.request (request_to_proto req))
  handle who (Rpc.get_request id) = do
    req ← fail_as store_err (get_request env id)
    pure (Response.request (request_to_proto req))
  handle who (Rpc.list_requests requester state) = do
    rows ← fail_as (status internal) (
        list_requests env (record {
          requester_identity = requester;
          state = proto_state_to_store state;
          provider = "";
        }))
    pure (Response.requests (map request_to_proto rows))
  handle who (Rpc.approve_request id comment) = do
    req ← fail_as (status failed_precondition) (approve_request env registry who id comment)
    pure (Response.request (request_to_proto req))
  handle who (Rpc.deny_request id reason) = do
    req ← fail_as (status failed_precondition) (deny_request env who id reason)
    pure (Response.request (request_to_proto req))
  handle who (Rpc.revoke_request id reason) = do
    req ← fail_as (status failed_precondition) (revoke_request env registry who id reason)
    pure (Response.request (request_to_proto req))
  handle who (Rpc.get_credentials id) = get_grant who id
  handle who Rpc.list_policies = list_policies_rpc
  handle who (Rpc.get_policy id) = get_policy_rpc id
  handle who (Rpc.apply_policy input) = apply_policy who input
  handle who (Rpc.delete_policy id) = delete_policy_rpc id
  handle who Rpc.reload_policies = reload_policies
  handle who (Rpc.eval_policy ptype input_json) = eval_policy_rpc ptype input_json
  handle who (Rpc.query_audit f) = query_audit_rpc f
  handle who (Rpc.set_principal_trust_tier identity tier) = set_trust_tier who identity tier
  handle who (Rpc.get_principal identity) = get_principal_rpc identity

  unfoldable pub serve : Option Identity → Rpc → M Response
  serve caller rpc = do who ← authenticated caller; handle who rpc
