-- ===== src/Providers/Kubernetes.antt =====
-- internal/providers/kubernetes/kubernetes.go: one binding of the cluster for each request.
pub mod Laws
pub mod Contract
pub mod RoundTrip
use jitsudo.Prelude.{
  ℕ, ◌||◌, Bool, true, false, not, Option, none, some, String, str_eq, str_append, List, [], ◌∷◌,
  ltb, if◌then◌else◌,
}
use jitsudo.Prelude.Int.{ℤ}
use jitsudo.Providers.{validate_common}
use jitsudo.Providers.Mock.{add_duration}
use jitsudo.Providers.Cloud.{Fault, error_of, answered, refused, Call, Codec, cap}
use jitsudo.Rows.{StringMap}
use jitsudo.World.{Error, message, wrap, Result, ok, err, ElevationRequest, ElevationGrant}

pub record Config : Type 0 where
  pub kubeconfig_path : String
  pub default_namespace : String
  pub max_duration : ℤ
  pub managed_label : String

-- rbacv1.Subject and rbacv1.RoleRef
pub record Subject : Type 0 where
  pub kind : String
  pub name : String
  pub api_group : String

pub record RoleRef : Type 0 where
  pub kind : String
  pub name : String
  pub api_group : String

-- rbacv1.RoleBinding and rbacv1.ClusterRoleBinding, which has no namespace.
pub record Binding : Type 0 where
  pub name : String
  pub namespace : String
  pub annotations : List (String × String)
  pub labels : List (String × String)
  pub subjects : List Subject
  pub role_ref : RoleRef

-- Where a binding lives: RoleBindings(namespace) or ClusterRoleBindings().
pub data Place : Type 0 where
  namespaced : String → Place
  cluster_wide : Place

-- The clientset's RBAC calls, over an unknown state of the cluster, and k8serrors.IsNotFound.
pub record ClusterApi (S : Type 0) : Type 0 where
  pub get_binding : Place → String → Call S Binding
  pub create_binding : Place → Binding → Call S Binding
  pub delete_binding : Place → String → Call S (Unit {0})
  pub is_not_found : Fault → Bool

-- k8sRevokeToken
pub record RevokeToken : Type 0 where
  pub kind : String
  pub name : String
  pub namespace : String

-- The functions of encoding/json, strings and time that the adapter calls.
pub record Formats : Type 0 where
  pub token : Codec RevokeToken
  pub to_lower : String → String
  pub format_rfc3339 : ℕ → String
  pub parse_rfc3339 : String → Option ℕ

abbrev pub name : String
name = "kubernetes"

unfoldable pub validate_request : ElevationRequest → Option Error
validate_request req = elim (validate_common req) [
  | some e ↦ some e
  | none ↦
      if str_eq req.role_name ""
      then some (message "kubernetes: RoleName must not be empty")
      else none
]

unfoldable pub binding_name : Formats → String → String
binding_name f id = str_append "jitsudo-" (f.to_lower id)

unfoldable pub namespace : Config → String → String
namespace cfg scope =
    if str_eq scope "" || str_eq scope "*"
    then (if not (str_eq cfg.default_namespace "") then cfg.default_namespace else "")
    else scope

unfoldable pub managed_label : Config → String
managed_label cfg =
    if not (str_eq cfg.managed_label "") then cfg.managed_label else "jitsudo.dev/managed"

abbrev pub annotation : String → List (String × String) → Option String
annotation key [] = none
annotation key ((k, v) ∷ rest) =
    let found = annotation key rest in if str_eq k key then some v else found

-- The time in an annotation; time.Time{} is before every time, and 0 stands for it.
abbrev parsed : Formats → Option String → ℕ
parsed f none = 0
parsed f (some raw) = elim (f.parse_rfc3339 raw) [ none ↦ 0 | some t ↦ t ]

unfoldable pub reconstruct_grant :
    Formats → String → List (String × String) → StringMap → String → ElevationGrant
reconstruct_grant f id annotations creds token = record {
  request_id = id;
  credentials = creds;
  issued_at = 0;
  expires_at = parsed f (annotation "jitsudo.dev/expires-at" annotations);
  revoke_token = token;
}

-- token.Kind: "RoleBinding", or by default a ClusterRoleBinding.
abbrev pub place_of : RevokeToken → Place
place_of token =
    if str_eq token.kind "RoleBinding" then namespaced token.namespace else cluster_wide

module _ (cfg : Config) (f : Formats) where
  abbrev pub expires_at : ℕ → ElevationRequest → ℕ
  expires_at now req = add_duration now (cap cfg.max_duration req.duration)

  -- Where the grant's binding goes, the kind that its token has, and the words of its errors.
  abbrev pub is_namespaced : ElevationRequest → Bool
  is_namespaced req = not (str_eq (namespace cfg req.resource_scope) "")

  abbrev pub place : ElevationRequest → Place
  place req =
      if is_namespaced req then namespaced (namespace cfg req.resource_scope) else cluster_wide

  abbrev pub token_of : ElevationRequest → RevokeToken
  token_of req = record {
    kind = if is_namespaced req then "RoleBinding" else "ClusterRoleBinding";
    name = binding_name f req.request_id;
    namespace = namespace cfg req.resource_scope;
  }

  abbrev call_name : String → ElevationRequest → String
  call_name verb req =
      str_append verb (if is_namespaced req then "rolebinding" else "clusterrolebinding")

  abbrev pub credentials_of : ElevationRequest → StringMap
  credentials_of req =
      some
        (("JITSUDO_K8S_ROLE", req.role_name) ∷ ("JITSUDO_K8S_NAMESPACE", req.resource_scope) ∷ [])

  unfoldable pub new_binding : ℕ → ElevationRequest → Binding
  unfolding binding_name managed_label namespace
  new_binding now req = record {
    name = binding_name f req.request_id;
    namespace = namespace cfg req.resource_scope;
    annotations =
        ("jitsudo.dev/expires-at", f.format_rfc3339 (expires_at now req))
        ∷ ("jitsudo.dev/request-id", req.request_id)
        ∷ ("jitsudo.dev/user", req.user_identity)
        ∷ [];
    labels = (managed_label cfg, "true") ∷ [];
    subjects =
        record { kind = "User"; name = req.user_identity; api_group = "rbac.authorization.k8s.io" }
        ∷ [];
    role_ref = record {
      kind = "ClusterRole";
      name = req.role_name;
      api_group = "rbac.authorization.k8s.io";
    };
  }

  unfoldable pub new_grant : ℕ → ElevationRequest → ElevationGrant
  new_grant now req = record {
    request_id = req.request_id;
    credentials = credentials_of req;
    issued_at = now;
    expires_at = expires_at now req;
    revoke_token = f.token.marshal (token_of req);
  }

  unfoldable pub existing_grant : ElevationRequest → Binding → ElevationGrant
  unfolding reconstruct_grant
  existing_grant req b =
      reconstruct_grant f req.request_id b.annotations (credentials_of req)
        (f.token.marshal (token_of req))

  module _ {S : Type 0} (cluster : ClusterApi S) where
    -- `Grant` at the time `now`
    unfoldable pub grant : ℕ → ElevationRequest → S → Result ElevationGrant × S
    unfolding validate_request new_binding new_grant existing_grant
    grant now req s = elim (validate_request req) [
      | some e ↦ (err e, s)
      | none ↦
          let (found, s1) = cluster.get_binding (place req) (binding_name f req.request_id) s in
          elim found [
            | answered b ↦ (ok (existing_grant req b), s1)
            | refused e ↦ elim (cluster.is_not_found e) [
              | false ↦ (err (wrap (call_name "kubernetes: get " req) (error_of e)), s1)
              | true ↦
                  let (made, s2) = cluster.create_binding (place req) (new_binding now req) s1 in
                  elim made [
                    | refused e ↦
                        (err (wrap (call_name "kubernetes: create " req) (error_of e)), s2)
                    | answered b ↦ (ok (new_grant now req), s2)
                  ]
            ]
          ]
    ]

module _ {S : Type 0} (f : Formats) (cluster : ClusterApi S) where
  unfoldable pub revoke : ElevationGrant → S → Result (Unit {0}) × S
  revoke g s =
      if str_eq g.revoke_token "" then (ok tt, s) else elim (f.token.unmarshal g.revoke_token) [
        | err e ↦ (err (wrap "kubernetes: decode revoke token" e), s)
        | ok token ↦
            let (deleted, s1) = cluster.delete_binding (place_of token) token.name s in
            elim deleted [
              | answered u ↦ (ok tt, s1)
              | refused e ↦
                  if cluster.is_not_found e
                  then (ok tt, s1)
                  else (err (wrap "kubernetes: delete binding" (error_of e)), s1)
            ]
      ]

  -- `IsActive` at the time `now`
  unfoldable pub is_active : ℕ → ElevationGrant → S → Result Bool × S
  is_active now g s =
      if str_eq g.revoke_token "" then (ok false, s) else elim (f.token.unmarshal g.revoke_token) [
        | err e ↦ (err (wrap "kubernetes: decode revoke token" e), s)
        | ok token ↦
            let (found, s1) = cluster.get_binding (place_of token) token.name s in
            elim found [
              | answered b ↦ (ok (ltb now g.expires_at), s1)
              | refused e ↦
                  if cluster.is_not_found e
                  then (ok false, s1)
                  else (err (wrap "kubernetes: get binding" (error_of e)), s1)
            ]
      ]
