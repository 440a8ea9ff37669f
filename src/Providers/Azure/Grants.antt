-- ===== src/Providers/Azure/Grants.antt =====
-- `Grant`, `Revoke` and `IsActive` of azure.go.
use jitsudo.Prelude.{ℕ, Bool, some, str_eq, str_append, [], ◌∷◌, ltb, if◌then◌else◌}
use jitsudo.Providers.Mock.{add_duration}
use jitsudo.Providers.Cloud.{error_of, answered, refused, cap}
use jitsudo.World.{wrap, Result, ok, err, ElevationRequest, ElevationGrant}
use jitsudo.Providers.Azure.{
  Config, AzureApi, Formats, RevokeToken, RoleAssignment, build_scope, deterministic_assignment_id,
  is_azure_http_404, is_azure_conflict,
}
use jitsudo.Providers.Azure.Directory.{State, lookup_user, lookup_role_def}

abbrev pub token_of : Formats → ElevationRequest → RevokeToken
token_of f req = record {
  assignment_id = deterministic_assignment_id f req.request_id;
  scope = build_scope req.resource_scope;
}

unfoldable pub grant_of : Config → Formats → ℕ → ElevationRequest → ElevationGrant
grant_of cfg f now req = record {
  request_id = req.request_id;
  credentials = some (("AZURE_SUBSCRIPTION_ID", req.resource_scope) ∷ []);
  issued_at = now;
  expires_at = add_duration now (cap cfg.max_duration req.duration);
  revoke_token = f.token.marshal (token_of f req);
}

module _ {S : Type 0} (cfg : Config) (f : Formats) (api : AzureApi S) where
  -- `Grant` below the lookups.
  unfoldable pub assign :
      ElevationRequest → RoleAssignment → State S → Result ElevationGrant × State S
  unfolding grant_of
  assign req properties (cache, s) =
      let (now, s1) = api.now s in
      let (made, s2) =
        api.create_assignment (token_of f req).scope (token_of f req).assignment_id properties s1 in
      elim made [
        | answered u ↦ (ok (grant_of cfg f now req), (cache, s2))
        | refused e ↦
            if is_azure_conflict api e
            then (ok (grant_of cfg f now req), (cache, s2))
            else (err (wrap "azure: create role assignment" (error_of e)), (cache, s2))
      ]

  unfoldable pub grant : ElevationRequest → State S → Result ElevationGrant × State S
  unfolding lookup_user lookup_role_def assign
  grant req st =
      let (user, st1) = lookup_user f api req.user_identity st in
      elim user [
        | err e ↦
            (err (wrap (str_append "azure: resolve user " (f.quote req.user_identity)) e), st1)
        | ok principal ↦
            let (role, st2) = lookup_role_def f api (token_of f req).scope req.role_name st1 in
            elim role [
              | err e ↦
                  (err (wrap (str_append "azure: resolve role " (f.quote req.role_name)) e), st2)
              | ok definition ↦
                  assign req (record { principal_id = principal; role_definition_id = definition })
                    st2
            ]
      ]

module _ {S : Type 0} (f : Formats) (api : AzureApi S) where
  unfoldable pub revoke : ElevationGrant → State S → Result (Unit {0}) × State S
  revoke g (cache, s) =
      if str_eq g.revoke_token ""
      then (ok tt, (cache, s))
      else elim (f.token.unmarshal g.revoke_token) [
        | err e ↦ (err (wrap "azure: decode revoke token" e), (cache, s))
        | ok token ↦
            let (gone, s1) = api.delete_assignment token.scope token.assignment_id s in
            elim gone [
              | answered u ↦ (ok tt, (cache, s1))
              | refused e ↦
                  if is_azure_http_404 e
                  then (ok tt, (cache, s1))
                  else (err (wrap "azure: delete role assignment" (error_of e)), (cache, s1))
            ]
      ]

-- `IsActive` at the time `now`
unfoldable pub is_active : ℕ → ElevationGrant → Bool
is_active now g = ltb now g.expires_at
