-- ===== src/Providers/Gcp.antt =====
-- internal/providers/gcp/gcp.go: conditional IAM bindings, written under an ETag.
pub mod Contract
pub mod Entries
pub mod Edits
pub mod Laws
pub mod Retries
pub mod RoundTrip
pub mod Update
use jitsudo.Prelude.{
  ℕ, zero, suc, Bool, true, false, ◌&&◌, not, Option, none, some, String, str_eq, str_append, List,
  [], ◌∷◌, ◌++◌, any, select, ltb, if◌then◌else◌,
}
use jitsudo.Prelude.Int.{ℤ}
use jitsudo.Prelude.Texts.{contains, has_suffix}
use jitsudo.Providers.{validate_common}
use jitsudo.Providers.Mock.{add_duration}
use jitsudo.Providers.Cloud.{Fault, error_of, has_status, answered, refused, Call, Codec, cap}
use jitsudo.Rows.{StringMap}
use jitsudo.World.{Error, message, wrap, Result, ok, err, ElevationRequest, ElevationGrant}

pub record Config : Type 0 where
  pub organization_id : String
  pub credentials_source : String
  pub max_duration : ℤ
  pub condition_title_prefix : String

-- cloudresourcemanager.Expr, Binding and Policy. The ETag is opaque.
pub record Expr : Type 0 where
  pub title : String
  pub expression : String

pub record Binding : Type 0 where
  pub role : String
  pub members : List String
  pub condition : Option Expr

pub record IamPolicy (Etag : Type 0) : Type 0 where
  pub bindings : List Binding
  pub version : ℕ
  pub etag : Etag

-- crmAPI over an unknown state of the cloud; `get` asks for version 3.
pub record CrmApi (S Etag : Type 0) : Type 0 where
  pub get_iam_policy : String → Call S (IamPolicy Etag)
  pub set_iam_policy : String → IamPolicy Etag → Call S (IamPolicy Etag)

-- gcpRevokeToken
pub record RevokeToken : Type 0 where
  pub project : String
  pub member : String
  pub role : String
  pub condition_title : String

abbrev pub name : String
name = "gcp"

unfoldable pub validate_request : ElevationRequest → Option Error
validate_request req = elim (validate_common req) [
  | some e ↦ some e
  | none ↦
      if str_eq req.resource_scope ""
      then some (message "gcp: ResourceScope (GCP project ID) must not be empty")
      else if str_eq req.role_name ""
      then some (message "gcp: RoleName must not be empty")
      else none
]

unfoldable pub condition_title : Config → String → String
condition_title cfg id =
    str_append
      (str_append
        (if str_eq cfg.condition_title_prefix "" then "jitsudo" else cfg.condition_title_prefix)
        "-")
      id

unfoldable pub member_string : String → String
member_string user =
    if has_suffix user ".gserviceaccount.com"
    then str_append "serviceAccount:" user
    else str_append "user:" user

unfoldable pub role_string : String → String
role_string role = if contains role "/" then role else str_append "roles/" role

abbrev pub gcp_credentials : String → StringMap
gcp_credentials project = some (("GOOGLE_CLOUD_PROJECT", project) ∷ [])

abbrev pub is_http_409 : Fault → Bool
is_http_409 e = has_status 409 e

-- b.Role == role && b.Condition != nil && b.Condition.Title == title
abbrev has_title : String → Option Expr → Bool
has_title title none = false
has_title title (some e) = str_eq e.title title

unfoldable pub is_titled : RevokeToken → Binding → Bool
is_titled token b = str_eq b.role token.role && has_title token.condition_title b.condition

-- The idempotency check of `Grant`.
unfoldable pub is_held : RevokeToken → List Binding → Bool
unfolding is_titled
is_held token bs = any (λ b. is_titled token b && any (λ m. str_eq m token.member) b.members) bs

abbrev pub is_empty : {A : Type 0} → List A → Bool
is_empty [] = true
is_empty (x ∷ xs) = false

-- newMembers and newBindings of `Revoke`
unfoldable pub other_members : RevokeToken → Binding → List String
other_members token b = select (λ m. not (str_eq m token.member)) b.members

unfoldable pub without : RevokeToken → List Binding → List Binding
unfolding is_titled other_members
without token [] = []
without token (b ∷ bs) =
    let rest = without token bs in
    if is_titled token b
    then (if is_empty (other_members token b)
        then rest
        else record b { members = other_members token b } ∷ rest)
    else b ∷ rest

module _ {Etag : Type 0} where
  -- What `Grant` and `Revoke` make of the policy that they read; `none` is nothing to write.
  unfoldable pub add_binding : RevokeToken → String → IamPolicy Etag → Option (IamPolicy Etag)
  unfolding is_held
  add_binding token expression policy =
      if is_held token policy.bindings
      then none
      else some (record policy {
        bindings =
            policy.bindings
            ++ record {
              role = token.role;
              members = token.member ∷ [];
              condition = some (record { title = token.condition_title; expression = expression });
            }
              ∷ [];
        version = 3;
      })

  unfoldable pub remove_member : RevokeToken → IamPolicy Etag → Option (IamPolicy Etag)
  unfolding is_held without
  remove_member token policy =
      if is_held token policy.bindings
      then some (record policy { bindings = without token policy.bindings })
      else none

module _ (cfg : Config) where
  abbrev pub token_of : ElevationRequest → RevokeToken
  token_of req = record {
    project = str_append "projects/" req.resource_scope;
    member = member_string req.user_identity;
    role = role_string req.role_name;
    condition_title = condition_title cfg req.request_id;
  }

  unfoldable pub expires_at : ℕ → ElevationRequest → ℕ
  expires_at now req = add_duration now (cap cfg.max_duration req.duration)

  unfoldable pub grant_of : Codec RevokeToken → ℕ → ElevationRequest → ElevationGrant
  unfolding expires_at
  grant_of codec now req = record {
    request_id = req.request_id;
    credentials = gcp_credentials req.resource_scope;
    issued_at = now;
    expires_at = expires_at now req;
    revoke_token = codec.marshal (token_of req);
  }

-- The CEL expression of a binding: the deadline in UTC, in whole seconds.
unfoldable pub cel_expression : (ℕ → String) → ℕ → String
cel_expression format_utc t =
    str_append (str_append "request.time < timestamp(\"" (format_utc t)) "\")"

abbrev pub with_grant : ElevationGrant → Result (Unit {0}) → Result ElevationGrant
with_grant g (ok done) = ok g
with_grant g (err e) = err e

module _ {S Etag : Type 0} (crm : CrmApi S Etag) where
  -- The loop of `Grant` and of `Revoke`: `suffix` ends the errors of the latter, and the first number
  -- counts the attempts that are left. After the last one a 409 is an error as any other.
  unfoldable pub update_policy :
      String → String → (IamPolicy Etag → Option (IamPolicy Etag)) → ℕ → S → Result (Unit {0}) × S
  update_policy suffix project edit zero s = (ok tt, s)
  update_policy suffix project edit (suc left) s =
      let (read, s1) = crm.get_iam_policy project s in
      elim read [
        | refused e ↦ (err (wrap (str_append "gcp: GetIamPolicy" suffix) (error_of e)), s1)
        | answered policy ↦ elim (edit policy) [
          | none ↦ (ok tt, s1)
          | some policy' ↦
              let (written, s2) = crm.set_iam_policy project policy' s1 in
              elim written [
                | answered r ↦ (ok tt, s2)
                | refused e ↦ elim (is_http_409 e && ltb 0 left) [
                  | true ↦ update_policy suffix project edit left s2
                  | false ↦ (err (wrap (str_append "gcp: SetIamPolicy" suffix) (error_of e)), s2)
                ]
              ]
        ]
      ]

  -- `Grant` at the time `now`
  unfoldable pub grant :
      Config
      → Codec RevokeToken
      → (ℕ → String)
      → ℕ
      → ElevationRequest
      → S
      → Result ElevationGrant × S
  unfolding grant_of cel_expression update_policy add_binding
  grant cfg codec format_utc now req s =
      let token = token_of cfg req in
      let (r, s') =
        update_policy "" token.project
          (add_binding token (cel_expression format_utc (expires_at cfg now req))) 5 s in
      (with_grant (grant_of cfg codec now req) r, s')

  unfoldable pub revoke : Codec RevokeToken → ElevationGrant → S → Result (Unit {0}) × S
  unfolding update_policy remove_member
  revoke codec g s =
      if str_eq g.revoke_token "" then (ok tt, s) else elim (codec.unmarshal g.revoke_token) [
        | err e ↦ (err (wrap "gcp: decode revoke token" e), s)
        | ok token ↦ update_policy " (revoke)" token.project (remove_member token) 5 s
      ]

-- `IsActive` at the time `now`
unfoldable pub is_active : ℕ → ElevationGrant → Bool
is_active now g = ltb now g.expires_at
