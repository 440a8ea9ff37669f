-- ===== src/Providers/Azure.antt =====
-- internal/providers/azure/azure.go: role assignments with names made from request ids.
pub mod Directory
pub mod Grants
pub mod Contract
pub mod RoundTrip
use Prim.Native.String.{slice}
use jitsudo.Prelude.{
  ℕ, ◌+◌, ◌*◌, ◌||◌, Bool, true, false, Option, none, some, String, str_eq, str_append, List, [],
  ◌∷◌, ltb, ◌==◌, if◌then◌else◌,
}
use jitsudo.Prelude.Decimal.{decimal}
use jitsudo.Prelude.Int.{ℤ}
use jitsudo.Providers.{validate_common}
use jitsudo.Providers.Mock.{add_duration}
use jitsudo.Providers.Cloud.{
  Fault, error_of, has_status, Answer, answered, refused, Call, Codec, cap,
}
use jitsudo.World.{
  Error, message, message_of, wrap, Result, ok, err, ElevationRequest, ElevationGrant,
}
use text.Mathlib.Text.{starts_with}

pub record Config : Type 0 where
  pub tenant_id : String
  pub default_subscription_id : String
  pub client_id : String
  pub credentials_source : String
  pub max_duration : ℤ

-- armauthorization.RoleAssignmentProperties
pub record RoleAssignment : Type 0 where
  pub principal_id : String
  pub role_definition_id : String

-- The answer of the Graph API for a user: the status and the body.
pub record GraphAnswer : Type 0 where
  pub status_code : ℕ
  pub body : String

-- roleAssignAPI, the pages of role definitions (the id of each, if it has one), the token and the GET
-- of the Graph API, what http.NewRequest has against a URL, and the clock, over an unknown state.
pub record AzureApi (S : Type 0) : Type 0 where
  pub create_assignment : String → String → RoleAssignment → Call S (Unit {0})
  pub delete_assignment : String → String → Call S (Unit {0})
  pub role_definition_pages : String → String → S → List (Answer (List (Option String))) × S
  pub get_graph_token : Call S String
  pub get_graph : String → String → Call S GraphAnswer
  pub request_error : String → Option Error
  pub now : S → ℕ × S
  pub error_code : Fault → String

-- azureRevokeToken
pub record RevokeToken : Type 0 where
  pub assignment_id : String
  pub scope : String

-- SHA-256 in hexadecimal, encoding/json, and fmt's %q.
pub record Formats : Type 0 where
  pub token : Codec RevokeToken
  pub unmarshal_user : String → Result String
  pub sha256_hex : String → String
  pub quote : String → String

abbrev pub name : String
name = "azure"

unfoldable pub validate_request : ElevationRequest → Option Error
validate_request req = elim (validate_common req) [
  | some e ↦ some e
  | none ↦
      if str_eq req.resource_scope ""
      then some (message "azure: ResourceScope (subscription or resource group) must not be empty")
      else if str_eq req.role_name ""
      then some (message "azure: RoleName must not be empty")
      else none
]

unfoldable pub build_scope : String → String
build_scope scope = if starts_with scope "/" then scope else str_append "/subscriptions/" scope

-- The first 16 bytes of the hash, as 8-4-4-4-12 hexadecimal digits.
unfoldable pub deterministic_assignment_id : Formats → String → String
deterministic_assignment_id f id =
    let h = f.sha256_hex (str_append "jitsudo-assignment:" id) in
    str_append (slice h 0 8) (
      str_append "-" (
        str_append (slice h 8 12) (
          str_append "-" (
            str_append (slice h 12 16)
              (str_append "-" (str_append (slice h 16 20) (str_append "-" (slice h 20 32))))))))

abbrev pub is_azure_http_404 : Fault → Bool
is_azure_http_404 e = has_status 404 e

abbrev pub is_azure_conflict : {S : Type 0} → AzureApi S → Fault → Bool
is_azure_conflict api (Fault.http status text) =
    has_status 409 (Fault.http status text)
    || str_eq (api.error_code (Fault.http status text)) "RoleAssignmentExists"
is_azure_conflict api (Fault.plain text) = false
