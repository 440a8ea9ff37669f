-- ===== src/Api/Messages.antt =====
-- The calls of the service with their inputs, and what they answer (api/proto, api.go).
use jitsudo.Prelude.{ℕ, Bool, Option, String, List}
use jitsudo.Prelude.Int.{ℤ}
use jitsudo.Rows.{StringMap, AuditFilter, PrincipalRow}
use jitsudo.Api.Wire.{ProtoState, ProtoPolicyType, RequestMessage, PolicyMessage, AuditEventMessage}
use jitsudo.Workflow.Create.{CreateRequestInput}

-- The message ApplyPolicyInput.
pub record ApplyPolicyInput : Type 0 where
  pub name : String
  pub type : ProtoPolicyType
  pub rego : String
  pub description : String
  pub enabled : Bool

-- A call of the service with its input.
pub data Rpc : Type 0 where
  create_request : CreateRequestInput → Rpc
  get_request : String → Rpc
  list_requests : String → ProtoState → Rpc
  approve_request deny_request revoke_request : String → String → Rpc
  get_credentials : String → Rpc
  list_policies : Rpc
  get_policy : String → Rpc
  apply_policy : ApplyPolicyInput → Rpc
  delete_policy : String → Rpc
  reload_policies : Rpc
  eval_policy : ProtoPolicyType → String → Rpc
  query_audit : AuditFilter → Rpc
  set_principal_trust_tier : String → ℤ → Rpc
  get_principal : String → Rpc

-- What a call answers; the fields of a principal are those of its row.
pub data Response : Type 0 where
  request : RequestMessage → Response
  requests : List RequestMessage → Response
  grant : String → StringMap → Option ℕ → Response
  policy : PolicyMessage → Response
  policies : List PolicyMessage → Response
  deleted : Response
  policies_loaded : ℕ → Response
  evaluation : Bool → String → Response
  audit_events : List AuditEventMessage → Response
  principal : PrincipalRow → Response
