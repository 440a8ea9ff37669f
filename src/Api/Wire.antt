-- ===== src/Api/Wire.antt =====
-- api.go: the rows of the store as the messages of the service, and the enumerations of both sides.
use jitsudo.Prelude.{ℕ, Bool, Option, none, some, String, ◌≡◌, refl}
use jitsudo.Prelude.Int.{ℤ}
use jitsudo.Rows.{State, StringMap, RequestRow, AuditEventRow, PolicyType, PolicyRow}

-- The enumerations RequestState and PolicyType of the messages.
pub data ProtoState : Type 0 where
  state_unspecified state_pending state_approved state_rejected state_active state_expired
        state_revoked :
      ProtoState

pub data ProtoPolicyType : Type 0 where
  type_unspecified type_eligibility type_approval : ProtoPolicyType

-- The messages ElevationRequest, Policy and AuditEvent.
pub record RequestMessage : Type 0 where
  pub id : String
  pub state : ProtoState
  pub requester_identity : String
  pub provider : String
  pub role : String
  pub resource_scope : String
  pub duration_seconds : ℤ
  pub reason : String
  pub break_glass : Bool
  pub metadata : StringMap
  pub approver_tier : String
  pub approver_identity : String
  pub approver_comment : String
  pub ai_reasoning_json : String
  pub created_at : ℕ
  pub updated_at : ℕ
  pub expires_at : Option ℕ

pub record PolicyMessage : Type 0 where
  pub id : String
  pub name : String
  pub type : ProtoPolicyType
  pub rego : String
  pub description : String
  pub enabled : Bool
  pub created_at : ℕ
  pub updated_at : ℕ

pub record AuditEventMessage : Type 0 where
  pub id : ℕ
  pub timestamp : ℕ
  pub actor_identity : String
  pub action : String
  pub request_id : String
  pub provider : String
  pub resource_scope : String
  pub outcome : String
  pub details_json : String
  pub prev_hash : String
  pub hash : String

unfoldable pub store_state_to_proto : State → ProtoState
store_state_to_proto State.pending = ProtoState.state_pending
store_state_to_proto State.approved = ProtoState.state_approved
store_state_to_proto State.rejected = ProtoState.state_rejected
store_state_to_proto State.active = ProtoState.state_active
store_state_to_proto State.expired = ProtoState.state_expired
store_state_to_proto State.revoked = ProtoState.state_revoked

-- `none` is the empty state, which filters nothing.
unfoldable pub proto_state_to_store : ProtoState → Option State
proto_state_to_store ProtoState.state_pending = some State.pending
proto_state_to_store ProtoState.state_approved = some State.approved
proto_state_to_store ProtoState.state_rejected = some State.rejected
proto_state_to_store ProtoState.state_active = some State.active
proto_state_to_store ProtoState.state_expired = some State.expired
proto_state_to_store ProtoState.state_revoked = some State.revoked
proto_state_to_store ProtoState.state_unspecified = none

unfoldable pub store_policy_type_to_proto : PolicyType → ProtoPolicyType
store_policy_type_to_proto PolicyType.eligibility = ProtoPolicyType.type_eligibility
store_policy_type_to_proto PolicyType.approval = ProtoPolicyType.type_approval

-- An unspecified type is taken for eligibility.
unfoldable pub proto_policy_type_to_store : ProtoPolicyType → PolicyType
proto_policy_type_to_store ProtoPolicyType.type_approval = PolicyType.approval
proto_policy_type_to_store ProtoPolicyType.type_eligibility = PolicyType.eligibility
proto_policy_type_to_store ProtoPolicyType.type_unspecified = PolicyType.eligibility

unfoldable pub request_to_proto : RequestRow → RequestMessage
unfolding store_state_to_proto
request_to_proto r = record {
  id = r.id;
  state = store_state_to_proto r.state;
  requester_identity = r.requester_identity;
  provider = r.provider;
  role = r.role;
  resource_scope = r.resource_scope;
  duration_seconds = r.duration_seconds;
  reason = r.reason;
  break_glass = r.break_glass;
  metadata = r.metadata;
  approver_tier = r.approver_tier;
  approver_identity = r.approver_identity;
  approver_comment = r.approver_comment;
  ai_reasoning_json = r.ai_reasoning_json;
  created_at = r.created_at;
  updated_at = r.updated_at;
  expires_at = r.expires_at;
}

unfoldable pub policy_to_proto : PolicyRow → PolicyMessage
unfolding store_policy_type_to_proto
policy_to_proto p = record {
  id = p.id;
  name = p.name;
  type = store_policy_type_to_proto p.type;
  rego = p.rego;
  description = p.description;
  enabled = p.enabled;
  created_at = p.created_at;
  updated_at = p.updated_at;
}

unfoldable pub audit_event_to_proto : AuditEventRow → AuditEventMessage
audit_event_to_proto e = record {
  id = e.id;
  timestamp = e.timestamp;
  actor_identity = e.actor_identity;
  action = e.action;
  request_id = e.request_id;
  provider = e.provider;
  resource_scope = e.resource_scope;
  outcome = e.outcome;
  details_json = e.details_json;
  prev_hash = e.prev_hash;
  hash = e.hash;
}

-- A state survives the way to a message and back, so a filter by it is the filter of the store.
proto_state_to_store-store_state_to_proto :
    (s : State) → proto_state_to_store (store_state_to_proto s) ≡ some s
unfolding proto_state_to_store store_state_to_proto
proto_state_to_store-store_state_to_proto State.pending = refl
proto_state_to_store-store_state_to_proto State.approved = refl
proto_state_to_store-store_state_to_proto State.rejected = refl
proto_state_to_store-store_state_to_proto State.active = refl
proto_state_to_store-store_state_to_proto State.expired = refl
proto_state_to_store-store_state_to_proto State.revoked = refl

-- The message of a request does not depend on its credentials and its revoke token.
request_to_proto-HidesCredentials :
    (r : RequestRow) (credentials : StringMap) (token : String)
    → request_to_proto (record r { credentials_json = credentials; revoke_token = token })
      ≡ request_to_proto r
unfolding request_to_proto
request_to_proto-HidesCredentials r credentials token = refl
