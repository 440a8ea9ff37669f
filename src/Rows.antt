-- ===== src/Rows.antt =====
-- The rows of the database tables (internal/store: requests.go, audit.go, policies.go,
-- principals.go) and the states of a request.
use jitsudo.Prelude.{ℕ, ◌≡◌, Bool, true, arith, Option, String, List, ◌==◌}
use jitsudo.Prelude.Int.{ℤ}

-- RequestState
pub data State : Type 0 where
  pending approved rejected active expired revoked : State

abbrev pub rank : State → ℕ
rank State.pending = 0
rank State.approved = 1
rank State.rejected = 2
rank State.active = 3
rank State.expired = 4
rank State.revoked = 5

-- `==` of two states
abbrev pub state_eq : State → State → Bool
state_eq s t = rank s == rank t

pub eq_of_state_eq : (s t : State) → state_eq s t ≡ true → s ≡ t
eq_of_state_eq s t h = ground arith

-- A Go map[string]string; `none` is nil.
abbrev pub StringMap : Type 0
StringMap = Option (List (String × String))

-- A NULL text column is the empty text, as every SELECT coalesces it.
pub record RequestRow : Type 0 where
  pub id : String
  pub state : State
  pub requester_identity : String
  pub provider : String
  pub role : String
  pub resource_scope : String
  pub duration_seconds : ℤ
  pub reason : String
  pub break_glass : Bool
  pub metadata : StringMap
  pub approver_tier : String
  pub approver_identity : String
  pub approver_comment : String
  pub expires_at : Option ℕ
  pub revoke_token : String
  pub credentials_json : StringMap
  pub ai_reasoning_json : String
  pub created_at : ℕ
  pub updated_at : ℕ

pub record RequestUpdate : Type 0 where
  pub approver_identity : String
  pub approver_comment : String
  pub expires_at : Option ℕ
  pub revoke_token : String
  pub credentials_json : StringMap
  pub ai_reasoning_json : String

-- "" in a field of the filter selects everything; `none` is the empty state.
pub record ListFilter : Type 0 where
  pub requester_identity : String
  pub state : Option State
  pub provider : String

pub record AuditEventRow : Type 0 where
  pub id : ℕ
  pub timestamp : ℕ
  pub actor_identity : String
  pub action : String
  pub request_id : String
  pub provider : String
  pub resource_scope : String
  pub outcome : String
  pub details_json : String
  pub prev_hash : String
  pub hash : String

pub record AuditFilter : Type 0 where
  pub actor_identity : String
  pub request_id : String
  pub provider : String
  pub since : Option ℕ
  pub until : Option ℕ
  pub limit : ℤ

pub data PolicyType : Type 0 where
  eligibility approval : PolicyType

pub record PolicyRow : Type 0 where
  pub id : String
  pub name : String
  pub type : PolicyType
  pub rego : String
  pub description : String
  pub enabled : Bool
  pub updated_by : String
  pub created_at : ℕ
  pub updated_at : ℕ

pub record PrincipalRow : Type 0 where
  pub identity : String
  pub trust_tier : ℤ
  pub enrolled_by : String
  pub enrolled_at : ℕ
  pub last_seen_at : ℕ
  pub notes : String
