-- ===== src/World.antt =====
-- What a call of the control plane reads and writes: the database, the policy queries in memory,
-- and the effects outside; what answers it from outside; and the monad of its functions.
pub mod Keeps
pub mod Quiet
pub mod Stops
use jitsudo.Prelude.{
  ℕ, ◌+◌, Bool, true, false, Option, none, some, String, List, ◌∷◌, if◌then◌else◌,
}
use jitsudo.Prelude.Int.{ℤ}
use jitsudo.Rows.{State, StringMap, RequestRow, AuditEventRow, PolicyRow, PrincipalRow}

-- An error of the driver: SQLSTATE 40001, or any other.
pub data DbFault : Type 0 where
  serialization : DbFault
  failure : String → DbFault

-- The codes of google.golang.org/grpc/codes that the handlers answer with.
pub data Code : Type 0 where
  unauthenticated permission_denied invalid_argument failed_precondition absent internal : Code

-- The errors, with the wrapping of fmt.Errorf's %w.
pub data Error : Type 0 where
  not_found : Error
  wrong_state : State → State → Error
  db : DbFault → Error
  cancelled : Error
  external : String → Error
  message : String → Error
  message_of : String → String → Error
  wrap : String → Error → Error
  status : Code → Error → Error

pub data Result (A : Type 0) : Type 0 where
  ok : A → Result A
  err : Error → Result A

-- internal/providers/provider.go
pub record ElevationRequest : Type 0 where
  pub request_id : String
  pub user_identity : String
  pub provider : String
  pub role_name : String
  pub resource_scope : String
  pub duration : ℤ
  pub reason : String
  pub metadata : StringMap

pub record ElevationGrant : Type 0 where
  pub request_id : String
  pub credentials : StringMap
  pub issued_at : ℕ
  pub expires_at : ℕ
  pub revoke_token : String

-- internal/server/notifications/notifications.go
pub data EventType : Type 0 where
  request_created approved auto_approved ai_approved ai_denied ai_escalated denied expired revoked
        break_glass :
      EventType

-- A zero `expires_at` is `none`.
pub record Event : Type 0 where
  pub type : EventType
  pub request_id : String
  pub actor : String
  pub provider : String
  pub role : String
  pub scope : String
  pub reason : String
  pub expires_at : Option ℕ

-- What the control plane does outside its database.
pub data Effect : Type 0 where
  grant_called : ElevationRequest → Effect
  revoke_called : ElevationGrant → Effect
  notified : Event → Effect

-- The tables; `audit_events` has the newest row first.
pub record Db : Type 0 where
  pub requests : List RequestRow
  pub audit_events : List AuditEventRow
  pub next_audit_id : ℕ
  pub policies : List PolicyRow
  pub principals : List PrincipalRow
  pub sweep_lock : Bool

-- A rego.PreparedEvalQuery: the query and the modules that it was compiled from.
pub record PreparedQuery : Type 0 where
  pub query : String
  pub modules : List (String × String)

-- The fields of policy.Engine that its mutex guards.
pub record Loaded : Type 0 where
  pub eligibility_query : Option PreparedQuery
  pub approval_query : Option PreparedQuery
  pub approval_tier_query : Option PreparedQuery

-- `calls` counts the calls that something outside has answered; `effects` has the newest first.
pub record World : Type 0 where
  pub db : Db
  pub loaded : Loaded
  pub calls : ℕ
  pub effects : List Effect

-- A value of a Rego result.
pub data Value : Type 0 where
  boolean : Bool → Value
  text : String → Value
  other : Value

pub record OpaResult : Type 0 where
  pub expressions : List Value
  pub bindings : List (String × Value)

-- The OPA input document of buildInput (policy.go).
pub record InputFields : Type 0 where
  pub email : String
  pub subject : String
  pub groups : List String
  pub provider : String
  pub role : String
  pub resource_scope : String
  pub duration_seconds : ℤ
  pub trust_tier : ℤ

-- An OPA input document: that of buildInput, or any JSON object, by its text.
pub data OpaInput : Type 0 where
  fields : InputFields → OpaInput
  object : String → OpaInput

-- What answers the program from outside, at each call: the clocks of the process and of the
-- database (in nanoseconds), database errors, cancellation, the other instances that work on the
-- same database, and the libraries for ULIDs, SHA-256, JSON and Rego. `unmarshal_object` is
-- json.Unmarshal into a map[string]any.
pub record Env : Type 0 where
  pub now : ℕ → ℕ
  pub db_now : ℕ → ℕ
  pub db_fault : ℕ → Option DbFault
  pub is_cancelled : ℕ → Bool
  pub others : ℕ → Db → Db
  pub ulid : ℕ → String
  pub sha256_hex : String → String
  pub unmarshal_object : String → Result OpaInput
  pub prepare : ℕ → PreparedQuery → Option String
  pub eval : ℕ → PreparedQuery → OpaInput → Result (List OpaResult)

-- A function that may return an error. What it wrote before stays written.
abbrev pub M : Type 0 → Type 0
M A = World → Result A × World

module _ {A : Type 0} where
  unfoldable pub pure : A → M A
  pure a w = (ok a, w)

  unfoldable pub raise : Error → M A
  raise e w = (err e, w)

  -- A call that something outside answers, by the number of the call.
  unfoldable pub ask : (ℕ → A) → M A
  ask f w = (ok (f w.calls), record w { calls = w.calls + 1 })

  unfoldable pub query : (Db → A) → M A
  query f w = (ok (f w.db), w)

  unfoldable pub lift : Result A → M A
  lift r w = (r, w)

  -- `if err != nil` where the code goes on
  unfoldable pub try : M A → M (Result A)
  try m w = let (r, w') = m w in (ok r, w')

  abbrev wrapped : String → Result A → Result A
  wrapped s (ok a) = ok a
  wrapped s (err e) = err (wrap s e)

  -- fmt.Errorf(s + ": %w", err)
  unfoldable pub wrap_err : String → M A → M A
  wrap_err s m w = let (r, w') = m w in (wrapped s r, w')

  unfoldable pub or_raise : Error → Option A → M A
  or_raise e none w = (err e, w)
  or_raise e (some a) w = (ok a, w)

unfoldable pub raise_if : Bool → Error → M (Unit {0})
raise_if true e w = (err e, w)
raise_if false e w = (ok tt, w)

unfoldable pub modify : (Db → Db) → M (Unit {0})
modify f w = (ok tt, record w { db = f w.db })

unfoldable pub emit : Effect → M (Unit {0})
emit e w = (ok tt, record w { effects = e ∷ w.effects })

module _ {A B : Type 0} where
  abbrev continue : Result A → (A → M B) → M B
  continue (ok a) f w = f a w
  continue (err e) f w = (err e, w)

  infixl 5 ◌>>=◌ ◌>>◌
  unfoldable pub ◌>>=◌ : M A → (A → M B) → M B
  unfolding pure raise ask query lift try wrap_err or_raise raise_if modify emit
  ◌>>=◌ m f w = let (r, w') = m w in continue r f w'

  abbrev pub ◌>>◌ : M A → M B → M B
  m >> k = m >>= λ _. k

abbrev fault : Option DbFault → Result (Unit {0})
fault none = ok tt
fault (some f) = err (db f)

module _ (env : Env) where
  -- One round trip to the database: the other instances have run, and the server may fail.
  unfoldable pub db_call : M (Unit {0})
  db_call w =
      (fault (env.db_fault w.calls), record w { db = env.others w.calls w.db; calls = w.calls + 1 })

  -- One inside a transaction that holds its locks.
  unfoldable pub db_call_locked : M (Unit {0})
  db_call_locked w = (fault (env.db_fault w.calls), record w { calls = w.calls + 1 })
