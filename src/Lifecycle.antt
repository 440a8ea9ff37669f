-- ===== src/Lifecycle.antt =====
-- The lifecycle of requests as the workflow engine drives it, and what a database may become.
pub mod Updates
pub mod Requests
pub mod Audit
pub mod Tamper
pub mod Steps
pub mod Operations
pub mod Runs
pub mod Stores
pub mod Service
pub mod FrontEnds
use jitsudo.Prelude.{
  ℕ, ◌≤◌, ◌<◌, ◌≡◌, refl, sym, ◌∙◌, Bool, true, false, Option, none, some, String, List, [], ◌∷◌,
  ◌++◌,
}
use mathlib.Core.List.{append_assoc}
use jitsudo.Rows.{
  State, pending, approved, rejected, active, expired, revoked, RequestRow, AuditEventRow,
}
use jitsudo.Store.Audit.{last_hash, compute_hash}
use jitsudo.Store.Requests.{is_tier}
use jitsudo.Store.Requests.Table.{find_request, IsKeyed}
use jitsudo.World.{Db, World, Env}
use jitsudo.World.Keeps.{Rely}

infix 40 ◌⟶◌ ◌⟶*◌
-- The transitions of the engine, the rollback of a refused approval among them.
pub data ◌⟶◌ : State → State → Type 0 where
  approve : pending ⟶ approved
  reject : pending ⟶ rejected
  rollback : approved ⟶ pending
  activate : approved ⟶ active
  expire : active ⟶ expired
  revoke : active ⟶ revoked

pub data ◌⟶*◌ : State → State → Type 0 where
  here : {s : State} → s ⟶* s
  step : {s t u : State} → s ⟶ t → t ⟶* u → s ⟶* u

pub ⟶*_trans : {s t u : State} → s ⟶* t → t ⟶* u → s ⟶* u
⟶*_trans here q = q
⟶*_trans (step e p) q = step e (⟶*_trans p q)

-- `r'` is a later version of `r`: what the requester asked for has not changed, and the state has
-- moved along the lifecycle.
pub record Follows (r r' : RequestRow) : Type 0 where
  pub id : r'.id ≡ r.id
  pub requester_identity : r'.requester_identity ≡ r.requester_identity
  pub provider : r'.provider ≡ r.provider
  pub role : r'.role ≡ r.role
  pub resource_scope : r'.resource_scope ≡ r.resource_scope
  pub duration_seconds : r'.duration_seconds ≡ r.duration_seconds
  pub reason : r'.reason ≡ r.reason
  pub break_glass : r'.break_glass ≡ r.break_glass
  pub metadata : r'.metadata ≡ r.metadata
  pub created_at : r'.created_at ≡ r.created_at
  pub path : r.state ⟶* r'.state

pub Follows-refl : (r : RequestRow) → Follows r r
Follows-refl r = record {
  id = refl;
  requester_identity = refl;
  provider = refl;
  role = refl;
  resource_scope = refl;
  duration_seconds = refl;
  reason = refl;
  break_glass = refl;
  metadata = refl;
  created_at = refl;
  path = here;
}

pub Follows-trans : {r s t : RequestRow} → Follows r s → Follows s t → Follows r t
Follows-trans f g = record {
  id = g.id ∙ f.id;
  requester_identity = g.requester_identity ∙ f.requester_identity;
  provider = g.provider ∙ f.provider;
  role = g.role ∙ f.role;
  resource_scope = g.resource_scope ∙ f.resource_scope;
  duration_seconds = g.duration_seconds ∙ f.duration_seconds;
  reason = g.reason ∙ f.reason;
  break_glass = g.break_glass ∙ f.break_glass;
  metadata = g.metadata ∙ f.metadata;
  created_at = g.created_at ∙ f.created_at;
  path = ⟶*_trans f.path g.path;
}

-- A grant that is or was active has a deadline.
abbrev pub has_deadline : State → Option ℕ → Bool
has_deadline active none = false
has_deadline expired none = false
has_deadline revoked none = false
has_deadline _ _ = true

pub record IsSoundRow (r : RequestRow) : Type 0 where
  pub deadline : has_deadline r.state r.expires_at ≡ true
  pub tier : is_tier r.approver_tier ≡ true

-- The hash chain from the newest event back, with ids that fall below `next`.
abbrev pub IsChain : (String → String) → ℕ → List AuditEventRow → Type 0
IsChain sha next [] = Unit
IsChain sha next (e ∷ rest) =
    (e.id < next)
    × (e.prev_hash ≡ last_hash rest)
    × (e.hash ≡ compute_hash sha e.prev_hash e.timestamp e)
    × IsChain sha e.id rest

pub record IsSound (sha : String → String) (d : Db) : Type 0 where
  pub chain : IsChain sha d.next_audit_id d.audit_events
  pub keys : IsKeyed d.requests
  pub rows : (id : String) (r : RequestRow) → find_request id d.requests ≡ some r → IsSoundRow r

-- What the control plane may turn the database `a` into: requests follow their lifecycle, the
-- audit log only grows, and soundness is kept.
pub record Evolves (sha : String → String) (a b : Db) : Type 0 where
  pub requests :
      (id : String) (r : RequestRow)
      → find_request id a.requests ≡ some r
      → (r' : RequestRow) × (find_request id b.requests ≡ some r') × Follows r r'
  pub log : (new : List AuditEventRow) × (b.audit_events ≡ new ++ a.audit_events)
  pub sound : IsSound sha a → IsSound sha b

module _ {sha : String → String} where
  pub Evolves-refl : (d : Db) → Evolves sha d d
  Evolves-refl d = record {
    requests = λ id r e. (r, e, Follows-refl r);
    log = ([], refl);
    sound = λ s. s;
  }

  pub Evolves-trans : (a b c : Db) → Evolves sha a b → Evolves sha b c → Evolves sha a c
  Evolves-trans a b c p q = record {
    requests = λ id r e.
        let (s, es, f) = p.requests id r e in
        let (t, et, g) = q.requests id s es in (t, et, Follows-trans f g);
    log =
        let (n, en) = p.log in
        let (m, em) = q.log in (m ++ n, em ∙ rw en (sym (append_assoc m n a.audit_events)));
    sound = λ s. q.sound (p.sound s);
  }

-- The database evolves from one world to the other.
abbrev pub Keeps : Env → World → World → Type 0
Keeps env v w = Evolves env.sha256_hex v.db w.db

-- The other instances keep to the lifecycle.
abbrev pub IsCooperative : Env → Type 0
IsCooperative env = Rely env (Keeps env)

pub cooperative :
    (env : Env) → ((n : ℕ) (d : Db) → Evolves env.sha256_hex d (env.others n d)) → IsCooperative env
cooperative env h = record {
  same = λ w. Evolves-refl w.db;
  after = λ u v w. Evolves-trans u.db v.db w.db;
  asked = λ w. Evolves-refl w.db;
  others = λ w. h w.calls w.db;
}
