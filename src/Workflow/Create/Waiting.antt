-- ===== src/Workflow/Create/Waiting.antt =====
-- A request that waits for an approver: its row, its audit row, and the policies that lead there.
use jitsudo.Prelude.{
  ℕ, ◌*◌, ◌/◌, eq_iff, ◌≡◌, refl, Bool, true, false, if◌then◌else◌, none, some, String, str_eq,
  str_append, Bool-cases, inl, inr, ◌∷◌,
}
use jitsudo.Rows.{pending, RequestRow, AuditEventRow}
use jitsudo.Audit.Action
use jitsudo.Policy.{Identity, eval_eligibility, eval_approval_tier}
use jitsudo.Store.Principals.{upsert_principal_last_seen}
use jitsudo.Store.Requests.{is_tier, or_human}
use jitsudo.Store.Requests.Table.{find_request}
use jitsudo.Workflow.Create.{CreateRequestInput}
use jitsudo.World.{Result, ok, EventType, notified, World, Env}

-- The row of a waiting request, with what was asked for.
abbrev pub waiting_row : Identity → CreateRequestInput → String → String → ℕ → RequestRow
waiting_row who input tier ulid now = record {
  id = str_append "req_" ulid;
  state = pending;
  requester_identity = who.email;
  provider = input.provider;
  role = input.role;
  resource_scope = input.resource_scope;
  duration_seconds = input.duration_seconds;
  reason = input.reason;
  break_glass = false;
  metadata = input.metadata;
  approver_tier = tier;
  approver_identity = "";
  approver_comment = "";
  expires_at = none;
  revoke_token = "";
  credentials_json = none;
  ai_reasoning_json = "";
  created_at = now;
  updated_at = now;
}

-- The request waits in the table, the log has its creation, and it was announced, to no provider.
abbrev pub IsWaiting :
    Identity → CreateRequestInput → String → World → Result RequestRow → World → Type 0
IsWaiting who input tier v result w =
    (ulid : String) × (now : ℕ) × (let row = waiting_row who input tier ulid in
      (result ≡ ok (row now))
      × (find_request (str_append "req_" ulid) w.db.requests ≡ some (row (now / 1000 * 1000)))
      × (w.effects
          ≡ notified (record {
            type = EventType.request_created;
            request_id = str_append "req_" ulid;
            actor = who.email;
            provider = input.provider;
            role = input.role;
            scope = input.resource_scope;
            reason = input.reason;
            expires_at = none;
          })
            ∷ v.effects))
    × (entry : AuditEventRow) × (w.db.audit_events ≡ entry ∷ v.db.audit_events)
    × (entry.action ≡ Action.request_created)
    × (entry.request_id ≡ str_append "req_" ulid)
    × (entry.actor_identity ≡ who.email)

pub else_of : {A : Type 0} (b : Bool) (m n : A) → b ≡ false → (if b then m else n) ≡ n
else_of b m n h = rw h

pub or_human-same : (tier : String) → is_tier tier ≡ true → or_human tier ≡ tier
unfolding is_tier
or_human-same tier h = elim (Bool-cases (str_eq tier "")) [
  | inl e ↦ let k : false ≡ true = rw ((eq_iff tier "").0 e) at h in cc
  | inr e ↦ rw e refl
]

pub or_human-is_tier : (tier : String) → is_tier tier ≡ true → is_tier (or_human tier) ≡ true
unfolding is_tier
or_human-is_tier tier h = elim (Bool-cases (str_eq tier "")) [ inl e ↦ rw e refl | inr e ↦ rw e h ]

-- What the policies answer to a request: the eligibility policy after the requester was noted, and
-- then the tier policy.
abbrev pub eligibility_of :
    Env → Identity → CreateRequestInput → World → Result (Bool × String) × World
eligibility_of env who input w =
    eval_eligibility env who input.provider input.role input.resource_scope input.duration_seconds
      (upsert_principal_last_seen env who.email w).1

abbrev pub tier_of : Env → Identity → CreateRequestInput → World → Result String × World
tier_of env who input w =
    eval_approval_tier env who input.provider input.role input.resource_scope input.duration_seconds
      (eligibility_of env who input w).1
