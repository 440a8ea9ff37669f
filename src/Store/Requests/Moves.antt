-- ===== src/Store/Requests/Moves.antt =====
-- The abstract view of a transition of a request: the row that moves, and all else that stays.
use jitsudo.Prelude.{
  ℕ, ◌*◌, ◌/◌, ◌≡◌, refl, Bool, true, false, Option, none, some, String, str_eq, if◌then◌else◌,
}
use jitsudo.Rows.{State, state_eq, RequestRow, RequestUpdate}
use jitsudo.Store.Requests.{keep, stored_time, updated_row}
use jitsudo.Store.Requests.Table.{find_request}
use jitsudo.World.{Result, ok, err, not_found, wrong_state, Db}

-- A row after an update at the time `now`: the new state, the fields of the update that are set, and
-- all else as it was.
abbrev pub moved_row : State → RequestUpdate → ℕ → RequestRow → RequestRow
moved_row to u now r = record {
  id = r.id;
  state = to;
  requester_identity = r.requester_identity;
  provider = r.provider;
  role = r.role;
  resource_scope = r.resource_scope;
  duration_seconds = r.duration_seconds;
  reason = r.reason;
  break_glass = r.break_glass;
  metadata = r.metadata;
  approver_tier = r.approver_tier;
  approver_identity =
      if str_eq u.approver_identity "" then r.approver_identity else u.approver_identity;
  approver_comment =
      if str_eq u.approver_comment "" then r.approver_comment else u.approver_comment;
  expires_at = elim u.expires_at [ none ↦ r.expires_at | some t ↦ some (t / 1000 * 1000) ];
  revoke_token = if str_eq u.revoke_token "" then r.revoke_token else u.revoke_token;
  credentials_json = elim u.credentials_json [ none ↦ r.credentials_json | some c ↦ some c ];
  ai_reasoning_json =
      if str_eq u.ai_reasoning_json "" then r.ai_reasoning_json else u.ai_reasoning_json;
  created_at = r.created_at;
  updated_at = now / 1000 * 1000;
}

-- The result and the database after a transition of the row that was found.
abbrev pub IsMoved :
    Bool
    → String
    → State
    → State
    → RequestUpdate
    → ℕ
    → RequestRow
    → Db
    → Result RequestRow
    → Db
    → Type 0
IsMoved true id from to u now r d result d' =
    (result ≡ ok (moved_row to u now r))
    × ((j : String)
        → find_request j d'.requests
          ≡ (if str_eq id j then some (moved_row to u now r) else find_request j d.requests))
    × (d' ≡ record d { requests = d'.requests })
IsMoved false id from to u now r d result d' = (result ≡ err (wrong_state from r.state)) × (d' ≡ d)

abbrev pub IsTransitioned :
    String
    → State
    → State
    → RequestUpdate
    → ℕ
    → Option RequestRow
    → Db
    → Result RequestRow
    → Db
    → Type 0
IsTransitioned id from to u now none d result d' = (result ≡ err not_found) × (d' ≡ d)
IsTransitioned id from to u now (some r) d result d' =
    IsMoved (state_eq r.state from) id from to u now r d result d'

keep-elim {ℓ} :
    {A : Type ℓ} (new old : Option A) → keep new old ≡ elim new [ none ↦ old | some a ↦ some a ]
keep-elim none old = refl
keep-elim (some a) old = refl

stored-elim :
    (new old : Option ℕ)
    → elim (stored_time new) [ none ↦ old | some a ↦ some a ]
      ≡ elim new [ none ↦ old | some t ↦ some (t / 1000 * 1000) ]
stored-elim none old = refl
stored-elim (some t) old = refl

pub updated_row-moved :
    (to : State) (u : RequestUpdate) (now : ℕ) (r : RequestRow)
    → updated_row to u now r ≡ moved_row to u now r
unfolding updated_row
updated_row-moved to u now r =
    rw
      (
        keep-elim (stored_time u.expires_at) r.expires_at,
        stored-elim u.expires_at r.expires_at,
        keep-elim u.credentials_json r.credentials_json,
      )
      refl
