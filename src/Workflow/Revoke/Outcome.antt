-- ===== src/Workflow/Revoke/Outcome.antt =====
-- What `RevokeRequest` does in each state of the request, for each caller.
use jitsudo.Prelude.{
  ◌+◌, ◌≡◌, refl, sym, subst, Bool, true, false, none, some, String, ◌∷◌, Bool-cases, inl, inr,
  arith,
}
use jitsudo.Rows.{State, revoked, state_eq, RequestRow, AuditEventRow}
use jitsudo.Audit.{entry_row}
use jitsudo.Audit.Action
use jitsudo.Policy.{Identity}
use jitsudo.Providers.{Provider, Registry, get, call_revoke}
use jitsudo.Store.Requests.{updated_row}
use jitsudo.Store.Requests.Table.{find_request}
use jitsudo.Store.Requests.Transition.{
  get_request_quiet, transition_moves, transition_refused, find-transition,
}
use jitsudo.Workflow.{grant_of_row, event, notify, revoke_at_provider}
use jitsudo.Workflow.Revoke.{
  is_wrong_state, may_revoke, is_terminal, revoke_update, after_transition, revoke_request,
}
use jitsudo.Workflow.Quiet.Append.{append_audit_quiet}
use jitsudo.Workflow.Quiet.Issue.{OnlyCalls}
use jitsudo.World.{Result, ok, EventType, notified, revoke_called, World, Env, raise_if, ◌>>=◌}
use jitsudo.World.Quiet.{IsQuiet, later}
use jitsudo.World.Stops.{IsErr}

-- The row is REVOKED; the provider was told, once, and then the notification went out; the log has
-- the action.
abbrev pub IsRevoked : String → String → String → World → Result RequestRow → World → Type 0
IsRevoked id who reason v result w =
    (row : RequestRow) × (result ≡ ok row)
    × (find_request id w.db.requests ≡ some row)
    × (row.state ≡ revoked)
    × (w.effects
        ≡ notified (event EventType.revoked id who row reason none)
          ∷ revoke_called (grant_of_row row)
          ∷ v.effects)
    × (entry : AuditEventRow) × (w.db.audit_events ≡ entry ∷ v.db.audit_events)
    × (entry.action ≡ Action.grant_revoked)
    × (entry.actor_identity ≡ who)

-- The outcome for a caller who may revoke or not, and for a row that is ACTIVE or not.
abbrev pub Outcome :
    Bool → Bool → String → String → String → RequestRow → World → Result RequestRow → World → Type 0
Outcome false is_active id who reason r v result w = IsErr result × OnlyCalls v w
Outcome true false id who reason r v result w = (result ≡ ok r) × OnlyCalls v w
Outcome true true id who reason r v result w = IsRevoked id who reason v result w

at_provider :
    (env : Env) (p : Provider) (req : RequestRow) (w : World)
    → revoke_at_provider env (some p) req w ≡ (
      ok tt,
      record w { effects = revoke_called (grant_of_row req) ∷ w.effects; calls = w.calls + 1 },
    )
unfolding revoke_at_provider call_revoke ◌>>=◌
at_provider env p req w = refl

module _ {env : Env} (quiet : IsQuiet env) (registry : Registry) (actor : Identity)
    (id reason : String) (p : Provider) (r : RequestRow) (w : World)
    (found : find_request id w.db.requests ≡ some r)
    (registered : get registry r.provider ≡ some p) where
  abbrev revoked_row : RequestRow
  revoked_row = updated_row State.revoked (revoke_update reason) (env.now (w.calls + 1 + 1 + 1)) r

  registered_revoked : get registry revoked_row.provider ≡ some p
  unfolding updated_row
  registered_revoked = registered

  active_is_open : (s : State) → state_eq s State.active ≡ true → is_terminal s ≡ false
  active_is_open s h = ground arith

  active_outcome :
      may_revoke actor r ≡ true
      → state_eq r.state State.active ≡ true
      → let (result, w') = revoke_request env registry actor id reason w in
        IsRevoked id actor.email reason w result w'
  unfolding revoke_request after_transition raise_if notify updated_row entry_row ◌>>=◌
  active_outcome may is_active =
      rw
        (
          get_request_quiet quiet id r w found,
          may,
          active_is_open r.state is_active,
          transition_moves quiet id State.active State.revoked (revoke_update reason) (later w) r
              found is_active,
          registered_revoked,
          at_provider env p revoked_row _,
          append_audit_quiet quiet _ _,
        )
        (
          revoked_row,
          refl,
          find-transition quiet id State.revoked (revoke_update reason) _ w.db r found,
          refl,
          refl,
          _,
          refl,
          refl,
          refl,
        )

  idle_outcome :
      may_revoke actor r ≡ true
      → state_eq r.state State.active ≡ false
      → let (result, w') = revoke_request env registry actor id reason w in
        (result ≡ ok r) × OnlyCalls w w'
  unfolding revoke_request after_transition raise_if is_wrong_state ◌>>=◌
  idle_outcome may idle = elim (Bool-cases (is_terminal r.state)) [
    | inl terminal ↦ rw (get_request_quiet quiet id r w found, may, terminal) (refl, refl)
    | inr waits ↦
        rw
          (
            get_request_quiet quiet id r w found,
            may,
            waits,
            transition_refused quiet id State.active State.revoked (revoke_update reason) (later w)
                r found idle,
            get_request_quiet quiet id r (later (later (later w))) found,
          )
          (refl, refl)
  ]

  denied_outcome :
      may_revoke actor r ≡ false
      → let (result, w') = revoke_request env registry actor id reason w in
        IsErr result × OnlyCalls w w'
  unfolding revoke_request raise_if ◌>>=◌
  denied_outcome may = rw (get_request_quiet quiet id r w found, may) (tt, refl)

  -- With no fault and no other instance, `RevokeRequest` on an existing request whose provider is
  -- registered does one of three things. For a caller who is neither the requester nor an
  -- administrator it fails and changes nothing. For a request that is not ACTIVE, which includes the
  -- PENDING and the APPROVED ones, it returns the row without an error and changes nothing. For an
  -- ACTIVE one it returns the REVOKED row that is then stored, calls the provider exactly once whether
  -- that fails or not, notifies after that, and adds one audit row.
  pub revoke_request_lem :
      let (result, w') = revoke_request env registry actor id reason w in
      Outcome
        (may_revoke actor r)
        (state_eq r.state State.active)
        id
        actor.email
        reason
        r
        w
        result
        w'
  revoke_request_lem = elim (Bool-cases (may_revoke actor r)) [
    | inr denied ↦
        subst
          (λ b.
            Outcome b (state_eq r.state State.active) id actor.email reason r w
              (revoke_request env registry actor id reason w).0
              (revoke_request env registry actor id reason w).1)
          (sym denied) (denied_outcome denied)
    | inl may ↦ elim (Bool-cases (state_eq r.state State.active)) [
      | inr idle ↦ rw (may, idle) (idle_outcome may idle)
      | inl is_active ↦ rw (may, is_active) (active_outcome may is_active)
    ]
  ]
