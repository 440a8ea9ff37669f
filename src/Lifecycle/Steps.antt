-- ===== src/Lifecycle/Steps.antt =====
-- What the operations of the engine are made of (workflow.go, policy.go) changes the database as the
-- lifecycle allows.
use jitsudo.Prelude.{ℕ, ◌≡◌, refl, true, Option, none, some, String, arith}
use jitsudo.Rows.{
  State, pending, approved, rejected, active, expired, revoked, RequestRow, RequestUpdate,
}
use jitsudo.Audit.{Entry}
use jitsudo.Providers.{Provider, call_grant, call_revoke}
use jitsudo.Workflow.{
  no_update, grant_update, append_audit, issue_grant, revoke_at_provider, notify,
}
use jitsudo.Workflow.Revoke.{revoke_update}
use jitsudo.World.{ElevationRequest, ElevationGrant, Event, Effect, notified, emit, Env}
use jitsudo.World.Keeps.{Guarantees, Guarantees-emit, guarantee_rules}
use jitsudo.Lifecycle.{
  ◌⟶◌, approve, reject, activate, expire, revoke, has_deadline, Evolves-refl, Keeps, IsCooperative,
}
use jitsudo.Lifecycle.Requests.{transition_request-Evolves}
use jitsudo.Lifecycle.Updates.{IsLegal}
use jitsudo.Lifecycle.Audit.{append-Evolves}

pub approve-IsLegal : (u : RequestUpdate) → IsLegal pending approved u
approve-IsLegal u = record { edge = approve; deadline = λ old _. refl }

pub reject-IsLegal : (u : RequestUpdate) → IsLegal pending rejected u
reject-IsLegal u = record { edge = reject; deadline = λ old _. refl }

pub rollback-IsLegal : (u : RequestUpdate) → IsLegal approved pending u
rollback-IsLegal u = record { edge = ◌⟶◌.rollback; deadline = λ old _. refl }

pub activate-IsLegal : (g : ElevationGrant) → IsLegal approved active (grant_update g)
unfolding grant_update
activate-IsLegal g = record { edge = activate; deadline = λ old _. refl }

keeps_deadline :
    (s : State) (old : Option ℕ) → has_deadline active old ≡ true → has_deadline s old ≡ true
keeps_deadline s none h = ground arith
keeps_deadline active (some t) h = refl
keeps_deadline _ (some t) h = refl

pub expire-IsLegal : IsLegal active expired no_update
expire-IsLegal = record { edge = expire; deadline = λ old h. keeps_deadline expired old h }

pub revoke-IsLegal : (reason : String) → IsLegal active revoked (revoke_update reason)
revoke-IsLegal reason = record { edge = revoke; deadline = λ old h. keeps_deadline revoked old h }

pub ruleset legal_rules = (
  approve-IsLegal, reject-IsLegal, rollback-IsLegal, activate-IsLegal, expire-IsLegal,
  revoke-IsLegal,
)

module _ {env : Env} (rely : IsCooperative env) where
  pub append_audit-Evolves : (e : Entry) → Guarantees (Keeps env) (append_audit env e)
  unfolding append_audit
  append_audit-Evolves e = search (guarantee_rules, append-Evolves) depth 8

  pub notify-Evolves : (e : Event) → Guarantees (Keeps env) (notify e)
  unfolding notify
  notify-Evolves e = Guarantees-emit (notified e) λ w. Evolves-refl w.db

  emit-Evolves : (e : Effect) → Guarantees (Keeps env) (emit e)
  emit-Evolves e = Guarantees-emit e λ w. Evolves-refl w.db

  pub call_grant-Evolves :
      (p : Provider) (req : ElevationRequest) → Guarantees (Keeps env) (call_grant p req)
  unfolding call_grant
  call_grant-Evolves p req = search (guarantee_rules, emit-Evolves) depth 8

  pub issue_grant-Evolves :
      (s t : String) (p : Provider) (id : String) (req : RequestRow)
      → Guarantees (Keeps env) (issue_grant env s t p id req)
  unfolding issue_grant
  issue_grant-Evolves s t p id req =
      search (guarantee_rules, call_grant-Evolves, transition_request-Evolves, activate-IsLegal)
        depth 8

  pub call_revoke-Evolves :
      (p : Provider) (g : ElevationGrant) → Guarantees (Keeps env) (call_revoke p g)
  unfolding call_revoke
  call_revoke-Evolves p g = search (guarantee_rules, emit-Evolves) depth 8

  pub revoke_at_provider-Evolves :
      (p : Option Provider) (req : RequestRow)
      → Guarantees (Keeps env) (revoke_at_provider env p req)
  unfolding revoke_at_provider
  revoke_at_provider-Evolves none req = search guarantee_rules
  revoke_at_provider-Evolves (some p) req = search (guarantee_rules, call_revoke-Evolves) depth 8
