-- ===== src/Lifecycle/Operations.antt =====
-- Every operation of the workflow engine (workflow.go) changes the database as the lifecycle
-- allows, on every path, whatever the other instances of the control plane do meanwhile.
use jitsudo.Prelude.{ℕ, refl, Bool, true, false, String, List, [], ◌∷◌}
use jitsudo.Rows.{RequestRow, PrincipalRow}
use jitsudo.Policy.{Identity}
use jitsudo.Providers.{Provider, Registry}
use jitsudo.Store.Requests.{create_request as insert_request}
use jitsudo.Store.Principals.{upsert_principal_last_seen}
use jitsudo.Workflow.Create.{
  CreateRequestInput, new_row, create_by_policy, break_glass_issue, create_break_glass,
  auto_approve_request, route_by_tier, create_request,
}
use jitsudo.Workflow.Approve.{rollback, check_approval, approve_request, deny_request}
use jitsudo.Workflow.Ai.{ai_approve_request, ai_deny_request, ai_escalate_request}
use jitsudo.Workflow.Revoke.{after_transition, revoke_request}
use jitsudo.Workflow.Credentials.{get_credentials}
use jitsudo.Workflow.Sweep.{
  Signal, ticked, done, after_expiry, sweep_one, sweep_each, sweep_listed, after_lock,
  sweep_expired, run_expiry_sweeper,
}
use jitsudo.World.{Error, Result, ok, err, World, Env}
use jitsudo.World.Keeps.{
  Guarantees, Guarantees-bind, Guarantees-modify, Guarantees-pure, guarantee_rules,
}
use jitsudo.Lifecycle.{Follows-refl, Keeps, IsCooperative}
use jitsudo.Lifecycle.Requests.{
  get_request-Evolves, transition_request-Evolves, create_request-Evolves,
  set_approver_tier-Evolves, list_active_expired-Evolves, try_acquire_sweep_lock-Evolves,
  release_sweep_lock-Evolves,
}
use jitsudo.Lifecycle.Steps.{
  legal_rules, append_audit-Evolves, notify-Evolves, issue_grant-Evolves,
  revoke_at_provider-Evolves,
}
use jitsudo.Policy.Frame.{
  eval_eligibility-Guarantees, eval_approval_tier-Guarantees, eval_approval-Guarantees,
}

ruleset step_rules = (
  guarantee_rules, legal_rules, get_request-Evolves, transition_request-Evolves,
  set_approver_tier-Evolves, list_active_expired-Evolves, try_acquire_sweep_lock-Evolves,
  release_sweep_lock-Evolves, append_audit-Evolves, notify-Evolves, issue_grant-Evolves,
  revoke_at_provider-Evolves, eval_eligibility-Guarantees, eval_approval_tier-Guarantees,
  eval_approval-Guarantees,
)

pub principals-Evolves :
    (env : Env) (ps : List PrincipalRow) (w : World)
    → Keeps env w (record w { db = record w.db { principals = ps } })
principals-Evolves env ps w = record {
  requests = λ id r e. (r, e, Follows-refl r);
  log = ([], refl);
  sound = λ s. record { chain = s.chain; keys = s.keys; rows = s.rows };
}

module _ {env : Env} (rely : IsCooperative env) where
  last_seen-Evolves : (id : String) → Guarantees (Keeps env) (upsert_principal_last_seen env id)
  unfolding upsert_principal_last_seen
  last_seen-Evolves id = search (guarantee_rules, Guarantees-modify, principals-Evolves) depth 8

  insert_new-Evolves :
      (i : Identity) (input : CreateRequestInput) (b : Bool) (tier ulid : String) (now : ℕ)
      → Guarantees (Keeps env) (insert_request env (new_row i input b tier ulid now))
  insert_new-Evolves i input b tier ulid now =
      create_request-Evolves rely (new_row i input b tier ulid now) refl

  auto_approve-Evolves :
      (i : Identity) (r : RequestRow) (p : Provider)
      → Guarantees (Keeps env) (auto_approve_request env i r p)
  unfolding auto_approve_request
  auto_approve-Evolves i r p = search step_rules depth 12

  break_glass_issue-Evolves :
      (i : Identity) (p : Provider) (id : String)
      → Guarantees (Keeps env) (break_glass_issue env i p id)
  unfolding break_glass_issue
  break_glass_issue-Evolves i p id = search step_rules depth 12

  break_glass-Evolves :
      (i : Identity) (input : CreateRequestInput) (p : Provider)
      → Guarantees (Keeps env) (create_break_glass env i input p)
  unfolding create_break_glass
  break_glass-Evolves i input p =
      search (step_rules, insert_new-Evolves, break_glass_issue-Evolves) depth 12

  deny_request-Evolves :
      (i : Identity) (id reason : String) → Guarantees (Keeps env) (deny_request env i id reason)
  unfolding deny_request
  deny_request-Evolves i id reason = search step_rules depth 10

  route_by_tier-Evolves :
      (i : Identity) (r : RequestRow) (tier : String) (p : Provider)
      → Guarantees (Keeps env) (route_by_tier env i r tier p)
  unfolding route_by_tier
  route_by_tier-Evolves i r tier p = search (step_rules, auto_approve-Evolves) depth 8

  by_policy-Evolves :
      (i : Identity) (input : CreateRequestInput) (p : Provider)
      → Guarantees (Keeps env) (create_by_policy env i input p)
  unfolding create_by_policy
  by_policy-Evolves i input p =
      search (step_rules, last_seen-Evolves, insert_new-Evolves, route_by_tier-Evolves) depth 16

  pub create-Evolves :
      (r : Registry) (i : Identity) (input : CreateRequestInput)
      → Guarantees (Keeps env) (create_request env r i input)
  unfolding create_request
  create-Evolves r i input = search (step_rules, break_glass-Evolves, by_policy-Evolves) depth 10

  rollback-Evolves : (id : String) (e : Error) → Guarantees (Keeps env) (rollback env id e)
  unfolding rollback
  rollback-Evolves id e = search step_rules depth 8

  check_approval-Evolves :
      (id : String) (v : Result (Bool × String)) → Guarantees (Keeps env) (check_approval env id v)
  unfolding check_approval
  check_approval-Evolves id (err e) = search (step_rules, rollback-Evolves)
  check_approval-Evolves id (ok (allowed, reason)) = search (step_rules, rollback-Evolves)

  pub approve-Evolves :
      (r : Registry) (i : Identity) (id comment : String)
      → Guarantees (Keeps env) (approve_request env r i id comment)
  unfolding approve_request
  approve-Evolves r i id comment = search (step_rules, check_approval-Evolves) depth 12

  pub deny-Evolves :
      (i : Identity) (id reason : String) → Guarantees (Keeps env) (deny_request env i id reason)
  deny-Evolves = deny_request-Evolves

  pub ai_approve-Evolves :
      (r : Registry) (id agent reasoning : String)
      → Guarantees (Keeps env) (ai_approve_request env r id agent reasoning)
  unfolding ai_approve_request
  ai_approve-Evolves r id agent reasoning = search step_rules depth 12

  pub ai_deny-Evolves :
      (id agent reasoning : String)
      → Guarantees (Keeps env) (ai_deny_request env id agent reasoning)
  unfolding ai_deny_request
  ai_deny-Evolves id agent reasoning = search step_rules depth 10

  pub ai_escalate-Evolves :
      (id agent reasoning : String)
      → Guarantees (Keeps env) (ai_escalate_request env id agent reasoning)
  unfolding ai_escalate_request
  ai_escalate-Evolves id agent reasoning = search step_rules depth 10

  after_transition-Evolves :
      (r : Registry) (i : Identity) (id reason : String) (v : Result RequestRow)
      → Guarantees (Keeps env) (after_transition env r i id reason v)
  unfolding after_transition
  after_transition-Evolves r i id reason (err e) = search step_rules depth 8
  after_transition-Evolves r i id reason (ok req) = search step_rules depth 10

  pub revoke-Evolves :
      (r : Registry) (i : Identity) (id reason : String)
      → Guarantees (Keeps env) (revoke_request env r i id reason)
  unfolding revoke_request
  revoke-Evolves r i id reason = search (step_rules, after_transition-Evolves) depth 12

  pub get_credentials-Evolves :
      (i : Identity) (id : String) → Guarantees (Keeps env) (get_credentials env i id)
  unfolding get_credentials
  get_credentials-Evolves i id = search step_rules depth 10

  module _ (r : Registry) where
    after_expiry-Evolves :
        (req : RequestRow) (v : Result RequestRow)
        → Guarantees (Keeps env) (after_expiry env r req v)
    unfolding after_expiry
    after_expiry-Evolves req (err e) = search step_rules
    after_expiry-Evolves req (ok _) = search step_rules depth 8

    sweep_one-Evolves : (req : RequestRow) → Guarantees (Keeps env) (sweep_one env r req)
    unfolding sweep_one
    sweep_one-Evolves req = search (step_rules, after_expiry-Evolves) depth 10

    sweep_each-Evolves : (rs : List RequestRow) → Guarantees (Keeps env) (sweep_each env r rs)
    unfolding sweep_each
    sweep_each-Evolves [] = Guarantees-pure rely tt
    sweep_each-Evolves (req ∷ rest) =
        Guarantees-bind rely (sweep_one env r req) _ (sweep_one-Evolves req)
          λ _. sweep_each-Evolves rest

    sweep_listed-Evolves : Guarantees (Keeps env) (sweep_listed env r)
    unfolding sweep_listed
    sweep_listed-Evolves = search (step_rules, sweep_each-Evolves) depth 8

    after_lock-Evolves : (v : Result Bool) → Guarantees (Keeps env) (after_lock env r v)
    unfolding after_lock
    after_lock-Evolves (err e) = search step_rules
    after_lock-Evolves (ok false) = search step_rules
    after_lock-Evolves (ok true) = search (step_rules, sweep_listed-Evolves) depth 8

    pub sweep-Evolves : Guarantees (Keeps env) (sweep_expired env r)
    unfolding sweep_expired
    sweep-Evolves = search (step_rules, after_lock-Evolves) depth 8

    pub sweeper-Evolves :
        (signals : List Signal) → Guarantees (Keeps env) (run_expiry_sweeper env r signals)
    unfolding run_expiry_sweeper
    sweeper-Evolves [] = Guarantees-pure rely tt
    sweeper-Evolves (done ∷ _) = Guarantees-pure rely tt
    sweeper-Evolves (ticked ∷ signals) =
        Guarantees-bind rely (sweep_expired env r) _ sweep-Evolves λ _. sweeper-Evolves signals
