-- ===== src/Lifecycle/Runs.antt =====
-- Runs of the engine: any operations in any order, beside other instances that run as well.
use jitsudo.Prelude.{ℕ, ◌≡◌, refl, subst, true, some, String, List, [], ◌∷◌}
use jitsudo.Rows.{State, RequestRow}
use jitsudo.Policy.{Identity}
use jitsudo.Providers.{Registry}
use jitsudo.Store.Requests.Table.{find_request}
use jitsudo.Workflow.Create.{CreateRequestInput, create_request}
use jitsudo.Workflow.Approve.{approve_request, deny_request}
use jitsudo.Workflow.Ai.{ai_approve_request, ai_deny_request, ai_escalate_request}
use jitsudo.Workflow.Revoke.{is_terminal, revoke_request}
use jitsudo.Workflow.Credentials.{get_credentials}
use jitsudo.Workflow.Sweep.{sweep_expired}
use jitsudo.World.{Db, World, Env}
use jitsudo.Lifecycle.{
  ◌⟶◌, ◌⟶*◌, here, step, Evolves, Evolves-refl, Evolves-trans, Keeps, IsCooperative, cooperative,
}
use jitsudo.Lifecycle.Operations.{
  create-Evolves, approve-Evolves, deny-Evolves, ai_approve-Evolves, ai_deny-Evolves,
  ai_escalate-Evolves, revoke-Evolves, get_credentials-Evolves, sweep-Evolves,
}

-- A call of the engine, with its arguments.
pub data Op : Type 0 where
  create : Identity → CreateRequestInput → Op
  approve deny revoke : Identity → String → String → Op
  ai_approve ai_deny ai_escalate : String → String → String → Op
  credentials : Identity → String → Op
  sweep : Op

module _ (env : Env) (registry : Registry) where
  unfoldable pub apply : Op → World → World
  apply (create i input) w = (create_request env registry i input w).1
  apply (approve i id comment) w = (approve_request env registry i id comment w).1
  apply (deny i id reason) w = (deny_request env i id reason w).1
  apply (revoke i id reason) w = (revoke_request env registry i id reason w).1
  apply (ai_approve id agent reasoning) w = (ai_approve_request env registry id agent reasoning w).1
  apply (ai_deny id agent reasoning) w = (ai_deny_request env id agent reasoning w).1
  apply (ai_escalate id agent reasoning) w = (ai_escalate_request env id agent reasoning w).1
  apply (credentials i id) w = (get_credentials env i id w).1
  apply sweep w = (sweep_expired env registry w).1

  unfoldable pub run : List Op → World → World
  run [] w = w
  run (op ∷ ops) w = run ops (apply op w)

module _ {env : Env} (rely : IsCooperative env) (registry : Registry) where
  pub apply-Keeps : (op : Op) (w : World) → Keeps env w (apply env registry op w)
  unfolding apply
  apply-Keeps (create i input) w = (create-Evolves rely registry i input).at w
  apply-Keeps (approve i id comment) w = (approve-Evolves rely registry i id comment).at w
  apply-Keeps (deny i id reason) w = (deny-Evolves rely i id reason).at w
  apply-Keeps (revoke i id reason) w = (revoke-Evolves rely registry i id reason).at w
  apply-Keeps (ai_approve id agent reasoning) w =
      (ai_approve-Evolves rely registry id agent reasoning).at w
  apply-Keeps (ai_deny id agent reasoning) w = (ai_deny-Evolves rely id agent reasoning).at w
  apply-Keeps (ai_escalate id agent reasoning) w =
      (ai_escalate-Evolves rely id agent reasoning).at w
  apply-Keeps (credentials i id) w = (get_credentials-Evolves rely i id).at w
  apply-Keeps sweep w = (sweep-Evolves rely registry).at w

  -- Whatever operations an engine runs, in whatever order and with whatever errors, beside
  -- instances that keep to the lifecycle: a request stays in the table with what was asked for
  -- unchanged and its state moved along the lifecycle, the audit log only grows, and a sound
  -- database (its hash chain verifies, ids are unique, what was granted has a deadline) stays sound.
  pub run-Evolves :
      (ops : List Op) (w : World) → Evolves env.sha256_hex w.db (run env registry ops w).db
  unfolding run
  run-Evolves [] w = Evolves-refl w.db
  run-Evolves (op ∷ ops) w =
      Evolves-trans w.db (apply env registry op w).db _ (apply-Keeps op w)
        (run-Evolves ops (apply env registry op w))

terminal_stays : {s t : State} → is_terminal s ≡ true → s ⟶* t → t ≡ s
terminal_stays h here = refl
terminal_stays h (step ◌⟶◌.approve p) = cc
terminal_stays h (step ◌⟶◌.reject p) = cc
terminal_stays h (step ◌⟶◌.rollback p) = cc
terminal_stays h (step ◌⟶◌.activate p) = cc
terminal_stays h (step ◌⟶◌.expire p) = cc
terminal_stays h (step ◌⟶◌.revoke p) = cc

module _ {env : Env} (rely : IsCooperative env) (registry : Registry) where
  -- A request that is rejected, expired or revoked is so for good: after any run of operations
  -- beside instances that keep to the lifecycle, it is in the same state.
  pub run_terminal :
      (ops : List Op) (w : World) (id : String) (r : RequestRow)
      → find_request id w.db.requests ≡ some r
      → is_terminal r.state ≡ true
      → (r' : RequestRow) × (find_request id (run env registry ops w).db.requests ≡ some r')
        × (r'.state ≡ r.state)
  run_terminal ops w id r found terminal =
      let (r', found', follows) = (run-Evolves rely registry ops w).requests id r found in
      (r', found', terminal_stays terminal follows.path)

  -- The other instances of a second engine may be runs of this one: if an instance works beside
  -- cooperative ones, then an environment whose other instances are runs of it, with any
  -- operations at any moment, is cooperative again.
  pub run-IsCooperative :
      (ops : ℕ → List Op) (at : ℕ → Db → World)
      → ((n : ℕ) (d : Db) → (at n d).db ≡ d)
      → IsCooperative (record env { others = λ n d. (run env registry (ops n) (at n d)).db })
  run-IsCooperative ops at h = cooperative _ λ n d.
      subst (λ x. Evolves env.sha256_hex x (run env registry (ops n) (at n d)).db) (h n d)
        (run-Evolves rely registry (ops n) (at n d))
