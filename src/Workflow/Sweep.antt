-- ===== src/Workflow/Sweep.antt =====
-- `RunExpirySweeper` and `sweepExpired`.
pub mod Expiry
use jitsudo.Prelude.{Bool, true, false, none, List, [], ◌∷◌}
use jitsudo.Rows.{State, RequestRow}
use jitsudo.Audit.Action
use jitsudo.Providers.{Registry, get}
use jitsudo.Store.Requests.{
  list_active_expired, transition_request, try_acquire_sweep_lock, release_sweep_lock,
}
use jitsudo.Workflow.{no_update, success, event, notify, append_audit, revoke_at_provider}
use jitsudo.World.{Result, ok, err, EventType, Env, M, pure, try, ◌>>=◌, ◌>>◌}

-- What the select of `RunExpirySweeper` receives.
pub data Signal : Type 0 where
  ticked done : Signal

module _ (env : Env) (registry : Registry) where
  unfoldable pub after_expiry : RequestRow → Result RequestRow → M (Unit {0})
  after_expiry req (err _) = pure tt
  after_expiry req (ok _) = do
    append_audit env (success "system" Action.grant_expired req.id req "")
    notify (event EventType.expired req.id "system" req "" none)

  -- The body of the loop of `sweepExpired`.
  unfoldable pub sweep_one : RequestRow → M (Unit {0})
  sweep_one req = do
    revoke_at_provider env (get registry req.provider) req
    result ← try (transition_request env req.id State.active State.expired no_update)
    after_expiry req result

  unfoldable pub sweep_each : List RequestRow → M (Unit {0})
  sweep_each [] = pure tt
  sweep_each (req ∷ rest) = do sweep_one req; sweep_each rest

  unfoldable pub sweep_listed : M (Unit {0})
  sweep_listed = do expired ← list_active_expired env; sweep_each expired

  -- The lock is released on every path out.
  unfoldable pub after_lock : Result Bool → M (Unit {0})
  after_lock (err _) = pure tt
  after_lock (ok false) = pure tt
  after_lock (ok true) = do try sweep_listed; try (release_sweep_lock env); pure tt

  unfoldable pub sweep_expired : M (Unit {0})
  sweep_expired = do acquired ← try (try_acquire_sweep_lock env); after_lock acquired

  unfoldable pub run_expiry_sweeper : List Signal → M (Unit {0})
  run_expiry_sweeper [] = pure tt
  run_expiry_sweeper (done ∷ _) = pure tt
  run_expiry_sweeper (ticked ∷ signals) = do sweep_expired; run_expiry_sweeper signals
