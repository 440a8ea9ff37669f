-- ===== src/Workflow/Approve/Policy.antt =====
-- `ApproveRequest` issues nothing without the approval policy.
use jitsudo.Prelude.{◌≡◌, Bool, String}
use jitsudo.Rows.{RequestRow}
use jitsudo.Policy.{Identity, eval_approval}
use jitsudo.Policy.Frame.{eval_approval-Guarantees}
use jitsudo.Policy.Refusal.{Refuses, IsRefused, eval_approval_refused}
use jitsudo.Providers.{Registry}
use jitsudo.Workflow.Effects.{Silent, rely-Silent, transition-Silent}
use jitsudo.Workflow.Approve.{rollback, check_approval, approve_request}
use jitsudo.World.{Error, Result, ok, err, World, Env, try}
use jitsudo.World.Keeps.{guarantee_rules}
use jitsudo.World.Stops.{
  IsErr, Stops, Stops-bind, Stops-bind_left, Stops-raise, Returns, Returns-any, ok-injective,
}

module _ (env : Env) (refuses : Refuses env) where
  IsRefused-at :
      (i : Identity) (req : RequestRow) (w : World) (v : Result (Bool × String))
      → (eval_approval env i req w).0 ≡ v
      → IsRefused v
  IsRefused-at i req w (ok v) e = (eval_approval_refused env refuses i req).at w v e
  IsRefused-at i req w (err x) e = tt

  tried-IsRefused :
      (i : Identity) (req : RequestRow) → Returns IsRefused (try (eval_approval env i req))
  unfolding try
  tried-IsRefused i req = record { at = λ w v h. IsRefused-at i req w v (ok-injective h) }

  rollback-Stops : (id : String) (e : Error) → Stops Silent (rollback env id e)
  unfolding rollback
  rollback-Stops id e =
      Stops-bind (rely-Silent env) (λ _. Unit) _ _
        (search (rely-Silent env, guarantee_rules, transition-Silent env)) (Returns-any _)
        λ _ _. Stops-raise (rely-Silent env) e

  check_approval-Stops :
      (id : String) (v : Result (Bool × String))
      → IsRefused v
      → Stops Silent (check_approval env id v)
  unfolding check_approval
  check_approval-Stops id (err e) h = rollback-Stops id _
  check_approval-Stops id (ok v) h = rw h (rollback-Stops id _)

  -- Where OPA answers no query with `true`, `ApproveRequest` fails, with no call of a provider and
  -- no notification, whatever the state of the request, the database errors and the other instances.
  pub approve_request_refused :
      (registry : Registry) (approver : Identity) (id comment : String) (w : World)
      → IsErr (approve_request env registry approver id comment w).0
        × ((approve_request env registry approver id comment w).1.effects ≡ w.effects)
  unfolding approve_request
  approve_request_refused registry approver id comment w =
      (Stops-bind (rely-Silent env) (λ _. Unit) _ _
          (search (rely-Silent env, guarantee_rules, transition-Silent env)) (Returns-any _)
          λ req _.
            Stops-bind (rely-Silent env) IsRefused _ _
              (search (rely-Silent env, guarantee_rules, eval_approval-Guarantees))
              (tried-IsRefused approver req)
              λ v r. Stops-bind_left (rely-Silent env) _ _ (check_approval-Stops id v r)).at
        w
