-- ===== src/Workflow/Approve/Rollback.antt =====
-- What `ApproveRequest` leaves when the approval policy refuses or fails.
use jitsudo.Prelude.{◌+◌, ◌≡◌, refl, Bool, true, some, String}
use jitsudo.Rows.{State, pending, state_eq, RequestRow}
use jitsudo.Policy.{Identity, eval_approval}
use jitsudo.Providers.{Registry}
use jitsudo.Store.Requests.{keep_text, updated_row}
use jitsudo.Store.Requests.Table.{find_request}
use jitsudo.Store.Requests.Transition.{transition_moves, find-transition}
use jitsudo.Workflow.{no_update}
use jitsudo.Workflow.Approve.{decided_by, rollback, check_approval, approve_request}
use jitsudo.Workflow.Approve.Grant.{approved_row, approved_world, evaluated_world}
use jitsudo.Policy.Refusal.{IsRefused}
use jitsudo.World.Stops.{IsErr}
use jitsudo.Workflow.Quiet.Issue.{eval_approval_quiet}
use jitsudo.World.{Error, Result, ok, err, World, Env, M, ◌>>=◌, raise}
use jitsudo.World.Quiet.{IsQuiet}

-- The row waits again, under the name of the approver who was refused, and nothing went out.
abbrev pub IsRolledBack : String → String → RequestRow → World → World → Type 0
IsRolledBack id who r v w =
    (row : RequestRow) × (find_request id w.db.requests ≡ some row)
    × (row.state ≡ pending)
    × (row.approver_identity ≡ keep_text who r.approver_identity)
    × (w.effects ≡ v.effects)
    × (w.db.audit_events ≡ v.db.audit_events)

module _ {env : Env} (quiet : IsQuiet env) (registry : Registry) (approver : Identity)
    (id comment : String) (r : RequestRow) (w : World)
    (found : find_request id w.db.requests ≡ some r) (is_pending : r.state ≡ pending) where
  found_approved :
      find_request id (approved_world env approver id comment r w).db.requests
      ≡ some (approved_row env approver id comment r w)
  found_approved = find-transition quiet id State.approved _ _ w.db r found

  is_approved : state_eq (approved_row env approver id comment r w).state State.approved ≡ true
  unfolding updated_row
  is_approved = refl

  rolled :
      {A : Type 0} (e : Error) (k : M A)
      → let (result, w') =
          (rollback env id e >>= λ _. k) (evaluated_world env approver id comment r w) in
        IsErr result × IsRolledBack id approver.email r w w'
  unfolding rollback raise updated_row ◌>>=◌
  rolled e k =
      rw
        (transition_moves quiet id State.approved State.pending no_update
          (evaluated_world env approver id comment r w) (approved_row env approver id comment r w)
          found_approved is_approved)
        (
          tt,
          (
            updated_row State.pending no_update
                (env.now ((evaluated_world env approver id comment r w).calls + 1 + 1))
                (approved_row env approver id comment r w),
            find-transition quiet id State.pending no_update _
                (approved_world env approver id comment r w).db
                (approved_row env approver id comment r w) found_approved,
            refl,
            refl,
            refl,
            refl,
          ),
        )

  refused_check :
      {A : Type 0} (v : Result (Bool × String)) (k : M A)
      → IsRefused v
      → let (result, w') =
          (check_approval env id v >>= λ _. k) (evaluated_world env approver id comment r w) in
        IsErr result × IsRolledBack id approver.email r w w'
  unfolding check_approval
  refused_check (err e) k h = rolled _ k
  refused_check (ok v) k h = rw h (rolled _ k)

  -- With no fault and no other instance, `ApproveRequest` on a PENDING request that the approval
  -- policy refuses, or whose evaluation fails, returns an error and leaves the request PENDING, with
  -- no provider call, no notification and no audit row; the row keeps the name of the approver.
  pub approve_request-IsRolledBack :
      IsRefused
        (eval_approval env approver
          (approved_row env approver id comment r w)
          (approved_world env approver id comment r w)).0
      → let (result, w') = approve_request env registry approver id comment w in
        IsErr result × IsRolledBack id approver.email r w w'
  unfolding approve_request ◌>>=◌
  approve_request-IsRolledBack refused =
      rw
        (
          transition_moves quiet id State.pending State.approved (decided_by approver comment) w r
              found (rw is_pending),
          eval_approval_quiet quiet approver (approved_row env approver id comment r w)
              (approved_world env approver id comment r w),
        )
        (refused_check _ _ refused)
