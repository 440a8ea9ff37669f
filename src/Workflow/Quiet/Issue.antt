-- ===== src/Workflow/Quiet/Issue.antt =====
-- In a quiet environment: the issue of a grant, and the evaluation of the approval policy.
use jitsudo.Prelude.{◌+◌, ◌≡◌, refl, ap, true, some, String, ◌∷◌}
use jitsudo.Rows.{State, state_eq, RequestRow}
use jitsudo.Policy.{Identity, eval_approval}
use jitsudo.Policy.Frame.{eval_approval-Guarantees}
use jitsudo.Providers.{Provider, call_grant}
use jitsudo.Store.Requests.{updated_row, transition_row}
use jitsudo.Store.Requests.Table.{find_request}
use jitsudo.Store.Requests.Transition.{transition_moves}
use jitsudo.Workflow.{elevation_request, grant_update, issue_grant}
use jitsudo.World.{ok, ElevationGrant, grant_called, World, Env, ◌>>=◌}
use jitsudo.World.Keeps.{Rely}
use jitsudo.World.Quiet.{IsQuiet}

-- Nothing but the number of calls has changed.
abbrev pub OnlyCalls : World → World → Type 0
OnlyCalls v w = w ≡ record v { calls = w.calls }

module _ (env : Env) (g : ElevationGrant) (id : String) (w : World) (r : RequestRow) where
  -- The row and the world that the grant `g` leaves.
  abbrev pub active_row : RequestRow
  active_row = updated_row State.active (grant_update g) (env.now (w.calls + 1 + 1 + 1)) r

  abbrev pub issued : RequestRow → World
  issued req = record w {
    db = transition_row id State.active (grant_update g) (env.now (w.calls + 1 + 1 + 1)) w.db;
    calls = w.calls + 1 + 1 + 1 + 1 + 1 + 1 + 1;
    effects = grant_called (elevation_request req) ∷ w.effects;
  }

module _ {env : Env} (quiet : IsQuiet env) where
  pub rely-OnlyCalls : Rely env OnlyCalls
  rely-OnlyCalls = record {
    same = λ w. refl;
    after = λ u v w p q. rw p at q;
    asked = λ w. refl;
    others = λ w. rw (quiet.alone w.calls w.db);
  }

  eval_approval-OnlyCalls :
      (i : Identity) (req : RequestRow) (w : World) → OnlyCalls w (eval_approval env i req w).1
  eval_approval-OnlyCalls i req w = (eval_approval-Guarantees rely-OnlyCalls i req).at w

  pub eval_approval_quiet :
      (i : Identity) (req : RequestRow) (w : World)
      → eval_approval env i req w
        ≡ ((eval_approval env i req w).0, record w { calls = (eval_approval env i req w).1.calls })
  eval_approval_quiet i req w =
      ap (λ v. ((eval_approval env i req w).0, v)) (eval_approval-OnlyCalls i req w)

  pub issue_grant_quiet :
      (s t : String) (p : Provider) (g : ElevationGrant) (id : String) (req r : RequestRow)
      (w : World)
      → find_request id w.db.requests ≡ some r
      → state_eq r.state State.approved ≡ true
      → p.grant w.calls (elevation_request req) ≡ ok g
      → issue_grant env s t p id req w
        ≡ (ok (active_row env g id w r, g.expires_at), issued env g id w r req)
  unfolding issue_grant call_grant ◌>>=◌
  issue_grant_quiet s t p g id req r w found approved grants = rw (
    grants,
    transition_moves quiet id State.approved State.active (grant_update g)
        (record w {
          calls = w.calls + 1;
          effects = grant_called (elevation_request req) ∷ w.effects;
        })
        r found approved,
  )
