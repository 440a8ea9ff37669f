-- ===== src/Tests/Runs.antt =====
-- Runs and sweeps at concrete worlds.
use jitsudo.Prelude.{◌⊎◌, ℕ, ◌≡◌, refl, true, false, some, List, [], ◌∷◌}
use jitsudo.Rows.{pending, rejected, active, expired, RequestRow}
use jitsudo.Store.Requests.{is_active_expired, transition_request}
use jitsudo.Store.Requests.Table.{find_request}
use jitsudo.Store.Requests.Moves.{IsTransitioned}
use jitsudo.Store.Requests.Transition.{transition_request_lem}
use jitsudo.Workflow.{no_update}
use jitsudo.Workflow.Sweep.{sweep_expired}
use jitsudo.Workflow.Sweep.Expiry.{IsNow, sweep_expired_lem, sweep_expired_locked}
use jitsudo.World.{Db, World}
use jitsudo.Lifecycle.{Evolves-refl, IsCooperative, cooperative}
use jitsudo.Lifecycle.Runs.{Op, approve, sweep, credentials, run, run_terminal, run-IsCooperative}
use jitsudo.Tests.Fixtures.{calm, calm-IsQuiet, registry, alice, bob, row, world}

calm-IsCooperative : IsCooperative calm
calm-IsCooperative = cooperative calm λ n d. Evolves-refl d

abbrev ops : List Op
ops = approve bob "req_1" "ok" ∷ credentials alice "req_1" ∷ sweep ∷ []

abbrev two : World
two = world (row "req_1" pending ∷ row "req_2" rejected ∷ [])

run_terminal_example :
    (r' : RequestRow) × (find_request "req_2" (run calm registry ops two).db.requests ≡ some r')
    × (r'.state ≡ rejected)
unfolding find_request
run_terminal_example =
    run_terminal calm-IsCooperative registry ops two "req_2" (row "req_2" rejected) refl refl

abbrev idle : ℕ → Db → World
idle n d = record two { db = d; calls = n }

run-IsCooperative_example :
    IsCooperative (record calm { others = λ n d. (run calm registry ops (idle n d)).db })
run-IsCooperative_example =
    run-IsCooperative calm-IsCooperative registry (λ n. ops) idle (λ n d. refl)

abbrev overdue : World
overdue = world (row "req_1" active ∷ row "req_2" pending ∷ [])

sweep_expired_lem_example :
    IsNow "req_1" expired (sweep_expired calm registry overdue).1
    × ((sweep_expired calm registry overdue).1.db.sweep_lock ≡ false)
unfolding find_request is_active_expired
sweep_expired_lem_example =
    sweep_expired_lem calm-IsQuiet registry overdue "req_1" (row "req_1" active) refl
      (refl, (refl, tt)) refl

abbrev held : World
held = record overdue { db = record overdue.db { sweep_lock = true } }

sweep_expired_locked_example :
    (((sweep_expired calm registry held).1.db ≡ held.db)
      ⊎ ((sweep_expired calm registry held).1.db ≡ held.db))
    × ((sweep_expired calm registry held).1.effects ≡ held.effects)
sweep_expired_locked_example = sweep_expired_locked calm registry held refl

transition_request_lem_example :
    let (result, w') = transition_request calm "req_2" pending rejected no_update overdue in
    IsTransitioned "req_2" pending rejected no_update 1_700_000_000_000_002_000
      (some (row "req_2" pending))
      overdue.db
      result
      w'.db
unfolding find_request
transition_request_lem_example =
    transition_request_lem calm-IsQuiet "req_2" pending rejected no_update overdue
