-- ===== src/Tests/Engine.antt =====
-- Operations of the engine at concrete worlds.
use jitsudo.Prelude.{◌≡◌, refl, ◌⊎◌, true, false, some, [], ◌∷◌}
use jitsudo.Rows.{pending, active, RequestRow}
use jitsudo.Policy.{decision}
use jitsudo.Workflow.Approve.{approve_request}
use jitsudo.Workflow.Approve.Policy.{approve_request_refused}
use jitsudo.Policy.Refusal.{Refuses}
use jitsudo.World.Stops.{IsErr}
use jitsudo.Workflow.Create.{create_break_glass}
use jitsudo.Workflow.Create.Alert.{
  Alerts, IsRefused, insertion, alert, created_row, create_break_glass-Alerts,
}
use jitsudo.Store.Requests.{get_request}
use jitsudo.Store.Requests.Table.{find_request}
use jitsudo.Workflow.Credentials.{get_credentials}
use jitsudo.Workflow.Credentials.Access.{IsEntitled, get_credentials-IsEntitled}
use jitsudo.World.{World, db_call, ◌>>=◌}
use jitsudo.Tests.Fixtures.{
  calm, calm_answering, allow, registry, aws, alice, bob, input, row, world,
}

abbrev one : World
one = world (row "req_1" pending ∷ [])

pub refuses : Refuses (calm_answering false)
unfolding decision
refuses n q input l h = let e : l ≡ allow false = cc in rw e refl

approve_request_refused_example :
    IsErr (approve_request (calm_answering false) registry bob "req_1" "ok" one).0
    × ((approve_request (calm_answering false) registry bob "req_1" "ok" one).1.effects
        ≡ one.effects)
approve_request_refused_example =
    approve_request_refused (calm_answering false) refuses registry bob "req_1" "ok" one

create_break_glass-Alerts_example :
    let (result, w') = create_break_glass calm alice (input true) aws one in
    IsRefused (insertion calm alice (input true) one) one result w'
    ⊎ Alerts (alert calm alice (created_row calm alice (input true) one)) one w'
create_break_glass-Alerts_example = create_break_glass-Alerts calm alice (input true) aws one

abbrev live_row : RequestRow
live_row = record (row "req_2" active) { expires_at = some 1_900_000_000_000_000_000 }

abbrev live : World
live = world (live_row ∷ [])

get_credentials-IsEntitled_example :
    (r : RequestRow) × (find_request "req_2" live.db.requests ≡ some r)
    × IsEntitled alice (calm.now 1) r (some (("AWS_SESSION_TOKEN", "token") ∷ []))
unfolding get_credentials get_request find_request db_call ◌>>=◌
get_credentials-IsEntitled_example =
    get_credentials-IsEntitled calm alice "req_2" live (some (("AWS_SESSION_TOKEN", "token") ∷ []))
      refl
