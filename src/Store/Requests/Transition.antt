-- ===== src/Store/Requests/Transition.antt =====
-- `TransitionRequest` (store/requests.go) is a compare-and-set on the state of one row.
use jitsudo.Prelude.{
  ℕ, ◌+◌, ◌≡◌, ◌∙◌, ap, refl, true, false, none, some, String, str_eq, eq_iff, ◌&&◌, eq_refl,
  if◌then◌else◌, Bool-cases, Option-cases, inl, inr,
}
use jitsudo.Rows.{State, state_eq, RequestRow, RequestUpdate}
use jitsudo.Store.Requests.{
  updated_row, transition_row, get_request, transition_locked, transition_request,
}
use jitsudo.Store.Requests.Moves.{IsTransitioned, moved_row, updated_row-moved}
use jitsudo.Store.Requests.Table.{find_request, find-update}
use jitsudo.World.{ok, err, not_found, wrong_state, Db, World, Env, db_call_locked, ◌>>=◌}
use jitsudo.World.Quiet.{IsQuiet, later, db_call_quiet}

updated_row-id :
    (to : State) (u : RequestUpdate) (now : ℕ) (r : RequestRow) → (updated_row to u now r).id ≡ r.id
unfolding updated_row
updated_row-id to u now r = refl

module _ {env : Env} (quiet : IsQuiet env) where
  pub get_request_quiet :
      (id : String) (r : RequestRow) (w : World)
      → find_request id w.db.requests ≡ some r
      → get_request env id w ≡ (ok r, later w)
  unfolding get_request ◌>>=◌
  get_request_quiet id r w found = rw (db_call_quiet quiet w, found)

  locked_quiet :
      (id : String) (from to : State) (u : RequestUpdate) (w : World) (r : RequestRow)
      → find_request id w.db.requests ≡ some r
      → state_eq r.state from ≡ true
      → transition_locked env id from to u w ≡ (
        ok tt,
        record w {
          db = transition_row id to u (env.now w.calls) w.db;
          calls = w.calls + 1 + 1 + 1;
        },
      )
  unfolding transition_locked ◌>>=◌ db_call_locked
  locked_quiet id from to u w r found same =
      rw (found, same, quiet.no_fault (w.calls + 1), quiet.no_fault (w.calls + 1 + 1))

  pub find-transition :
      (id : String) (to : State) (u : RequestUpdate) (now : ℕ) (d : Db) (r : RequestRow)
      → find_request id d.requests ≡ some r
      → find_request id (transition_row id to u now d).requests ≡ some (updated_row to u now r)
  find-transition id to u now d r found = rw (
    find-update id id (updated_row to u now) d.requests (updated_row-id to u now),
    eq_refl,
    found,
  )

  -- From the expected state the row is updated, and no other.
  pub transition_moves :
      (id : String) (from to : State) (u : RequestUpdate) (w : World) (r : RequestRow)
      → find_request id w.db.requests ≡ some r
      → state_eq r.state from ≡ true
      → let now = env.now (w.calls + 1 + 1) in
        transition_request env id from to u w ≡ (
          ok (updated_row to u now r),
          record w {
            db = transition_row id to u now w.db;
            calls = w.calls + 1 + 1 + 1 + 1 + 1 + 1;
          },
        )
  unfolding transition_request ◌>>=◌
  transition_moves id from to u w r found same =
      rw
        (
          db_call_quiet quiet w,
          db_call_quiet quiet (later w),
          locked_quiet id from to u (later (later w)) r found same,
        )
        (get_request_quiet id (updated_row to u (env.now (w.calls + 1 + 1)) r) _
          (find-transition id to u (env.now (w.calls + 1 + 1)) w.db r found))

  pub transition_missing :
      (id : String) (from to : State) (u : RequestUpdate) (w : World)
      → find_request id w.db.requests ≡ none
      → transition_request env id from to u w
        ≡ (err not_found, record w { calls = w.calls + 1 + 1 })
  unfolding transition_request transition_locked ◌>>=◌
  transition_missing id from to u w absent =
      rw (db_call_quiet quiet w, db_call_quiet quiet (later w), absent)

  pub transition_refused :
      (id : String) (from to : State) (u : RequestUpdate) (w : World) (r : RequestRow)
      → find_request id w.db.requests ≡ some r
      → state_eq r.state from ≡ false
      → transition_request env id from to u w
        ≡ (err (wrong_state from r.state), record w { calls = w.calls + 1 + 1 })
  unfolding transition_request transition_locked ◌>>=◌
  transition_refused id from to u w r found other =
      rw (db_call_quiet quiet w, db_call_quiet quiet (later w), found, other)

  others_stay :
      (id : String) (to : State) (u : RequestUpdate) (now : ℕ) (d : Db) (r : RequestRow)
      → find_request id d.requests ≡ some r
      → (j : String)
      → find_request j (transition_row id to u now d).requests
        ≡ (if str_eq id j then some (moved_row to u now r) else find_request j d.requests)
  others_stay id to u now d r found j =
      find-update id j (updated_row to u now) d.requests (updated_row-id to u now)
      ∙ (elim (Bool-cases (str_eq id j)) [
        | inr other ↦ rw other refl
        | inl same ↦ rw (same, ← ((eq_iff id j).0 same), found, updated_row-moved to u now r) refl
      ])

  -- With no fault and no other instance, `TransitionRequest` is a compare-and-set. A missing row
  -- is ErrNotFound and a row in another state is ErrWrongState, both with the database as it was;
  -- from the expected state the row of that id gets the new state, the fields of the update that are
  -- set and the time of the update, and keeps all else; this row is the result, and every other row
  -- and every other table stays as it was. Times are rounded down to microseconds.
  pub transition_request_lem :
      (id : String) (from to : State) (u : RequestUpdate) (w : World)
      → let (result, w') = transition_request env id from to u w in
        IsTransitioned id from to u
          (env.now (w.calls + 1 + 1))
          (find_request id w.db.requests)
          w.db
          result
          w'.db
  transition_request_lem id from to u w = elim (Option-cases (find_request id w.db.requests)) [
    | inl absent ↦ rw (transition_missing id from to u w absent, absent) (refl, refl)
    | inr (r, found) ↦ elim (Bool-cases (state_eq r.state from)) [
      | inl same ↦
          let now = env.now (w.calls + 1 + 1) in
          rw (transition_moves id from to u w r found same, found, same)
            (ap ok (updated_row-moved to u now r), others_stay id to u now w.db r found, refl)
      | inr other ↦ rw (transition_refused id from to u w r found other, found, other) (refl, refl)
    ]
  ]

  -- What a transition does to the state of every row.
  pub transition_state :
      (id : String) (from to : State) (u : RequestUpdate) (w : World) (j : String) (r : RequestRow)
      → find_request j w.db.requests ≡ some r
      → (r' : RequestRow) × (find_request j (transition_request env id from to u w).1.db.requests
          ≡ some r')
        × (r'.state ≡ (if str_eq id j && state_eq r.state from then to else r.state))
  transition_state id from to u w j r found = elim (Bool-cases (str_eq id j)) [
    | inl same ↦
        let here : find_request id w.db.requests ≡ some r = rw ((eq_iff id j).0 same) found in
        elim (Bool-cases (state_eq r.state from)) [
          | inl fits ↦ (
            updated_row to u (env.now (w.calls + 1 + 1)) r,
            rw (transition_moves id from to u w r here fits)
                (rw (← ((eq_iff id j).0 same)) (find-transition id to u _ w.db r here)),
            rw (same, fits) (unfold updated_row in refl),
          )
          | inr other ↦
              (r, rw (transition_refused id from to u w r here other) found, rw (same, other))
        ]
    | inr other ↦ elim (Option-cases (find_request id w.db.requests)) [
      | inl absent ↦ (r, rw (transition_missing id from to u w absent) found, rw other)
      | inr (x, there) ↦ elim (Bool-cases (state_eq x.state from)) [
        | inl fits ↦ (
          r,
          rw (transition_moves id from to u w x there fits) (
              rw
                (
                  find-update id j (updated_row to u (env.now (w.calls + 1 + 1))) w.db.requests
                      (updated_row-id to u (env.now (w.calls + 1 + 1))),
                  other,
                )
                found),
          rw other,
        )
        | inr unfit ↦ (r, rw (transition_refused id from to u w x there unfit) found, rw other)
      ]
    ]
  ]
