-- ===== src/Lifecycle/Requests.antt =====
-- The statements of store/requests.go change the database as the lifecycle allows.
use mathlib.Core.Option.{some-injective}
use jitsudo.Prelude.{
  ℕ, ◌+◌, ◌≡◌, refl, sym, ◌∙◌, Bool, true, none, some, String, str_eq, eq_iff, [], arith,
  Bool-cases, Option-cases, inl, inr,
}
use jitsudo.Rows.{State, state_eq, eq_of_state_eq, pending, RequestRow, RequestUpdate}
use jitsudo.World.{Db, World, Env, ◌>>=◌, db_call_locked}
use jitsudo.World.Keeps.{Guarantees, Guarantees-modify, locked_then, guarantee_rules}
use jitsudo.Store.Requests.{
  is_tier, or_human, inserted_row, updated_row, transition_row, tier_row, insert_request,
  pending_row, is_taken, create_request, set_sweep_lock, insert_checked, update_tier, get_request,
  set_approver_tier, list_active_expired, transition_locked, transition_request,
  try_acquire_sweep_lock, release_sweep_lock,
}
use jitsudo.Store.Requests.Table.{find_request}
use jitsudo.Lifecycle.{Follows-refl, IsSoundRow, Evolves, Evolves-refl, Keeps, IsCooperative}
-- A transition of the engine with the update that it comes with: an activation sets the deadline.
use jitsudo.Lifecycle.Updates.{
  Evolves-update, IsLegal, tier_row-Follows, updated_row-Follows, updated_row-IsSoundRow,
}

module _ {env : Env} (rely : IsCooperative env) where
  transition_row-Evolves :
      (id : String) (from to : State) (u : RequestUpdate) (now : ℕ) (d : Db) (r : RequestRow)
      → find_request id d.requests ≡ some r
      → r.state ≡ from
      → IsLegal from to u
      → Evolves env.sha256_hex d (transition_row id to u now d)
  transition_row-Evolves id from to u now d r found e legal =
      Evolves-update env.sha256_hex id (updated_row to u now) d (λ x. unfold updated_row in refl)
        (λ x p.
          updated_row-Follows from to u now x (rw (some-injective x r (sym p ∙ found)) e)
            legal.edge)
        (λ x p s.
          updated_row-IsSoundRow from to u now x (rw (some-injective x r (sym p ∙ found)) e) legal
            s)

  locked_at :
      (id : String) (from to : State) (u : RequestUpdate)
      → IsLegal from to u
      → (w : World) → Evolves env.sha256_hex w.db (transition_locked env id from to u w).1.db
  unfolding transition_locked db_call_locked ◌>>=◌
  locked_at id from to u legal w = elim (Option-cases (find_request id w.db.requests)) [
    | inl absent ↦ rw absent (Evolves-refl w.db)
    | inr (r, found) ↦ rw found (elim (Bool-cases (state_eq r.state from)) [
      | inl same ↦ rw same (
          locked_then rely "store: TransitionRequest update" "store: TransitionRequest commit"
            (transition_row id to u (env.now w.calls)) (record w { calls = w.calls + 1 })
            (transition_row-Evolves id from to u (env.now w.calls) w.db r found
              (eq_of_state_eq r.state from same) legal))
      | inr other ↦ rw other (Evolves-refl w.db)
    ])
  ]

  transition_locked-Evolves :
      (id : String) (from to : State) (u : RequestUpdate)
      → IsLegal from to u
      → Guarantees (Keeps env) (transition_locked env id from to u)
  transition_locked-Evolves id from to u legal = record { at = locked_at id from to u legal }

  pub get_request-Evolves : (id : String) → Guarantees (Keeps env) (get_request env id)
  unfolding get_request
  get_request-Evolves id = search guarantee_rules depth 8

  pub transition_request-Evolves :
      (id : String) (from to : State) (u : RequestUpdate)
      → IsLegal from to u
      → Guarantees (Keeps env) (transition_request env id from to u)
  unfolding transition_request
  transition_request-Evolves id from to u legal =
      search (guarantee_rules, transition_locked-Evolves, get_request-Evolves) depth 8

  -- INSERT of a row under a new id.
  insert-Evolves :
      (row : RequestRow) (d : Db)
      → find_request row.id d.requests ≡ none
      → IsSoundRow row
      → Evolves env.sha256_hex d (insert_request row d)
  unfolding find_request
  insert-Evolves row d new sound = record {
    requests = λ id r e. (r, ground (arith, eq_iff row.id id), Follows-refl r);
    log = ([], refl);
    sound = λ s. record {
      chain = s.chain;
      keys = (new, s.keys);
      rows = λ id r e. elim (Bool-cases (str_eq row.id id)) [
        | inl same ↦ let h : some row ≡ some r = rw same at e in rw (← some-injective row r h) sound
        | inr other ↦ s.rows id r (rw other at e)
      ];
    };
  }

  inserted_row-IsSoundRow :
      (req : RequestRow)
      → req.state ≡ pending
      → is_tier (or_human req.approver_tier) ≡ true
      → IsSoundRow (inserted_row req)
  unfolding inserted_row
  inserted_row-IsSoundRow req e t = record { deadline = rw e; tier = t }

  insert_at :
      (req : RequestRow)
      → req.state ≡ pending
      → (w : World) → Evolves env.sha256_hex w.db (insert_checked env req w).1.db
  unfolding insert_checked ◌>>=◌
  insert_at req e w = elim (Bool-cases (is_tier (or_human req.approver_tier))) [
    | inr bad ↦ rw bad (Evolves-refl w.db)
    | inl good ↦ rw good (elim (Option-cases (find_request req.id w.db.requests)) [
      | inr (r, taken) ↦ rw (taken, is_taken) (Evolves-refl w.db)
      | inl new ↦
          rw (new, is_taken)
            (insert-Evolves (inserted_row req) w.db (unfold inserted_row in new)
              (inserted_row-IsSoundRow req e good))
    ])
  ]

  insert_checked-Evolves :
      (req : RequestRow) → req.state ≡ pending → Guarantees (Keeps env) (insert_checked env req)
  insert_checked-Evolves req e = record { at = insert_at req e }

  pub create_request-Evolves :
      (req : RequestRow) → req.state ≡ pending → Guarantees (Keeps env) (create_request env req)
  unfolding create_request
  create_request-Evolves req e = search (guarantee_rules, insert_checked-Evolves) depth 8

  tier_at :
      (id tier : String) (now : ℕ) (w : World)
      → Evolves env.sha256_hex w.db (update_tier env id tier now w).1.db
  unfolding update_tier ◌>>=◌
  tier_at id tier now w = elim (Bool-cases (pending_row id w.db)) [
    | inr absent ↦ rw absent (Evolves-refl w.db)
    | inl affected ↦ rw affected (elim (Bool-cases (is_tier tier)) [
      | inr bad ↦ rw bad (Evolves-refl w.db)
      | inl good ↦ rw good (
          Evolves-update env.sha256_hex id (tier_row tier now) w.db (λ r. refl)
            (λ r _. tier_row-Follows tier now r)
            (λ r _ s. record { deadline = s.deadline; tier = good }))
    ])
  ]

  update_tier-Evolves :
      (id tier : String) (now : ℕ) → Guarantees (Keeps env) (update_tier env id tier now)
  update_tier-Evolves id tier now = record { at = tier_at id tier now }

  pub set_approver_tier-Evolves :
      (id tier : String) → Guarantees (Keeps env) (set_approver_tier env id tier)
  unfolding set_approver_tier
  set_approver_tier-Evolves id tier = search (guarantee_rules, update_tier-Evolves) depth 8

  pub list_active_expired-Evolves : Guarantees (Keeps env) (list_active_expired env)
  unfolding list_active_expired
  list_active_expired-Evolves = search guarantee_rules depth 8

  lock-Evolves : (b : Bool) → Guarantees (Keeps env) (set_sweep_lock b)
  unfolding set_sweep_lock
  lock-Evolves b =
      Guarantees-modify (λ d. record d { sweep_lock = b })
        λ w. record {
          requests = λ id r e. (r, e, Follows-refl r);
          log = ([], refl);
          sound = λ s. record { chain = s.chain; keys = s.keys; rows = s.rows };
        }

  pub try_acquire_sweep_lock-Evolves : Guarantees (Keeps env) (try_acquire_sweep_lock env)
  unfolding try_acquire_sweep_lock
  try_acquire_sweep_lock-Evolves = search (guarantee_rules, lock-Evolves) depth 8

  pub release_sweep_lock-Evolves : Guarantees (Keeps env) (release_sweep_lock env)
  unfolding release_sweep_lock
  release_sweep_lock-Evolves = search (guarantee_rules, lock-Evolves) depth 8
