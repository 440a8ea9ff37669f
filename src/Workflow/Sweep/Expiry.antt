-- ===== src/Workflow/Sweep/Expiry.antt =====
-- What a sweep does (`sweepExpired` of workflow.go): exactly the grants past their deadline expire.
use jitsudo.Prelude.{
  ℕ, ◌+◌, ◌≡◌, refl, subst, Bool, true, false, ◌&&◌, ◌||◌, Option, none, some, String, str_eq,
  eq_iff, List, [], ◌∷◌, any, select, arith, if◌then◌else◌, Bool-cases, Option-cases, ◌⊎◌, inl, inr,
}
use jitsudo.Rows.{State, active, expired, state_eq, RequestRow}
use jitsudo.Providers.{Provider, Registry, get}
use jitsudo.Store.Requests.{
  is_active_expired, list_active_expired, transition_request, try_acquire_sweep_lock,
  release_sweep_lock, set_sweep_lock,
}
use jitsudo.Store.Requests.Table.{find_request, IsKeyed}
use jitsudo.Store.Requests.Transition.{transition_state}
use jitsudo.Workflow.{no_update, revoke_at_provider, append_audit, notify}
use jitsudo.Workflow.Quiet.{
  SameRequests, quiet-rely, notify-SameRequests, append_audit-SameRequests,
  revoke_at_provider-SameRequests,
}
use jitsudo.Workflow.Sweep.{
  after_expiry, sweep_one, sweep_each, sweep_listed, after_lock, sweep_expired,
}
use jitsudo.World.{Result, ok, err, World, Env, M, db_call, ◌>>=◌}
use jitsudo.World.Keeps.{Guarantees, guarantee_rules}
use jitsudo.World.Quiet.{IsQuiet, later, db_call_quiet}

-- Where a row that was there as `r` has the state `s` now.
abbrev pub IsNow : String → State → World → Type 0
IsNow id s w = (r : RequestRow) × (find_request id w.db.requests ≡ some r) × (r.state ≡ s)

abbrev pub expire_if : Bool → State → State
expire_if hit s = if hit && state_eq s active then expired else s

IsNow-same :
    (id : String) (s : State) (v w : World) → SameRequests v w → IsNow id s v → IsNow id s w
IsNow-same id s v w same (r, found, e) = (r, rw (same.0) found, e)

expire_if-expire_if : (a b : Bool) (s : State) → expire_if b (expire_if a s) ≡ expire_if (a || b) s
expire_if-expire_if a b s = ground arith

any-select-none :
    (id : String) (p : RequestRow → Bool) (l : List RequestRow)
    → find_request id l ≡ none
    → any (λ x. str_eq x.id id) (select p l) ≡ false
unfolding find_request
any-select-none id p [] e = refl
any-select-none id p (x ∷ l) e = ground (arith, any-select-none id p l)

-- The rows of a table with a key that pass a test hold `id` where the row of `id` passes it.
any-select :
    (id : String) (p : RequestRow → Bool) (l : List RequestRow) (r : RequestRow)
    → IsKeyed l
    → find_request id l ≡ some r
    → any (λ x. str_eq x.id id) (select p l) ≡ p r
unfolding find_request
any-select id p [] r k e = cc
any-select id p (x ∷ l) r k e = elim (Bool-cases (str_eq x.id id)) [
  | inl same ↦ ground (arith, any-select-none id p l, eq_iff x.id id)
  | inr other ↦ ground (arith, any-select id p l r k.1)
]

revoke_at_provider_ok :
    (env : Env) (p : Option Provider) (req : RequestRow) (w : World)
    → (revoke_at_provider env p req w).0 ≡ ok tt
unfolding revoke_at_provider ◌>>=◌
revoke_at_provider_ok env none req w = refl
revoke_at_provider_ok env (some p) req w = refl

after_expiry_ok :
    (env : Env) (registry : Registry) (req : RequestRow) (v : Result RequestRow) (w : World)
    → (after_expiry env registry req v w).0 ≡ ok tt
unfolding after_expiry append_audit notify ◌>>=◌
after_expiry_ok env registry req (err e) w = refl
after_expiry_ok env registry req (ok _) w = refl

expire_if-is_active_expired :
    (now : ℕ) (r : RequestRow)
    → expire_if (is_active_expired now r) r.state
      ≡ (if is_active_expired now r then expired else r.state)
unfolding is_active_expired
expire_if-is_active_expired now r = ground arith

module _ {env : Env} (quiet : IsQuiet env) (registry : Registry) where
  after_expiry-SameRequests :
      (req : RequestRow) (v : Result RequestRow)
      → Guarantees SameRequests (after_expiry env registry req v)
  unfolding after_expiry
  after_expiry-SameRequests req (err e) = search (quiet-rely quiet, guarantee_rules)
  after_expiry-SameRequests req (ok _) =
      search (quiet-rely quiet, guarantee_rules, notify-SameRequests, append_audit-SameRequests)
        depth 8

  abbrev to_expired : RequestRow → M RequestRow
  to_expired req = transition_request env req.id active expired no_update

  sweep_one_ok : (req : RequestRow) (w : World) → (sweep_one env registry req w).0 ≡ ok tt
  unfolding sweep_one ◌>>=◌
  sweep_one_ok req w =
      rw (revoke_at_provider_ok env (get registry req.provider) req w)
        (after_expiry_ok env registry req _ _)

  sweep_one_state :
      (req : RequestRow) (w : World) (id : String) (s : State)
      → IsNow id s w
      → IsNow id (expire_if (str_eq req.id id) s) (sweep_one env registry req w).1
  unfolding sweep_one ◌>>=◌
  sweep_one_state req w id s h =
      let p = get registry req.provider in
      let v = (revoke_at_provider env p req w).1 in
      let (r, found, e) =
        IsNow-same id s w v ((revoke_at_provider-SameRequests (quiet-rely quiet) p req).at w) h in
      let (r', found', e') = transition_state quiet req.id active expired no_update v id r found in
      let moved : IsNow id (expire_if (str_eq req.id id) s) (to_expired req v).1 =
        (r', found', rw e at e') in
      rw (revoke_at_provider_ok env p req w) (
        IsNow-same id (expire_if (str_eq req.id id) s) (to_expired req v).1
          (after_expiry env registry req (to_expired req v).0 (to_expired req v).1).1
          ((after_expiry-SameRequests req (to_expired req v).0).at (to_expired req v).1) moved)

  -- Row by row: a later visit of an expired row changes nothing.
  sweep_each_state :
      (l : List RequestRow) (w : World) (id : String) (s : State)
      → IsNow id s w
      → IsNow id (expire_if (any (λ x. str_eq x.id id) l) s) (sweep_each env registry l w).1
  unfolding sweep_each ◌>>=◌
  sweep_each_state [] w id s h = h
  sweep_each_state (x ∷ l) w id s h =
      rw (sweep_one_ok x w, ← expire_if-expire_if (str_eq x.id id) (any (λ y. str_eq y.id id) l) s)
        (sweep_each_state l (sweep_one env registry x w).1 id (expire_if (str_eq x.id id) s)
          (sweep_one_state x w id s h))

  sweep_listed_state :
      (w : World) (id : String) (r : RequestRow)
      → IsKeyed w.db.requests
      → find_request id w.db.requests ≡ some r
      → IsNow id
          (if is_active_expired (env.db_now (w.calls + 1)) r then expired else r.state)
          (sweep_listed env registry w).1
  unfolding sweep_listed list_active_expired ◌>>=◌
  sweep_listed_state w id r keyed found =
      let now = env.db_now (w.calls + 1) in
      rw (db_call_quiet quiet w) (
        subst
          (λ s.
            IsNow id s
              (sweep_each env registry (select (is_active_expired now) w.db.requests)
                (later (later w))).1)
          (rw (any-select id (is_active_expired now) w.db.requests r keyed found)
            (expire_if-is_active_expired now r))
          (sweep_each_state (select (is_active_expired now) w.db.requests) (later (later w)) id
            r.state (r, found, refl)))

  -- With the lock free, no fault and no other instance, a sweep expires exactly the ACTIVE requests
  -- whose deadline is at or before the database's time of the listing: each other request of a
  -- keyed table keeps its state, and the lock is free again.
  pub sweep_expired_lem :
      (w : World) (id : String) (r : RequestRow)
      → w.db.sweep_lock ≡ false
      → IsKeyed w.db.requests
      → find_request id w.db.requests ≡ some r
      → let now = env.db_now (w.calls + 1 + 1 + 1) in
        let w' = (sweep_expired env registry w).1 in
        IsNow id (if is_active_expired now r then expired else r.state) w'
        × (w'.db.sweep_lock ≡ false)
  unfolding sweep_expired try_acquire_sweep_lock set_sweep_lock after_lock release_sweep_lock ◌>>=◌
  sweep_expired_lem w id r free keyed found =
      let locked = later (later (record w { db = record w.db { sweep_lock = true } })) in
      let swept = (sweep_listed env registry locked).1 in
      rw (db_call_quiet quiet w, db_call_quiet quiet (later w), free, db_call_quiet quiet swept)
        (sweep_listed_state locked id r keyed found, refl)

-- A sweep whose question for the lock meets it held does nothing: where the lock is held after what
-- the other instances did before the second database call, no provider is called and nothing is
-- notified, and the database, its requests, audit log and lock included, is what those instances left
-- before the first call or before the second. Both calls may fail.
pub sweep_expired_locked :
    (env : Env) (registry : Registry) (w : World)
    → (env.others (w.calls + 1) (env.others w.calls w.db)).sweep_lock ≡ true
    → let first = env.others w.calls w.db in
      let second = env.others (w.calls + 1) first in
      let w' = (sweep_expired env registry w).1 in
      ((w'.db ≡ first) ⊎ (w'.db ≡ second)) × (w'.effects ≡ w.effects)
unfolding sweep_expired try_acquire_sweep_lock set_sweep_lock after_lock db_call ◌>>=◌
sweep_expired_locked env registry w held = elim (Option-cases (env.db_fault w.calls)) [
  | inr (x, fails) ↦ rw (fails, sweep_expired) (inl refl, refl)
  | inl runs ↦ elim (Option-cases (env.db_fault (w.calls + 1))) [
    | inr (x, fails) ↦ rw (runs, fails, sweep_expired) (inr refl, refl)
    | inl asks ↦ rw (runs, asks, held, sweep_expired) (inr refl, refl)
  ]
]
