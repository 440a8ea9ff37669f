-- ===== src/Store/Audit/Append.antt =====
-- One append and its retries (store/audit.go) while no other instance writes: all or nothing.
use Prim.Native.Nat.{zero, suc}
use jitsudo.Prelude.{
  ℕ, ◌+◌, ◌==◌, ◌≡◌, refl, ◌∙◌, not, ◌||◌, String, ◌∷◌, Bool-cases, Option-cases, inl, inr,
}
use jitsudo.Rows.{AuditEventRow}
use jitsudo.Store.Requests.{timestamptz}
use jitsudo.Store.Audit.{
  last_hash, compute_hash, is_serialization_error, chained, append_locked, append_audit_event_once,
  after_attempt, append_attempts, append_audit_event,
}
use jitsudo.World.{Result, ok, err, Db, World, Env, M, raise, ◌>>=◌, db_call, db_call_locked}

-- What an attempt made of the log: the row that it returns, chained to the newest row, or nothing.
abbrev pub IsAllOrNothing :
    (String → String) → AuditEventRow → Db → Result AuditEventRow → Db → Type 0
IsAllOrNothing sha e d (ok row) d' =
    (id : ℕ) × (ts : ℕ) × (row
      ≡ chained e id ts (last_hash d.audit_events)
          (compute_hash sha (last_hash d.audit_events) ts e))
    × (d'.audit_events ≡ row ∷ d.audit_events)
    × (d'.requests ≡ d.requests)
IsAllOrNothing sha e d (err x) d' = (d'.audit_events ≡ d.audit_events) × (d'.requests ≡ d.requests)

shift :
    (sha : String → String) (e : AuditEventRow) (a b c : Db) (r : Result AuditEventRow)
    → b.audit_events ≡ a.audit_events
    → b.requests ≡ a.requests
    → IsAllOrNothing sha e b r c
    → IsAllOrNothing sha e a r c
shift sha e a b c (ok row) p q (id, ts, h, k, l) = (id, ts, rw (← p) h, rw (← p) k, l ∙ q)
shift sha e a b c (err x) p q (k, l) = (k ∙ p, l ∙ q)

module _ (env : Env) (alone : (n : ℕ) (d : Db) → env.others n d ≡ d) where
  locked-IsAllOrNothing :
      (e : AuditEventRow) (w : World)
      → let (r, w') = append_locked env e w in IsAllOrNothing env.sha256_hex e w.db r w'.db
  unfolding append_locked db_call_locked ◌>>=◌
  locked-IsAllOrNothing e w = elim (Option-cases (env.db_fault (w.calls + 1))) [
    | inr (x, p) ↦ rw p (refl, refl)
    | inl p ↦ rw p (elim (Option-cases (env.db_fault (w.calls + 1 + 1))) [
      | inr (x, q) ↦ rw q (refl, refl)
      | inl q ↦ rw q (w.db.next_audit_id, timestamptz (env.now w.calls), refl, refl, refl)
    ])
  ]

  once-IsAllOrNothing :
      (e : AuditEventRow) (w : World)
      → let (r, w') = append_audit_event_once env e w in
        IsAllOrNothing env.sha256_hex e w.db r w'.db
  unfolding append_audit_event_once db_call ◌>>=◌
  once-IsAllOrNothing e w = elim (Option-cases (env.db_fault w.calls)) [
    | inr (x, p) ↦ rw (p, alone w.calls w.db) (refl, refl)
    | inl p ↦
        rw (p, alone w.calls w.db)
          (elim (Option-cases (env.db_fault (w.calls + 1))) [
            | inr (x, q) ↦ rw (q, alone (w.calls + 1) w.db) (refl, refl)
            | inl q ↦ rw (q, alone (w.calls + 1) w.db) (locked-IsAllOrNothing e _)
          ])
  ]

  -- A failed attempt leaves the log as it was, and the next one starts from there.
  retried :
      (left : ℕ) (e : AuditEventRow) (again : M AuditEventRow) (v w : World)
      (r : Result AuditEventRow)
      → IsAllOrNothing env.sha256_hex e v.db r w.db
      → ((u : World) → let (r', w') = again u in IsAllOrNothing env.sha256_hex e u.db r' w'.db)
      → let (r', w') = after_attempt env left again r w in
        IsAllOrNothing env.sha256_hex e v.db r' w'.db
  unfolding after_attempt ◌>>=◌
  retried left e again v w (ok row) h k = h
  retried left e again v w (err x) h k =
      elim (Bool-cases (not (is_serialization_error x) || left == 0)) [
        | inl final ↦ rw (final, raise) h
        | inr more ↦ elim (Bool-cases (env.is_cancelled w.calls)) [
          | inl done ↦ rw (more, done, raise) h
          | inr on ↦
              rw (more, on)
                (shift env.sha256_hex e v.db w.db _ _ h.0 h.1
                  (k (record w { calls = w.calls + 1 })))
        ]
      ]

  attempts-IsAllOrNothing :
      (left : ℕ) (e : AuditEventRow) (w : World)
      → let (r, w') = append_attempts env left e w in IsAllOrNothing env.sha256_hex e w.db r w'.db
  unfolding append_attempts ◌>>=◌
  attempts-IsAllOrNothing zero e w = (refl, refl)
  attempts-IsAllOrNothing (suc left) e w =
      retried left e (append_attempts env left e) w (append_audit_event_once env e w).1
        (append_audit_event_once env e w).0 (once-IsAllOrNothing e w)
        (attempts-IsAllOrNothing left e)

  -- While no other instance works, whatever faults the database has and however often an append is
  -- retried: where it returns a row,
  -- exactly that row was added to the log, once, chained to the row that was newest; where it fails,
  -- the log is as it was. The requests are not touched.
  pub append_audit_event-IsAllOrNothing :
      (e : AuditEventRow) (w : World)
      → let (r, w') = append_audit_event env e w in IsAllOrNothing env.sha256_hex e w.db r w'.db
  unfolding append_audit_event
  append_audit_event-IsAllOrNothing e w = attempts-IsAllOrNothing 5 e w
