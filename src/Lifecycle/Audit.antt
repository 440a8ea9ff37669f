-- ===== src/Lifecycle/Audit.antt =====
-- Appending an audit event (store/audit.go, audit/audit.go) changes the database as the lifecycle
-- allows: the log grows by events that are chained to it.
use Prim.Native.Nat.{zero, suc}
use jitsudo.Prelude.{ℕ, ◌+◌, ◌≤◌, refl, Option-cases, inl, inr, String, List, [], ◌∷◌, arith}
use jitsudo.Rows.{AuditEventRow}
use jitsudo.Store.Requests.{timestamptz}
use jitsudo.Store.Audit.{
  last_hash, canonical, compute_hash, chained, append_locked, append_audit_event_once,
  after_attempt, append_attempts, append_audit_event,
}
use jitsudo.Audit.{Entry, append}
use jitsudo.World.{Result, ok, err, Db, World, Env, M, try, ◌>>=◌, db_call_locked}
use jitsudo.World.Keeps.{Guarantees, Guarantees-bind, guarantee_rules}
use jitsudo.Lifecycle.{Follows-refl, IsChain, Evolves, Evolves-refl, Keeps, IsCooperative}

IsChain-mono :
    (sha : String → String) (n m : ℕ) (l : List AuditEventRow)
    → n ≤ m
    → IsChain sha n l
    → IsChain sha m l
IsChain-mono sha n m [] h c = tt
IsChain-mono sha n m (e ∷ rest) h c = (omega arith, c.1, c.2, c.3)

-- A sequence number that a failed insert has used up.
skip_id :
    {sha : String → String} (d : Db)
    → Evolves sha d (record d { next_audit_id = d.next_audit_id + 1 })
skip_id {sha} d = record {
  requests = λ id r e. (r, e, Follows-refl r);
  log = ([], refl);
  sound = λ s. record {
    chain =
        IsChain-mono sha d.next_audit_id (d.next_audit_id + 1) d.audit_events (omega arith) s.chain;
    keys = s.keys;
    rows = s.rows;
  };
}

-- The row that an append writes.
abbrev pub appended : (String → String) → AuditEventRow → ℕ → Db → AuditEventRow
appended sha e now d =
    chained e d.next_audit_id (timestamptz now) (last_hash d.audit_events)
      (compute_hash sha (last_hash d.audit_events) (timestamptz now) e)

append_row :
    {sha : String → String} (e : AuditEventRow) (now : ℕ) (d : Db)
    → Evolves sha d (record d {
      next_audit_id = d.next_audit_id + 1;
      audit_events = appended sha e now d ∷ d.audit_events;
    })
append_row {sha} e now d = record {
  requests = λ id r p. (r, p, Follows-refl r);
  log = (appended sha e now d ∷ [], refl);
  sound = λ s. record {
    chain = (omega arith, refl, unfold compute_hash canonical in refl, s.chain);
    keys = s.keys;
    rows = s.rows;
  };
}

module _ {env : Env} (rely : IsCooperative env) where
  append_at :
      (e : AuditEventRow) (w : World) → Evolves env.sha256_hex w.db (append_locked env e w).1.db
  unfolding append_locked db_call_locked ◌>>=◌
  append_at e w = elim (Option-cases (env.db_fault (w.calls + 1))) [
    | inr (x, p) ↦ rw p (Evolves-refl w.db)
    | inl p ↦ rw p (elim (Option-cases (env.db_fault (w.calls + 1 + 1))) [
      | inr (x, q) ↦ rw q (skip_id w.db)
      | inl q ↦ rw q (append_row e (env.now w.calls) w.db)
    ])
  ]

  append_locked-Evolves : (e : AuditEventRow) → Guarantees (Keeps env) (append_locked env e)
  append_locked-Evolves e = record { at = append_at e }

  append_once-Evolves : (e : AuditEventRow) → Guarantees (Keeps env) (append_audit_event_once env e)
  unfolding append_audit_event_once
  append_once-Evolves e = search (guarantee_rules, append_locked-Evolves) depth 8

  after_attempt-Evolves :
      (left : ℕ) (again : M AuditEventRow) (r : Result AuditEventRow)
      → Guarantees (Keeps env) again
      → Guarantees (Keeps env) (after_attempt env left again r)
  unfolding after_attempt
  after_attempt-Evolves left again (ok row) h = search guarantee_rules
  after_attempt-Evolves left again (err e) h = search guarantee_rules depth 8

  append_attempts-Evolves :
      (left : ℕ) (e : AuditEventRow) → Guarantees (Keeps env) (append_attempts env left e)
  unfolding append_attempts
  append_attempts-Evolves zero e = search guarantee_rules
  append_attempts-Evolves (suc left) e =
      Guarantees-bind rely (try (append_audit_event_once env e)) _
        (search (guarantee_rules, append_once-Evolves))
        λ r.
          after_attempt-Evolves left (append_attempts env left e) r (append_attempts-Evolves left e)

  pub append-Evolves : (e : Entry) → Guarantees (Keeps env) (append env e)
  unfolding append append_audit_event
  append-Evolves e = search (guarantee_rules, append_attempts-Evolves) depth 8
