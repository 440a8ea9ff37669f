-- ===== src/Workflow/AuditFrame.antt =====
-- Appending an audit event writes to the log alone: it keeps every relation that allows that.
use jitsudo.Prelude.{ℕ, zero, suc, List, ◌∷◌}
use jitsudo.Rows.{AuditEventRow}
use jitsudo.Audit.{Entry, append}
use jitsudo.Store.Audit.{
  append_locked, append_audit_event_once, after_attempt, append_attempts, append_audit_event,
}
use jitsudo.Workflow.{append_audit}
use jitsudo.World.{Result, ok, err, World, Env, M, try, modify}
use jitsudo.World.Keeps.{Guarantees, Rely, Guarantees-bind, Guarantees-modify, guarantee_rules}

module _ {env : Env} {R : World → World → Type 0} (rely : Rely env R)
    (logs : (w : World) (n : ℕ) (l : List AuditEventRow)
      → R w (record w { db = record w.db { next_audit_id = n; audit_events = l } })) where
  id_used : (n : ℕ) → Guarantees R (modify (λ d. record d { next_audit_id = n }))
  id_used n =
      Guarantees-modify (λ d. record d { next_audit_id = n }) λ w. logs w n w.db.audit_events

  row_added :
      (row : AuditEventRow)
      → Guarantees R (modify (λ d. record d { audit_events = row ∷ d.audit_events }))
  row_added row =
      Guarantees-modify (λ d. record d { audit_events = row ∷ d.audit_events })
        λ w. logs w w.db.next_audit_id (row ∷ w.db.audit_events)

  locked : (e : AuditEventRow) → Guarantees R (append_locked env e)
  unfolding append_locked
  locked e = Guarantees-bind rely _ _ (search guarantee_rules) λ prev_hash.
      Guarantees-bind rely _ _ (search guarantee_rules) λ now.
        Guarantees-bind rely _ _ (search guarantee_rules) λ id.
          Guarantees-bind rely _ _ (search guarantee_rules) λ _.
            Guarantees-bind rely _ _ (id_used _) λ _.
              Guarantees-bind rely _ _ (search guarantee_rules)
                λ _. Guarantees-bind rely _ _ (row_added _) λ _. search guarantee_rules

  once : (e : AuditEventRow) → Guarantees R (append_audit_event_once env e)
  unfolding append_audit_event_once
  once e = search (guarantee_rules, locked) depth 8

  attempted :
      (left : ℕ) (again : M AuditEventRow) (r : Result AuditEventRow)
      → Guarantees R again
      → Guarantees R (after_attempt env left again r)
  unfolding after_attempt
  attempted left again (ok row) h = search guarantee_rules
  attempted left again (err e) h = search guarantee_rules depth 8

  attempts : (left : ℕ) (e : AuditEventRow) → Guarantees R (append_attempts env left e)
  unfolding append_attempts
  attempts zero e = search guarantee_rules
  attempts (suc left) e =
      Guarantees-bind rely (try (append_audit_event_once env e)) _ (search (guarantee_rules, once))
        λ r. attempted left (append_attempts env left e) r (attempts left e)

  appended : (e : Entry) → Guarantees R (append env e)
  unfolding append append_audit_event
  appended e = search (guarantee_rules, attempts) depth 8

  pub append_audit-Guarantees : (e : Entry) → Guarantees R (append_audit env e)
  unfolding append_audit
  append_audit-Guarantees e = search (guarantee_rules, appended) depth 8
