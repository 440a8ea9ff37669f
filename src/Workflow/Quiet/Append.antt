-- ===== src/Workflow/Quiet/Append.antt =====
-- In a quiet environment an audit entry of the engine is written at the first attempt.
use jitsudo.Prelude.{◌+◌, ◌≡◌, ◌∷◌}
use jitsudo.Rows.{AuditEventRow}
use jitsudo.Store.Requests.{timestamptz}
use jitsudo.Store.Audit.{
  last_hash, compute_hash, chained, append_locked, append_audit_event_once, append_attempts,
  append_audit_event, after_attempt,
}
use jitsudo.Audit.{Entry, entry_row, append}
use jitsudo.Workflow.{append_audit}
use jitsudo.World.{ok, World, Env, ◌>>=◌, db_call_locked}
use jitsudo.World.Quiet.{IsQuiet, later, db_call_quiet}

module _ (env : Env) where
  -- The row that an entry becomes at the world `w`.
  abbrev pub audit_row : Entry → World → AuditEventRow
  audit_row entry w =
      let ts = timestamptz (env.now (w.calls + 1 + 1)) in
      let prev = last_hash w.db.audit_events in
      chained (entry_row entry) w.db.next_audit_id ts prev
        (compute_hash env.sha256_hex prev ts (entry_row entry))

  abbrev pub audited : Entry → World → World
  audited entry w = record w {
    db = record w.db {
      next_audit_id = w.db.next_audit_id + 1;
      audit_events = audit_row entry w ∷ w.db.audit_events;
    };
    calls = w.calls + 1 + 1 + 1 + 1 + 1;
  }

module _ {env : Env} (quiet : IsQuiet env) where
  once_quiet :
      (entry : Entry) (w : World)
      → append_audit_event_once env (entry_row entry) w
        ≡ (ok (audit_row env entry w), audited env entry w)
  unfolding append_audit_event_once append_locked ◌>>=◌ db_call_locked
  once_quiet entry w = rw (
    db_call_quiet quiet w,
    db_call_quiet quiet (later w),
    quiet.no_fault (w.calls + 1 + 1 + 1),
    quiet.no_fault (w.calls + 1 + 1 + 1 + 1),
  )

  pub append_audit_quiet :
      (entry : Entry) (w : World) → append_audit env entry w ≡ (ok tt, audited env entry w)
  unfolding append_audit append append_audit_event append_attempts after_attempt ◌>>=◌
  append_audit_quiet entry w = rw (once_quiet entry w)
