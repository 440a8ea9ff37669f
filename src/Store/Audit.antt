-- ===== src/Store/Audit.antt =====
-- internal/store/audit.go: the append-only table audit_events and its hash chain.
pub mod Append
use Prim.Native.Nat.{zero, suc}
use jitsudo.Prelude.{
  ℕ, ◌+◌, ◌==◌, Bool, true, false, ◌&&◌, ◌||◌, not, none, some, String, str_eq, str_append, List,
  [], ◌∷◌, leb, ltb, if◌then◌else◌, take, select, order_by,
}
use jitsudo.Prelude.Int.{ℤ, pos, negsuc}
use jitsudo.Prelude.Decimal.{decimal}
use jitsudo.Rows.{AuditEventRow, AuditFilter}
use jitsudo.Store.Requests.{timestamptz}
use jitsudo.World.{
  serialization, Error, db, cancelled, message, wrap, Result, ok, err, Env, M, pure, raise, ask,
  query, try, wrap_err, modify, db_call, db_call_locked, ◌>>=◌, ◌>>◌,
}

-- SELECT hash … ORDER BY id DESC LIMIT 1; "" where there is no row.
abbrev pub last_hash : List AuditEventRow → String
last_hash [] = ""
last_hash (e ∷ _) = e.hash

abbrev field : String → String → String
field s rest = str_append s (str_append "|" rest)

-- "<prevHash>|<unix_ns>|<actor>|<action>|<requestID>|<outcome>"
unfoldable pub canonical : String → ℕ → AuditEventRow → String
unfolding decimal
canonical prev_hash ts e =
    field prev_hash
      (field (decimal ts) (field e.actor_identity (field e.action (field e.request_id e.outcome))))

unfoldable pub compute_hash : (String → String) → String → ℕ → AuditEventRow → String
unfolding canonical
compute_hash sha prev_hash ts e = sha (canonical prev_hash ts e)

-- `errors.As` finds the driver's error under the wrapping.
unfoldable pub is_serialization_error : Error → Bool
is_serialization_error (db serialization) = true
is_serialization_error (wrap _ e) = is_serialization_error e
is_serialization_error _ = false

abbrev pub chained : AuditEventRow → ℕ → ℕ → String → String → AuditEventRow
chained e id ts prev_hash hash = record e {
  id = id;
  timestamp = ts;
  prev_hash = prev_hash;
  hash = hash;
}

-- WHERE and LIMIT of `QueryAuditEvents`.
abbrev matches : String → String → Bool
matches wanted s = str_eq wanted "" || str_eq s wanted

unfoldable pub filter_event : AuditFilter → AuditEventRow → Bool
filter_event f e =
    matches f.actor_identity e.actor_identity
    && matches f.request_id e.request_id
    && matches f.provider e.provider
    && elim f.since [ none ↦ true | some t ↦ leb t e.timestamp ]
    && elim f.until [ none ↦ true | some t ↦ leb e.timestamp t ]

-- if limit <= 0 || limit > 500 { limit = 100 }
unfoldable pub page_limit : ℤ → ℕ
page_limit (pos n) = if leb n 0 || ltb 500 n then 100 else n
page_limit (negsuc n) = 100

module _ (env : Env) where
  -- The transaction is serializable: one that commits has run as if alone, from the read of the
  -- last hash on.
  unfoldable pub append_locked : AuditEventRow → M AuditEventRow
  unfolding compute_hash
  append_locked e = do
    prev_hash ← query (λ d. last_hash d.audit_events)
    now ← ask env.now
    let hash = compute_hash env.sha256_hex prev_hash (timestamptz now) e
    id ← query (λ d. d.next_audit_id)
    wrap_err "store: AppendAuditEvent insert" (db_call_locked env)
    modify (λ d. record d { next_audit_id = id + 1 })
    wrap_err "store: AppendAuditEvent commit" (db_call_locked env)
    let row = chained e id (timestamptz now) prev_hash hash
    modify (λ d. record d { audit_events = row ∷ d.audit_events })
    pure row

  unfoldable pub append_audit_event_once : AuditEventRow → M AuditEventRow
  append_audit_event_once e = do
    wrap_err "store: AppendAuditEvent begin" (db_call env)
    wrap_err "store: AppendAuditEvent fetch prev hash" (db_call env)
    append_locked e

  unfoldable pub after_attempt : ℕ → M AuditEventRow → Result AuditEventRow → M AuditEventRow
  unfolding is_serialization_error
  after_attempt left again (ok row) = pure row
  after_attempt left again (err e) =
      if not (is_serialization_error e) || left == 0
      then raise e
      else (do done ← ask env.is_cancelled; if done then raise cancelled else again)

  -- The loop of `AppendAuditEvent`, over the attempts that are left.
  unfoldable pub append_attempts : ℕ → AuditEventRow → M AuditEventRow
  append_attempts zero e = raise (message "store: AppendAuditEvent: max retries exceeded")
  append_attempts (suc left) e = do
    result ← try (append_audit_event_once e)
    after_attempt left (append_attempts left e) result

  unfoldable pub append_audit_event : AuditEventRow → M AuditEventRow
  append_audit_event = append_attempts 5

  unfoldable pub query_audit_events : AuditFilter → M (List AuditEventRow)
  unfolding filter_event page_limit
  query_audit_events f = do
    wrap_err "store: QueryAuditEvents" (db_call env)
    query (λ d.
        take (page_limit f.limit)
          (order_by (λ a b. leb a.id b.id) (select (filter_event f) d.audit_events)))
