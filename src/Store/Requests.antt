-- ===== src/Store/Requests.antt =====
-- internal/store/requests.go: the table elevation_requests and the sweep lock.
pub mod Moves
pub mod Table
pub mod Transition
use jitsudo.Prelude.{
  is_some, ℕ, ◌/◌, ◌*◌, Bool, true, false, ◌&&◌, ◌||◌, not, Option, none, some, String, str_eq,
  List, [], ◌∷◌, leb, if◌then◌else◌, take, select, order_by,
}
use jitsudo.Rows.{State, state_eq, StringMap, RequestRow, RequestUpdate, ListFilter}
use jitsudo.World.{
  DbFault, failure, Error, not_found, wrong_state, db, Db, Env, M, pure, raise, ask, query,
  wrap_err, or_raise, raise_if, modify, db_call, db_call_locked, ◌>>=◌, ◌>>◌,
}
use Table.{find_request, update_request}

-- A TIMESTAMPTZ column holds microseconds.
abbrev pub timestamptz : ℕ → ℕ
timestamptz t = t / 1000 * 1000

-- CHECK (approver_tier IN ('auto', 'ai_review', 'human'))
unfoldable pub is_tier : String → Bool
is_tier t = str_eq t "auto" || str_eq t "ai_review" || str_eq t "human"

-- COALESCE(NULLIF(new, ''), old)
abbrev pub keep_text : String → String → String
keep_text new old = if str_eq new "" then old else new

-- COALESCE(new, old)
abbrev pub keep {ℓ} : {A : Type ℓ} → Option A → Option A → Option A
keep none old = old
keep (some a) old = some a

abbrev pub or_human : String → String
or_human tier = if str_eq tier "" then "human" else tier

-- The row that INSERT writes: the columns that it does not name are NULL.
unfoldable pub inserted_row : RequestRow → RequestRow
inserted_row req = record req {
  approver_tier = or_human req.approver_tier;
  approver_identity = "";
  approver_comment = "";
  expires_at = none;
  revoke_token = "";
  credentials_json = none;
  ai_reasoning_json = "";
  created_at = timestamptz req.created_at;
  updated_at = timestamptz req.updated_at;
}

abbrev pub insert_request : RequestRow → Db → Db
insert_request row d = record d { requests = row ∷ d.requests }

-- PRIMARY KEY (id)
abbrev pub is_taken : String → Db → Bool
is_taken id d = is_some (find_request id d.requests)

-- `$5` of the UPDATE is written as a TIMESTAMPTZ.
abbrev pub stored_time : Option ℕ → Option ℕ
stored_time none = none
stored_time (some t) = some (timestamptz t)

-- The SET clause of the UPDATE in `TransitionRequest`.
unfoldable pub updated_row : State → RequestUpdate → ℕ → RequestRow → RequestRow
updated_row to u now r = record r {
  state = to;
  approver_identity = keep_text u.approver_identity r.approver_identity;
  approver_comment = keep_text u.approver_comment r.approver_comment;
  expires_at = keep (stored_time u.expires_at) r.expires_at;
  revoke_token = keep_text u.revoke_token r.revoke_token;
  credentials_json = keep u.credentials_json r.credentials_json;
  ai_reasoning_json = keep_text u.ai_reasoning_json r.ai_reasoning_json;
  updated_at = timestamptz now;
}

abbrev pub transition_row : String → State → RequestUpdate → ℕ → Db → Db
transition_row id to u now d = record d {
  requests = update_request id (updated_row to u now) d.requests;
}

-- The WHERE clause of `ListRequests`.
unfoldable pub filter_request : ListFilter → RequestRow → Bool
filter_request f r =
    (str_eq f.requester_identity "" || str_eq r.requester_identity f.requester_identity)
    && elim f.state [ none ↦ true | some s ↦ state_eq r.state s ]
    && (str_eq f.provider "" || str_eq r.provider f.provider)

abbrev created_desc : RequestRow → RequestRow → Bool
created_desc r s = leb s.created_at r.created_at

abbrev created_asc : RequestRow → RequestRow → Bool
created_asc r s = leb r.created_at s.created_at

-- state = 'PENDING' AND approver_tier = 'ai_review'
unfoldable pub is_pending_ai_review : RequestRow → Bool
is_pending_ai_review r = state_eq r.state State.pending && str_eq r.approver_tier "ai_review"

-- state = 'ACTIVE' AND expires_at <= NOW()
unfoldable pub is_active_expired : ℕ → RequestRow → Bool
is_active_expired now r =
    state_eq r.state State.active && elim r.expires_at [ none ↦ false | some t ↦ leb t now ]

-- WHERE id = $1 AND state = 'PENDING'
abbrev pub pending_row : String → Db → Bool
pending_row id d = elim (find_request id d.requests) [
  | none ↦ false
  | some r ↦ state_eq r.state State.pending
]

abbrev pub tier_row : String → ℕ → RequestRow → RequestRow
tier_row tier now r = record r { approver_tier = tier; updated_at = timestamptz now }

unfoldable pub set_sweep_lock : Bool → M (Unit {0})
set_sweep_lock b = modify (λ d. record d { sweep_lock = b })

module _ (env : Env) where
  -- The INSERT itself, with the constraints of the table.
  unfoldable pub insert_checked : RequestRow → M (Unit {0})
  unfolding inserted_row is_tier
  insert_checked req = do
    raise_if (not (is_tier (or_human req.approver_tier))) (db (failure "23514"))
    taken ← query (is_taken req.id)
    raise_if taken (db (failure "23505"))
    modify (insert_request (inserted_row req))

  unfoldable pub create_request : RequestRow → M (Unit {0})
  create_request req = wrap_err "store: CreateRequest" (do db_call env; insert_checked req)

  unfoldable pub get_request : String → M RequestRow
  get_request id = do
    wrap_err "store: scan request" (db_call env)
    found ← query (λ d. find_request id d.requests)
    or_raise not_found found

  unfoldable pub list_requests : ListFilter → M (List RequestRow)
  unfolding filter_request
  list_requests f = do
    wrap_err "store: ListRequests" (db_call env)
    query (λ d. take 200 (order_by created_desc (select (filter_request f) d.requests)))

  -- The UPDATE itself: the constraint is checked on the rows that it touches.
  unfoldable pub update_tier : String → String → ℕ → M (Unit {0})
  unfolding is_tier
  update_tier id tier now = do
    affected ← query (pending_row id)
    raise_if (affected && not (is_tier tier))
        (Error.wrap "store: SetApproverTier" (db (failure "23514")))
    raise_if (not affected) not_found
    modify (λ d. record d { requests = update_request id (tier_row tier now) d.requests })

  unfoldable pub set_approver_tier : String → String → M (Unit {0})
  set_approver_tier id tier = do
    wrap_err "store: SetApproverTier" (db_call env)
    now ← ask env.db_now
    update_tier id tier now

  unfoldable pub list_pending_ai_review : M (List RequestRow)
  unfolding is_pending_ai_review
  list_pending_ai_review = do
    wrap_err "store: ListPendingAIReview" (db_call env)
    query (λ d. take 100 (order_by created_asc (select is_pending_ai_review d.requests)))

  unfoldable pub list_active_expired : M (List RequestRow)
  unfolding is_active_expired
  list_active_expired = do
    wrap_err "store: ListActiveExpired" (db_call env)
    now ← ask env.db_now
    query (λ d. select (is_active_expired now) d.requests)

  -- From the lock on the row to the commit no other instance changes the row; what others do to
  -- other rows in that time commutes with this transaction.
  unfoldable pub transition_locked : String → State → State → RequestUpdate → M (Unit {0})
  unfolding updated_row
  transition_locked id from to u = do
    found ← query (λ d. find_request id d.requests)
    current ← or_raise not_found found
    raise_if (not (state_eq current.state from)) (wrong_state from current.state)
    now ← ask env.now
    wrap_err "store: TransitionRequest update" (db_call_locked env)
    wrap_err "store: TransitionRequest commit" (db_call_locked env)
    modify (transition_row id to u now)

  unfoldable pub transition_request : String → State → State → RequestUpdate → M RequestRow
  transition_request id from to u = do
    wrap_err "store: TransitionRequest begin" (db_call env)
    wrap_err "store: TransitionRequest lock" (db_call env)
    transition_locked id from to u
    get_request id

  -- `true` is (true, release).
  unfoldable pub try_acquire_sweep_lock : M Bool
  try_acquire_sweep_lock = do
    wrap_err "store: sweep lock acquire conn" (db_call env)
    wrap_err "store: pg_try_advisory_lock" (db_call env)
    held ← query (λ d. d.sweep_lock)
    set_sweep_lock true
    pure (not held)

  -- The closure `release`: an error of the unlock is dropped, and the lock then stays.
  unfoldable pub release_sweep_lock : M (Unit {0})
  release_sweep_lock = do db_call env; set_sweep_lock false
