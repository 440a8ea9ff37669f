-- ===== src/Workflow/Credentials.antt =====
-- `GetCredentials`.
pub mod Access
use jitsudo.Prelude.{ℕ, Bool, false, not, Option, none, some, String, str_eq, ltb}
use jitsudo.Rows.{State, state_eq, StringMap}
use jitsudo.Policy.{Identity}
use jitsudo.Store.Requests.{get_request}
use jitsudo.World.{message, Env, M, pure, ask, wrap_err, raise_if, ◌>>=◌, ◌>>◌}

-- req.ExpiresAt != nil && now.After(*req.ExpiresAt)
abbrev pub is_past : Option ℕ → ℕ → Bool
is_past none now = false
is_past (some t) now = ltb t now

unfoldable pub get_credentials : Env → Identity → String → M StringMap
get_credentials env requester id = do
  req ← wrap_err "workflow: get credentials" (get_request env id)
  raise_if (not (str_eq req.requester_identity requester.email)) (message "workflow: access denied")
  raise_if (not (state_eq req.state State.active)) (message "workflow: request is not active")
  now ← ask env.now
  raise_if (is_past req.expires_at now) (message "workflow: grant has expired")
  pure req.credentials_json
