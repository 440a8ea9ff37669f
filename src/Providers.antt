-- ===== src/Providers.antt =====
-- internal/providers: the interface of the cloud adapters, the registry, and the common checks.
pub mod Mock
pub mod Cloud
pub mod Aws
pub mod Azure
pub mod Gcp
pub mod Kubernetes
use jitsudo.Prelude.{
  ℕ, ◌||◌, Bool, true, false, Option, none, some, String, str_eq, List, [], ◌∷◌, if◌then◌else◌,
}
use jitsudo.Prelude.Int.{is_nonpos}
use jitsudo.World.{
  Error, message, Result, ok, err, ElevationRequest, ElevationGrant, Effect, grant_called,
  revoke_called, Env, M, ask, lift, emit, ◌>>=◌, ◌>>◌,
}

-- The interface Provider: what an adapter answers at each call. `none` is a nil error.
pub record Provider : Type 0 where
  pub name : String
  pub validate_request : ElevationRequest → Option Error
  pub grant : ℕ → ElevationRequest → Result ElevationGrant
  pub revoke : ℕ → ElevationGrant → Option Error

-- Registry: registered providers by name.
abbrev pub Registry : Type 0
Registry = List (String × Provider)

unfoldable pub get : Registry → String → Option Provider
get [] name = none
get ((n, p) ∷ r) name = if str_eq n name then some p else get r name

-- `none` is the panic on a duplicate name.
unfoldable pub register : Registry → Provider → Option Registry
unfolding get
register r p = elim (get r p.name) [ none ↦ some ((p.name, p) ∷ r) | some _ ↦ none ]

abbrev pub of_option : Option Error → Result (Unit {0})
of_option none = ok tt
of_option (some e) = err e

-- The calls of an adapter, which are effects outside.
unfoldable pub call_grant : Provider → ElevationRequest → M ElevationGrant
call_grant p req = do emit (grant_called req); result ← ask (λ n. p.grant n req); lift result

unfoldable pub call_revoke : Provider → ElevationGrant → M (Unit {0})
call_revoke p g = do
  emit (revoke_called g)
  result ← ask (λ n. p.revoke n g)
  lift (of_option result)

-- ValidateCommon
unfoldable pub validate_common : ElevationRequest → Option Error
validate_common req =
    if str_eq req.request_id ""
    then some (message "providers: RequestID must not be empty")
    else if str_eq req.user_identity ""
    then some (message "providers: UserIdentity must not be empty")
    else if is_nonpos req.duration
    then some (message "providers: Duration must be positive")
    else none
