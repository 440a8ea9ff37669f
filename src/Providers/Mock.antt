-- ===== src/Providers/Mock.antt =====
-- internal/providers/mock/mock.go: grants in memory, by request.
pub mod Laws
use jitsudo.Prelude.{
  ℕ, suc, ◌+◌, ◌-◌, Bool, false, Option, none, some, String, str_eq, str_append, List, [], ◌∷◌, ltb,
  if◌then◌else◌,
}
use jitsudo.Prelude.Int.{ℤ, pos, negsuc}
use jitsudo.World.{Error, Result, ok, err, ElevationRequest, ElevationGrant}
use jitsudo.Providers.{validate_common}

-- The map `grants`; its mutex makes each method one step.
abbrev pub Mock : Type 0
Mock = List (String × ElevationGrant)

unfoldable pub lookup : String → Mock → Option ElevationGrant
lookup id [] = none
lookup id ((k, g) ∷ gs) = if str_eq k id then some g else lookup id gs

unfoldable pub delete : String → Mock → Mock
delete id [] = []
delete id ((k, g) ∷ gs) = let rest = delete id gs in if str_eq k id then rest else (k, g) ∷ rest

-- now.Add(d)
abbrev pub add_duration : ℕ → ℤ → ℕ
add_duration now (pos n) = now + n
add_duration now (negsuc n) = now - suc n

unfoldable pub new_grant : ℕ → ElevationRequest → ElevationGrant
new_grant now req = record {
  request_id = req.request_id;
  credentials = some (
      ("MOCK_ACCESS_KEY", str_append "mock-access-key-" req.request_id)
      ∷ ("MOCK_SESSION_TOKEN", str_append "mock-session-token-" req.request_id)
      ∷ []);
  issued_at = now;
  expires_at = add_duration now req.duration;
  revoke_token = str_append "mock-revoke-token-" req.request_id;
}

-- `Grant` at the time `now`
unfoldable pub grant : ℕ → ElevationRequest → Mock → Result ElevationGrant × Mock
unfolding validate_common lookup new_grant
grant now req m = elim (validate_common req) [
  | some e ↦ (err e, m)
  | none ↦ elim (lookup req.request_id m) [
    | some existing ↦ (ok existing, m)
    | none ↦ (ok (new_grant now req), (req.request_id, new_grant now req) ∷ m)
  ]
]

unfoldable pub revoke : ElevationGrant → Mock → Mock
unfolding delete
revoke g m = delete g.request_id m

-- `IsActive` at the time `now`
unfoldable pub is_active : ℕ → ElevationGrant → Mock → Bool
unfolding lookup
is_active now g m = elim (lookup g.request_id m) [
  | none ↦ false
  | some stored ↦ ltb now stored.expires_at
]
