-- ===== src/Workflow/Credentials/Access.antt =====
-- Who gets which credentials from `GetCredentials`.
use jitsudo.Prelude.{ℕ, ◌+◌, ◌≡◌, false, some, String, eq_iff, arith, Option-cases, inl, inr}
use jitsudo.Rows.{active, eq_of_state_eq, StringMap, RequestRow}
use jitsudo.Policy.{Identity}
use jitsudo.Store.Requests.{get_request}
use jitsudo.Store.Requests.Table.{find_request}
use jitsudo.Workflow.Credentials.{is_past, get_credentials}
use jitsudo.World.{ok, World, Env, db_call, ◌>>=◌}

-- The row entitles the caller to the credentials `c`, at the time `now`.
pub record IsEntitled (who : Identity) (now : ℕ) (r : RequestRow) (c : StringMap) : Type 0 where
  pub requester : r.requester_identity ≡ who.email
  pub active : r.state ≡ active
  pub in_time : is_past r.expires_at now ≡ false
  pub credentials : c ≡ r.credentials_json

module _ (env : Env) (who : Identity) (id : String) (w : World) where
  -- `GetCredentials` returns credentials only to the requester of the request, only while it is
  -- ACTIVE and its deadline has not passed, and they are those of the row that the database has at
  -- the read, whatever else runs.
  pub get_credentials-IsEntitled :
      (c : StringMap)
      → (get_credentials env who id w).0 ≡ ok c
      → (r : RequestRow) × (find_request id (env.others w.calls w.db).requests ≡ some r)
        × IsEntitled who (env.now (w.calls + 1)) r c
  unfolding get_credentials get_request db_call ◌>>=◌
  get_credentials-IsEntitled c h = elim (Option-cases (env.db_fault w.calls)) [
    | inr (x, fails) ↦ ground arith
    | inl runs ↦ elim (Option-cases (find_request id (env.others w.calls w.db).requests)) [
      | inl absent ↦ ground arith
      | inr (r, found) ↦ (
        r,
        found,
        record {
          requester = ground (arith, eq_iff r.requester_identity who.email);
          active = ground (arith, eq_of_state_eq r.state active);
          in_time = ground arith;
          credentials = ground arith;
        },
      )
    ]
  ]
