-- ===== src/Store/Principals.antt =====
-- internal/store/principals.go: the table principals.
pub mod Range
use jitsudo.Prelude.{
  ℕ, Bool, true, Option, none, some, String, str_eq, List, [], ◌∷◌, ltb, if◌then◌else◌,
}
use jitsudo.Prelude.Int.{ℤ, pos, negsuc}
use jitsudo.Rows.{PrincipalRow}
use jitsudo.Store.Requests.{timestamptz}
use jitsudo.World.{
  not_found, message_of, Env, M, ask, query, wrap_err, or_raise, raise_if, modify, db_call, ◌>>=◌,
  ◌>>◌,
}

-- INSERT … ON CONFLICT (identity) DO UPDATE
unfoldable pub upsert :
    PrincipalRow → (PrincipalRow → PrincipalRow) → List PrincipalRow → List PrincipalRow
upsert new update [] = new ∷ []
upsert new update (p ∷ ps) =
    if str_eq p.identity new.identity then update p ∷ ps else p ∷ upsert new update ps

unfoldable pub find_principal : String → List PrincipalRow → Option PrincipalRow
find_principal identity [] = none
find_principal identity (p ∷ ps) =
    if str_eq p.identity identity then some p else find_principal identity ps

-- The row that an INSERT of the identity and last_seen_at alone writes.
abbrev seen_row : String → ℕ → PrincipalRow
seen_row identity now = record {
  identity = identity;
  trust_tier = pos 0;
  enrolled_by = "";
  enrolled_at = timestamptz now;
  last_seen_at = timestamptz now;
  notes = "";
}

abbrev enrolled_row : String → ℤ → String → ℕ → PrincipalRow
enrolled_row identity tier enrolled_by now = record (seen_row identity now) {
  trust_tier = tier;
  enrolled_by = enrolled_by;
}

abbrev greatest : ℕ → ℕ → ℕ
greatest a b = if ltb a b then b else a

abbrev enroll : ℤ → String → ℕ → PrincipalRow → PrincipalRow
enroll tier enrolled_by now p = record p {
  trust_tier = tier;
  enrolled_by = enrolled_by;
  enrolled_at = timestamptz now;
  last_seen_at = greatest p.last_seen_at (timestamptz now);
}

-- tier < 0 || tier > 4
abbrev pub out_of_range : ℤ → Bool
out_of_range (pos n) = ltb 4 n
out_of_range (negsuc n) = true

module _ (env : Env) where
  unfoldable pub upsert_principal_last_seen : String → M (Unit {0})
  unfolding upsert
  upsert_principal_last_seen identity = do
    wrap_err "store: UpsertPrincipalLastSeen" (db_call env)
    now ← ask env.db_now
    modify (λ d. record d {
      principals =
          upsert (seen_row identity now) (λ p. record p { last_seen_at = timestamptz now })
            d.principals;
    })

  unfoldable pub get_principal : String → M PrincipalRow
  unfolding find_principal
  get_principal identity = do
    wrap_err "store: GetPrincipal" (db_call env)
    found ← query (λ d. find_principal identity d.principals)
    or_raise not_found found

  unfoldable pub set_principal_trust_tier : String → ℤ → String → M PrincipalRow
  unfolding upsert
  set_principal_trust_tier identity tier enrolled_by = do
    raise_if (out_of_range tier) (message_of "store: SetPrincipalTrustTier: tier out of range" "")
    now ← ask env.now
    wrap_err "store: SetPrincipalTrustTier" (db_call env)
    modify (λ d. record d {
      principals =
          upsert (enrolled_row identity tier enrolled_by now) (enroll tier enrolled_by now)
            d.principals;
    })
    get_principal identity
