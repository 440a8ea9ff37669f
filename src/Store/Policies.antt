-- ===== src/Store/Policies.antt =====
-- internal/store/policies.go: the table policies.
pub mod Upsert
use Prim.Native.Nat.{Ordering}
use Prim.Native.String.{compare}
use jitsudo.Prelude.{
  Bool, true, false, ◌&&◌, not, Option, none, some, String, str_eq, List, [], ◌∷◌, if◌then◌else◌,
  select, order_by, any,
}
use jitsudo.Rows.{PolicyType, eligibility, approval, PolicyRow}
use jitsudo.Store.Requests.{timestamptz}
use jitsudo.World.{
  failure, not_found, db, wrap, Db, Env, M, ask, query, wrap_err, or_raise, raise_if, modify,
  db_call, ◌>>=◌, ◌>>◌,
}

abbrev pub policy_type_eq : PolicyType → PolicyType → Bool
policy_type_eq eligibility eligibility = true
policy_type_eq approval approval = true
policy_type_eq _ _ = false

-- The first row that a WHERE clause on a unique column selects.
unfoldable pub find_policy : (PolicyRow → Bool) → List PolicyRow → Option PolicyRow
find_policy test [] = none
find_policy test (p ∷ ps) = if test p then some p else find_policy test ps

-- ORDER BY name, in byte order.
abbrev pub by_name : PolicyRow → PolicyRow → Bool
by_name p q = elim (compare p.name q.name) [ Ordering.gt ↦ false | _ ↦ true ]

-- INSERT … ON CONFLICT (name) DO UPDATE
unfoldable pub upsert_row : PolicyRow → List PolicyRow → List PolicyRow
upsert_row new [] = new ∷ []
upsert_row new (p ∷ ps) =
    if str_eq p.name new.name
    then record new { id = p.id; created_at = p.created_at } ∷ ps
    else p ∷ upsert_row new ps

-- PRIMARY KEY (id), which ON CONFLICT (name) does not cover.
abbrev has_id : String → PolicyRow → Bool
has_id id p = str_eq p.id id

abbrev pub has_name : String → PolicyRow → Bool
has_name name p = str_eq p.name name

abbrev is_clash : PolicyRow → Db → Bool
is_clash new d = any (has_id new.id) d.policies && not (any (has_name new.name) d.policies)

abbrev has_type : Option PolicyType → PolicyRow → Bool
has_type none p = true
has_type (some t) p = policy_type_eq p.type t

module _ (env : Env) where
  unfoldable pub get_policy : String → M PolicyRow
  unfolding find_policy
  get_policy id = do
    wrap_err "store: scan policy" (db_call env)
    found ← query (λ d. find_policy (has_id id) d.policies)
    or_raise not_found found

  unfoldable pub get_policy_by_name : String → M PolicyRow
  unfolding find_policy
  get_policy_by_name name = do
    wrap_err "store: scan policy" (db_call env)
    found ← query (λ d. find_policy (has_name name) d.policies)
    or_raise not_found found

  unfoldable pub upsert_policy : PolicyRow → M PolicyRow
  unfolding upsert_row
  upsert_policy p = do
    now ← ask env.now
    wrap_err "store: UpsertPolicy" (db_call env)
    clash ← query (is_clash p)
    raise_if clash (wrap "store: UpsertPolicy" (db (failure "23505")))
    modify (λ d. record d {
      policies =
          upsert_row (record p { created_at = timestamptz now; updated_at = timestamptz now })
            d.policies;
    })
    get_policy_by_name p.name

  unfoldable pub list_policies : Option PolicyType → M (List PolicyRow)
  list_policies ptype = do
    wrap_err "store: ListPolicies" (db_call env)
    query (λ d. order_by by_name (select (has_type ptype) d.policies))

  unfoldable pub list_enabled_policies_by_type : PolicyType → M (List PolicyRow)
  list_enabled_policies_by_type ptype = do
    wrap_err "store: ListEnabledPoliciesByType" (db_call env)
    query
        (λ d. order_by by_name (select (λ p. policy_type_eq p.type ptype && p.enabled) d.policies))

  unfoldable pub delete_policy : String → M (Unit {0})
  delete_policy id = do
    wrap_err "store: DeletePolicy" (db_call env)
    affected ← query (λ d. any (has_id id) d.policies)
    modify (λ d. record d { policies = select (λ p. not (has_id id p)) d.policies })
    raise_if (not affected) not_found
