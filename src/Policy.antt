-- ===== src/Policy.antt =====
-- internal/server/policy/policy.go: the policy engine over OPA.
pub mod Frame
pub mod Refusal
pub mod Decision
pub mod Tier
pub mod Program
pub mod Check
pub mod Reload
use jitsudo.Prelude.{
  ℕ, Bool, true, false, ◌||◌, not, Option, none, some, String, str_eq, str_append, List, [], ◌∷◌,
  if◌then◌else◌,
}
use jitsudo.Prelude.Int.{ℤ, pos}
use jitsudo.Rows.{RequestRow, PolicyType, eligibility, approval, PolicyRow, PrincipalRow}
use jitsudo.Store.Policies.{list_enabled_policies_by_type}
use jitsudo.Store.Principals.{get_principal}
use jitsudo.World.{
  PreparedQuery, Loaded, World, Value, boolean, text, other, OpaResult, OpaInput, fields, Error,
  external, Result, ok, err, Env, M, pure, ask, lift, try, wrap_err, ◌>>=◌, ◌>>◌,
}

-- auth.Identity
pub record Identity : Type 0 where
  pub subject : String
  pub email : String
  pub groups : List String

-- A Go map from file names to Rego sources: a later entry of a name replaces the earlier one.
abbrev pub Modules : Type 0
Modules = List (String × String)

unfoldable pub put_module : String → String → Modules → Modules
put_module name src [] = (name, src) ∷ []
put_module name src ((n, s) ∷ ms) =
    if str_eq n name then (name, src) ∷ ms else (n, s) ∷ put_module name src ms

abbrev file_name : String → String
file_name name = str_append name ".rego"

unfoldable pub module_map : Modules → List PolicyRow → Modules
unfolding put_module
module_map ms [] = ms
module_map ms (p ∷ ps) = module_map (put_module (file_name p.name) p.rego ms) ps

abbrev default_deny : PolicyType → Modules
default_deny eligibility =
    ("default_deny.rego", "package jitsudo.eligibility\ndefault allow := false") ∷ []
default_deny approval =
    ("default_deny.rego", "package jitsudo.approval\ndefault allow := false") ∷ []

abbrev pub or_default : PolicyType → Modules → Modules
or_default ptype [] = default_deny ptype
or_default ptype (m ∷ ms) = m ∷ ms

-- The queries that `CompileCheck` tries for a type.
abbrev pub queries : PolicyType → List String
queries eligibility = "data.jitsudo.eligibility.allow" ∷ []
queries approval = "data.jitsudo.approval.allow" ∷ "data.jitsudo.approval.approver_tier" ∷ []

-- buildInput
unfoldable pub build_input : Identity → String → String → String → ℤ → ℤ → OpaInput
build_input identity provider role resource_scope duration_seconds trust_tier = fields (record {
  email = identity.email;
  subject = identity.subject;
  groups = identity.groups;
  provider = provider;
  role = role;
  resource_scope = resource_scope;
  duration_seconds = duration_seconds;
  trust_tier = trust_tier;
})

-- v.(bool) and v.(string), with the zero value where the type is another.
abbrev as_bool : Value → Bool
as_bool (boolean b) = b
as_bool _ = false

abbrev pub as_text : Value → String
as_text (text s) = s
as_text _ = ""

abbrev binding : String → List (String × Value) → String
binding k [] = ""
binding k ((n, v) ∷ bs) = if str_eq n k then as_text v else binding k bs

-- The allow and reason values of `eval`.
unfoldable pub decision : List OpaResult → Bool × String
decision [] = (false, "no policy result")
decision (r ∷ _) = elim r.expressions [
  | [] ↦ (false, "no policy result")
  | v ∷ _ ↦ (as_bool v, binding "reason" r.bindings)
]

-- The switch of `evalTier`.
abbrev pub tier_of_text : String → String
tier_of_text t = if str_eq t "auto" || str_eq t "ai_review" || str_eq t "human" then t else "human"

abbrev pub first_tier : List Value → String
first_tier [] = "human"
first_tier (v ∷ _) = tier_of_text (as_text v)

unfoldable pub tier_of_results : List OpaResult → String
tier_of_results [] = "human"
tier_of_results (r ∷ _) = first_tier r.expressions

unfoldable pub loaded : M Loaded
loaded w = (ok w.loaded, w)

unfoldable pub set_loaded : Loaded → M (Unit {0})
set_loaded l w = (ok tt, record w { loaded = l })

abbrev compiled : PreparedQuery → Option String → Result PreparedQuery
compiled q none = ok q
compiled q (some e) = err (external e)

abbrev pub with_proposed : PolicyRow → Modules → Modules
with_proposed p ms = if p.enabled then put_module (file_name p.name) p.rego ms else ms

module _ (env : Env) where
  unfoldable pub compile_modules : PolicyType → String → Modules → M PreparedQuery
  compile_modules ptype query modules =
      let q : PreparedQuery = record { query = query; modules = or_default ptype modules } in
      wrap_err "policy: compile" (ask (λ n. env.prepare n q) >>= λ e. lift (compiled q e))

  unfoldable pub build_query : PolicyType → String → M PreparedQuery
  unfolding module_map
  build_query ptype query = do
    policies ← list_enabled_policies_by_type env ptype
    wrap_err "policy: compile" (compile_modules ptype query (module_map [] policies))

  unfoldable pub reload : M (Unit {0})
  reload = do
    eliq ←
        wrap_err "policy: reload eligibility"
          (build_query eligibility "data.jitsudo.eligibility.allow")
    appq ← wrap_err "policy: reload approval" (build_query approval "data.jitsudo.approval.allow")
    tierq ←
        wrap_err "policy: reload approver_tier"
          (build_query approval "data.jitsudo.approval.approver_tier")
    set_loaded (record {
      eligibility_query = some eliq;
      approval_query = some appq;
      approval_tier_query = some tierq;
    })

  abbrev trust_tier_or_zero : Result PrincipalRow → ℤ
  trust_tier_or_zero (ok p) = p.trust_tier
  trust_tier_or_zero (err _) = pos 0

  -- The store is always there in the server; a nil store is for tests alone.
  unfoldable pub principal_trust_tier : String → M ℤ
  principal_trust_tier identity = do
    result ← try (get_principal env identity)
    pure (trust_tier_or_zero result)

  unfoldable pub eval : PreparedQuery → OpaInput → M (Bool × String)
  unfolding decision
  eval q input = do
    results ← wrap_err "policy: eval" (ask (λ n. env.eval n q input) >>= lift)
    pure (decision results)

  -- The tier beside an error is dropped by the only caller.
  unfoldable pub eval_tier : PreparedQuery → OpaInput → M String
  unfolding tier_of_results
  eval_tier q input = do
    results ← wrap_err "policy: eval tier" (ask (λ n. env.eval n q input) >>= lift)
    pure (tier_of_results results)

  -- `if q == nil { return false, "policy engine not loaded", nil }`
  unfoldable pub eval_loaded :
      Option PreparedQuery → Identity → String → String → String → ℤ → M (Bool × String)
  unfolding build_input
  eval_loaded none identity provider role scope seconds = pure (false, "policy engine not loaded")
  eval_loaded (some q) identity provider role scope seconds = do
    tier ← principal_trust_tier identity.email
    eval q (build_input identity provider role scope seconds tier)

  unfoldable pub eval_eligibility : Identity → String → String → String → ℤ → M (Bool × String)
  eval_eligibility identity provider role scope seconds = do
    l ← loaded
    eval_loaded l.eligibility_query identity provider role scope seconds

  unfoldable pub eval_tier_loaded :
      Option PreparedQuery → Identity → String → String → String → ℤ → M String
  unfolding build_input
  eval_tier_loaded none identity provider role scope seconds = pure "human"
  eval_tier_loaded (some q) identity provider role scope seconds = do
    tier ← principal_trust_tier identity.email
    eval_tier q (build_input identity provider role scope seconds tier)

  unfoldable pub eval_approval_tier : Identity → String → String → String → ℤ → M String
  eval_approval_tier identity provider role scope seconds = do
    l ← loaded
    eval_tier_loaded l.approval_tier_query identity provider role scope seconds

  unfoldable pub eval_approval : Identity → RequestRow → M (Bool × String)
  eval_approval approver req = do
    l ← loaded
    eval_loaded l.approval_query approver req.provider req.role req.resource_scope
        req.duration_seconds

  unfoldable pub eval_raw_loaded : Option PreparedQuery → OpaInput → M (Bool × String)
  eval_raw_loaded none input = pure (false, "policy engine not loaded")
  eval_raw_loaded (some q) input = eval q input

  abbrev query_of_type : PolicyType → Loaded → Option PreparedQuery
  query_of_type approval l = l.approval_query
  query_of_type eligibility l = l.eligibility_query

  unfoldable pub eval_raw : PolicyType → OpaInput → M (Bool × String)
  eval_raw ptype input = do l ← loaded; eval_raw_loaded (query_of_type ptype l) input

  unfoldable pub check_queries : PolicyType → Modules → List String → M (Unit {0})
  check_queries ptype modules [] = pure tt
  check_queries ptype modules (q ∷ qs) = do
    compile_modules ptype q modules
    check_queries ptype modules qs

  unfoldable pub compile_check : PolicyRow → M (Unit {0})
  unfolding module_map put_module
  compile_check proposed = do
    policies ← wrap_err "policy: compile check" (list_enabled_policies_by_type env proposed.type)
    check_queries proposed.type (with_proposed proposed (module_map [] policies))
        (queries proposed.type)

  abbrev without : String → List PolicyRow → List PolicyRow
  without id [] = []
  without id (p ∷ ps) = let rest = without id ps in if str_eq p.id id then rest else p ∷ rest

  unfoldable pub compile_check_without : String → PolicyType → M (Unit {0})
  unfolding module_map
  compile_check_without removed_id ptype = do
    policies ← wrap_err "policy: compile check" (list_enabled_policies_by_type env ptype)
    check_queries ptype (module_map [] (without removed_id policies)) (queries ptype)
