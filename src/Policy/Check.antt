-- ===== src/Policy/Check.antt =====
-- What a success of `CompileCheck` (policy.go) shows.
use jitsudo.Prelude.{
  ℕ, ◌+◌, ◌≡◌, ◌&&◌, none, String, List, [], ◌∷◌, Option-cases, inl, inr, select, order_by, refl,
  subst,
}
use jitsudo.Rows.{PolicyType, eligibility, approval, PolicyRow}
use jitsudo.Policy.Program.{
  AreCompiled, enabled, with_row, modules-IsProgram, with_proposed-with_row,
}
use jitsudo.Policy.{
  Modules, module_map, or_default, queries, with_proposed, compile_modules, check_queries,
  compile_check, compile_check_without,
}
use jitsudo.Store.Policies.{policy_type_eq, by_name, list_enabled_policies_by_type}
use jitsudo.World.{ok, err, external, wrap, db, Db, World, Env, db_call, ◌>>=◌}
use jitsudo.World.Keeps.{Guarantees, Guarantees-bind, Rely, guarantee_rules}
use jitsudo.World.Stops.{err-ok}

-- OPA has compiled each of the queries over the modules.
abbrev pub AreAccepted : Env → PolicyType → Modules → List String → Type 0
AreAccepted env ptype modules [] = Unit
AreAccepted env ptype modules (q ∷ qs) =
    ((n : ℕ) × (env.prepare n (record { query = q; modules = or_default ptype modules }) ≡ none))
    × AreAccepted env ptype modules qs

-- The modules of the enabled policies of a type.
abbrev pub enabled_modules : PolicyType → Db → Modules
enabled_modules ptype d =
    module_map []
      (order_by by_name (select (λ p. policy_type_eq p.type ptype && p.enabled) d.policies))

module _ {env : Env} {R : World → World → Type 0} (rely : Rely env R) where
  pub compile_modules-Guarantees :
      (ptype : PolicyType) (q : String) (ms : Modules)
      → Guarantees R (compile_modules env ptype q ms)
  unfolding compile_modules
  compile_modules-Guarantees ptype q ms = search guarantee_rules depth 8

  check_queries-Guarantees :
      (ptype : PolicyType) (ms : Modules) (qs : List String)
      → Guarantees R (check_queries env ptype ms qs)
  unfolding check_queries
  check_queries-Guarantees ptype ms [] = search guarantee_rules
  check_queries-Guarantees ptype ms (q ∷ qs) =
      Guarantees-bind rely _ _ (compile_modules-Guarantees ptype q ms)
        λ _. check_queries-Guarantees ptype ms qs

  pub list_enabled-Guarantees :
      (ptype : PolicyType) → Guarantees R (list_enabled_policies_by_type env ptype)
  unfolding list_enabled_policies_by_type
  list_enabled-Guarantees ptype = search guarantee_rules depth 8

  pub compile_check-Guarantees : (p : PolicyRow) → Guarantees R (compile_check env p)
  unfolding compile_check
  compile_check-Guarantees p =
      Guarantees-bind rely _ _ (search (guarantee_rules, list_enabled-Guarantees) depth 8)
        λ l. check_queries-Guarantees p.type _ _

  pub compile_check_without-Guarantees :
      (id : String) (ptype : PolicyType) → Guarantees R (compile_check_without env id ptype)
  unfolding compile_check_without
  compile_check_without-Guarantees id ptype =
      Guarantees-bind rely _ _ (search (guarantee_rules, list_enabled-Guarantees) depth 8)
        λ l. check_queries-Guarantees ptype _ _

module _ (env : Env) where
  check_queries-AreAccepted :
      (ptype : PolicyType) (ms : Modules) (qs : List String) (w : World)
      → (check_queries env ptype ms qs w).0 ≡ ok tt
      → AreAccepted env ptype ms qs
  unfolding check_queries compile_modules ◌>>=◌
  check_queries-AreAccepted ptype ms [] w h = tt
  check_queries-AreAccepted ptype ms (q ∷ qs) w h =
      elim (Option-cases
        (env.prepare w.calls (record { query = q; modules = or_default ptype ms }))) [
          | inl c ↦
              let k : (check_queries env ptype ms qs (record w { calls = w.calls + 1 })).0 ≡ ok tt =
                rw c at h in
              ((w.calls, c), check_queries-AreAccepted ptype ms qs _ k)
          | inr (e, x) ↦
              let k : err (wrap "policy: compile" (external e)) ≡ ok tt = rw x at h in
              elim (err-ok k) [ ]
        ]

  pub compile_check-AreAccepted :
      (alone : (n : ℕ) (d : Db) → env.others n d ≡ d) (p : PolicyRow) (w : World)
      → (compile_check env p w).0 ≡ ok tt
      → AreAccepted env p.type (with_proposed p (enabled_modules p.type w.db)) (queries p.type)
  unfolding compile_check list_enabled_policies_by_type db_call ◌>>=◌
  compile_check-AreAccepted alone p w h = elim (Option-cases (env.db_fault w.calls)) [
    | inl runs ↦
        let k : (check_queries env p.type (with_proposed p (enabled_modules p.type w.db))
              (queries p.type) (record w { calls = w.calls + 1 })).0
            ≡ ok tt =
          rw (runs, alone w.calls w.db) at h in
        check_queries-AreAccepted p.type _ _ _ k
    | inr (x, fails) ↦
        let k : err (wrap "policy: compile check" (wrap "store: ListEnabledPoliciesByType" (db x)))
            ≡ ok tt =
          rw fails at h in
        elim (err-ok k) [ ]
  ]

  are_compiled :
      (ptype : PolicyType) (ps : List PolicyRow)
      → AreAccepted env ptype (module_map [] ps) (queries ptype)
      → AreCompiled env ptype ps
  are_compiled eligibility ps (c, rest) = (_, refl, modules-IsProgram eligibility ps, c.0, c.1)
  are_compiled approval ps (c, (d, rest)) = (
    (_, refl, modules-IsProgram approval ps, c.0, c.1),
    (_, refl, modules-IsProgram approval ps, d.0, d.1),
  )

  -- The proposed policy is among those that were compiled, if it is enabled.
  pub compile_check-AreCompiled :
      (alone : (n : ℕ) (d : Db) → env.others n d ≡ d) (p : PolicyRow) (w : World)
      → (compile_check env p w).0 ≡ ok tt
      → AreCompiled env p.type (with_row p (enabled p.type w.db))
  compile_check-AreCompiled alone p w h = are_compiled p.type (with_row p (enabled p.type w.db)) (
      subst (λ ms. AreAccepted env p.type ms (queries p.type))
        (with_proposed-with_row p (enabled p.type w.db)) (compile_check-AreAccepted alone p w h))
