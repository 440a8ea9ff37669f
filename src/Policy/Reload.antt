-- ===== src/Policy/Reload.antt =====
-- `Reload` (policy.go) takes over the enabled policies of the database, or nothing.
use jitsudo.Prelude.{ℕ, ◌+◌, ◌≡◌, refl, ◌⊎◌, none, some, String, [], Option-cases, inl, inr}
use jitsudo.Rows.{PolicyType, eligibility, approval}
use jitsudo.Policy.{module_map, or_default, compile_modules, build_query, reload, set_loaded}
use jitsudo.Policy.Program.{IsProgram, enabled, modules-IsProgram}
use jitsudo.Store.Policies.{list_enabled_policies_by_type}
use jitsudo.World.{Result, ok, err, external, wrap, PreparedQuery, Db, World, Env, ◌>>=◌}
use jitsudo.World.Quiet.{IsQuiet, later, db_call_quiet}

abbrev query_of : PolicyType → String → Db → PreparedQuery
query_of ptype query d = record {
  query = query;
  modules = or_default ptype (module_map [] (enabled ptype d));
}

-- The query over the enabled policies of a type.
abbrev pub IsQuery : PolicyType → String → Db → PreparedQuery → Type 0
IsQuery ptype query d q = (q.query ≡ query) × IsProgram ptype (enabled ptype d) q.modules

-- The three queries of the engine.
abbrev pub IsAllow : Db → PreparedQuery → Type 0
IsAllow = IsQuery eligibility "data.jitsudo.eligibility.allow"

abbrev pub IsApproval : Db → PreparedQuery → Type 0
IsApproval = IsQuery approval "data.jitsudo.approval.allow"

abbrev pub IsTier : Db → PreparedQuery → Type 0
IsTier = IsQuery approval "data.jitsudo.approval.approver_tier"

abbrev pub Compiles : Env → PreparedQuery → Type 0
Compiles env q = (n : ℕ) × (env.prepare n q ≡ none)

-- After `Reload`: all three queries are new, or one of them does not compile and none is new.
abbrev pub IsReloaded : Env → World → Result (Unit {0}) → World → Type 0
IsReloaded env v (ok _) w =
    (q1 : PreparedQuery) × (q2 : PreparedQuery) × (q3 : PreparedQuery) × (w.loaded ≡ record {
      eligibility_query = some q1;
      approval_query = some q2;
      approval_tier_query = some q3;
    })
    × (IsAllow v.db q1 × Compiles env q1)
    × (IsApproval v.db q2 × Compiles env q2)
    × (IsTier v.db q3 × Compiles env q3)
    × (w.db ≡ v.db)
IsReloaded env v (err _) w =
    (w.loaded ≡ v.loaded)
    × (w.db ≡ v.db)
    × (q : PreparedQuery) × (IsAllow v.db q ⊎ (IsApproval v.db q ⊎ IsTier v.db q))
    × (n : ℕ) × (e : String) × (env.prepare n q ≡ some e)

query_of-IsQuery :
    (ptype : PolicyType) (query : String) (d : Db) → IsQuery ptype query d (query_of ptype query d)
query_of-IsQuery ptype query d = (refl, modules-IsProgram ptype (enabled ptype d))

module _ {env : Env} (quiet : IsQuiet env) where
  build_compiles :
      (ptype : PolicyType) (query : String) (w : World)
      → env.prepare (w.calls + 1) (query_of ptype query w.db) ≡ none
      → build_query env ptype query w ≡ (ok (query_of ptype query w.db), later (later w))
  unfolding build_query list_enabled_policies_by_type compile_modules ◌>>=◌
  build_compiles ptype query w compiles = rw (db_call_quiet quiet w, compiles)

  build_fails :
      (ptype : PolicyType) (query e : String) (w : World)
      → env.prepare (w.calls + 1) (query_of ptype query w.db) ≡ some e
      → build_query env ptype query w
        ≡ (err (wrap "policy: compile" (wrap "policy: compile" (external e))), later (later w))
  unfolding build_query list_enabled_policies_by_type compile_modules ◌>>=◌
  build_fails ptype query e w fails = rw (db_call_quiet quiet w, fails)

  -- With no fault and no other instance, `Reload` is all or nothing. Where it succeeds, OPA has
  -- compiled all three queries: each over exactly the enabled policies of its type, one file for each
  -- name with the text of the policy, or, where there is none, over a policy whose default is
  -- `allow := false`. Where it fails, one of these three does not compile, and all three loaded queries
  -- stay as they were. The database is not touched.
  pub reload-IsReloaded :
      (w : World) → let (result, w') = reload env w in IsReloaded env w result w'
  unfolding reload set_loaded ◌>>=◌
  reload-IsReloaded w =
      let q1 = query_of eligibility "data.jitsudo.eligibility.allow" w.db in
      let q2 = query_of approval "data.jitsudo.approval.allow" w.db in
      let q3 = query_of approval "data.jitsudo.approval.approver_tier" w.db in
      let i1 = query_of-IsQuery eligibility "data.jitsudo.eligibility.allow" w.db in
      let i2 = query_of-IsQuery approval "data.jitsudo.approval.allow" w.db in
      let i3 = query_of-IsQuery approval "data.jitsudo.approval.approver_tier" w.db in
      let w1 = later (later w) in
      let w2 = later (later w1) in
      elim (Option-cases (env.prepare (w.calls + 1) q1)) [
        | inr (e, x) ↦
            rw (build_fails eligibility "data.jitsudo.eligibility.allow" e w x)
              (refl, refl, q1, inl i1, w.calls + 1, e, x)
        | inl c1 ↦
            rw (build_compiles eligibility "data.jitsudo.eligibility.allow" w c1)
              (elim (Option-cases (env.prepare (w1.calls + 1) q2)) [
                | inr (e, x) ↦
                    rw (build_fails approval "data.jitsudo.approval.allow" e w1 x)
                      (refl, refl, q2, inr (inl i2), w1.calls + 1, e, x)
                | inl c2 ↦
                    rw (build_compiles approval "data.jitsudo.approval.allow" w1 c2)
                      (elim (Option-cases (env.prepare (w2.calls + 1) q3)) [
                        | inr (e, x) ↦
                            rw (build_fails approval "data.jitsudo.approval.approver_tier" e w2 x)
                              (refl, refl, q3, inr (inr i3), w2.calls + 1, e, x)
                        | inl c3 ↦
                            rw (build_compiles approval "data.jitsudo.approval.approver_tier" w2 c3)
                              (
                                q1,
                                q2,
                                q3,
                                refl,
                                (i1, (w.calls + 1, c1)),
                                (i2, (w1.calls + 1, c2)),
                                (i3, (w2.calls + 1, c3)),
                                refl,
                              )
                      ])
              ])
      ]
