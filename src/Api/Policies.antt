-- ===== src/Api/Policies.antt =====
-- What `ApplyPolicy` has compiled before it writes.
use jitsudo.Prelude.{ℕ, ◌+◌, ◌≡◌, refl, ◌∙◌, ◌⊎◌, inl, inr, some, String, List}
use jitsudo.Policy.{Identity, compile_check}
use jitsudo.Policy.Check.{compile_check-Guarantees, compile_check-AreCompiled}
use jitsudo.Policy.Program.{AreCompiled, enabled, with_row}
use jitsudo.Providers.{Registry}
use jitsudo.Api.{policy_row, fail_as, authenticated, apply_policy, handle, serve}
use jitsudo.Api.Messages.{ApplyPolicyInput, Rpc}
use jitsudo.World.{Db, World, Env, ◌>>=◌}
use jitsudo.World.Keeps.{Rely}
use jitsudo.World.Stops.{Result-cases}

-- The table of policies and the loaded queries are as they were.
abbrev pub SamePolicies : World → World → Type 0
SamePolicies v w = (w.db.policies ≡ v.db.policies) × (w.loaded ≡ v.loaded)

module _ (env : Env) (alone : (n : ℕ) (d : Db) → env.others n d ≡ d) where
  rely-SamePolicies : Rely env SamePolicies
  rely-SamePolicies = record {
    same = λ w. (refl, refl);
    after = λ u v w p q. (q.0 ∙ p.0, q.1 ∙ p.1);
    asked = λ w. (refl, refl);
    others = λ w. rw (alone w.calls w.db) (refl, refl);
  }

  -- While no other instance works, an `ApplyPolicy` call leaves the stored policies and the loaded
  -- queries as they were, or OPA has compiled every query that the engine asks of policies of this
  -- type, over exactly the enabled policies of the type and, if the input is enabled, the input's text
  -- under the input's name, in place of an earlier one of that name: an enabled policy with which the
  -- others do not compile is never stored, whatever faults the database has.
  pub apply_policy-AreCompiled :
      (registry : Registry) (admins : List String) (who : Identity) (input : ApplyPolicyInput)
      (w : World)
      → let p = policy_row who input (env.ulid w.calls) in
        SamePolicies w (serve env registry admins (some who) (Rpc.apply_policy input) w).1
        ⊎ AreCompiled env p.type (
            with_row
              (record p { name = input.name; rego = input.rego; enabled = input.enabled })
              (enabled p.type w.db))
  unfolding serve handle authenticated apply_policy fail_as ◌>>=◌
  apply_policy-AreCompiled registry admins who input w =
      let p = policy_row who input (env.ulid w.calls) in
      let v = record w { calls = w.calls + 1 } in
      elim (Result-cases (compile_check env p v).0) [
        | inl (u, e) ↦ inr (compile_check-AreCompiled env alone p v e)
        | inr (x, e) ↦ inl (rw e ((compile_check-Guarantees rely-SamePolicies p).at v))
      ]
