-- ===== src/Policy/Frame.antt =====
-- The policy engine (policy.go) only reads the database: it keeps every relation that the other
-- instances keep.
use jitsudo.Prelude.{Option, none, some, String}
use jitsudo.Prelude.Int.{ℤ}
use jitsudo.Rows.{RequestRow, PolicyType}
use jitsudo.Policy.{
  Identity, loaded, principal_trust_tier, eval, eval_tier, eval_loaded, eval_tier_loaded,
  eval_eligibility, eval_approval_tier, eval_approval, eval_raw_loaded, eval_raw,
}
use jitsudo.Store.Principals.{get_principal}
use jitsudo.World.{PreparedQuery, OpaInput, World, Env}
use jitsudo.World.Keeps.{Guarantees, Rely, guarantee_rules}

module _ {env : Env} {R : World → World → Type 0} (rely : Rely env R) where
  pub get_principal-Guarantees : (id : String) → Guarantees R (get_principal env id)
  unfolding get_principal
  get_principal-Guarantees id = search guarantee_rules depth 8

  pub trust_tier-Guarantees : (id : String) → Guarantees R (principal_trust_tier env id)
  unfolding principal_trust_tier
  trust_tier-Guarantees id = search (guarantee_rules, get_principal-Guarantees) depth 8

  pub loaded-Guarantees : Guarantees R loaded
  unfolding loaded
  loaded-Guarantees = record { at = rely.same }

  pub eval-Guarantees : (q : PreparedQuery) (i : OpaInput) → Guarantees R (eval env q i)
  unfolding eval
  eval-Guarantees q i = search guarantee_rules depth 8

  pub eval_tier-Guarantees : (q : PreparedQuery) (i : OpaInput) → Guarantees R (eval_tier env q i)
  unfolding eval_tier
  eval_tier-Guarantees q i = search guarantee_rules depth 8

  pub eval_loaded-Guarantees :
      (q : Option PreparedQuery) (i : Identity) (p r s : String) (n : ℤ)
      → Guarantees R (eval_loaded env q i p r s n)
  unfolding eval_loaded
  eval_loaded-Guarantees none i p r s n = search guarantee_rules
  eval_loaded-Guarantees (some q) i p r s n =
      search (guarantee_rules, trust_tier-Guarantees, eval-Guarantees) depth 8

  pub eval_tier_loaded-Guarantees :
      (q : Option PreparedQuery) (i : Identity) (p r s : String) (n : ℤ)
      → Guarantees R (eval_tier_loaded env q i p r s n)
  unfolding eval_tier_loaded
  eval_tier_loaded-Guarantees none i p r s n = search guarantee_rules
  eval_tier_loaded-Guarantees (some q) i p r s n =
      search (guarantee_rules, trust_tier-Guarantees, eval_tier-Guarantees) depth 8

  pub eval_eligibility-Guarantees :
      (i : Identity) (p r s : String) (n : ℤ) → Guarantees R (eval_eligibility env i p r s n)
  unfolding eval_eligibility
  eval_eligibility-Guarantees i p r s n =
      search (guarantee_rules, loaded-Guarantees, eval_loaded-Guarantees) depth 8

  pub eval_approval_tier-Guarantees :
      (i : Identity) (p r s : String) (n : ℤ) → Guarantees R (eval_approval_tier env i p r s n)
  unfolding eval_approval_tier
  eval_approval_tier-Guarantees i p r s n =
      search (guarantee_rules, loaded-Guarantees, eval_tier_loaded-Guarantees) depth 8

  pub eval_approval-Guarantees :
      (i : Identity) (req : RequestRow) → Guarantees R (eval_approval env i req)
  unfolding eval_approval
  eval_approval-Guarantees i req =
      search (guarantee_rules, loaded-Guarantees, eval_loaded-Guarantees) depth 8

  eval_raw_loaded-Guarantees :
      (q : Option PreparedQuery) (i : OpaInput) → Guarantees R (eval_raw_loaded env q i)
  unfolding eval_raw_loaded
  eval_raw_loaded-Guarantees none i = search guarantee_rules
  eval_raw_loaded-Guarantees (some q) i = search (guarantee_rules, eval-Guarantees) depth 8

  pub eval_raw-Guarantees :
      (ptype : PolicyType) (i : OpaInput) → Guarantees R (eval_raw env ptype i)
  unfolding eval_raw
  eval_raw-Guarantees ptype i =
      search (guarantee_rules, loaded-Guarantees, eval_raw_loaded-Guarantees) depth 8
