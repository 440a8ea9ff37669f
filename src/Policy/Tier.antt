-- ===== src/Policy/Tier.antt =====
-- The approval tier of a request (policy.go, EvalApprovalTier).
use jitsudo.Prelude.{
  ◌≡◌, refl, true, ◌||◌, Option, none, some, String, str_eq, List, [], ◌∷◌, Bool-cases, inl, inr,
}
use jitsudo.Prelude.Int.{ℤ}
use jitsudo.Policy.{
  Identity, as_text, tier_of_text, first_tier, tier_of_results, eval_tier, eval_tier_loaded,
  eval_approval_tier,
}
use jitsudo.Store.Requests.{is_tier}
use jitsudo.World.{
  ok, err, wrap, Value, OpaResult, OpaInput, PreparedQuery, World, Env, pure, ◌>>=◌,
}
use jitsudo.World.Stops.{Returns, Returns-bind, Result-cases, err-ok, ok-injective}

tier_of_text-is_tier : (t : String) → is_tier (tier_of_text t) ≡ true
unfolding is_tier
tier_of_text-is_tier t =
    elim (Bool-cases (str_eq t "auto" || str_eq t "ai_review" || str_eq t "human")) [
      | inl known ↦ rw (known, known)
      | inr unknown ↦ rw unknown
    ]

first_tier-is_tier : (vs : List Value) → is_tier (first_tier vs) ≡ true
unfolding is_tier
first_tier-is_tier [] = refl
first_tier-is_tier (v ∷ _) = tier_of_text-is_tier (as_text v)

tier_of_results-is_tier : (l : List OpaResult) → is_tier (tier_of_results l) ≡ true
unfolding tier_of_results is_tier
tier_of_results-is_tier [] = refl
tier_of_results-is_tier (r ∷ _) = first_tier-is_tier r.expressions

module _ (env : Env) where
  eval_tier-is_tier :
      (q : PreparedQuery) (input : OpaInput)
      → Returns (λ t. is_tier t ≡ true) (eval_tier env q input)
  unfolding eval_tier ◌>>=◌
  eval_tier-is_tier q input = record {
    at = λ w t h. elim (Result-cases (env.eval w.calls q input)) [
      | inl (l, e) ↦
          let k : ok (tier_of_results l) ≡ ok t = rw e at h in
          rw (← ok-injective k) (tier_of_results-is_tier l)
      | inr (x, e) ↦
          let k : err (wrap "policy: eval tier" x) ≡ ok t = rw e at h in elim (err-ok k) [ ]
    ];
  }

  eval_tier_loaded-is_tier :
      (q : Option PreparedQuery) (i : Identity) (p r s : String) (n : ℤ)
      → Returns (λ t. is_tier t ≡ true) (eval_tier_loaded env q i p r s n)
  unfolding eval_tier_loaded pure is_tier
  eval_tier_loaded-is_tier none i p r s n = record { at = λ w t h. rw (← ok-injective h) refl }
  eval_tier_loaded-is_tier (some q) i p r s n = Returns-bind _ _ _ λ tier. eval_tier-is_tier q _

  -- Whatever OPA answers, and where no query is loaded, a tier that `EvalApprovalTier` returns is one
  -- that the constraint of the table elevation_requests accepts.
  pub eval_approval_tier-is_tier :
      (i : Identity) (p r s : String) (n : ℤ) (w : World) (tier : String)
      → (eval_approval_tier env i p r s n w).0 ≡ ok tier
      → is_tier tier ≡ true
  unfolding eval_approval_tier
  eval_approval_tier-is_tier i p r s n w tier =
      (Returns-bind (λ t. is_tier t ≡ true) _ _
          λ l. eval_tier_loaded-is_tier l.approval_tier_query i p r s n).at
        w tier
