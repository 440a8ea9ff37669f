-- ===== src/Policy/Refusal.antt =====
-- Where OPA does not answer `true`, the policy engine allows nothing.
use jitsudo.Prelude.{ℕ, ◌≡◌, Bool, false, Option, none, some, String, List, inl, inr, arith}
use jitsudo.Prelude.Int.{ℤ}
use jitsudo.Rows.{RequestRow}
use jitsudo.Policy.{Identity, decision, eval, eval_loaded, eval_approval, eval_eligibility}
use jitsudo.World.{Result, ok, err, wrap, PreparedQuery, OpaInput, OpaResult, Env, pure, ◌>>=◌}
use jitsudo.World.Stops.{Returns, Returns-bind, Result-cases}

-- Whatever query OPA evaluates, it does not answer `true`.
abbrev pub Refuses : Env → Type 0
Refuses env =
    (n : ℕ) (q : PreparedQuery) (input : OpaInput) (l : List OpaResult)
    → env.eval n q input ≡ ok l
    → (decision l).0 ≡ false

abbrev pub IsRefused : Result (Bool × String) → Type 0
IsRefused (ok v) = v.0 ≡ false
IsRefused (err e) = Unit

module _ (env : Env) (refuses : Refuses env) where
  eval_refused :
      (q : PreparedQuery) (input : OpaInput) → Returns (λ v. v.0 ≡ false) (eval env q input)
  unfolding eval ◌>>=◌
  eval_refused q input = record {
    at = λ w v h. elim (Result-cases (env.eval w.calls q input)) [
      | inl (l, e) ↦
          let k : ok (decision l) ≡ ok v = rw e at h in ground (arith, refuses w.calls q input l e)
      | inr (x, e) ↦ let k : err (wrap "policy: eval" x) ≡ ok v = rw e at h in cc
    ];
  }

  eval_loaded_refused :
      (q : Option PreparedQuery) (i : Identity) (p r s : String) (n : ℤ)
      → Returns (λ v. v.0 ≡ false) (eval_loaded env q i p r s n)
  unfolding eval_loaded
  eval_loaded_refused none i p r s n = record {
    at = λ w v h.
        let k : ok (false, "policy engine not loaded") ≡ ok v = unfold pure in h in ground arith;
  }
  eval_loaded_refused (some q) i p r s n = Returns-bind _ _ _ λ tier. eval_refused q _

  pub eval_approval_refused :
      (i : Identity) (req : RequestRow) → Returns (λ v. v.0 ≡ false) (eval_approval env i req)
  unfolding eval_approval
  eval_approval_refused i req =
      Returns-bind _ _ _ λ l. eval_loaded_refused l.approval_query i _ _ _ _

  pub eval_eligibility_refused :
      (i : Identity) (p r s : String) (n : ℤ)
      → Returns (λ v. v.0 ≡ false) (eval_eligibility env i p r s n)
  unfolding eval_eligibility
  eval_eligibility_refused i p r s n =
      Returns-bind _ _ _ λ l. eval_loaded_refused l.eligibility_query i _ _ _ _
