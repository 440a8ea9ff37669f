-- ===== src/Workflow/Create/Eligibility.antt =====
-- `CreateRequest` creates nothing without the eligibility policy, break-glass aside.
use jitsudo.Prelude.{ℕ, ◌≡◌, refl, ◌∙◌, Bool, false, not, String}
use jitsudo.Policy.{Identity}
use jitsudo.Policy.Frame.{eval_eligibility-Guarantees}
use jitsudo.Policy.Refusal.{Refuses, eval_eligibility_refused}
use jitsudo.Providers.{Provider, Registry}
use jitsudo.Store.Principals.{upsert_principal_last_seen}
use jitsudo.Workflow.Create.{CreateRequestInput, create_by_policy, create_request}
use jitsudo.World.{Error, Db, World, Env, raise_if}
use jitsudo.World.Keeps.{Guarantees, Rely, Guarantees-bind, Guarantees-modify, guarantee_rules}
use jitsudo.World.Stops.{
  IsErr, Stops, Stops-bind, Stops-bind_left, Stops-else, Returns-any, Returns-wrap_err,
}

-- No request, no audit row and no effect outside.
abbrev pub Nothing : World → World → Type 0
Nothing v w =
    (w.db.requests ≡ v.db.requests)
    × (w.db.audit_events ≡ v.db.audit_events)
    × (w.effects ≡ v.effects)

module _ (env : Env) (alone : (n : ℕ) (d : Db) → env.others n d ≡ d) (refuses : Refuses env) where
  rely-Nothing : Rely env Nothing
  rely-Nothing = record {
    same = λ w. (refl, refl, refl);
    after = λ u v w p q. (q.0 ∙ p.0, q.1 ∙ p.1, q.2 ∙ p.2);
    asked = λ w. (refl, refl, refl);
    others = λ w. rw (alone w.calls w.db) (refl, refl, refl);
  }

  seen : (id : String) → Guarantees Nothing (upsert_principal_last_seen env id)
  unfolding upsert_principal_last_seen
  seen id = Guarantees-bind rely-Nothing _ _ (search (rely-Nothing, guarantee_rules)) λ _.
      Guarantees-bind rely-Nothing _ _ (search (rely-Nothing, guarantee_rules))
        λ now. Guarantees-modify _ λ w. (refl, refl, refl)

  refused-Stops : (b : Bool) (e : Error) → b ≡ false → Stops Nothing (raise_if (not b) e)
  unfolding raise_if
  refused-Stops b e h = rw h (record { at = λ w. (tt, (refl, refl, refl)) })

  by_policy-Stops :
      (who : Identity) (input : CreateRequestInput) (p : Provider)
      → Stops Nothing (create_by_policy env who input p)
  unfolding create_by_policy
  by_policy-Stops who input p =
      Stops-bind rely-Nothing (λ _. Unit) _ _ (search (rely-Nothing, guarantee_rules, seen) depth 8)
        (Returns-any _)
        λ _ _.
          Stops-bind rely-Nothing (λ v. v.0 ≡ false) _ _
            (search (rely-Nothing, guarantee_rules, eval_eligibility-Guarantees) depth 8)
            (Returns-wrap_err _ _ _ (eval_eligibility_refused env refuses who _ _ _ _))
            λ v h. Stops-bind_left rely-Nothing _ _ (refused-Stops v.0 _ h)

  -- While no other instance works, and where OPA answers no query with `true`, `CreateRequest` without
  -- break-glass fails whatever faults the database has, and adds no request and no audit row, calls no
  -- provider for a grant and notifies nobody.
  pub create_request_refused :
      (registry : Registry) (who : Identity) (input : CreateRequestInput) (w : World)
      → input.break_glass ≡ false
      → let (result, w') = create_request env registry who input w in IsErr result × Nothing w w'
  unfolding create_request
  create_request_refused registry who input w ordinary =
      (Stops-bind rely-Nothing (λ _. Unit) _ _ (search (rely-Nothing, guarantee_rules) depth 8)
          (Returns-any _)
          λ p _.
            Stops-bind rely-Nothing (λ _. Unit) _ _ (search (rely-Nothing, guarantee_rules) depth 8)
              (Returns-any _) λ _ _. Stops-else _ _ ordinary (by_policy-Stops who input p)).at
        w
