-- ===== src/Policy/Decision.antt =====
-- What stands behind an answer of the policy engine that allows something (policy.go).
use jitsudo.Prelude.{
  ◌+◌, ◌≡◌, refl, ap, true, false, Option, none, some, String, List, [], ◌∷◌, inl, inr,
  Option-cases, arith,
}
use jitsudo.Prelude.Int.{ℤ, pos}
use jitsudo.Rows.{RequestRow, PrincipalRow}
use jitsudo.Policy.{
  Identity, build_input, decision, loaded, eval, eval_loaded, eval_approval, eval_eligibility,
  principal_trust_tier,
}
use jitsudo.Store.Principals.{find_principal, get_principal}
use jitsudo.World.{
  DbFault, ok, err, wrap, Value, boolean, text, other, PreparedQuery, OpaInput, fields, OpaResult,
  World, Env, pure, db_call, ◌>>=◌,
}
use jitsudo.World.Stops.{Result-cases, err-ok, ok-injective}

abbrev tier_at : Option DbFault → Option PrincipalRow → ℤ
tier_at (some _) found = pos 0
tier_at none none = pos 0
tier_at none (some p) = p.trust_tier

-- The first value of the first result is the Boolean true.
abbrev pub AnswersTrue : List OpaResult → Type 0
AnswersTrue l =
    (r : OpaResult) × (rest : List OpaResult) × (others : List Value) × (l ≡ r ∷ rest)
    × (r.expressions ≡ boolean true ∷ others)

-- The input document for an identity and a request, at a trust tier.
abbrev pub input_of : Identity → String → String → String → ℤ → ℤ → OpaInput
input_of who provider role scope seconds tier = fields (record {
  email = who.email;
  subject = who.subject;
  groups = who.groups;
  provider = provider;
  role = role;
  resource_scope = scope;
  duration_seconds = seconds;
  trust_tier = tier;
})

value-AnswersTrue :
    (r : OpaResult) (rest : List OpaResult) (vs : List Value)
    → r.expressions ≡ vs
    → (decision (r ∷ rest)).0 ≡ true
    → AnswersTrue (r ∷ rest)
unfolding decision
value-AnswersTrue r rest [] e h = let k : false ≡ true = rw e at h in cc
value-AnswersTrue r rest (boolean true ∷ vs) e h = (r, rest, vs, refl, e)
value-AnswersTrue r rest (boolean false ∷ vs) e h = let k : false ≡ true = rw e at h in cc
value-AnswersTrue r rest (text s ∷ vs) e h = let k : false ≡ true = rw e at h in cc
value-AnswersTrue r rest (other ∷ vs) e h = let k : false ≡ true = rw e at h in cc

decision-AnswersTrue : (l : List OpaResult) → (decision l).0 ≡ true → AnswersTrue l
unfolding decision
decision-AnswersTrue [] h = cc
decision-AnswersTrue (r ∷ rest) h = value-AnswersTrue r rest r.expressions refl h

module _ (env : Env) where
  -- The trust tier that a call of the policy engine reads at the world `w`: 0 for an identity that
  -- the table lacks, and where the database fails.
  abbrev pub trust_tier_at : String → World → ℤ
  trust_tier_at email w =
      tier_at (env.db_fault w.calls) (find_principal email (env.others w.calls w.db).principals)

  abbrev read_world : World → World
  read_world w = record w { db = env.others w.calls w.db; calls = w.calls + 1 }

  -- OPA has evaluated the query on the input of the identity and the request, with the answer `true`.
  abbrev pub HasAllowed : Option PreparedQuery → (ℤ → OpaInput) → String → World → Type 0
  HasAllowed loaded input email w =
      (q : PreparedQuery) × (l : List OpaResult) × (loaded ≡ some q)
      × (env.eval (w.calls + 1) q (input (trust_tier_at email w)) ≡ ok l)
      × AnswersTrue l

  trust_tier_lem :
      (email : String) (w : World)
      → principal_trust_tier env email w ≡ (ok (trust_tier_at email w), read_world w)
  unfolding principal_trust_tier get_principal db_call ◌>>=◌
  trust_tier_lem email w = elim (Option-cases (env.db_fault w.calls)) [
    | inr (x, fails) ↦ rw fails
    | inl runs ↦ elim (Option-cases (find_principal email (env.others w.calls w.db).principals)) [
      | inl absent ↦ rw (runs, absent)
      | inr (p, found) ↦ rw (runs, found)
    ]
  ]

  eval_allowed :
      (q : PreparedQuery) (input : OpaInput) (w : World) (reason : String)
      → (eval env q input w).0 ≡ ok (true, reason)
      → (l : List OpaResult) × (env.eval w.calls q input ≡ ok l) × ((decision l).0 ≡ true)
  unfolding eval ◌>>=◌
  eval_allowed q input w reason h = elim (Result-cases (env.eval w.calls q input)) [
    | inl (l, e) ↦ let k : ok (decision l) ≡ ok (true, reason) = rw e at h in (l, e, ground arith)
    | inr (x, e) ↦
        let k : err (wrap "policy: eval" x) ≡ ok (true, reason) = rw e at h in elim (err-ok k) [ ]
  ]

  eval_loaded_allowed :
      (loaded : Option PreparedQuery) (i : Identity) (p r s : String) (n : ℤ) (w : World)
      (reason : String)
      → (eval_loaded env loaded i p r s n w).0 ≡ ok (true, reason)
      → HasAllowed loaded (input_of i p r s n) i.email w
  unfolding eval_loaded build_input pure ◌>>=◌
  eval_loaded_allowed none i p r s n w reason h =
      let e : false ≡ true =
        ap (λ v. v.0) (ok-injective {a = (false, "policy engine not loaded")} h) in
      cc
  eval_loaded_allowed (some q) i p r s n w reason h =
      let k : (eval env q (input_of i p r s n (trust_tier_at i.email w)) (read_world w)).0
          ≡ ok (true, reason) =
        rw (trust_tier_lem i.email w) at h in
      let (l, e, allowed) = eval_allowed q _ (read_world w) reason k in
      (q, l, refl, e, decision-AnswersTrue l allowed)

  -- The policy engine fails closed: where `EvalApproval` allows, the approval query was loaded, and
  -- OPA evaluated it on exactly the approver's identity, the provider, the role, the scope and the
  -- duration of the request, and the approver's stored trust tier, 0 where there is none or the
  -- database fails; it answered at least one result, and the first value of the first result is the
  -- Boolean true.
  pub eval_approval-HasAllowed :
      (approver : Identity) (req : RequestRow) (w : World) (reason : String)
      → (eval_approval env approver req w).0 ≡ ok (true, reason)
      → HasAllowed w.loaded.approval_query
          (input_of approver req.provider req.role req.resource_scope req.duration_seconds)
          approver.email
          w
  unfolding eval_approval loaded ◌>>=◌
  eval_approval-HasAllowed approver req w reason h =
      eval_loaded_allowed w.loaded.approval_query approver _ _ _ _ w reason h

  -- The same of `EvalEligibility`, with the eligibility query and the identity of the requester.
  pub eval_eligibility-HasAllowed :
      (who : Identity) (provider role scope : String) (seconds : ℤ) (w : World) (reason : String)
      → (eval_eligibility env who provider role scope seconds w).0 ≡ ok (true, reason)
      → HasAllowed w.loaded.eligibility_query (input_of who provider role scope seconds) who.email w
  unfolding eval_eligibility loaded ◌>>=◌
  eval_eligibility-HasAllowed who provider role scope seconds w reason h =
      eval_loaded_allowed w.loaded.eligibility_query who _ _ _ _ w reason h
