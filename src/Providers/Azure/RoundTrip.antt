-- ===== src/Providers/Azure/RoundTrip.antt =====
-- A Revoke of the Azure adapter leaves no assignment of the Grant whose token it is given.
use jitsudo.Prelude.{
  ◌≡◌, ◌⊎◌, refl, sym, ap, ◌∙◌, false, none, Option, String, str_eq, inl, inr, Bool-cases,
}
use jitsudo.Providers.Cloud.{Answer-cases, error_of, IsCodec}
use jitsudo.Providers.Azure.{
  Config, AzureApi, Formats, RevokeToken, RoleAssignment, is_azure_http_404, is_azure_conflict,
}
use jitsudo.Providers.Azure.Contract.{IsAzure, key_of, key-cases, grant_else}
use jitsudo.Providers.Azure.Directory.{State, lookup_role_def, lookup_user}
use jitsudo.Providers.Azure.Grants.{token_of, grant_of, assign, grant, revoke}
use jitsudo.World.{wrap, Result, ok, err, ElevationRequest, ElevationGrant}
use jitsudo.World.Stops.{Result-cases, ok-injective, err-ok}

module _ {S : Type 0} (cfg : Config) (f : Formats) (api : AzureApi S) where
  -- A Grant that succeeds answers the token of its request.
  abbrev HasToken : ElevationRequest → Result ElevationGrant → Type 0
  HasToken req (err e) = Unit
  HasToken req (ok g) = g.revoke_token ≡ f.token.marshal (token_of f req)

  assign-HasToken :
      (req : ElevationRequest) (p : RoleAssignment) (st : State S)
      → HasToken req (assign cfg f api req p st).0
  unfolding assign grant_of
  assign-HasToken req p (cache, s) =
      let s1 = (api.now s).1 in
      let t = token_of f req in
      elim (Answer-cases (api.create_assignment t.scope t.assignment_id p s1).0) [
        | inl (u, made) ↦ rw (made, assign) refl
        | inr (e, refusal) ↦ elim (Bool-cases (is_azure_conflict api e)) [
          | inl conflict ↦ rw (refusal, conflict, assign) refl
          | inr fault ↦ rw (refusal, fault, assign) tt
        ]
      ]

  grant-HasToken : (req : ElevationRequest) (st : State S) → HasToken req (grant cfg f api req st).0
  unfolding grant
  grant-HasToken req st =
      let st1 = (lookup_user f api req.user_identity st).1 in
      let st2 = (lookup_role_def f api (token_of f req).scope req.role_name st1).1 in
      elim (Result-cases (lookup_user f api req.user_identity st).0) [
        | inr (e, bad) ↦ rw (bad, grant) tt
        | inl (principal, found) ↦
            elim (Result-cases (lookup_role_def f api (token_of f req).scope req.role_name st1).0) [
              | inr (e, bad) ↦ rw (found, bad, grant) tt
              | inl (definition, known) ↦
                  rw (found, known, grant)
                    (assign-HasToken req
                      (record { principal_id = principal; role_definition_id = definition }) st2)
            ]
      ]

  token_at :
      (req : ElevationRequest) (r : Result ElevationGrant) (g : ElevationGrant)
      → HasToken req r
      → r ≡ ok g
      → g.revoke_token ≡ f.token.marshal (token_of f req)
  token_at req (ok h) g has same = ap (λ x. x.revoke_token) (sym (ok-injective same)) ∙ has
  token_at req (err e) g has same = cc

module _ {S : Type 0} (f : Formats) (api : AzureApi S)
    (stored : String × String → S → Option RoleAssignment) (laws : IsAzure api stored) where
  -- What a Revoke that succeeds does with the assignment that its token names, and with others.
  revoked :
      (g : ElevationGrant) (token : RevokeToken) (st : State S) (k : String × String)
      → str_eq g.revoke_token "" ≡ false
      → f.token.unmarshal g.revoke_token ≡ ok token
      → (revoke f api g st).0 ≡ ok tt
      → (stored (key_of token) (revoke f api g st).1.1 ≡ none)
        × ((k ≡ key_of token) ⊎ (stored k (revoke f api g st).1.1 ≡ stored k st.1))
  unfolding revoke
  revoked g token (cache, s) k given decoded done =
      let at = key_of token in
      let rest : (k ≡ at)
          ⊎ (stored k (api.delete_assignment token.scope token.assignment_id s).1 ≡ stored k s) =
        elim (key-cases k at) [
          | inl same ↦ inl same
          | inr other ↦ inr (laws.delete_else token.scope token.assignment_id k s other)
        ] in
      elim (Answer-cases (api.delete_assignment token.scope token.assignment_id s).0) [
        | inl (u, gone) ↦
            rw (given, decoded, gone, revoke)
              (laws.delete token.scope token.assignment_id s gone, rest)
        | inr (e, refusal) ↦ elim (Bool-cases (is_azure_http_404 e)) [
          | inl missing ↦
              rw (given, decoded, refusal, missing, revoke)
                (laws.delete_absent token.scope token.assignment_id e s refusal missing, rest)
          | inr fault ↦
              let failed : (revoke f api g (cache, s)).0
                  ≡ err (wrap "azure: delete role assignment" (error_of e)) =
                rw (given, decoded, refusal, fault, revoke) refl in
              elim (err-ok (sym failed ∙ done)) [ ]
        ]
      ]

-- While nobody else works on the assignment of a request, a Revoke that succeeds after a Grant that
-- succeeded leaves the request without an assignment, whether the Grant made it or took a conflict
-- for success, and every other assignment as it was before the Grant.
pub azure_revoke-grant :
    {S : Type 0} (cfg : Config) (f : Formats) (api : AzureApi S)
    (stored : String × String → S → Option RoleAssignment) (req : ElevationRequest)
    (g : ElevationGrant) (st : State S) (k : String × String)
    → IsAzure api stored
    → IsCodec f.token (token_of f req)
    → (grant cfg f api req st).0 ≡ ok g
    → (revoke f api g (grant cfg f api req st).1).0 ≡ ok tt
    → let at = key_of (token_of f req) in
      let after = (revoke f api g (grant cfg f api req st).1).1.1 in
      (stored at after ≡ none) × ((k ≡ at) ⊎ (stored k after ≡ stored k st.1))
azure_revoke-grant cfg f api stored req g st k laws json granted done =
    let token = token_of f req in
    let st1 = (grant cfg f api req st).1 in
    let written =
      token_at cfg f api req (grant cfg f api req st).0 g (grant-HasToken cfg f api req st)
        granted in
    let gone =
      revoked f api stored laws g token st1 k (ap (λ t. str_eq t "") written ∙ json.not_empty)
        (ap f.token.unmarshal written ∙ json.unmarshal-marshal) done in
    (
      gone.0,
      elim (key-cases k (key_of token)) [
        | inl same ↦ inl same
        | inr other ↦ elim gone.1 [
          | inl same ↦ inl same
          | inr kept ↦ inr (kept ∙ grant_else f api stored laws k cfg req st other)
        ]
      ],
    )
