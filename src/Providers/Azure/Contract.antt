-- ===== src/Providers/Azure/Contract.antt =====
-- Grant and Revoke of the Azure adapter, while nobody else works on the assignments it names.
use jitsudo.Prelude.{
  ◌≡◌, ◌≢◌, ◌⊎◌, refl, ap, ◌∙◌, true, Option, none, String, inl, inr, Bool-cases, Option-cases,
}
use jitsudo.Prelude.Texts.{String-cases}
use jitsudo.Providers.Cloud.{Fault, answered, refused, Answer-cases}
use jitsudo.Providers.Azure.{
  Config, AzureApi, Formats, RevokeToken, RoleAssignment, is_azure_http_404, is_azure_conflict,
}
use jitsudo.Providers.Azure.Directory.{
  State, SyncCache, cache_get, remember, cached, list_definitions, lookup_role_def, user_url,
  ask_graph, lookup_user,
}
use jitsudo.Providers.Azure.Grants.{token_of, assign, grant}
use jitsudo.World.{Result, ok, err, ElevationRequest}
use jitsudo.World.Stops.{Result-cases}

-- What the adapter relies on of the cloud; `stored` is the assignment of a scope and a name.
pub record IsAzure {S : Type 0} (api : AzureApi S)
    (stored : String × String → S → Option RoleAssignment) : Type 0 where
  pub create_else :
      (scope id : String) (p : RoleAssignment) (k : String × String) (s : S)
      → k ≢ (scope, id)
      → stored k (api.create_assignment scope id p s).1 ≡ stored k s
  pub delete :
      (scope id : String) (s : S)
      → (api.delete_assignment scope id s).0 ≡ answered tt
      → stored (scope, id) (api.delete_assignment scope id s).1 ≡ none
  pub delete_absent :
      (scope id : String) (e : Fault) (s : S)
      → (api.delete_assignment scope id s).0 ≡ refused e
      → is_azure_http_404 e ≡ true
      → stored (scope, id) (api.delete_assignment scope id s).1 ≡ none
  pub delete_else :
      (scope id : String) (k : String × String) (s : S)
      → k ≢ (scope, id)
      → stored k (api.delete_assignment scope id s).1 ≡ stored k s
  pub pages_keep :
      (scope filter : String) (k : String × String) (s : S)
      → stored k (api.role_definition_pages scope filter s).1 ≡ stored k s
  pub token_keeps : (k : String × String) (s : S) → stored k (api.get_graph_token s).1 ≡ stored k s
  pub graph_keeps :
      (token url : String) (k : String × String) (s : S)
      → stored k (api.get_graph token url s).1 ≡ stored k s
  pub now_keeps : (k : String × String) (s : S) → stored k (api.now s).1 ≡ stored k s

-- Where the assignment of a token is.
abbrev pub key_of : RevokeToken → String × String
key_of token = (token.scope, token.assignment_id)

pub key-cases : (j k : String × String) → (j ≡ k) ⊎ (j ≢ k)
key-cases (a, m) (b, n) = elim (String-cases a b) [
  | inr other ↦ inr (λ h. other (ap (λ k. k.0) h))
  | inl same ↦ elim (String-cases m n) [
    | inr other ↦ inr (λ h. other (ap (λ k. k.1) h))
    | inl same_name ↦ inl (rw (same, same_name) refl)
  ]
]

module _ {S : Type 0} (f : Formats) (api : AzureApi S)
    (stored : String × String → S → Option RoleAssignment) (laws : IsAzure api stored)
    (k : String × String) where
  -- The lookups leave the assignments.
  remember_keeps :
      (key : String) (r : Result String) (cache : SyncCache) (s : S)
      → stored k (remember f api key r (cache, s)).1.1 ≡ stored k s
  remember_keeps key (ok id) cache s = laws.now_keeps k s
  remember_keeps key (err e) cache s = refl

  cached_keeps :
      (key : String) (look : S → Result String × S) (st : State S)
      → ((s : S) → stored k (look s).1 ≡ stored k s)
      → stored k (cached f api key look st).1.1 ≡ stored k st.1
  cached_keeps key look (cache, s) keeps =
      let s1 = (api.now s).1 in
      elim (Option-cases (cache_get (api.now s).0 key cache)) [
        | inr (id, hit) ↦ rw (hit, cached) (laws.now_keeps k s)
        | inl miss ↦
            rw (miss, cached)
              (remember_keeps key (look s1).0 cache (look s1).1 ∙ keeps s1 ∙ laws.now_keeps k s)
      ]

  ask_graph_keeps : (upn : String) (s : S) → stored k (ask_graph f api upn s).1 ≡ stored k s
  ask_graph_keeps upn s =
      let s1 = (api.get_graph_token s).1 in
      elim (Answer-cases (api.get_graph_token s).0) [
        | inr (e, refusal) ↦ rw (refusal, ask_graph) (laws.token_keeps k s)
        | inl (t, given) ↦ elim (Option-cases (api.request_error (user_url upn))) [
          | inr (e, bad) ↦ rw (given, bad, ask_graph) (laws.token_keeps k s)
          | inl good ↦ elim (Answer-cases (api.get_graph t (user_url upn) s1).0) [
            | inr (e, refusal) ↦
                rw (given, good, refusal, ask_graph)
                  (laws.graph_keeps t (user_url upn) k s1 ∙ laws.token_keeps k s)
            | inl (a, got) ↦
                rw (given, good, got, ask_graph)
                  (laws.graph_keeps t (user_url upn) k s1 ∙ laws.token_keeps k s)
          ]
        ]
      ]

  role_keeps :
      (scope role : String) (st : State S)
      → stored k (lookup_role_def f api scope role st).1.1 ≡ stored k st.1
  unfolding lookup_role_def
  role_keeps scope role st =
      cached_keeps _ (list_definitions f api scope role) st (λ s. laws.pages_keep scope _ k s)

  user_keeps :
      (upn : String) (st : State S) → stored k (lookup_user f api upn st).1.1 ≡ stored k st.1
  unfolding lookup_user
  user_keeps upn st = cached_keeps _ (ask_graph f api upn) st (ask_graph_keeps upn)

  assign_else :
      (cfg : Config) (req : ElevationRequest) (p : RoleAssignment) (st : State S)
      → k ≢ key_of (token_of f req)
      → stored k (assign cfg f api req p st).1.1 ≡ stored k st.1
  unfolding assign
  assign_else cfg req p (cache, s) other =
      let s1 = (api.now s).1 in
      let t = token_of f req in
      let kept = laws.create_else t.scope t.assignment_id p k s1 other ∙ laws.now_keeps k s in
      elim (Answer-cases (api.create_assignment t.scope t.assignment_id p s1).0) [
        | inl (u, made) ↦ rw (made, assign) kept
        | inr (e, refusal) ↦ elim (Bool-cases (is_azure_conflict api e)) [
          | inl conflict ↦ rw (refusal, conflict, assign) kept
          | inr fault ↦ rw (refusal, fault, assign) kept
        ]
      ]

  pub grant_else :
      (cfg : Config) (req : ElevationRequest) (st : State S)
      → k ≢ key_of (token_of f req)
      → stored k (grant cfg f api req st).1.1 ≡ stored k st.1
  unfolding grant
  grant_else cfg req st other =
      let st1 = (lookup_user f api req.user_identity st).1 in
      let st2 = (lookup_role_def f api (token_of f req).scope req.role_name st1).1 in
      elim (Result-cases (lookup_user f api req.user_identity st).0) [
        | inr (e, bad) ↦ rw (bad, grant) (user_keeps req.user_identity st)
        | inl (principal, found) ↦
            elim (Result-cases (lookup_role_def f api (token_of f req).scope req.role_name st1).0) [
              | inr (e, bad) ↦
                  rw (found, bad, grant)
                    (role_keeps _ req.role_name st1 ∙ user_keeps req.user_identity st)
              | inl (definition, known) ↦
                  rw (found, known, grant)
                    (assign_else cfg req
                        (record { principal_id = principal; role_definition_id = definition }) st2
                        other
                      ∙ role_keeps _ req.role_name st1
                      ∙ user_keeps req.user_identity st)
            ]
      ]
