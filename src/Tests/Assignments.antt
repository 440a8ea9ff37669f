-- ===== src/Tests/Assignments.antt =====
-- A cloud that holds role assignments by scope and name, with a Grant and a Revoke.
use jitsudo.Prelude.{
  ◌≡◌, ◌≢◌, ◌⊎◌, refl, inl, inr, Option, Option-cases, none, some, String, [], ◌∷◌,
}
use jitsudo.Prelude.Int.{pos}
use jitsudo.Providers.Azure.{
  Config, AzureApi, Formats, RoleAssignment, build_scope, deterministic_assignment_id,
}
use jitsudo.Providers.Azure.Contract.{IsAzure, key_of, key-cases}
use jitsudo.Providers.Azure.Directory.{State, lookup_role_def, lookup_user, cache_get}
use jitsudo.Providers.Azure.Grants.{token_of, grant_of, grant, assign, revoke}
use jitsudo.Providers.Azure.RoundTrip.{azure_revoke-grant}
use jitsudo.Providers.Cloud.{Fault, http, Answer, answered, refused, IsCodec}
use jitsudo.World.{ok}
use jitsudo.Tests.Cloud.{req}

abbrev Key : Type 0
Key = String × String

abbrev Assignments : Type 0
Assignments = Key → Option RoleAssignment

abbrev stored : Key → Assignments → Option RoleAssignment
stored k s = s k

abbrev put_if :
    {k j : Key}
    → Option RoleAssignment
    → Option RoleAssignment
    → (j ≡ k) ⊎ (j ≢ k)
    → Option RoleAssignment
put_if v old (inl here) = v
put_if v old (inr there) = old

abbrev put : Key → Option RoleAssignment → Assignments → Assignments
put k v s j = put_if v (s j) (key-cases j k)

abbrev delete_at : Key → Assignments → Option RoleAssignment → Answer (Unit {0}) × Assignments
delete_at k s none = (refused (http 404 "not found"), s)
delete_at k s (some p) = (answered tt, put k none s)

-- One role and one user, and a clock that stands.
abbrev cloud : AzureApi Assignments
cloud = record {
  create_assignment = λ scope id p s. (answered tt, put (scope, id) (some p) s);
  delete_assignment = λ scope id s. delete_at (scope, id) s (s (scope, id));
  role_definition_pages = λ scope filter s. (answered (none ∷ some "reader" ∷ []) ∷ [], s);
  get_graph_token = λ s. (answered "token", s);
  get_graph = λ token url s. (answered (record { status_code = 200; body = "{}" }), s);
  request_error = λ url. none;
  now = λ s. (100, s);
  error_code = λ e. "";
}

put_here :
    {k : Key} (v : Option RoleAssignment) (j : Key) (old : Option RoleAssignment)
    (d : (j ≡ k) ⊎ (j ≢ k))
    → j ≡ k
    → put_if v old d ≡ v
put_here v j old (inl here) h = refl
put_here v j old (inr there) h = absurd (there h)

put_else :
    {k : Key} (v : Option RoleAssignment) (j : Key) (old : Option RoleAssignment)
    (d : (j ≡ k) ⊎ (j ≢ k))
    → j ≢ k
    → put_if v old d ≡ old
put_else v j old (inl here) h = absurd (h here)
put_else v j old (inr there) h = refl

module _ (k : Key) (s : Assignments) where
  deleted :
      (o : Option RoleAssignment) → (delete_at k s o).0 ≡ answered tt → (delete_at k s o).1 k ≡ none
  deleted none h = cc
  deleted (some p) h = put_here none k (s k) (key-cases k k) refl

  deleted_else : (o : Option RoleAssignment) (j : Key) → j ≢ k → (delete_at k s o).1 j ≡ s j
  deleted_else none j h = refl
  deleted_else (some p) j h = put_else none j (s j) (key-cases j k) h

  deleted_absent :
      (o : Option RoleAssignment) (e : Fault)
      → s k ≡ o
      → (delete_at k s o).0 ≡ refused e
      → (delete_at k s o).1 k ≡ none
  deleted_absent none e same h = same
  deleted_absent (some p) e same h = cc

cloud-IsAzure : IsAzure cloud stored
cloud-IsAzure = record {
  create_else = λ scope id p k s h. put_else (some p) k (s k) (key-cases k (scope, id)) h;
  delete = λ scope id s h. deleted (scope, id) s (s (scope, id)) h;
  delete_absent = λ scope id e s h missing. deleted_absent (scope, id) s (s (scope, id)) e refl h;
  delete_else = λ scope id k s h. deleted_else (scope, id) s (s (scope, id)) k h;
  pages_keep = λ scope filter k s. refl;
  token_keeps = λ k s. refl;
  graph_keeps = λ token url k s. refl;
  now_keeps = λ k s. refl;
}

abbrev config : Config
config = record {
  tenant_id = "";
  default_subscription_id = "";
  client_id = "";
  credentials_source = "workload_identity";
  max_duration = pos 0;
}

abbrev formats : Formats
formats = record {
  token = record {
    marshal = λ t. "token";
    unmarshal = λ s. ok (record {
      assignment_id = "01234567-89ab-cdef-0123-456789abcdef";
      scope = "/subscriptions/prod";
    });
  };
  unmarshal_user = λ body. ok "alice";
  sha256_hex = λ s. "0123456789abcdef0123456789abcdef0123456789abcdef0123456789abcdef";
  quote = λ s. s;
}

formats-IsCodec : IsCodec formats.token (token_of formats req)
unfolding build_scope deterministic_assignment_id
formats-IsCodec = record { unmarshal-marshal = refl; not_empty = refl }

abbrev empty : State Assignments
empty = ([], λ k. none)

granted : (grant config formats cloud req empty).0 ≡ ok (grant_of config formats 100 req)
unfolding grant lookup_user lookup_role_def cache_get assign build_scope
granted = refl

revoked :
    (st : State Assignments) → (revoke formats cloud (grant_of config formats 100 req) st).0 ≡ ok tt
unfolding revoke grant_of
revoked (cache, s) =
    elim (Option-cases (s ("/subscriptions/prod", "01234567-89ab-cdef-0123-456789abcdef"))) [
      | inl gone ↦ rw gone refl
      | inr (p, there) ↦ rw there refl
    ]

azure_revoke-grant_example :
    let after =
      (revoke formats cloud
        (grant_of config formats 100 req)
        (grant config formats cloud req empty).1).1.1 in
    (stored (key_of (token_of formats req)) after ≡ none)
    × ((("/subscriptions/prod", "other") ≡ key_of (token_of formats req))
        ⊎ (stored ("/subscriptions/prod", "other") after ≡ none))
azure_revoke-grant_example =
    azure_revoke-grant config formats cloud stored req (grant_of config formats 100 req) empty
      ("/subscriptions/prod", "other") cloud-IsAzure formats-IsCodec granted (revoked _)
