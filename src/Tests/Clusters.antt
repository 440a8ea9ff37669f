-- ===== src/Tests/Clusters.antt =====
-- A cluster that holds bindings by place and name, with a Grant and a Revoke; and a session at STS.
use jitsudo.Prelude.{
  ◌≡◌, ◌≢◌, ◌⊎◌, ◌≤◌, refl, ap, inl, inr, true, Option-cases, Option, none, some, String,
}
use jitsudo.Prelude.Int.{pos, is_nonpos}
use jitsudo.Providers.Aws
use jitsudo.Providers.Aws.Limits.{assume_role_input_limits, IsSessionName, IsReasonTag, tag}
use jitsudo.Providers.Aws.Seconds.{AreWithin}
use jitsudo.Providers.Aws.Text.{replace}
use jitsudo.Providers.Cloud.{Fault, http, has_status, Answer, answered, refused, IsCodec}
use jitsudo.Providers.Kubernetes.{
  Config, Place, namespaced, Binding, ClusterApi, Formats, grant, revoke, new_grant, token_of,
  binding_name, namespace,
}
use jitsudo.Providers.Kubernetes.Contract.{key-cases, IsGranted, grant-IsGranted}
use jitsudo.Providers.Kubernetes.Laws.{IsCluster}
use jitsudo.Providers.Kubernetes.RoundTrip.{kubernetes_revoke-grant}
use jitsudo.Providers.{validate_common}
use jitsudo.World.{ok}
use jitsudo.Tests.Cloud.{req}

abbrev Key : Type 0
Key = Place × String

abbrev Bindings : Type 0
Bindings = Key → Option Binding

abbrev absent : Fault
absent = http 404 "not found"

abbrev stored : Key → Bindings → Option Binding
stored k s = s k

abbrev put_if : {A : Type 0} {k : Key} (v : A) → (j : Key) → A → (j ≡ k) ⊎ (j ≢ k) → A
put_if v j old (inl here) = v
put_if v j old (inr there) = old

abbrev put : Key → Option Binding → Bindings → Bindings
put k v s j = put_if v j (s j) (key-cases j k)

abbrev found : Option Binding → Answer Binding
found none = refused absent
found (some b) = answered b

-- A name that is taken is refused with HTTP 409.
abbrev create_at : Key → Binding → Bindings → Option Binding → Answer Binding × Bindings
create_at k b s none = (answered b, put k (some b) s)
create_at k b s (some old) = (refused (http 409 "already exists"), s)

abbrev delete_at : Key → Bindings → Option Binding → Answer (Unit {0}) × Bindings
delete_at k s none = (refused absent, s)
delete_at k s (some old) = (answered tt, put k none s)

abbrev cluster : ClusterApi Bindings
cluster = record {
  get_binding = λ at name s. (found (s (at, name)), s);
  create_binding = λ at b s. create_at (at, b.name) b s (s (at, b.name));
  delete_binding = λ at name s. delete_at (at, name) s (s (at, name));
  is_not_found = has_status 404;
}

put_here :
    {k : Key} (v : Option Binding) (j : Key) (old : Option Binding) (d : (j ≡ k) ⊎ (j ≢ k))
    → j ≡ k
    → put_if v j old d ≡ v
put_here v j old (inl here) h = refl
put_here v j old (inr there) h = absurd (there h)

put_else :
    {k : Key} (v : Option Binding) (j : Key) (old : Option Binding) (d : (j ≡ k) ⊎ (j ≢ k))
    → j ≢ k
    → put_if v j old d ≡ old
put_else v j old (inl here) h = absurd (h here)
put_else v j old (inr there) h = refl

found_some : (o : Option Binding) (b : Binding) → found o ≡ answered b → o ≡ some b
found_some none b h = cc
found_some (some c) b h = cc

found_none : (o : Option Binding) (e : Fault) → found o ≡ refused e → o ≡ none
found_none none e h = refl
found_none (some c) e h = cc

module _ (k : Key) (b : Binding) (s : Bindings) where
  created :
      (o : Option Binding) (made : Binding)
      → (create_at k b s o).0 ≡ answered made
      → (create_at k b s o).1 k ≡ some b
  created none made h = put_here (some b) k (s k) (key-cases k k) refl
  created (some old) made h = cc

  created_else : (o : Option Binding) (j : Key) → j ≢ k → (create_at k b s o).1 j ≡ s j
  created_else none j h = put_else (some b) j (s j) (key-cases j k) h
  created_else (some old) j h = refl

  created_refused :
      (o : Option Binding) (j : Key) (e : Fault)
      → (create_at k b s o).0 ≡ refused e
      → (create_at k b s o).1 j ≡ s j
  created_refused none j e h = cc
  created_refused (some old) j e h = refl

module _ (k : Key) (s : Bindings) where
  deleted : (o : Option Binding) → (delete_at k s o).0 ≡ answered tt → (delete_at k s o).1 k ≡ none
  deleted none h = cc
  deleted (some old) h = put_here none k (s k) (key-cases k k) refl

  deleted_else : (o : Option Binding) (j : Key) → j ≢ k → (delete_at k s o).1 j ≡ s j
  deleted_else none j h = refl
  deleted_else (some old) j h = put_else none j (s j) (key-cases j k) h

  deleted_refused :
      (o : Option Binding) (e : Fault)
      → (delete_at k s o).0 ≡ refused e
      → (o ≡ none) × ((delete_at k s o).1 ≡ s)
  deleted_refused none e h = (refl, refl)
  deleted_refused (some old) e h = cc

cluster-IsCluster : IsCluster cluster stored
cluster-IsCluster = record {
  get = λ at name s b h. found_some (s (at, name)) b h;
  get_absent = λ at name s e h missing. found_none (s (at, name)) e h;
  get_keeps = λ at name k s. refl;
  create = λ at b made s h. created (at, b.name) b s (s (at, b.name)) made h;
  create_else = λ at b k s h. created_else (at, b.name) b s (s (at, b.name)) k h;
  create_refused = λ at b k e s h. created_refused (at, b.name) b s (s (at, b.name)) k e h;
  delete = λ at name s h. deleted (at, name) s (s (at, name)) h;
  delete_absent = λ at name s e h missing. (deleted_refused (at, name) s (s (at, name)) e h).0;
  delete_else = λ at name k s h. deleted_else (at, name) s (s (at, name)) k h;
  delete_refused =
      λ at name k e s h. ap (λ t. t k) (deleted_refused (at, name) s (s (at, name)) e h).1;
}

abbrev config : Config
config = record {
  kubeconfig_path = "";
  default_namespace = "";
  max_duration = pos 0;
  managed_label = "";
}

-- A codec that knows one token, and times and names in lower case.
abbrev formats : Formats
formats = record {
  token = record {
    marshal = λ t. "token";
    unmarshal =
        λ s. ok (record { kind = "RoleBinding"; name = "jitsudo-req_1"; namespace = "prod" });
  };
  to_lower = λ s. s;
  format_rfc3339 = λ t. "2026-03-19T10:00:00Z";
  parse_rfc3339 = λ s. some 1_773_914_400_000_000_000;
}

abbrev empty : Bindings
empty k = none

grant-IsGranted_example :
    IsGranted config formats cluster stored 100 req empty
      (grant config formats cluster 100 req empty)
grant-IsGranted_example =
    grant-IsGranted config formats cluster stored cluster-IsCluster 100 req empty

formats-IsCodec : IsCodec formats.token (token_of config formats req)
unfolding binding_name namespace
formats-IsCodec = record { unmarshal-marshal = refl; not_empty = refl }

granted : (grant config formats cluster 100 req empty).0 ≡ ok (new_grant config formats 100 req)
unfolding grant validate_common
granted = refl

-- This cluster deletes what is there, and what is not is gone.
revoked : (s : Bindings) → (revoke formats cluster (new_grant config formats 100 req) s).0 ≡ ok tt
unfolding revoke new_grant
revoked s = elim (Option-cases (s (namespaced "prod", "jitsudo-req_1"))) [
  | inl gone ↦ rw gone refl
  | inr (b, there) ↦ rw there refl
]

kubernetes_revoke-grant_example :
    stored
      (namespaced "prod", "other")
      (revoke formats cluster
        (new_grant config formats 100 req)
        (grant config formats cluster 100 req empty).1).1
    ≡ none
kubernetes_revoke-grant_example =
    kubernetes_revoke-grant config formats cluster stored 100 req (new_grant config formats 100 req)
      empty (namespaced "prod", "other") cluster-IsCluster formats-IsCodec refl granted (revoked _)

abbrev aws_config : Aws.Config
aws_config = record {
  mode = "sts_assume_role";
  region = "";
  identity_center_instance_arn = "";
  identity_center_store_id = "";
  role_arn_template = "arn:aws:iam::{scope}:role/jitsudo-{role}";
  max_duration = pos 300_000_000_000;
  endpoint_url = "";
}

assume_role_input_limits_example :
    let input =
      Aws.assume_role_input aws_config req "arn:aws:iam::123456789012:role/jitsudo-viewer" in
    IsSessionName input.role_session_name
    × (900 ≤ input.duration_seconds)
    × (input.duration_seconds ≤ 43_200)
    × IsReasonTag req.reason (tag "jitsudo:Reason" input.tags)
    × AreWithin req.duration input.duration_seconds
    × ((is_nonpos aws_config.max_duration ≡ true)
        ⊎ AreWithin aws_config.max_duration input.duration_seconds)
assume_role_input_limits_example =
    assume_role_input_limits aws_config req "arn:aws:iam::123456789012:role/jitsudo-viewer"

-- The ARN of a role by its template.
arn : Aws.build_role_arn aws_config req ≡ ok "arn:aws:iam::prod:role/jitsudo-viewer"
unfolding Aws.build_role_arn replace
arn = refl

session : Aws.session_name "req 1/ü" ≡ "jitsudo-req-1--"
unfolding Aws.session_name
session = refl

short_maximum : Aws.cap_duration aws_config (pos 3_600_000_000_000) ≡ pos 900_000_000_000
unfolding Aws.cap_duration
short_maximum = refl
