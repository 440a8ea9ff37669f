-- ===== src/Tests/Cloud.antt =====
-- A service that holds policies by project, and a Grant and a Revoke at it.
use jitsudo.Prelude.{
  ℕ, ◌≡◌, ◌≢◌, refl, ap, none, String, str_eq, eq_iff, eq_refl, inl, inr, List, [], ◌∷◌,
  if◌then◌else◌, Bool-cases, Option-cases, select, not, arith,
}
use jitsudo.Prelude.Int.{pos}
use jitsudo.Prelude.Texts.{String-cases}
use mathlib.Core.HLevel.{Discrete}
use jitsudo.Providers.Cloud.{Fault, http, Answer, answered, refused, Codec, IsCodec}
use jitsudo.Providers.Gcp.{
  Config, Binding, IamPolicy, CrmApi, RevokeToken, grant, revoke, grant_of, token_of, without,
  is_held, add_binding, role_string, cel_expression, expires_at, remove_member,
}
use jitsudo.Providers.Gcp.Contract.{edit_of, grant-Outcome}
use jitsudo.Providers.Gcp.Entries.{entries, entries-without, is_named}
use jitsudo.Providers.Gcp.Edits.{binding_of}
use jitsudo.Providers.Gcp.Laws.{IsCrm}
use jitsudo.Providers.Gcp.Retries.{TakesAfter, taken, grant-TakesAfter}
use jitsudo.Providers.Gcp.RoundTrip.{revoke-grant}
use jitsudo.Providers.Gcp.Update.{Outcome, update-nothing, update-written, remove_member-etag}
use jitsudo.World.{ElevationRequest, ok}

String-discrete : Discrete String
String-discrete a b = elim (String-cases a b) [ inl same ↦ yes same | inr other ↦ no other ]

Bindings-discrete : Discrete (List Binding)
Bindings-discrete = hlevel String-discrete

-- Bindings by project; the ETag of a policy is its bindings.
abbrev Projects : Type 0
Projects = String → List Binding

abbrev held : String → Projects → IamPolicy (List Binding)
held p s = record { bindings = s p; version = 3; etag = s p }

abbrev update : String → List Binding → Projects → Projects
update p bs s q = if str_eq q p then bs else s q

abbrev write_if :
    (p : String) (policy : IamPolicy (List Binding)) (s : Projects)
    → Dec (policy.etag ≡ s p)
    → Answer (IamPolicy (List Binding)) × Projects
write_if p policy s (yes same) = (answered policy, update p policy.bindings s)
write_if p policy s (no other) = (refused (http 409 "conflict"), s)

abbrev service : CrmApi Projects (List Binding)
service = record {
  get_iam_policy = λ p s. (answered (held p s), s);
  set_iam_policy = λ p policy s. write_if p policy s (Bindings-discrete policy.etag (s p));
}

abbrev nobody : Projects → Projects
nobody s = s

module _ (p : String) (policy : IamPolicy (List Binding)) (s : Projects) where
  accepted :
      (r : IamPolicy (List Binding)) (d : Dec (policy.etag ≡ s p))
      → (write_if p policy s d).0 ≡ answered r
      → (policy.etag ≡ s p) × ((write_if p policy s d).1 p ≡ policy.bindings)
  accepted r (yes same) h = (same, rw (eq_refl p) refl)
  accepted r (no other) h = cc

  elsewhere : (q : String) (d : Dec (policy.etag ≡ s p)) → q ≢ p → (write_if p policy s d).1 q ≡ s q
  elsewhere q (yes same) apart = elim (Bool-cases (str_eq q p)) [
    | inl here ↦ absurd (apart ((eq_iff q p).0 here))
    | inr there ↦ rw there refl
  ]
  elsewhere q (no other) apart = refl

  kept :
      (e : Fault) (q : String) (d : Dec (policy.etag ≡ s p))
      → (write_if p policy s d).0 ≡ refused e
      → (write_if p policy s d).1 q ≡ s q
  kept e q (yes same) h = cc
  kept e q (no other) h = refl

service-IsCrm : IsCrm service held nobody
service-IsCrm = record {
  read = λ p s policy h. cc;
  read_keeps = λ p q s. refl;
  write_matches =
      λ p policy r s h. (accepted p policy s r (Bindings-discrete policy.etag (s p)) h).0;
  write = λ p policy r s h. (accepted p policy s r (Bindings-discrete policy.etag (s p)) h).1;
  write_else = λ p q policy s apart.
      ap (λ bs. record { bindings = bs; version = 3; etag = bs })
        (elsewhere p policy s q (Bindings-discrete policy.etag (s p)) apart);
  write_refused = λ p q policy e s h.
      ap (λ bs. record { bindings = bs; version = 3; etag = bs })
        (kept p policy s e q (Bindings-discrete policy.etag (s p)) h);
  etag = λ p s s' h. ap (λ bs. record { bindings = bs; version = 3; etag = bs }) h;
}

abbrev config : Config
config = record {
  organization_id = "";
  credentials_source = "application_default";
  max_duration = pos 0;
  condition_title_prefix = "";
}

abbrev pub req : ElevationRequest
req = record {
  request_id = "req_1";
  user_identity = "alice@example.com";
  provider = "gcp";
  role_name = "viewer";
  resource_scope = "prod";
  duration = pos 3_600_000_000_000;
  reason = "incident";
  metadata = none;
}

-- A codec that knows one token.
abbrev codec : Codec RevokeToken
codec = record { marshal = λ t. "token"; unmarshal = λ s. ok (token_of config req) }

codec-IsCodec : IsCodec codec (token_of config req)
codec-IsCodec = record { unmarshal-marshal = refl; not_empty = refl }

abbrev format_utc : ℕ → String
format_utc t = "2026-03-19T10:00:00Z"

-- Bob has the role without a condition.
abbrev bobs : Binding
bobs = record { role = "roles/viewer"; members = "user:bob@example.com" ∷ []; condition = none }

abbrev before : Projects
before p = if str_eq p "projects/prod" then bobs ∷ [] else []

grant-Outcome_example :
    Outcome held nobody "projects/prod"
      (edit_of config format_utc 100 req)
      before
      (grant service config codec format_utc 100 req before)
grant-Outcome_example =
    grant-Outcome service held nobody config codec format_utc 100 req before service-IsCrm

entries-without_example :
    entries (without (token_of config req) (before "projects/prod"))
    ≡ select (λ e. not (is_named (token_of config req) e)) (entries (before "projects/prod"))
entries-without_example = entries-without (token_of config req) (before "projects/prod")

abbrev after : Projects
after = (grant service config codec format_utc 100 req before).1

-- The state in which the service takes the new policy.
written :
    (p : String) (policy : IamPolicy (List Binding)) (s : Projects) (d : Dec (policy.etag ≡ s p))
    → policy.etag ≡ s p
    → (write_if p policy s d).0 ≡ answered policy
written p policy s (yes same) h = refl
written p policy s (no other) h = absurd (other h)

abbrev added : IamPolicy (List Binding)
added = record (held "projects/prod" before) {
  bindings =
      bobs
      ∷ binding_of (token_of config req) (cel_expression format_utc (expires_at config 100 req))
      ∷ [];
}

before-TakesAfter : TakesAfter service "projects/prod" (edit_of config format_utc 100 req) 0 before
unfolding add_binding role_string
before-TakesAfter = taken before (held "projects/prod" before) added added refl refl (
    written "projects/prod" added before (Bindings-discrete added.etag (before "projects/prod"))
      refl)

grant-TakesAfter_example :
    (grant service config codec format_utc 100 req before).0 ≡ ok (grant_of config codec 100 req)
grant-TakesAfter_example =
    grant-TakesAfter service config codec format_utc 100 req 0 before before-TakesAfter
      (omega arith)

-- This service takes whatever edit keeps the ETag.
revoke_run : (s : Projects) → (revoke service codec (grant_of config codec 100 req) s).0 ≡ ok tt
unfolding grant_of revoke
revoke_run s =
    let token = token_of config req in
    let p : String = "projects/prod" in
    elim (Option-cases (remove_member token (held p s))) [
      | inl nothing ↦
          ap (λ r. r.0)
            (update-nothing service " (revoke)" p (remove_member token) 4 s (held p s) refl nothing)
      | inr (policy, new) ↦
          ap (λ r. r.0)
            (update-written service " (revoke)" p (remove_member token) 4 s (held p s) policy policy
              refl new
              (written p policy s (Bindings-discrete policy.etag (s p))
                (remove_member-etag token (held p s) policy new)))
    ]

revoke-grant_example :
    entries
      (held "projects/prod" (revoke service codec (grant_of config codec 100 req) after).1).bindings
    ≡ entries (held "projects/prod" before).bindings
unfolding is_held role_string
revoke-grant_example =
    revoke-grant service held nobody config codec format_utc 100 req before
      (grant_of config codec 100 req) service-IsCrm (λ q t. refl) codec-IsCodec refl
      (grant-TakesAfter service config codec format_utc 100 req 0 before before-TakesAfter
        (omega arith))
      (revoke_run after) "projects/prod"
