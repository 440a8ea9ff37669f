-- ===== src/Providers/Kubernetes/Contract.antt =====
-- Grant and Revoke of the Kubernetes adapter, while nobody else works on the bindings it names.
use jitsudo.Prelude.{
  ℕ, ◌≡◌, ◌≢◌, ◌⊎◌, refl, sym, ap, ◌∙◌, Bool, true, false, Option, none, some, String, str_eq, [],
  ◌∷◌, inl, inr, Bool-cases, Option-cases, not_false,
}
use jitsudo.Prelude.Texts.{String-cases}
use jitsudo.Providers.Mock.{add_duration}
use jitsudo.Providers.Cloud.{Fault, cap, answered, refused, Answer-cases}
use jitsudo.Providers.Kubernetes.{
  Config, Place, namespaced, cluster_wide, Binding, ClusterApi, Formats, RevokeToken,
  validate_request, binding_name, namespace, annotation, reconstruct_grant, place, place_of,
  new_binding, new_grant, existing_grant, grant, revoke,
}
use jitsudo.Providers.Kubernetes.Laws.{IsCluster}
use jitsudo.World.{Result, ok, err, ElevationRequest, ElevationGrant}

abbrev is_wide : Place → Bool
is_wide cluster_wide = true
is_wide (namespaced n) = false

abbrev namespace_of : Place → String
namespace_of cluster_wide = ""
namespace_of (namespaced n) = n

place-cases : (a b : Place) → (a ≡ b) ⊎ (a ≢ b)
place-cases cluster_wide cluster_wide = inl refl
place-cases cluster_wide (namespaced n) = inr (λ h. not_false (ap is_wide h))
place-cases (namespaced n) cluster_wide = inr (λ h. not_false (sym (ap is_wide h)))
place-cases (namespaced m) (namespaced n) = elim (String-cases m n) [
  | inl same ↦ inl (ap namespaced same)
  | inr other ↦ inr (λ h. other (ap namespace_of h))
]

pub key-cases : (j k : Place × String) → (j ≡ k) ⊎ (j ≢ k)
key-cases (a, m) (b, n) = elim (place-cases a b) [
  | inr other ↦ inr (λ h. other (ap (λ k. k.0) h))
  | inl same ↦ elim (String-cases m n) [
    | inr other ↦ inr (λ h. other (ap (λ k. k.1) h))
    | inl same_name ↦ inl (rw (same, same_name) refl)
  ]
]

-- The binding of a request.
abbrev pub key : Config → Formats → ElevationRequest → Place × String
key cfg f req = (place cfg f req, binding_name f req.request_id)

-- The deadline that is written on a binding, 0 where none can be read.
abbrev pub deadline_on : Formats → Binding → ℕ
deadline_on f b = elim (annotation "jitsudo.dev/expires-at" b.annotations) [
  | none ↦ 0
  | some raw ↦ elim (f.parse_rfc3339 raw) [ none ↦ 0 | some t ↦ t ]
]

module _ {S : Type 0} (cfg : Config) (f : Formats) (cluster : ClusterApi S)
    (stored : Place × String → S → Option Binding) where
  abbrev pub Same : S → S → Type 0
  Same s s' = (k : Place × String) → stored k s' ≡ stored k s

  abbrev pub SameBut : Place × String → S → S → Type 0
  SameBut at s s' = (k : Place × String) → (k ≡ at) ⊎ (stored k s' ≡ stored k s)

  -- A binding gives the requested ClusterRole to the requesting user and to nobody else, and is marked
  -- with the request, the user and the deadline of the grant.
  abbrev pub IsFor : ℕ → ElevationRequest → ElevationGrant → Option Binding → Type 0
  IsFor now req g found =
      (b : Binding) × (found ≡ some b)
      × (b.role_ref ≡ record {
        kind = "ClusterRole";
        name = req.role_name;
        api_group = "rbac.authorization.k8s.io";
      })
      × (b.subjects
          ≡ record {
            kind = "User";
            name = req.user_identity;
            api_group = "rbac.authorization.k8s.io";
          }
            ∷ [])
      × (annotation "jitsudo.dev/request-id" b.annotations ≡ some req.request_id)
      × (annotation "jitsudo.dev/user" b.annotations ≡ some req.user_identity)
      × (annotation "jitsudo.dev/expires-at" b.annotations ≡ some (f.format_rfc3339 g.expires_at))
      × (g.expires_at ≡ add_duration now (cap cfg.max_duration req.duration))

  -- What a Grant does: it makes the request's one binding and no other and answers its deadline; or
  -- the binding is there, stays, and the answer has the deadline written on it; or it fails.
  abbrev pub IsGranted : ℕ → ElevationRequest → S → Result ElevationGrant × S → Type 0
  IsGranted now req s (err e, s') = Same s s'
  IsGranted now req s (ok g, s') =
      ((g ≡ new_grant cfg f now req)
        × (stored (key cfg f req) s ≡ none)
        × IsFor now req g (stored (key cfg f req) s')
        × SameBut (key cfg f req) s s')
      ⊎ ((b : Binding) × (stored (key cfg f req) s ≡ some b)
          × (g ≡ existing_grant cfg f req b)
          × (g.expires_at ≡ deadline_on f b)
          × Same s s')

  -- What a Revoke does to the binding at a place.
  abbrev pub IsRevoked : Place × String → S → Result (Unit {0}) × S → Type 0
  IsRevoked at s (err e, s') = Same s s'
  IsRevoked at s (ok done, s') = (stored at s' ≡ none) × SameBut at s s'

  module _ (laws : IsCluster cluster stored) where
    created :
        (now : ℕ) (req : ElevationRequest) (e : Fault) (made : Binding) (s : S)
        → let s1 = (cluster.get_binding (place cfg f req) (binding_name f req.request_id) s).1 in
          (cluster.get_binding (place cfg f req) (binding_name f req.request_id) s).0 ≡ refused e
          → cluster.is_not_found e ≡ true
          → (cluster.create_binding (place cfg f req) (new_binding cfg f now req) s1).0
            ≡ answered made
          → IsGranted now req s (
            ok (new_grant cfg f now req),
            (cluster.create_binding (place cfg f req) (new_binding cfg f now req) s1).1,
          )
    unfolding new_binding new_grant binding_name namespace
    created now req e made s unfound missing written =
        let at = place cfg f req in
        let b = new_binding cfg f now req in
        let s1 = (cluster.get_binding at (binding_name f req.request_id) s).1 in
        inl (
          refl,
          laws.get_absent at (binding_name f req.request_id) s e unfound missing,
          (b, laws.create at b made s1 written, refl, refl, refl, refl, refl, refl),
          λ k. elim (key-cases k (key cfg f req)) [
            | inl same ↦ inl same
            | inr other ↦ inr (
                laws.create_else at b k s1 other
                ∙ laws.get_keeps at (binding_name f req.request_id) k s)
          ],
        )

    -- A Grant that succeeds has created the request's one binding where none was: it gives the requested
    -- ClusterRole to the requesting user alone, and is marked with the request, the user and the
    -- deadline of the grant, which is the time plus the capped duration; or it has found the binding
    -- there, left it, and answered the deadline that is written on it. One that fails, at whatever call, has left every binding as it
    -- was, and no Grant touches another binding.
    pub grant-IsGranted :
        (now : ℕ) (req : ElevationRequest) (s : S)
        → IsGranted now req s (grant cfg f cluster now req s)
    unfolding grant existing_grant reconstruct_grant
    grant-IsGranted now req s =
        let at = place cfg f req in
        let name = binding_name f req.request_id in
        let s1 = (cluster.get_binding at name s).1 in
        elim (Option-cases (validate_request req)) [
          | inr (e, invalid) ↦ rw (invalid, grant) (λ k. refl)
          | inl valid ↦ elim (Answer-cases (cluster.get_binding at name s).0) [
            | inl (b, found) ↦
                rw (valid, found, grant)
                  (inr (b, laws.get at name s b found, refl, refl, λ k. laws.get_keeps at name k s))
            | inr (e, unfound) ↦ elim (Bool-cases (cluster.is_not_found e)) [
              | inr fault ↦ rw (valid, unfound, fault, grant) (λ k. laws.get_keeps at name k s)
              | inl missing ↦
                  elim (Answer-cases (cluster.create_binding at (new_binding cfg f now req) s1).0) [
                    | inl (made, written) ↦
                        rw (valid, unfound, missing, written, grant)
                          (created now req e made s unfound missing written)
                    | inr (e2, refusal) ↦
                        rw (valid, unfound, missing, refusal, grant)
                          (λ k.
                            laws.create_refused at (new_binding cfg f now req) k e2 s1 refusal
                            ∙ laws.get_keeps at name k s)
                  ]
            ]
          ]
        ]

    deleted :
        (at : Place) (name : String) (e : Fault) (s : S)
        → (cluster.delete_binding at name s).0 ≡ refused e
        → cluster.is_not_found e ≡ true
        → IsRevoked (at, name) s (ok tt, (cluster.delete_binding at name s).1)
    deleted at name e s refusal missing = (
      laws.delete_refused at name (at, name) e s refusal
          ∙ laws.delete_absent at name s e refusal missing,
      λ k. inr (laws.delete_refused at name k e s refusal),
    )

    pub revoke-IsRevoked :
        (g : ElevationGrant) (token : RevokeToken) (s : S)
        → str_eq g.revoke_token "" ≡ false
        → f.token.unmarshal g.revoke_token ≡ ok token
        → IsRevoked (place_of token, token.name) s (revoke f cluster g s)
    unfolding revoke
    revoke-IsRevoked g token s given decoded =
        let at = place_of token in
        elim (Answer-cases (cluster.delete_binding at token.name s).0) [
          | inl (u, gone) ↦
              rw (given, decoded, gone, revoke)
                (
                  laws.delete at token.name s gone,
                  λ k. elim (key-cases k (at, token.name)) [
                    | inl same ↦ inl same
                    | inr other ↦ inr (laws.delete_else at token.name k s other)
                  ],
                )
          | inr (e, refusal) ↦ elim (Bool-cases (cluster.is_not_found e)) [
            | inl missing ↦
                rw (given, decoded, refusal, missing, revoke)
                  (deleted at token.name e s refusal missing)
            | inr fault ↦
                rw (given, decoded, refusal, fault, revoke)
                  (λ k. laws.delete_refused at token.name k e s refusal)
          ]
        ]
