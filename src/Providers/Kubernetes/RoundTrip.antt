-- ===== src/Providers/Kubernetes/RoundTrip.antt =====
-- A Revoke of the Kubernetes adapter undoes the Grant whose token it is given.
use jitsudo.Prelude.{
  ℕ, ◌≡◌, refl, sym, ap, ◌∙◌, subst, Option, none, String, str_eq, inl, inr, Bool-cases,
}
use jitsudo.Providers.Cloud.{IsCodec}
use jitsudo.Providers.Kubernetes.{
  Config, Place, Binding, ClusterApi, Formats, place, place_of, token_of, is_namespaced, new_grant,
  grant, revoke,
}
use jitsudo.Providers.Kubernetes.Contract.{
  key, SameBut, IsGranted, IsRevoked, grant-IsGranted, revoke-IsRevoked,
}
use jitsudo.Providers.Kubernetes.Laws.{IsCluster}
use jitsudo.World.{Result, ok, err, ElevationRequest, ElevationGrant}
use jitsudo.World.Stops.{ok-injective}

place_of-token_of :
    (cfg : Config) (f : Formats) (req : ElevationRequest)
    → place_of (token_of cfg f req) ≡ place cfg f req
place_of-token_of cfg f req = elim (Bool-cases (is_namespaced cfg f req)) [
  | inl h ↦ rw h refl
  | inr h ↦ rw h refl
]

module _ {S : Type 0} (cfg : Config) (f : Formats) (cluster : ClusterApi S)
    (stored : Place × String → S → Option Binding) where
  -- The two outcomes of a Grant that succeeded, and that of a Revoke.
  new_grant-token :
      (now : ℕ) (req : ElevationRequest)
      → (new_grant cfg f now req).revoke_token ≡ f.token.marshal (token_of cfg f req)
  unfolding new_grant
  new_grant-token now req = refl

  granted :
      (now : ℕ) (req : ElevationRequest) (s : S) (r : Result ElevationGrant × S)
      (g : ElevationGrant)
      → IsGranted cfg f cluster stored now req s r
      → r.0 ≡ ok g
      → stored (key cfg f req) s ≡ none
      → (g.revoke_token ≡ f.token.marshal (token_of cfg f req))
        × SameBut cfg f cluster stored (key cfg f req) s r.1
  granted now req s (err e, s') g h good absent = cc
  granted now req s (ok g', s') g (inl (is_new, before, after, rest)) good absent =
      (ap (λ h. h.revoke_token) (sym (ok-injective good) ∙ is_new) ∙ new_grant-token now req, rest)
  granted now req s (ok g', s') g (inr (b, before, is_old, written, same)) good absent = cc

  revoked :
      (at : Place × String) (s : S) (r : Result (Unit {0}) × S)
      → IsRevoked cfg f cluster stored at s r
      → r.0 ≡ ok tt
      → (stored at r.1 ≡ none) × SameBut cfg f cluster stored at s r.1
  revoked at s (err e, s') h good = cc
  revoked at s (ok done, s') h good = h

  -- Where nobody else works on the bindings and the token is encoded as JSON is, a Revoke with the
  -- token of a Grant undoes it: if the request's binding was not there, then after both have succeeded
  -- every namespace and the cluster have the bindings that they had.
  pub kubernetes_revoke-grant :
      (now : ℕ) (req : ElevationRequest) (g : ElevationGrant) (s : S) (k : Place × String)
      → IsCluster cluster stored
      → IsCodec f.token (token_of cfg f req)
      → stored (key cfg f req) s ≡ none
      → (grant cfg f cluster now req s).0 ≡ ok g
      → (revoke f cluster g (grant cfg f cluster now req s).1).0 ≡ ok tt
      → stored k (revoke f cluster g (grant cfg f cluster now req s).1).1 ≡ stored k s
  kubernetes_revoke-grant now req g s k laws json absent good undone =
      let at = key cfg f req in
      let token = token_of cfg f req in
      let s1 = (grant cfg f cluster now req s).1 in
      let first =
        granted now req s (grant cfg f cluster now req s) g
          (grant-IsGranted cfg f cluster stored laws now req s) good absent in
      let decoded =
        revoke-IsRevoked cfg f cluster stored laws g token s1
          (ap (λ t. str_eq t "") first.0 ∙ json.not_empty)
          (ap f.token.unmarshal first.0 ∙ json.unmarshal-marshal) in
      let second =
        revoked at s1 (revoke f cluster g s1)
          (subst (λ p. IsRevoked cfg f cluster stored (p, token.name) s1 (revoke f cluster g s1))
            (place_of-token_of cfg f req) decoded)
          undone in
      let here = λ (same : k ≡ at).
        subst (λ x. stored x (revoke f cluster g s1).1 ≡ stored x s) (sym same)
          (second.0 ∙ sym absent) in
      elim (second.1 k) [
        | inl same ↦ here same
        | inr kept ↦ elim (first.1 k) [ inl same ↦ here same | inr before ↦ kept ∙ before ]
      ]
