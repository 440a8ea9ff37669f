-- ===== src/Providers/Gcp/RoundTrip.antt =====
-- A Revoke of the GCP adapter undoes the Grant whose token it is given.
use jitsudo.Prelude.{
  ℕ, ◌≡◌, sym, ap, ◌∙◌, subst, false, String, str_eq, str_append, [], ◌∷◌, ◌++◌, inl, inr,
}
use jitsudo.Providers.Cloud.{Codec, IsCodec}
use jitsudo.Providers.Gcp.{
  IamPolicy, CrmApi, RevokeToken, Config, grant, revoke, grant_of, with_grant, add_binding,
  remove_member, is_held, without, cel_expression, expires_at, token_of,
}
use jitsudo.Providers.Gcp.Contract.{
  grant-Outcome, revoke-Outcome, edit_of, EditedAlone, IsEdited-alone, Outcome-ok,
}
use jitsudo.Providers.Gcp.Entries.{entries}
use jitsudo.Providers.Gcp.Edits.{
  without-added, added-entries, binding_of, entries-without-unheld, unheld, removed, added,
}
use jitsudo.Providers.Gcp.Laws.{IsCrm}
use jitsudo.World.Stops.{ok-injective}
use jitsudo.World.{Result, ok, err, ElevationRequest, ElevationGrant}

module _ {S Etag : Type 0} (stored : String → S → IamPolicy Etag) (others : S → S)
    (alone : (q : String) (s : S) → stored q (others s) ≡ stored q s) (token : RevokeToken)
    (expression : String) where
  -- The bindings after a Grant where the token's entry was not there.
  after_add :
      (p : String) (s s' : S)
      → is_held token (stored p s).bindings ≡ false
      → EditedAlone stored others alone p (add_binding token expression) s s'
      → (stored p s').bindings ≡ (stored p s).bindings ++ binding_of token expression ∷ []
  after_add p s s' absent (inl (policy, new, here)) =
      here ∙ (added-entries token expression (stored p s) policy new).1
  after_add p s s' absent (inr (nothing, same)) =
      let there = added token expression (stored p s) nothing in cc

  -- The entries after a Revoke, whether or not it found the token's.
  after_remove :
      (p : String) (s s' : S)
      → EditedAlone stored others alone p (remove_member token) s s'
      → entries (stored p s').bindings ≡ entries (without token (stored p s).bindings)
  after_remove p s s' (inl (policy, new, here)) =
      ap entries (here ∙ removed token (stored p s) policy new)
  after_remove p s s' (inr (nothing, same)) =
      ap entries same
      ∙ sym (entries-without-unheld token (stored p s).bindings (unheld token (stored p s) nothing))

with_grant-ok : (g h : ElevationGrant) (r : Result (Unit {0})) → with_grant g r ≡ ok h → g ≡ h
with_grant-ok g h (ok done) same = ok-injective same
with_grant-ok g h (err e) same = cc

module _ {S Etag : Type 0} (crm : CrmApi S Etag) (stored : String → S → IamPolicy Etag)
    (others : S → S) (cfg : Config) (codec : Codec RevokeToken) (format_utc : ℕ → String) where
  granted_token :
      (now : ℕ) (req : ElevationRequest) (s : S) (g : ElevationGrant)
      → (grant crm cfg codec format_utc now req s).0 ≡ ok g
      → g.revoke_token ≡ codec.marshal (token_of cfg req)
  unfolding grant grant_of
  granted_token now req s g granted =
      ap (λ h. h.revoke_token) (sym (with_grant-ok (grant_of cfg codec now req) g _ granted))

  -- Where nobody else writes and the token is encoded as JSON is, a Revoke with the token of a Grant
  -- undoes it: if the member did not hold the role under that title, then after both have succeeded
  -- every project gives the same roles to the same members on the same conditions, in the same order,
  -- as before the Grant.
  pub revoke-grant :
      (now : ℕ) (req : ElevationRequest) (s : S) (g : ElevationGrant)
      → IsCrm crm stored others
      → ((q : String) (t : S) → stored q (others t) ≡ stored q t)
      → IsCodec codec (token_of cfg req)
      → is_held (token_of cfg req) (stored (str_append "projects/" req.resource_scope) s).bindings
        ≡ false
      → (grant crm cfg codec format_utc now req s).0 ≡ ok g
      → (revoke crm codec g (grant crm cfg codec format_utc now req s).1).0 ≡ ok tt
      → (q : String)
      → entries
          (stored q (revoke crm codec g (grant crm cfg codec format_utc now req s).1).1).bindings
        ≡ entries (stored q s).bindings
  revoke-grant now req s g laws alone json absent granted revoked q =
      let p = str_append "projects/" req.resource_scope in
      let token = token_of cfg req in
      let s1 = (grant crm cfg codec format_utc now req s).1 in
      let s2 = (revoke crm codec g s1).1 in
      let expression = cel_expression format_utc (expires_at cfg now req) in
      let marshalled = granted_token now req s g granted in
      let first = IsEdited-alone stored others alone p (edit_of cfg format_utc now req) s s1 (
        Outcome-ok stored others p (edit_of cfg format_utc now req) s
          (grant crm cfg codec format_utc now req s) g granted
          (grant-Outcome crm stored others cfg codec format_utc now req s laws)) in
      let second = IsEdited-alone stored others alone p (remove_member token) s1 s2 (
        Outcome-ok stored others p (remove_member token) s1 (revoke crm codec g s1) tt revoked (
          revoke-Outcome crm stored others codec g token s1 laws
            (ap (λ t. str_eq t "") marshalled ∙ json.not_empty)
            (ap codec.unmarshal marshalled ∙ json.unmarshal-marshal))) in
      let at_project =
        after_remove stored others alone token expression p s1 s2 second.0
        ∙ ap (λ bs. entries (without token bs))
            (after_add stored others alone token expression p s s1 absent first.0)
        ∙ without-added token expression (stored p s).bindings absent in
      let here = λ (same : q ≡ p).
        subst (λ x. entries (stored x s2).bindings ≡ entries (stored x s).bindings) (sym same)
          at_project in
      elim (second.1 q) [
        | inl same ↦ here same
        | inr kept ↦ elim (first.1 q) [
          | inl same ↦ here same
          | inr before ↦ ap (λ x. entries x.bindings) (kept ∙ before)
        ]
      ]
