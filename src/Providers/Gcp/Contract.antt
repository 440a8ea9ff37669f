-- ===== src/Providers/Gcp/Contract.antt =====
-- Grant and Revoke of the GCP adapter, with other writers of the same policies.
use jitsudo.Prelude.{
  ℕ, ◌≡◌, ◌⊎◌, refl, sym, ap, ◌∙◌, false, Option, none, some, String, str_eq, str_append, inl, inr,
}
use jitsudo.Providers.Cloud.{Codec}
use jitsudo.Providers.Gcp.{
  IamPolicy, CrmApi, RevokeToken, Config, update_policy, grant, revoke, grant_of, with_grant,
  add_binding, remove_member, cel_expression, expires_at, token_of,
}
use jitsudo.Providers.Gcp.Laws.{
  IsCrm, OthersOnly, still, others_ran, IsEdited, edited, nothing_to_edit,
}
use jitsudo.Providers.Gcp.Update.{Outcome, update-Outcome, add_binding-etag, remove_member-etag}
use jitsudo.World.{Result, ok, err, ElevationRequest, ElevationGrant}

with_grant-Outcome :
    {S Etag : Type 0} (stored : String → S → IamPolicy Etag) (others : S → S) (p : String)
    (edit : IamPolicy Etag → Option (IamPolicy Etag)) (s : S) (g : ElevationGrant)
    (r : Result (Unit {0}) × S)
    → Outcome stored others p edit s r
    → Outcome stored others p edit s (with_grant g r.0, r.1)
with_grant-Outcome stored others p edit s g (ok done, s') h = h
with_grant-Outcome stored others p edit s g (err e, s') h = h

-- The edit that a Grant makes.
abbrev pub edit_of :
    {Etag : Type 0}
    → Config
    → (ℕ → String)
    → ℕ
    → ElevationRequest
    → IamPolicy Etag
    → Option (IamPolicy Etag)
edit_of cfg format_utc now req =
    add_binding (token_of cfg req) (cel_expression format_utc (expires_at cfg now req))

-- One writer at a time: what an outcome says of the policies when nobody else writes.
module _ {S Etag : Type 0} (stored : String → S → IamPolicy Etag) (others : S → S)
    (alone : (q : String) (s : S) → stored q (others s) ≡ stored q s) where
  pub OthersOnly-alone :
      (s t : S) → OthersOnly stored others s t → (q : String) → stored q t ≡ stored q s
  OthersOnly-alone s t (still _ _ same) q = same q
  OthersOnly-alone s u (others_ran _ t _ before then) q =
      then q ∙ alone q t ∙ OthersOnly-alone s t before q

  -- The policy is edited, or there was nothing to edit.
  abbrev pub EditedAlone : String → (IamPolicy Etag → Option (IamPolicy Etag)) → S → S → Type 0
  EditedAlone p edit s s' =
      ((policy : IamPolicy Etag) × (edit (stored p s) ≡ some policy)
        × ((stored p s').bindings ≡ policy.bindings))
      ⊎ ((edit (stored p s) ≡ none) × ((stored p s').bindings ≡ (stored p s).bindings))

  pub IsEdited-alone :
      (p : String) (edit : IamPolicy Etag → Option (IamPolicy Etag)) (s s' : S)
      → IsEdited stored others p edit s s'
      → EditedAlone p edit s s' × ((q : String) → (q ≡ p) ⊎ (stored q s' ≡ stored q s))
  IsEdited-alone p edit s s' (edited t policy before new here elsewhere) = (
    inl (policy, ap edit (sym (OthersOnly-alone s t before p)) ∙ new, here),
    λ q. elim (elsewhere q) [
      | inl same ↦ inl same
      | inr kept ↦ inr (kept ∙ OthersOnly-alone s t before q)
    ],
  )
  IsEdited-alone p edit s s' (nothing_to_edit before nothing) = (
    inr (
      ap edit (sym (OthersOnly-alone s s' before p)) ∙ nothing,
      ap (λ x. x.bindings) (OthersOnly-alone s s' before p),
    ),
    λ q. inr (OthersOnly-alone s s' before q),
  )

pub Outcome-ok :
    {S Etag A : Type 0} (stored : String → S → IamPolicy Etag) (others : S → S) (p : String)
    (edit : IamPolicy Etag → Option (IamPolicy Etag)) (s : S) (r : Result A × S) (a : A)
    → r.0 ≡ ok a
    → Outcome stored others p edit s r
    → IsEdited stored others p edit s r.1
Outcome-ok stored others p edit s (ok b, s') a good h = h
Outcome-ok stored others p edit s (err e, s') a good h = cc

module _ {S Etag : Type 0} (crm : CrmApi S Etag) (stored : String → S → IamPolicy Etag)
    (others : S → S) (cfg : Config) (codec : Codec RevokeToken) (format_utc : ℕ → String) where
  -- Whatever the other writers do between its calls, a Grant that succeeds has added its one binding
  -- to the policy that was stored at one moment of the call, or found it there at the end, and it
  -- has touched no other project; one that fails, at whatever attempt, has changed no policy. So the
  -- retries on a conflicting ETag lose no other writer's change and add the binding once.
  pub grant-Outcome :
      (now : ℕ) (req : ElevationRequest) (s : S)
      → IsCrm crm stored others
      → Outcome stored others
          (str_append "projects/" req.resource_scope)
          (edit_of cfg format_utc now req)
          s
          (grant crm cfg codec format_utc now req s)
  unfolding grant
  grant-Outcome now req s laws =
      with_grant-Outcome stored others (str_append "projects/" req.resource_scope)
        (edit_of cfg format_utc now req) s (grant_of cfg codec now req)
        (update_policy crm "" (str_append "projects/" req.resource_scope)
          (edit_of cfg format_utc now req) 5 s)
        (update-Outcome laws "" (str_append "projects/" req.resource_scope)
          (edit_of cfg format_utc now req)
          (add_binding-etag (token_of cfg req) (cel_expression format_utc (expires_at cfg now req)))
          4 s s (still s s (λ q. refl)))

module _ {S Etag : Type 0} (crm : CrmApi S Etag) (stored : String → S → IamPolicy Etag)
    (others : S → S) (codec : Codec RevokeToken) where
  -- The same of a Revoke whose token is read: a success has taken the member away at one moment, or
  -- found it gone, and a failure has changed nothing.
  pub revoke-Outcome :
      (g : ElevationGrant) (token : RevokeToken) (s : S)
      → IsCrm crm stored others
      → str_eq g.revoke_token "" ≡ false
      → codec.unmarshal g.revoke_token ≡ ok token
      → Outcome stored others token.project (remove_member token) s (revoke crm codec g s)
  unfolding revoke
  revoke-Outcome g token s laws given read =
      rw (given, read, revoke)
        (update-Outcome laws " (revoke)" token.project (remove_member token)
          (remove_member-etag token) 4 s s (still s s (λ q. refl)))
