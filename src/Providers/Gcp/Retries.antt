-- ===== src/Providers/Gcp/Retries.antt =====
-- How many conflicting writes a Grant of the GCP adapter outlives.
use jitsudo.Prelude.{
  ℕ, zero, suc, ◌≤◌, ◌≡◌, ap, ◌∙◌, true, Option, none, some, String, str_append, arith,
}
use jitsudo.Providers.Cloud.{Fault, answered, refused, Codec}
use jitsudo.Providers.Gcp.{
  IamPolicy, CrmApi, RevokeToken, Config, update_policy, is_http_409, grant, grant_of, with_grant,
}
use jitsudo.Providers.Gcp.Contract.{edit_of}
use jitsudo.Providers.Gcp.Update.{read_at, write_at, update-nothing, update-written, update-refused}
use jitsudo.World.{ok, ElevationRequest}

module _ {S Etag : Type 0} (crm : CrmApi S Etag) (p : String)
    (edit : IamPolicy Etag → Option (IamPolicy Etag)) where
  -- From a state on, the service answers every read, refuses the edit some times with HTTP 409, and
  -- then takes it or has nothing left to edit.
  pub data TakesAfter : ℕ → S → Type 0 where
    taken :
        (s : S) (policy policy' r : IamPolicy Etag)
        → (crm.get_iam_policy p s).0 ≡ answered policy
        → edit policy ≡ some policy'
        → (crm.set_iam_policy p policy' (read_at crm p s)).0 ≡ answered r
        → TakesAfter 0 s
    nothing_left :
        (s : S) (policy : IamPolicy Etag)
        → (crm.get_iam_policy p s).0 ≡ answered policy
        → edit policy ≡ none
        → TakesAfter 0 s
    conflict :
        (k : ℕ) (s : S) (policy policy' : IamPolicy Etag) (e : Fault)
        → (crm.get_iam_policy p s).0 ≡ answered policy
        → edit policy ≡ some policy'
        → (crm.set_iam_policy p policy' (read_at crm p s)).0 ≡ refused e
        → is_http_409 e ≡ true
        → TakesAfter k (write_at crm p policy' s)
        → TakesAfter (suc k) s

  update-TakesAfter :
      (suffix : String) (k left : ℕ) (s : S)
      → TakesAfter k s
      → k ≤ left
      → (update_policy crm suffix p edit (suc left) s).0 ≡ ok tt
  update-TakesAfter suffix zero left s (taken _ policy policy' r read new written) h =
      ap (λ x. x.0) (update-written crm suffix p edit left s policy policy' r read new written)
  update-TakesAfter suffix zero left s (nothing_left _ policy read nothing) h =
      ap (λ x. x.0) (update-nothing crm suffix p edit left s policy read nothing)
  update-TakesAfter suffix (suc k) zero s
        (conflict _ _ policy policy' e read new written is409 after) h =
      absurd (omega (arith, h))
  update-TakesAfter suffix (suc k) (suc left) s
        (conflict _ _ policy policy' e read new written is409 after) h =
      ap (λ x. x.0)
        (update-refused crm suffix p edit (suc left) s policy policy' e true read new written
          (ground (arith, is409)))
      ∙ update-TakesAfter suffix k left (write_at crm p policy' s) after (omega arith)

-- A Grant outlives up to four conflicting writes: if the service answers each read and refuses the
-- new policy at most four times with HTTP 409 before it takes it, or before a read shows the binding
-- there, the Grant succeeds, with the deadline of its first moment.
pub grant-TakesAfter :
    {S Etag : Type 0} (crm : CrmApi S Etag) (cfg : Config) (codec : Codec RevokeToken)
    (format_utc : ℕ → String) (now : ℕ) (req : ElevationRequest) (k : ℕ) (s : S)
    → TakesAfter crm
        (str_append "projects/" req.resource_scope)
        (edit_of cfg format_utc now req)
        k
        s
    → k ≤ 4
    → (grant crm cfg codec format_utc now req s).0 ≡ ok (grant_of cfg codec now req)
unfolding grant
grant-TakesAfter crm cfg codec format_utc now req k s h few =
    ap (with_grant (grant_of cfg codec now req)) (
      update-TakesAfter crm (str_append "projects/" req.resource_scope)
        (edit_of cfg format_utc now req) "" k 4 s h few)
