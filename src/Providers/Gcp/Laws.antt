-- ===== src/Providers/Gcp/Laws.antt =====
-- What the adapter relies on of Cloud Resource Manager, with other writers between its calls.
use jitsudo.Prelude.{◌≡◌, ◌≢◌, ◌⊎◌, Option, none, some, String}
use jitsudo.Providers.Cloud.{Fault, answered, refused}
use jitsudo.Providers.Gcp.{IamPolicy, CrmApi}

-- `stored` is the policy that the service holds for a project; `others` is what the other writers
-- have done by the next call.
pub record IsCrm {S Etag : Type 0} (crm : CrmApi S Etag) (stored : String → S → IamPolicy Etag)
    (others : S → S) : Type 0 where
  -- A read answers the stored policy and changes none.
  pub read :
      (p : String) (s : S) (policy : IamPolicy Etag)
      → (crm.get_iam_policy p s).0 ≡ answered policy
      → policy ≡ stored p (others s)
  pub read_keeps :
      (p q : String) (s : S) → stored q (crm.get_iam_policy p s).1 ≡ stored q (others s)
  -- A write is accepted if the ETag in it is that of the stored policy, and then stores the bindings.
  pub write_matches :
      (p : String) (policy r : IamPolicy Etag) (s : S)
      → (crm.set_iam_policy p policy s).0 ≡ answered r
      → policy.etag ≡ (stored p (others s)).etag
  pub write :
      (p : String) (policy r : IamPolicy Etag) (s : S)
      → (crm.set_iam_policy p policy s).0 ≡ answered r
      → (stored p (crm.set_iam_policy p policy s).1).bindings ≡ policy.bindings
  pub write_else :
      (p q : String) (policy : IamPolicy Etag) (s : S)
      → q ≢ p
      → stored q (crm.set_iam_policy p policy s).1 ≡ stored q (others s)
  -- One that is refused changes nothing.
  pub write_refused :
      (p q : String) (policy : IamPolicy Etag) (e : Fault) (s : S)
      → (crm.set_iam_policy p policy s).0 ≡ refused e
      → stored q (crm.set_iam_policy p policy s).1 ≡ stored q (others s)
  -- Policies with one ETag are one policy.
  pub etag :
      (p : String) (s s' : S) → (stored p s).etag ≡ (stored p s').etag → stored p s ≡ stored p s'

module _ {S Etag : Type 0} (stored : String → S → IamPolicy Etag) (others : S → S) where
  -- `t` comes after `s` by the work of the other writers alone.
  pub data OthersOnly : S → S → Type 0 where
    still : (s t : S) → ((q : String) → stored q t ≡ stored q s) → OthersOnly s t
    others_ran :
        (s t u : S)
        → OthersOnly s t
        → ((q : String) → stored q u ≡ stored q (others t))
        → OthersOnly s u

  -- From `s` to `s'` the bindings of one project were edited at one moment, and for the rest only
  -- the other writers did anything; or at that moment there was nothing to edit.
  pub data IsEdited (p : String) (edit : IamPolicy Etag → Option (IamPolicy Etag)) (s s' : S)
      : Type 0 where
    edited :
        (t : S) (policy : IamPolicy Etag)
        → OthersOnly s t
        → edit (stored p t) ≡ some policy
        → (stored p s').bindings ≡ policy.bindings
        → ((q : String) → (q ≡ p) ⊎ (stored q s' ≡ stored q t))
        → IsEdited p edit s s'
    nothing_to_edit : OthersOnly s s' → edit (stored p s') ≡ none → IsEdited p edit s s'
