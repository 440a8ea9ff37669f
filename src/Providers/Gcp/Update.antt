-- ===== src/Providers/Gcp/Update.antt =====
-- The loop of `Grant` and `Revoke` edits a policy at one moment, and loses no write of another.
use jitsudo.Prelude.{
  ℕ, zero, suc, ◌≡◌, refl, sym, ap, ◌∙◌, Bool, true, false, ◌&&◌, ltb, Option, none, some, String,
  str_append, inl, inr, Bool-cases, Option-cases, arith,
}
use jitsudo.Prelude.Texts.{String-cases}
use jitsudo.Providers.Cloud.{Fault, error_of, answered, refused, Answer-cases}
use jitsudo.Providers.Gcp.{
  IamPolicy, CrmApi, RevokeToken, update_policy, is_http_409, add_binding, remove_member,
}
use jitsudo.Providers.Gcp.Laws.{IsCrm, OthersOnly, others_ran, IsEdited, edited, nothing_to_edit}
use jitsudo.World.{wrap, Result, ok, err}

&&-right : (a : Bool) {b : Bool} → (a && b) ≡ true → b ≡ true
&&-right true h = h
&&-right false h = cc

module _ {S Etag : Type 0} (stored : String → S → IamPolicy Etag) (others : S → S) where
  -- What a call of the loop says of the states around it.
  abbrev pub Outcome :
      {A : Type 0} → String → (IamPolicy Etag → Option (IamPolicy Etag)) → S → Result A × S → Type 0
  Outcome p edit s (ok a, s') = IsEdited stored others p edit s s'
  Outcome p edit s (err e, s') = OthersOnly stored others s s'

module _ {S Etag : Type 0} (crm : CrmApi S Etag) (p : String) where
  -- The states after a read, and after a read and a write.
  abbrev pub read_at : S → S
  read_at s = (crm.get_iam_policy p s).1

  abbrev pub write_at : IamPolicy Etag → S → S
  write_at policy s = (crm.set_iam_policy p policy (read_at s)).1

module _ {S Etag : Type 0} (crm : CrmApi S Etag) (suffix p : String)
    (edit : IamPolicy Etag → Option (IamPolicy Etag)) where
  -- The branches of one attempt.
  pub update-unread :
      (left : ℕ) (s : S) (e : Fault)
      → (crm.get_iam_policy p s).0 ≡ refused e
      → update_policy crm suffix p edit (suc left) s
        ≡ (err (wrap (str_append "gcp: GetIamPolicy" suffix) (error_of e)), read_at crm p s)
  unfolding update_policy
  update-unread left s e read = rw (read, update_policy)

  pub update-nothing :
      (left : ℕ) (s : S) (policy : IamPolicy Etag)
      → (crm.get_iam_policy p s).0 ≡ answered policy
      → edit policy ≡ none
      → update_policy crm suffix p edit (suc left) s ≡ (ok tt, read_at crm p s)
  unfolding update_policy
  update-nothing left s policy read nothing = rw (read, nothing, update_policy)

  pub update-written :
      (left : ℕ) (s : S) (policy policy' r : IamPolicy Etag)
      → (crm.get_iam_policy p s).0 ≡ answered policy
      → edit policy ≡ some policy'
      → (crm.set_iam_policy p policy' (read_at crm p s)).0 ≡ answered r
      → update_policy crm suffix p edit (suc left) s ≡ (ok tt, write_at crm p policy' s)
  unfolding update_policy
  update-written left s policy policy' r read new written = rw (read, new, written, update_policy)

  abbrev pub after_refusal : Bool → Fault → ℕ → S → Result (Unit {0}) × S
  after_refusal true e left s = update_policy crm suffix p edit left s
  after_refusal false e left s =
      (err (wrap (str_append "gcp: SetIamPolicy" suffix) (error_of e)), s)

  pub update-refused :
      (left : ℕ) (s : S) (policy policy' : IamPolicy Etag) (e : Fault) (again : Bool)
      → (crm.get_iam_policy p s).0 ≡ answered policy
      → edit policy ≡ some policy'
      → (crm.set_iam_policy p policy' (read_at crm p s)).0 ≡ refused e
      → (is_http_409 e && ltb 0 left) ≡ again
      → update_policy crm suffix p edit (suc left) s
        ≡ after_refusal again e left (write_at crm p policy' s)
  unfolding update_policy
  update-refused left s policy policy' e true read new written h =
      rw (read, new, written, h, update_policy)
  update-refused left s policy policy' e false read new written h =
      rw (read, new, written, h, update_policy)

module _ {S Etag : Type 0} {crm : CrmApi S Etag} {stored : String → S → IamPolicy Etag}
    {others : S → S} (laws : IsCrm crm stored others) (suffix p : String)
    (edit : IamPolicy Etag → Option (IamPolicy Etag))
    (edit-etag : (a b : IamPolicy Etag) → edit a ≡ some b → b.etag ≡ a.etag) where
  -- A read leaves the policies to the other writers, and so does a write that is refused.
  after_read :
      (s0 s : S) → OthersOnly stored others s0 s → OthersOnly stored others s0 (read_at crm p s)
  after_read s0 s before = others_ran s0 s (read_at crm p s) before (λ q. laws.read_keeps p q s)

  after_refused :
      (s0 s : S) (policy : IamPolicy Etag) (e : Fault)
      → OthersOnly stored others s0 s
      → (crm.set_iam_policy p policy (read_at crm p s)).0 ≡ refused e
      → OthersOnly stored others s0 (write_at crm p policy s)
  after_refused s0 s policy e before written =
      others_ran s0 (read_at crm p s) (write_at crm p policy s) (after_read s0 s before)
        (λ q. laws.write_refused p q policy e (read_at crm p s) written)

  -- What was read is still stored when a write is accepted.
  read-unchanged :
      (s : S) (policy policy' r : IamPolicy Etag)
      → (crm.get_iam_policy p s).0 ≡ answered policy
      → edit policy ≡ some policy'
      → (crm.set_iam_policy p policy' (read_at crm p s)).0 ≡ answered r
      → stored p (others (read_at crm p s)) ≡ policy
  read-unchanged s policy policy' r read new written =
      let here = laws.read p s policy read in
      let kept = edit-etag policy policy' new in
      let matched = laws.write_matches p policy' r (read_at crm p s) written in
      sym (
        here
        ∙ laws.etag p (others s) (others (read_at crm p s))
            (ap (λ x. x.etag) (sym here) ∙ sym kept ∙ matched))

  written-IsEdited :
      (s0 s : S) (policy policy' r : IamPolicy Etag)
      → OthersOnly stored others s0 s
      → (crm.get_iam_policy p s).0 ≡ answered policy
      → edit policy ≡ some policy'
      → (crm.set_iam_policy p policy' (read_at crm p s)).0 ≡ answered r
      → IsEdited stored others p edit s0 (write_at crm p policy' s)
  written-IsEdited s0 s policy policy' r before read new written =
      let s1 = read_at crm p s in
      edited (others s1) policy' (others_ran s0 s1 (others s1) (after_read s0 s before) (λ q. refl))
        (ap edit (read-unchanged s policy policy' r read new written) ∙ new)
        (laws.write p policy' r s1 written)
        (λ q. elim (String-cases q p) [
          | inl same ↦ inl same
          | inr other ↦ inr (laws.write_else p q policy' s1 other)
        ])

  nothing-IsEdited :
      (s0 s : S) (policy : IamPolicy Etag)
      → OthersOnly stored others s0 s
      → (crm.get_iam_policy p s).0 ≡ answered policy
      → edit policy ≡ none
      → IsEdited stored others p edit s0 (read_at crm p s)
  nothing-IsEdited s0 s policy before read nothing =
      nothing_to_edit (after_read s0 s before)
        (ap edit (laws.read_keeps p p s ∙ sym (laws.read p s policy read)) ∙ nothing)

  attempt-Outcome :
      (left : ℕ) (s0 s : S)
      → ((t : S)
          → OthersOnly stored others s0 t
          → ltb 0 left ≡ true
          → Outcome stored others p edit s0 (update_policy crm suffix p edit left t))
      → OthersOnly stored others s0 s
      → Outcome stored others p edit s0 (update_policy crm suffix p edit (suc left) s)
  attempt-Outcome left s0 s rest before = elim (Answer-cases (crm.get_iam_policy p s).0) [
    | inr (e, read) ↦ rw (update-unread crm suffix p edit left s e read) (after_read s0 s before)
    | inl (policy, read) ↦ elim (Option-cases (edit policy)) [
      | inl nothing ↦
          rw (update-nothing crm suffix p edit left s policy read nothing)
            (nothing-IsEdited s0 s policy before read nothing)
      | inr (policy', new) ↦
          elim (Answer-cases (crm.set_iam_policy p policy' (read_at crm p s)).0) [
            | inl (r, written) ↦
                rw (update-written crm suffix p edit left s policy policy' r read new written)
                  (written-IsEdited s0 s policy policy' r before read new written)
            | inr (e, written) ↦ elim (Bool-cases (is_http_409 e && ltb 0 left)) [
              | inr last ↦
                  rw
                    (update-refused crm suffix p edit left s policy policy' e false read new written
                      last)
                    (after_refused s0 s policy' e before written)
              | inl again ↦
                  rw
                    (update-refused crm suffix p edit left s policy policy' e true read new written
                      again)
                    (rest (write_at crm p policy' s) (after_refused s0 s policy' e before written)
                      (&&-right (is_http_409 e) again))
            ]
          ]
    ]
  ]

  pub update-Outcome :
      (left : ℕ) (s0 s : S)
      → OthersOnly stored others s0 s
      → Outcome stored others p edit s0 (update_policy crm suffix p edit (suc left) s)
  update-Outcome zero s0 s before = attempt-Outcome zero s0 s (λ t after more. cc) before
  update-Outcome (suc left) s0 s before =
      attempt-Outcome (suc left) s0 s (λ t after more. update-Outcome left s0 t after) before

-- The edits of `Grant` and `Revoke` leave the ETag.
pub add_binding-etag :
    {Etag : Type 0} (token : RevokeToken) (expression : String) (a b : IamPolicy Etag)
    → add_binding token expression a ≡ some b
    → b.etag ≡ a.etag
unfolding add_binding
add_binding-etag token expression a b h = ground arith

pub remove_member-etag :
    {Etag : Type 0} (token : RevokeToken) (a b : IamPolicy Etag)
    → remove_member token a ≡ some b
    → b.etag ≡ a.etag
unfolding remove_member
remove_member-etag token a b h = ground arith
