-- ===== src/Providers/Gcp/Edits.antt =====
-- The edits of `Grant` and `Revoke` against the bindings that were there before.
use jitsudo.Prelude.{
  ◌≡◌, ◌∙◌, true, false, not, none, some, String, List, [], ◌∷◌, ◌++◌, Bool-cases, inl, inr, arith,
}
use mathlib.Core.List.{append-nil}
use jitsudo.Providers.Gcp.{
  Binding, IamPolicy, RevokeToken, is_held, without, add_binding, remove_member,
}
use jitsudo.Providers.Gcp.Entries.{
  entries, is_named, select-append, entries-append, select-none, any-entries, entries-without,
  entry_of, entry_of-is_named,
}

-- The binding that `Grant` adds.
abbrev pub binding_of : RevokeToken → String → Binding
binding_of token expression = record {
  role = token.role;
  members = token.member ∷ [];
  condition = some (record { title = token.condition_title; expression = expression });
}

-- Taking it away again leaves what was given before.
pub without-added :
    (token : RevokeToken) (expression : String) (bs : List Binding)
    → is_held token bs ≡ false
    → entries (without token (bs ++ binding_of token expression ∷ [])) ≡ entries bs
without-added token expression bs absent =
    rw
      (
        entries-without token (bs ++ binding_of token expression ∷ []),
        entries-append bs (binding_of token expression ∷ []),
        select-append (λ e. not (is_named token e)) (entries bs) (entry_of token expression ∷ []),
        entry_of-is_named token expression,
        select-none (is_named token) (entries bs) (any-entries token bs ∙ absent),
      )
      (append-nil (entries bs))

pub added-entries :
    {Etag : Type 0} (token : RevokeToken) (expression : String) (a b : IamPolicy Etag)
    → add_binding token expression a ≡ some b
    → (is_held token a.bindings ≡ false)
      × (b.bindings ≡ a.bindings ++ binding_of token expression ∷ [])
unfolding add_binding
added-entries token expression a b added = elim (Bool-cases (is_held token a.bindings)) [
  | inl held ↦ ground (arith, added)
  | inr absent ↦ (absent, ground arith)
]

pub entries-without-unheld :
    (token : RevokeToken) (bs : List Binding)
    → is_held token bs ≡ false
    → entries (without token bs) ≡ entries bs
entries-without-unheld token bs absent =
    entries-without token bs
    ∙ select-none (is_named token) (entries bs) (any-entries token bs ∙ absent)

pub unheld :
    {Etag : Type 0} (token : RevokeToken) (a : IamPolicy Etag)
    → remove_member token a ≡ none
    → is_held token a.bindings ≡ false
unfolding remove_member
unheld token a h = elim (Bool-cases (is_held token a.bindings)) [
  | inl held ↦ ground (arith, h)
  | inr absent ↦ absent
]

pub removed :
    {Etag : Type 0} (token : RevokeToken) (a b : IamPolicy Etag)
    → remove_member token a ≡ some b
    → b.bindings ≡ without token a.bindings
unfolding remove_member
removed token a b h = ground arith

pub added :
    {Etag : Type 0} (token : RevokeToken) (expression : String) (a : IamPolicy Etag)
    → add_binding token expression a ≡ none
    → is_held token a.bindings ≡ true
unfolding add_binding
added token expression a h = ground arith
