-- ===== src/Providers/Gcp/Entries.antt =====
-- A policy as the list of what it gives to whom, and the edits of `Grant` and `Revoke` on that list.
use jitsudo.Prelude.{
  ◌≡◌, refl, sym, ap, ◌∙◌, Bool, true, false, ◌&&◌, ◌||◌, not, Option, some, String, str_eq,
  eq_refl, List, [], ◌∷◌, ◌++◌, any, select, Bool-cases, inl, inr, arith,
}
use mathlib.Core.List.{append_assoc}
use jitsudo.Providers.Gcp.{
  Binding, Expr, RevokeToken, has_title, is_titled, is_held, is_empty, other_members, without,
}

pub record Holding : Type 0 where
  pub role : String
  pub condition : Option Expr
  pub member : String

abbrev entries_of : String → Option Expr → List String → List Holding
entries_of role condition [] = []
entries_of role condition (m ∷ ms) =
    record { role = role; condition = condition; member = m } ∷ entries_of role condition ms

abbrev pub entries : List Binding → List Holding
entries [] = []
entries (b ∷ bs) = entries_of b.role b.condition b.members ++ entries bs

-- The entries that a token names.
abbrev pub is_named : RevokeToken → Holding → Bool
is_named token e =
    (str_eq e.role token.role && has_title token.condition_title e.condition)
    && str_eq e.member token.member

pub select-append :
    {A : Type 0} (p : A → Bool) (xs ys : List A) → select p (xs ++ ys) ≡ select p xs ++ select p ys
select-append p [] ys = refl
select-append p (x ∷ xs) ys = ground (arith, select-append p xs ys)

any-append :
    {A : Type 0} (p : A → Bool) (xs ys : List A) → any p (xs ++ ys) ≡ (any p xs || any p ys)
any-append p [] ys = refl
any-append p (x ∷ xs) ys = ground (arith, any-append p xs ys)

pub entries-append : (xs ys : List Binding) → entries (xs ++ ys) ≡ entries xs ++ entries ys
entries-append [] ys = refl
entries-append (x ∷ xs) ys =
    rw (entries-append xs ys)
      (sym (append_assoc (entries_of x.role x.condition x.members) (entries xs) (entries ys)))

-- The entries of a binding that the token names, less its member; and of one that it does not name.
named-entries :
    (token : RevokeToken) (role : String) (condition : Option Expr) (ms : List String)
    → (str_eq role token.role && has_title token.condition_title condition) ≡ true
    → entries_of role condition (select (λ m. not (str_eq m token.member)) ms)
      ≡ select (λ e. not (is_named token e)) (entries_of role condition ms)
named-entries token role condition [] named = refl
named-entries token role condition (m ∷ ms) named =
    let rest = named-entries token role condition ms named in
    elim (Bool-cases (str_eq m token.member)) [
      | inl same ↦ rw (same, named) rest
      | inr other ↦
          rw (other, named)
            (ap (λ es. record { role = role; condition = condition; member = m } ∷ es) rest)
    ]

unnamed-entries :
    (token : RevokeToken) (role : String) (condition : Option Expr) (ms : List String)
    → (str_eq role token.role && has_title token.condition_title condition) ≡ false
    → select (λ e. not (is_named token e)) (entries_of role condition ms)
      ≡ entries_of role condition ms
unnamed-entries token role condition [] unnamed = refl
unnamed-entries token role condition (m ∷ ms) unnamed = rw (unnamed) (
    ap (λ es. record { role = role; condition = condition; member = m } ∷ es)
      (unnamed-entries token role condition ms unnamed))

-- A binding without members has no entries.
dropped :
    (role : String) (condition : Option Expr) (ms : List String)
    → is_empty ms ≡ true
    → entries_of role condition ms ≡ []
dropped role condition [] h = refl
dropped role condition (m ∷ ms) h = cc

-- What Revoke makes of the bindings is what they give less the entries that the token names, in order:
-- other members, roles, conditions and titles are as they were.
pub entries-without :
    (token : RevokeToken) (bs : List Binding)
    → entries (without token bs) ≡ select (λ e. not (is_named token e)) (entries bs)
unfolding without is_titled other_members
entries-without token [] = refl
entries-without token (b ∷ bs) = elim (Bool-cases (is_titled token b)) [
  | inl named ↦ elim (Bool-cases (is_empty (other_members token b))) [
    | inl nobody ↦
        rw
          (
            select-append (λ e. not (is_named token e)) (entries_of b.role b.condition b.members)
                (entries bs),
            sym (named-entries token b.role b.condition b.members named),
            dropped b.role b.condition (other_members token b) nobody,
            named,
            nobody,
          )
          (entries-without token bs)
    | inr somebody ↦
        rw
          (
            select-append (λ e. not (is_named token e)) (entries_of b.role b.condition b.members)
                (entries bs),
            sym (named-entries token b.role b.condition b.members named),
            named,
            somebody,
          )
          (ap (λ es. entries_of b.role b.condition (other_members token b) ++ es)
            (entries-without token bs))
  ]
  | inr unnamed ↦
      rw
        (
          select-append (λ e. not (is_named token e)) (entries_of b.role b.condition b.members)
              (entries bs),
          unnamed-entries token b.role b.condition b.members unnamed,
          unnamed,
        )
        (ap (λ es. entries_of b.role b.condition b.members ++ es) (entries-without token bs))
]

-- The idempotency check asks whether an entry is there.
any-members :
    (token : RevokeToken) (role : String) (condition : Option Expr) (ms : List String)
    (named : Bool)
    → (str_eq role token.role && has_title token.condition_title condition) ≡ named
    → any (is_named token) (entries_of role condition ms)
      ≡ (named && any (λ m. str_eq m token.member) ms)
any-members token role condition [] true h = refl
any-members token role condition [] false h = refl
any-members token role condition (m ∷ ms) true h =
    rw (h, any-members token role condition ms true h)
any-members token role condition (m ∷ ms) false h =
    rw (h, any-members token role condition ms false h)

pub any-entries :
    (token : RevokeToken) (bs : List Binding) → any (is_named token) (entries bs) ≡ is_held token bs
unfolding is_held is_titled
any-entries token [] = refl
any-entries token (b ∷ bs) =
    any-append (is_named token) (entries_of b.role b.condition b.members) (entries bs)
    ∙ rw (
      any-members token b.role b.condition b.members (is_titled token b) refl,
      any-entries token bs,
    )

pub select-none :
    {A : Type 0} (p : A → Bool) (xs : List A) → any p xs ≡ false → select (λ x. not (p x)) xs ≡ xs
select-none p [] h = refl
select-none p (x ∷ xs) h = elim (Bool-cases (p x)) [
  | inl there ↦ cc
  | inr absent ↦ rw (absent) (ap (λ ys. x ∷ ys) (select-none p xs (ground arith)))
]

-- The entry that a binding of `Grant` adds.
abbrev pub entry_of : RevokeToken → String → Holding
entry_of token expression = record {
  role = token.role;
  condition = some (record { title = token.condition_title; expression = expression });
  member = token.member;
}

pub entry_of-is_named :
    (token : RevokeToken) (expression : String) → is_named token (entry_of token expression) ≡ true
entry_of-is_named token expression =
    rw (eq_refl token.role, eq_refl token.condition_title, eq_refl token.member)
