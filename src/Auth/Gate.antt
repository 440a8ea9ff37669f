-- ===== src/Auth/Gate.antt =====
-- No call passes the interceptor without a token that the verifier accepts.
use Prim.Native.String.{len, slice}
use jitsudo.Prelude.{
  ◌≡◌, refl, sym, ap, ◌∙◌, ◌⊎◌, inl, inr, false, none, some, String, str_eq, str_append, List, [],
  ◌∷◌, Bool-cases, eq_refl, not_false, if◌then◌else◌,
}
use text.Mathlib.Text.{starts_with}
use text.Mathlib.TextEquality.{starts_with_iff}
use text.Mathlib.TextPositions.{len-append, slice-append_right}
use jitsudo.Prelude.Texts.{trim_prefix}
use jitsudo.Policy.{Identity}
use jitsudo.Providers.{Registry}
use jitsudo.Api.{serve}
use jitsudo.Api.Messages.{Rpc, Response}
use jitsudo.Auth.{IdTokenVerifier, Metadata, verify, grpc_unary_interceptor, call}
use jitsudo.World.{
  Error, message, wrap, unauthenticated, status, Result, ok, err, Env, World, raise,
}
use jitsudo.World.Stops.{Result-cases}

-- What a call comes to: it is refused and nothing has happened; or its first authorization header is
-- the word Bearer and a token that the verifier accepts, and it is served with the token's identity.
abbrev pub IsGated :
    IdTokenVerifier
    → Env
    → Registry
    → List String
    → Metadata
    → Rpc
    → World
    → Result Response × World
    → Type 0
IsGated v env registry admins metadata rpc w r =
    ((e : Error) × (r ≡ (err (status unauthenticated e), w)))
    ⊎ ((token : String) × (rest : List String) × (who : Identity) × (metadata
          ≡ some (str_append "Bearer " token ∷ rest))
        × (verify v token ≡ ok who)
        × (r ≡ serve env registry admins (some who) rpc w))

-- Where the prefix is taken off, it was there.
bearer :
    (value : String)
    → str_eq (trim_prefix value "Bearer ") value ≡ false
    → value ≡ str_append "Bearer " (trim_prefix value "Bearer ")
bearer value changed = elim (Bool-cases (starts_with value "Bearer ")) [
  | inr plain ↦
      let kept = ap (λ b. if b then slice value (len "Bearer ") (len value) else value) plain in
      not_false (sym (eq_refl value) ∙ ap (λ t. str_eq t value) (sym kept) ∙ changed)
  | inl there ↦
      let (u, split) = (starts_with_iff value "Bearer ").0 there in
      let cut = ap (λ b. if b then slice value (len "Bearer ") (len value) else value) there in
      sym split
      ∙ ap (str_append "Bearer ") (
          sym (
            cut
            ∙ ap (λ x. slice x (len "Bearer ") (len x)) (sym split)
            ∙ ap (slice (str_append "Bearer " u) (len "Bearer ")) (len-append "Bearer " u)
            ∙ slice-append_right "Bearer " u))
]

-- No gRPC call reaches a handler without a token that the verifier accepts: a call is refused as
-- unauthenticated and has done nothing, or its first authorization header is the word Bearer, a space
-- and a token that the verifier accepts, and the service is called with the identity of that token.
pub call-IsGated :
    (v : IdTokenVerifier) (env : Env) (registry : Registry) (admins : List String)
    (metadata : Metadata) (rpc : Rpc) (w : World)
    → IsGated v env registry admins metadata rpc w (call v env registry admins metadata rpc w)
unfolding call grpc_unary_interceptor raise
call-IsGated v env registry admins none rpc w = inl (_, refl)
call-IsGated v env registry admins (some []) rpc w = inl (_, refl)
call-IsGated v env registry admins (some (value ∷ rest)) rpc w =
    elim (Bool-cases (str_eq (trim_prefix value "Bearer ") value)) [
      | inl same ↦ inl (message "authorization header must use Bearer scheme", rw same refl)
      | inr changed ↦ elim (Result-cases (verify v (trim_prefix value "Bearer "))) [
        | inr (e, bad) ↦ inl (wrap "invalid token" e, rw (changed, bad) refl)
        | inl (who, good) ↦ inr (
          trim_prefix value "Bearer ",
          rest,
          who,
          ap (λ x. some (x ∷ rest)) (bearer value changed),
          good,
          rw (changed, good) refl,
        )
      ]
    ]
