-- ===== src/Auth.antt =====
-- internal/server/auth/auth.go: the interceptor in front of every gRPC call.
pub mod Gate
use jitsudo.Prelude.{Option, none, some, String, str_eq, List, [], ◌∷◌, if◌then◌else◌}
use jitsudo.Prelude.Texts.{trim_prefix}
use jitsudo.Policy.{Identity}
use jitsudo.Providers.{Registry}
use jitsudo.Api.{serve}
use jitsudo.Api.Messages.{Rpc, Response}
use jitsudo.World.{
  Code, unauthenticated, Error, message, wrap, status, Result, ok, err, Env, M, raise,
}

-- The claims that an ID token is asked for.
pub record Claims : Type 0 where
  pub email : String
  pub groups : List String

-- gooidc.IDTokenVerifier: the subject of a raw token that it accepts, and its claims.
pub record IdTokenVerifier : Type 0 where
  pub verify : String → Result String
  pub claims : String → Result Claims

unfoldable pub verify : IdTokenVerifier → String → Result Identity
verify v raw = elim (v.verify raw) [
  | err e ↦ err (wrap "auth: token verification" e)
  | ok subject ↦ elim (v.claims raw) [
    | err e ↦ err (wrap "auth: claim extraction" e)
    | ok claims ↦ ok (record { subject = subject; email = claims.email; groups = claims.groups })
  ]
]

-- The metadata of a call: none, or the values of its authorization header.
abbrev pub Metadata : Type 0
Metadata = Option (List String)

abbrev pub refuse : {A : Type 0} → Error → M A
refuse e = raise (status unauthenticated e)

-- `GRPCUnaryInterceptor`: the handler finds the identity in its context.
unfoldable pub grpc_unary_interceptor :
    {A : Type 0} → IdTokenVerifier → Metadata → (Identity → M A) → M A
unfolding verify
grpc_unary_interceptor v none handler = refuse (message "missing metadata")
grpc_unary_interceptor v (some []) handler = refuse (message "missing authorization header")
grpc_unary_interceptor v (some (value ∷ rest)) handler =
    let token = trim_prefix value "Bearer " in
    if str_eq token value
    then refuse (message "authorization header must use Bearer scheme")
    else elim (verify v token) [
      | err e ↦ refuse (wrap "invalid token" e)
      | ok identity ↦ handler identity
    ]

-- A gRPC call of the service, as the server chains the interceptor and the handlers.
unfoldable pub call : IdTokenVerifier → Env → Registry → List String → Metadata → Rpc → M Response
unfolding grpc_unary_interceptor serve
call v env registry admins metadata rpc =
    grpc_unary_interceptor v metadata (λ who. serve env registry admins (some who) rpc)
