-- ===== src/Mcp/Effects.antt =====
-- What a request to the MCP endpoint does: at most one operation of the engine or one read.
use jitsudo.Prelude.{
  ◌≡◌, refl, ap, ◌∙◌, eq_iff, Bool, true, false, ◌&&◌, not, arith, String, str_eq, inl, inr,
  Bool-cases, Option-cases, if◌then◌else◌,
}
use jitsudo.Prelude.Texts.{trim_prefix}
use jitsudo.Providers.{Registry}
use jitsudo.Mcp.{Server, respond, dispatch, check_auth, serve_body, serve_http}
use jitsudo.Mcp.Messages.{RpcRequest, HttpRequest, Encoding}
use jitsudo.World.{M, World, Env, ◌>>=◌, pure}
use jitsudo.World.Stops.{Result-cases}
use jitsudo.Mcp.Actions.{nothing, perform, asked_by_method, asked_by, is_let_in}
use jitsudo.Mcp.ToolEffects.{on_call}

bind_pure_world :
    {A B : Type 0} (f : A → B) (m : M A) (w : World) → ((m >>= λ a. pure (f a)) w).1 ≡ (m w).1
unfolding pure ◌>>=◌
bind_pure_world f m w = elim (Result-cases (m w).0) [
  | inl (a, good) ↦ rw good refl
  | inr (e, bad) ↦ rw bad refl
]

and_false : (b : Bool) → (b && false) ≡ false
and_false true = refl
and_false false = refl

module _ (enc : Encoding) where
  module _ (env : Env) (registry : Registry) (agent : String) (w : World) where
    -- The methods: `initialize` and `tools/list` answer from constants.
    on_method :
        (req : RpcRequest)
        → (dispatch enc env registry agent req w).1
          ≡ perform env registry (asked_by_method enc agent req) w
    unfolding dispatch pure
    on_method req = elim (Bool-cases (str_eq req.method "initialize")) [
      | inl is_initialize ↦
          rw
            (
              is_initialize,
              ap (λ m. str_eq m "tools/call") ((eq_iff req.method "initialize").0 is_initialize),
              asked_by_method,
            )
            refl
      | inr no_initialize ↦ elim (Bool-cases (str_eq req.method "tools/list")) [
        | inl is_list ↦ rw (no_initialize) (
            rw
              (
                is_list,
                ap (λ m. str_eq m "tools/call") ((eq_iff req.method "tools/list").0 is_list),
                asked_by_method,
              )
              refl)
        | inr no_list ↦ elim (Bool-cases (str_eq req.method "tools/call")) [
          | inl is_call ↦
              rw (no_initialize, no_list)
                (rw (is_call, asked_by_method) (on_call enc env registry agent w req.params))
          | inr no_call ↦ rw (no_initialize, no_list) (rw (no_call, asked_by_method) refl)
        ]
      ]
    ]

  on_body :
      (env : Env) (registry : Registry) (server : Server) (body : String) (w : World)
      → (serve_body enc env registry server body w).1
        ≡ perform env registry (asked_by enc server.agent_identity (enc.decode_request body)) w
  unfolding serve_body pure ◌>>=◌
  on_body env registry server body w = elim (Result-cases (enc.decode_request body)) [
    | inr (e, undecoded) ↦ rw (undecoded, serve_body) refl
    | inl (req, decoded) ↦ elim (Bool-cases (str_eq req.jsonrpc "2.0")) [
      | inr other ↦ elim (Option-cases req.id) [
        | inl notification ↦ rw (decoded, serve_body) (rw notification (rw other refl))
        | inr (id, there) ↦ rw (decoded, serve_body) (rw there (rw other refl))
      ]
      | inl version ↦ elim (Option-cases req.id) [
        | inl notification ↦ rw (decoded, serve_body) (rw notification (rw version refl))
        | inr (id, there) ↦
            rw (decoded, serve_body)
              (rw there (
                rw version (
                  bind_pure_world (λ a. respond req.id a)
                    (dispatch enc env registry server.agent_identity req) w
                  ∙ on_method env registry server.agent_identity w req)))
      ]
    ]
  ]

  unconfigured :
      (server : Server) (r : HttpRequest)
      → str_eq server.token "" ≡ true
      → check_auth enc server r ≡ false
  unfolding check_auth
  unconfigured server r h =
      rw h (and_false (enc.equal_fold (trim_prefix r.authorization "Bearer ") server.token))

  -- By the code's own check of the token.
  pub serve_http_asks :
      (env : Env) (registry : Registry) (server : Server) (r : HttpRequest) (w : World)
      → (serve_http enc env registry server r w).1
        ≡ perform env registry
            (if is_let_in enc server r
              then asked_by enc server.agent_identity (enc.decode_request r.body)
              else nothing)
            w
  unfolding serve_http pure
  serve_http_asks env registry server r w = elim (Bool-cases (str_eq server.token "")) [
    | inl disabled ↦ rw (unconfigured server r disabled) (rw disabled refl)
    | inr configured ↦ elim (Bool-cases (check_auth enc server r)) [
      | inr stranger ↦ rw stranger (rw configured refl)
      | inl known ↦ elim (Bool-cases (str_eq r.method "POST")) [
        | inr other ↦ rw known (rw (configured, other) refl)
        | inl post ↦ rw known (rw (configured, post) (on_body env registry server r.body w))
      ]
    ]
  ]

  module _ (fold : String → String)
      (folds : (s t : String) → enc.equal_fold s t ≡ str_eq (fold s) (fold t)) where
    -- One who is let in: by POST, where a token is configured, with the same token up to the case of
    -- its letters.
    abbrev pub is_admitted : Server → HttpRequest → Bool
    is_admitted server r =
        not (str_eq server.token "")
        && str_eq (fold (trim_prefix r.authorization "Bearer ")) (fold server.token)
        && str_eq r.method "POST"

    is_let_in-is_admitted :
        (server : Server) (r : HttpRequest) → is_let_in enc server r ≡ is_admitted server r
    unfolding check_auth
    is_let_in-is_admitted server r =
        rw (folds (trim_prefix r.authorization "Bearer ") server.token) (ground arith)

    -- strings.EqualFold compares texts by their simple case folding, `fold`. What a request to the
    -- endpoint changes is what one operation of the engine changes, or one read: the tool call in its
    -- body decides which, and an operation is recorded under the server's own agent name, whatever the
    -- body says. Where the endpoint has no token, the Authorization header, without a leading "Bearer ",
    -- is not the server's token up to the case of its letters, the method is not POST, the body is no
    -- JSON-RPC 2.0 call with an id, the tool is unknown, or it wants a request id and none is given, the
    -- request changes nothing and reads nothing.
    pub serve_http_effect :
        (env : Env) (registry : Registry) (server : Server) (r : HttpRequest) (w : World)
        → (serve_http enc env registry server r w).1
          ≡ perform env registry
              (if is_admitted server r
                then asked_by enc server.agent_identity (enc.decode_request r.body)
                else nothing)
              w
    serve_http_effect env registry server r w =
        rw (← is_let_in-is_admitted server r) (serve_http_asks env registry server r w)
