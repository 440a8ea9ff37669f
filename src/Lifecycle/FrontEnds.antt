-- ===== src/Lifecycle/FrontEnds.antt =====
-- The service behind all its front ends: the RPCs of api.go, the MCP endpoint of mcp.go, the sweeper.
use jitsudo.Prelude.{sym, subst, inl, inr, some, String, List, [], ◌∷◌, if◌then◌else◌}
use jitsudo.Providers.{Registry}
use jitsudo.Auth.{IdTokenVerifier, Metadata, call}
use jitsudo.Auth.Gate.{call-IsGated}
use jitsudo.Api.Messages.{Rpc}
use jitsudo.Mcp.{Server, serve_http}
use jitsudo.Mcp.Messages.{HttpRequest, Encoding}
use jitsudo.Mcp.Actions.{
  Action, nothing, list_pending, fetch, operate, perform, is_let_in, asked_by,
}
use jitsudo.Mcp.Effects.{serve_http_asks}
use jitsudo.Workflow.Sweep.{sweep_expired}
use jitsudo.World.{World, Env}
use jitsudo.Lifecycle.{Evolves, Evolves-refl, Evolves-trans, Keeps, IsCooperative}
use jitsudo.Lifecycle.Requests.{get_request-Evolves}
use jitsudo.Lifecycle.Operations.{sweep-Evolves}
use jitsudo.Lifecycle.Runs.{apply-Keeps}
use jitsudo.Lifecycle.Service.{serve-Evolves}
use jitsudo.Lifecycle.Stores.{list_pending-Evolves}

-- What arrives: a gRPC call with its metadata, a request to the MCP endpoint, or a tick of the sweeper.
pub data Arrival : Type 0 where
  grpc : Metadata → Rpc → Arrival
  mcp : HttpRequest → Arrival
  tick : Arrival

module _ (v : IdTokenVerifier) (env : Env) (registry : Registry) (admins : List String)
    (enc : Encoding) (server : Server) where
  unfoldable pub arrive : Arrival → World → World
  arrive (grpc metadata rpc) w = (call v env registry admins metadata rpc w).1
  arrive (mcp r) w = (serve_http enc env registry server r w).1
  arrive tick w = (sweep_expired env registry w).1

  unfoldable pub arrivals : List Arrival → World → World
  arrivals [] w = w
  arrivals (a ∷ rest) w = arrivals rest (arrive a w)

module _ {env : Env} (rely : IsCooperative env) (registry : Registry) where
  perform-Keeps : (action : Action) (w : World) → Keeps env w (perform env registry action w)
  perform-Keeps nothing w = Evolves-refl w.db
  perform-Keeps list_pending w = (list_pending-Evolves rely).at w
  perform-Keeps (fetch id) w = (get_request-Evolves rely id).at w
  perform-Keeps (operate op) w = apply-Keeps rely registry op w

  module _ (v : IdTokenVerifier) (admins : List String) (enc : Encoding) (server : Server) where
    arrive-Keeps :
        (a : Arrival) (w : World) → Keeps env w (arrive v env registry admins enc server a w)
    unfolding arrive
    arrive-Keeps (grpc metadata rpc) w = elim (call-IsGated v env registry admins metadata rpc w) [
      | inl (e, refused) ↦ subst (λ r. Keeps env w r.1) (sym refused) (Evolves-refl w.db)
      | inr (token, rest, who, header, good, served) ↦
          subst (λ r. Keeps env w r.1) (sym served)
            ((serve-Evolves rely registry admins (some who) rpc).at w)
    ]
    arrive-Keeps (mcp r) w =
        subst (Keeps env w) (sym (serve_http_asks enc env registry server r w)) (
          perform-Keeps
            (if is_let_in enc server r
              then asked_by enc server.agent_identity (enc.decode_request r.body)
              else nothing)
            w)
    arrive-Keeps tick w = (sweep-Evolves rely registry).at w

    -- Whatever arrives at the service, in whatever order and from whomever, over gRPC, over MCP or by
    -- the clock, beside instances that keep to the lifecycle: a request stays in the table with what
    -- was asked for unchanged and its state moved along the lifecycle, the audit log only grows, and a
    -- sound database stays sound. Calls that touch policies and principals are among them.
    pub arrivals-Evolves :
        (all : List Arrival) (w : World)
        → Evolves env.sha256_hex w.db (arrivals v env registry admins enc server all w).db
    unfolding arrivals
    arrivals-Evolves [] w = Evolves-refl w.db
    arrivals-Evolves (a ∷ rest) w =
        Evolves-trans w.db (arrive v env registry admins enc server a w).db _ (arrive-Keeps a w)
          (arrivals-Evolves rest (arrive v env registry admins enc server a w))
