-- ===== src/Tests/Agents.antt =====
-- An agent's requests to the MCP endpoint, and calls from every front end.
use jitsudo.Prelude.{
  ◌≡◌, ◌⊎◌, refl, sym, ap, true, false, none, some, String, str_eq, List, [], ◌∷◌, if◌then◌else◌,
}
use jitsudo.Rows.{pending}
use jitsudo.Lifecycle.{Evolves, Evolves-refl, cooperative}
use jitsudo.Lifecycle.FrontEnds.{Arrival, grpc, mcp, tick, arrivals, arrivals-Evolves}
use jitsudo.Api.Messages.{Rpc}
use jitsudo.Auth.{IdTokenVerifier, call}
use jitsudo.Auth.Gate.{IsGated, call-IsGated}
use jitsudo.Mcp.{Server, new, serve_http, build_reasoning_json}
use jitsudo.Mcp.Messages.{RpcRequest, Argument, Arguments, HttpRequest, Encoding, http_error}
use jitsudo.Mcp.Actions.{perform, asked_by, nothing}
use jitsudo.Mcp.Effects.{is_admitted, serve_http_effect}
use jitsudo.Mcp.Reasoning.{WritesJson, build_reasoning_json_valid}
use jitsudo.World.{ok, err, message, pure, World}
use jitsudo.Tests.Fixtures.{calm, registry, row, world}

abbrev arguments : Arguments
arguments =
    some (("request_id", Argument.string "req_1") ∷ ("reasoning", Argument.string "low risk") ∷ [])

abbrev rpc_request : RpcRequest
rpc_request = record { jsonrpc = "2.0"; id = some "1"; method = "tools/call"; params = "{}" }

-- An encoding that reads one call; what it writes, and nothing else, is JSON.
abbrev encoding : Encoding
encoding = record {
  decode_request = λ body. ok rpc_request;
  unmarshal_params = λ params. ok (record { name = "approve_request"; arguments = arguments });
  is_valid = λ s. str_eq s "{}";
  marshal_arguments = λ args. some "{}";
  marshal_strings = λ m. "{}";
  marshal_summaries = λ rows. "{}";
  marshal_request = λ r. "{}";
  equal_fold = str_eq;
  format_utc = λ t. "2026-03-19T10:00:00Z";
  error_text = λ e. "error";
}

encoding-WritesJson : WritesJson encoding
encoding-WritesJson = record {
  arguments = λ args text h. ap (λ o. elim o [ none ↦ true | some t ↦ str_eq t "{}" ]) (sym h);
  strings = λ m. refl;
  empty_object = refl;
  empty_text = refl;
}

abbrev server : Server
server = record { token = "secret"; agent_identity = "reviewer" }

abbrev request : String → HttpRequest
request token = record { authorization = token; method = "POST"; body = "{}" }

abbrev one : World
one = world (row "req_1" pending ∷ [])

serve_http_effect_example :
    (serve_http encoding calm registry server (request "Bearer secret") one).1
    ≡ perform calm registry
        (if is_admitted encoding (λ s. s) (λ s t. refl) server (request "Bearer secret")
          then asked_by encoding server.agent_identity (encoding.decode_request "{}")
          else nothing)
        one
serve_http_effect_example =
    serve_http_effect encoding (λ s. s) (λ s t. refl) calm registry server (request "Bearer secret")
      one

-- Without the token the answer is 401, and with none configured 404.
unauthorized :
    serve_http encoding calm registry server (request "Bearer guess") one
    ≡ (ok (http_error "Unauthorized" 401), one)
unfolding serve_http pure
unauthorized = refl

disabled :
    serve_http encoding calm registry (new "" "") (request "") one
    ≡ (ok (http_error "MCP endpoint not configured" 404), one)
unfolding serve_http new pure
disabled = refl

build_reasoning_json_valid_example :
    (encoding.is_valid (build_reasoning_json encoding "low risk" arguments) ≡ true)
    × ((build_reasoning_json encoding "low risk" arguments ≡ "low risk")
        ⊎ (encoding.is_valid "low risk" ≡ false))
build_reasoning_json_valid_example =
    build_reasoning_json_valid encoding "low risk" arguments encoding-WritesJson

-- A verifier that accepts one token.
abbrev verifier : IdTokenVerifier
verifier = record {
  verify = λ raw. if str_eq raw "token" then ok "u1" else err (message "signature");
  claims = λ raw. ok (record { email = "alice@example.com"; groups = [] });
}

call-IsGated_example :
    IsGated verifier calm registry []
      (some ("Bearer token" ∷ []))
      (Rpc.get_request "req_1")
      one
      (call verifier calm registry [] (some ("Bearer token" ∷ [])) (Rpc.get_request "req_1") one)
call-IsGated_example =
    call-IsGated verifier calm registry [] (some ("Bearer token" ∷ [])) (Rpc.get_request "req_1")
      one

abbrev all : List Arrival
all =
    grpc (some ("Bearer token" ∷ [])) (Rpc.get_request "req_1")
    ∷ mcp (request "Bearer secret")
    ∷ grpc none Rpc.reload_policies
    ∷ tick
    ∷ []

arrivals-Evolves_example :
    Evolves calm.sha256_hex one.db (arrivals verifier calm registry [] encoding server all one).db
arrivals-Evolves_example =
    arrivals-Evolves (cooperative calm λ n d. Evolves-refl d) registry verifier [] encoding server
      all one
