-- ===== src/Mcp.antt =====
-- internal/server/mcp/mcp.go: the endpoint where AI agents review requests.
pub mod Messages
pub mod Tools
pub mod Actions
pub mod ToolEffects
pub mod Effects
pub mod Reasoning
use jitsudo.Prelude.{
  Bool, true, false, ◌&&◌, not, Option, none, some, String, str_eq, str_append, List, [], ◌∷◌, map,
  if◌then◌else◌,
}
use jitsudo.Prelude.Int.{ℤ}
use jitsudo.Prelude.Texts.{trim_prefix}
use jitsudo.Providers.{Registry}
use jitsudo.Rows.{State, RequestRow}
use jitsudo.Store.Requests.{get_request, list_pending_ai_review}
use jitsudo.Workflow.Ai.{ai_approve_request, ai_deny_request, ai_escalate_request}
use Messages.{
  RpcRequest, RpcError, err_code_parse, err_code_invalid_req, err_code_method_unknown,
  err_code_invalid_params, err_code_internal, InitializeResult, ToolCallResult, Argument, Arguments,
  CallParams, Summary, RpcResult, initialized, tools_list, tool_called, HttpRequest, HttpResponse,
  http_error, accepted, rpc_error, rpc_result, Encoding,
}
use Tools.{all_tools}
use jitsudo.World.{Error, Result, ok, err, World, Env, M, pure, try, ◌>>=◌}

-- Server: the fields that are not its collaborators.
pub record Server : Type 0 where
  pub token : String
  pub agent_identity : String

unfoldable pub new : String → String → Server
new token agent = record {
  token = token;
  agent_identity = if str_eq agent "" then "mcp-agent" else agent;
}

-- What a method answers: a result or a JSON-RPC error.
pub data Reply : Type 0 where
  result : RpcResult → Reply
  failed : RpcError → Reply

-- The state's text in the store.
abbrev pub state_text : State → String
state_text State.pending = "PENDING"
state_text State.approved = "APPROVED"
state_text State.rejected = "REJECTED"
state_text State.active = "ACTIVE"
state_text State.expired = "EXPIRED"
state_text State.revoked = "REVOKED"

abbrev pub text_result : String → RpcResult
text_result text =
    tool_called (record { content = record { type = "text"; text = text } ∷ []; is_error = false })

abbrev pub failure : ℤ → String → Reply
failure code text = failed (record { code = code; message = text })

abbrev pub lookup : String → List (String × Argument) → Option Argument
lookup key [] = none
lookup key ((k, v) ∷ args) = let rest = lookup key args in if str_eq k key then some v else rest

abbrev pub string_of : Argument → Option String
string_of (Argument.string s) = some s
string_of (Argument.other raw) = none

-- `none` is the result false.
unfoldable pub string_arg : Arguments → String → Option String
string_arg none key = none
string_arg (some args) key = elim (lookup key args) [ none ↦ none | some v ↦ string_of v ]

-- The text, or "" as stringArg gives it where there is none.
abbrev or_empty : Option String → String
or_empty none = ""
or_empty (some s) = s

unfoldable pub handle_initialize : Reply
handle_initialize = result (
    initialized (record {
      protocol_version = "2025-03-26";
      server_info = record { name = "jitsudo-mcp"; version = "1.0" };
      capabilities = record { tools = true };
    }))

unfoldable pub handle_tools_list : Reply
unfolding all_tools
handle_tools_list = result (tools_list all_tools)

abbrev pub respond : Option String → Reply → HttpResponse
respond id (result r) = rpc_result id r
respond id (failed e) = rpc_error id e

module _ (enc : Encoding) where
  unfoldable pub build_reasoning_json : String → Arguments → String
  build_reasoning_json reasoning args =
      if str_eq reasoning ""
      then elim (enc.marshal_arguments args) [ some text ↦ text | none ↦ "{}" ]
      else if enc.is_valid reasoning
      then reasoning
      else enc.marshal_strings (("reasoning", reasoning) ∷ [])

  -- The reasoning that a decision is made with.
  unfoldable pub reasoning_of : Arguments → String
  unfolding string_arg build_reasoning_json
  reasoning_of args = build_reasoning_json (or_empty (string_arg args "reasoning")) args

  abbrev pub summary : RequestRow → Summary
  summary r = record {
    id = r.id;
    requester_identity = r.requester_identity;
    provider = r.provider;
    role = r.role;
    resource_scope = r.resource_scope;
    duration_seconds = r.duration_seconds;
    reason = r.reason;
    created_at = enc.format_utc r.created_at;
  }

  -- `if err != nil { return nil, &rpcError{errCodeInternal, err.Error()} }`
  abbrev pub reply : {A : Type 0} → (A → String) → Result A → Reply
  reply text (ok a) = result (text_result (text a))
  reply text (err e) = failure err_code_internal (enc.error_text e)

  abbrev id_required : Reply
  id_required = failure err_code_invalid_params "request_id is required"

  -- The answers of the three decisions.
  abbrev pub decided : String → RequestRow → String
  decided status req =
      enc.marshal_strings
        (("status", status) ∷ ("request_id", req.id) ∷ ("state", state_text req.state) ∷ [])

  abbrev pub escalated : RequestRow → String
  escalated req =
      enc.marshal_strings (
        ("status", "escalated")
        ∷ ("request_id", req.id)
        ∷ ("approver_tier", req.approver_tier)
        ∷ [])

  unfoldable pub check_auth : Server → HttpRequest → Bool
  check_auth server r =
      enc.equal_fold (trim_prefix r.authorization "Bearer ") server.token
      && not (str_eq server.token "")

  module _ (env : Env) where
    unfoldable pub tool_list_pending : M Reply
    tool_list_pending = do
      reqs ← try (list_pending_ai_review env)
      pure (reply (λ rows. enc.marshal_summaries (map summary rows)) reqs)

    unfoldable pub tool_get_request : Arguments → M Reply
    unfolding string_arg
    tool_get_request args = elim (string_arg args "request_id") [
      | none ↦ pure id_required
      | some id ↦ do req ← try (get_request env id); pure (reply enc.marshal_request req)
    ]

    unfoldable pub tool_approve : Registry → String → Arguments → M Reply
    unfolding string_arg reasoning_of
    tool_approve registry agent args = elim (string_arg args "request_id") [
      | none ↦ pure id_required
      | some id ↦ do
        req ← try (ai_approve_request env registry id agent (reasoning_of args))
        pure (reply (decided "approved") req)
    ]

    unfoldable pub tool_deny : String → Arguments → M Reply
    unfolding string_arg reasoning_of
    tool_deny agent args = elim (string_arg args "request_id") [
      | none ↦ pure id_required
      | some id ↦ do
        req ← try (ai_deny_request env id agent (reasoning_of args))
        pure (reply (decided "denied") req)
    ]

    unfoldable pub tool_escalate : String → Arguments → M Reply
    unfolding string_arg reasoning_of
    tool_escalate agent args = elim (string_arg args "request_id") [
      | none ↦ pure id_required
      | some id ↦ do
        req ← try (ai_escalate_request env id agent (reasoning_of args))
        pure (reply escalated req)
    ]

    -- The switch of `handleToolsCall`.
    unfoldable pub call_tool : Registry → String → CallParams → M Reply
    unfolding tool_list_pending tool_get_request tool_approve tool_deny tool_escalate
    call_tool registry agent p =
        if str_eq p.name "list_pending_ai_review"
        then tool_list_pending
        else if str_eq p.name "get_request_details"
        then tool_get_request p.arguments
        else if str_eq p.name "approve_request"
        then tool_approve registry agent p.arguments
        else if str_eq p.name "deny_request"
        then tool_deny agent p.arguments
        else if str_eq p.name "escalate_to_human"
        then tool_escalate agent p.arguments
        else pure (failure err_code_method_unknown (str_append "unknown tool: " p.name))

    unfoldable pub handle_tools_call : Registry → String → String → M Reply
    unfolding call_tool
    handle_tools_call registry agent params = elim (enc.unmarshal_params params) [
      | err e ↦
          pure (failure err_code_invalid_params (str_append "invalid params: " (enc.error_text e)))
      | ok p ↦ call_tool registry agent p
    ]

    unfoldable pub dispatch : Registry → String → RpcRequest → M Reply
    unfolding handle_initialize handle_tools_list handle_tools_call
    dispatch registry agent req =
        if str_eq req.method "initialize"
        then pure handle_initialize
        else if str_eq req.method "tools/list"
        then pure handle_tools_list
        else if str_eq req.method "tools/call"
        then handle_tools_call registry agent req.params
        else pure (failure err_code_method_unknown (str_append "method not found: " req.method))

    -- `ServeHTTP` below the checks of the token and the method.
    unfoldable pub serve_body : Registry → Server → String → M HttpResponse
    unfolding dispatch
    serve_body registry server body = elim (enc.decode_request body) [
      | err e ↦
          pure
            (respond none (failure err_code_parse (str_append "parse error: " (enc.error_text e))))
      | ok req ↦
          if not (str_eq req.jsonrpc "2.0")
          then pure (respond req.id (failure err_code_invalid_req "jsonrpc must be \"2.0\""))
          else elim req.id [
            | none ↦ pure accepted
            | some id ↦ do
              answer ← dispatch registry server.agent_identity req
              pure (respond req.id answer)
          ]
    ]

    unfoldable pub serve_http : Registry → Server → HttpRequest → M HttpResponse
    unfolding check_auth serve_body
    serve_http registry server r =
        if str_eq server.token ""
        then pure (http_error "MCP endpoint not configured" 404)
        else if not (check_auth server r)
        then pure (http_error "Unauthorized" 401)
        else if not (str_eq r.method "POST")
        then pure (http_error "Method Not Allowed" 405)
        else serve_body registry server r.body
