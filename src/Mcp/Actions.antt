-- ===== src/Mcp/Actions.antt =====
-- The operation or the read that a request to the MCP endpoint asks for.
use jitsudo.Prelude.{Bool, true, false, ◌&&◌, Option, none, some, String, str_eq, if◌then◌else◌}
use jitsudo.Providers.{Registry}
use jitsudo.Store.Requests.{get_request, list_pending_ai_review}
use jitsudo.Lifecycle.Runs.{Op, apply}
use jitsudo.Mcp.{Server, string_arg, reasoning_of, check_auth}
use jitsudo.Mcp.Messages.{CallParams, RpcRequest, HttpRequest, Encoding}
use jitsudo.World.{Result, ok, err, World, Env}

pub data Action : Type 0 where
  nothing : Action
  list_pending : Action
  fetch : String → Action
  operate : Op → Action

abbrev pub perform : Env → Registry → Action → World → World
perform env registry nothing w = w
perform env registry list_pending w = (list_pending_ai_review env w).1
perform env registry (fetch id) w = (get_request env id w).1
perform env registry (operate op) w = apply env registry op w

-- An action on the request that the arguments name, if they name one.
abbrev pub on_request : (String → Action) → Option String → Action
on_request f none = nothing
on_request f (some id) = f id

module _ (enc : Encoding) where
  -- What a call of a tool asks for.
  abbrev pub asked : String → CallParams → Action
  asked agent p =
      let decide = λ (op : String → String → String → Op).
        on_request (λ id. operate (op id agent (reasoning_of enc p.arguments)))
          (string_arg p.arguments "request_id") in
      if str_eq p.name "list_pending_ai_review"
      then list_pending
      else if str_eq p.name "get_request_details"
      then on_request fetch (string_arg p.arguments "request_id")
      else if str_eq p.name "approve_request"
      then decide Op.ai_approve
      else if str_eq p.name "deny_request"
      then decide Op.ai_deny
      else if str_eq p.name "escalate_to_human"
      then decide Op.ai_escalate
      else nothing

  abbrev pub asked_params : String → Result CallParams → Action
  asked_params agent (err e) = nothing
  asked_params agent (ok p) = asked agent p

  abbrev pub asked_by_method : String → RpcRequest → Action
  asked_by_method agent req = elim (str_eq req.method "tools/call") [
    | false ↦ nothing
    | true ↦ asked_params agent (enc.unmarshal_params req.params)
  ]

  -- Only a `tools/call` with an id, of version 2.0, asks for anything.
  abbrev pub asked_by : String → Result RpcRequest → Action
  asked_by agent (err e) = nothing
  asked_by agent (ok req) = elim req.id [
    | none ↦ nothing
    | some id ↦ if str_eq req.jsonrpc "2.0" then asked_by_method agent req else nothing
  ]

  -- And only from one who is let in, by POST.
  abbrev pub is_let_in : Server → HttpRequest → Bool
  is_let_in server r = check_auth enc server r && str_eq r.method "POST"
