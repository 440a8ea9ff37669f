-- ===== src/Mcp/Messages.antt =====
-- The messages of the MCP server (internal/server/mcp/mcp.go), and encoding/json as a parameter.
use jitsudo.Prelude.{ℕ, Bool, Option, String, List}
use jitsudo.Prelude.Int.{ℤ, negsuc}
use jitsudo.Rows.{RequestRow}
use jitsudo.World.{Error, Result}

-- rpcRequest; an id and params are raw JSON, and `none` is an absent id.
pub record RpcRequest : Type 0 where
  pub jsonrpc : String
  pub id : Option String
  pub method : String
  pub params : String

pub record RpcError : Type 0 where
  pub code : ℤ
  pub message : String

-- The codes -32700, -32600, -32601, -32602 and -32603.
abbrev pub err_code_parse : ℤ
err_code_parse = negsuc 32699

abbrev pub err_code_invalid_req : ℤ
err_code_invalid_req = negsuc 32599

abbrev pub err_code_method_unknown : ℤ
err_code_method_unknown = negsuc 32600

abbrev pub err_code_invalid_params : ℤ
err_code_invalid_params = negsuc 32601

abbrev pub err_code_internal : ℤ
err_code_internal = negsuc 32602

pub record ServerInfo : Type 0 where
  pub name : String
  pub version : String

-- `tools` is whether the capability is there.
pub record Capabilities : Type 0 where
  pub tools : Bool

pub record InitializeResult : Type 0 where
  pub protocol_version : String
  pub server_info : ServerInfo
  pub capabilities : Capabilities

-- The schema of an object: its properties, all texts, with their descriptions; and `required`.
pub record InputSchema : Type 0 where
  pub properties : List (String × String)
  pub required : Option (List String)

pub record ToolDef : Type 0 where
  pub name : String
  pub description : String
  pub input_schema : InputSchema

pub record ToolContent : Type 0 where
  pub type : String
  pub text : String

pub record ToolCallResult : Type 0 where
  pub content : List ToolContent
  pub is_error : Bool

-- A value in an argument map: a text, or raw JSON of another kind.
pub data Argument : Type 0 where
  string : String → Argument
  other : String → Argument

-- map[string]any; `none` is the nil map.
abbrev pub Arguments : Type 0
Arguments = Option (List (String × Argument))

pub record CallParams : Type 0 where
  pub name : String
  pub arguments : Arguments

-- An item of `list_pending_ai_review`.
pub record Summary : Type 0 where
  pub id : String
  pub requester_identity : String
  pub provider : String
  pub role : String
  pub resource_scope : String
  pub duration_seconds : ℤ
  pub reason : String
  pub created_at : String

-- An `any` result.
pub data RpcResult : Type 0 where
  initialized : InitializeResult → RpcResult
  tools_list : List ToolDef → RpcResult
  tool_called : ToolCallResult → RpcResult

-- What a handler reads of a request, and what it writes: an HTTP error, 202, or a JSON-RPC response
-- with the id of the request, which is status 200.
pub record HttpRequest : Type 0 where
  pub authorization : String
  pub method : String
  pub body : String

pub data HttpResponse : Type 0 where
  http_error : String → ℕ → HttpResponse
  accepted : HttpResponse
  rpc_error : Option String → RpcError → HttpResponse
  rpc_result : Option String → RpcResult → HttpResponse

-- encoding/json, strings.EqualFold, time's Format and the text of an error.
pub record Encoding : Type 0 where
  pub decode_request : String → Result RpcRequest
  pub unmarshal_params : String → Result CallParams
  pub is_valid : String → Bool
  pub marshal_arguments : Arguments → Option String
  pub marshal_strings : List (String × String) → String
  pub marshal_summaries : List Summary → String
  pub marshal_request : RequestRow → String
  pub equal_fold : String → String → Bool
  pub format_utc : ℕ → String
  pub error_text : Error → String
