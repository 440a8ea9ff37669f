-- ===== src/Mcp/ToolEffects.antt =====
-- What the tools of the MCP server change.
use jitsudo.Prelude.{◌≡◌, refl, String, str_eq, inl, inr, Bool-cases, Option-cases}
use jitsudo.Providers.{Registry}
use jitsudo.Lifecycle.Runs.{Op, apply}
use jitsudo.Mcp.{
  string_arg, reasoning_of, tool_list_pending, tool_get_request, tool_approve, tool_deny,
  tool_escalate, call_tool, handle_tools_call,
}
use jitsudo.Mcp.Messages.{Arguments, CallParams, Encoding}
use jitsudo.World.{World, Env, ◌>>=◌, try, pure}
use jitsudo.World.Stops.{Result-cases}
use jitsudo.Mcp.Actions.{list_pending, fetch, operate, perform, on_request, asked, asked_params}

module _ (enc : Encoding) where
  module _ (env : Env) (registry : Registry) (agent : String) (w : World) where
    pub on_list : (tool_list_pending enc env w).1 ≡ perform env registry list_pending w
    unfolding tool_list_pending try pure ◌>>=◌
    on_list = refl

    pub on_get :
        (args : Arguments)
        → (tool_get_request enc env args w).1
          ≡ perform env registry (on_request fetch (string_arg args "request_id")) w
    unfolding tool_get_request apply try pure ◌>>=◌
    on_get args = elim (Option-cases (string_arg args "request_id")) [
      | inl absent ↦ rw (absent, tool_get_request) refl
      | inr (id, there) ↦ rw (there, tool_get_request) refl
    ]

    pub on_approve :
        (args : Arguments)
        → (tool_approve enc env registry agent args w).1
          ≡ perform env registry
              (on_request
                (λ id. operate (Op.ai_approve id agent (reasoning_of enc args)))
                (string_arg args "request_id"))
              w
    unfolding tool_approve apply try pure ◌>>=◌
    on_approve args = elim (Option-cases (string_arg args "request_id")) [
      | inl absent ↦ rw (absent, tool_approve) refl
      | inr (id, there) ↦ rw (there, tool_approve) refl
    ]

    pub on_deny :
        (args : Arguments)
        → (tool_deny enc env agent args w).1
          ≡ perform env registry
              (on_request
                (λ id. operate (Op.ai_deny id agent (reasoning_of enc args)))
                (string_arg args "request_id"))
              w
    unfolding tool_deny apply try pure ◌>>=◌
    on_deny args = elim (Option-cases (string_arg args "request_id")) [
      | inl absent ↦ rw (absent, tool_deny) refl
      | inr (id, there) ↦ rw (there, tool_deny) refl
    ]

    pub on_escalate :
        (args : Arguments)
        → (tool_escalate enc env agent args w).1
          ≡ perform env registry
              (on_request
                (λ id. operate (Op.ai_escalate id agent (reasoning_of enc args)))
                (string_arg args "request_id"))
              w
    unfolding tool_escalate apply try pure ◌>>=◌
    on_escalate args = elim (Option-cases (string_arg args "request_id")) [
      | inl absent ↦ rw (absent, tool_escalate) refl
      | inr (id, there) ↦ rw (there, tool_escalate) refl
    ]

    pub on_tool :
        (p : CallParams)
        → (call_tool enc env registry agent p w).1 ≡ perform env registry (asked enc agent p) w
    unfolding call_tool pure
    on_tool p = elim (Bool-cases (str_eq p.name "list_pending_ai_review")) [
      | inl is_list ↦ rw (is_list) on_list
      | inr no_list ↦ elim (Bool-cases (str_eq p.name "get_request_details")) [
        | inl is_get ↦ rw (no_list, is_get) (on_get p.arguments)
        | inr no_get ↦ elim (Bool-cases (str_eq p.name "approve_request")) [
          | inl is_approve ↦ rw (no_list, no_get, is_approve) (on_approve p.arguments)
          | inr no_approve ↦ elim (Bool-cases (str_eq p.name "deny_request")) [
            | inl is_deny ↦ rw (no_list, no_get, no_approve, is_deny) (on_deny p.arguments)
            | inr no_deny ↦ elim (Bool-cases (str_eq p.name "escalate_to_human")) [
              | inl is_escalate ↦
                  rw (no_list, no_get, no_approve, no_deny, is_escalate) (on_escalate p.arguments)
              | inr no_escalate ↦ rw (no_list, no_get, no_approve, no_deny, no_escalate) refl
            ]
          ]
        ]
      ]
    ]

    pub on_call :
        (params : String)
        → (handle_tools_call enc env registry agent params w).1
          ≡ perform env registry (asked_params enc agent (enc.unmarshal_params params)) w
    unfolding handle_tools_call pure
    on_call params = elim (Result-cases (enc.unmarshal_params params)) [
      | inl (p, decoded) ↦ rw (decoded, handle_tools_call) (on_tool p)
      | inr (e, undecoded) ↦ rw (undecoded, handle_tools_call) refl
    ]
