-- ===== src/Mcp/Tools.antt =====
-- The tools that the MCP server offers (`allTools` of internal/server/mcp/mcp.go).
use jitsudo.Prelude.{none, some, String, List, [], ◌∷◌}
use jitsudo.Mcp.Messages.{ToolDef}

abbrev id_and_reasoning : String → String → String → String → ToolDef
id_and_reasoning name description id reasoning = record {
  name = name;
  description = description;
  input_schema = record {
    properties = ("request_id", id) ∷ ("reasoning", reasoning) ∷ [];
    required = some ("request_id" ∷ "reasoning" ∷ []);
  };
}

unfoldable pub all_tools : List ToolDef
all_tools =
    record {
      name = "list_pending_ai_review";
      description =
          "Returns all PENDING elevation requests routed to AI review (approver_tier=ai_review). Review each one and call approve_request, deny_request, or escalate_to_human.";
      input_schema = record { properties = []; required = none };
    }
    ∷ record {
      name = "get_request_details";
      description =
          "Returns full details for a single elevation request, including requester identity, provider, role, resource scope, duration, reason, and metadata.";
      input_schema = record {
        properties = ("request_id", "The elevation request ID (e.g. req_01J8KZ...)") ∷ [];
        required = some ("request_id" ∷ []);
      };
    }
    ∷ id_and_reasoning "approve_request"
        "Approve a Tier 2 elevation request. Credentials are issued immediately. Always provide reasoning — it is stored in the tamper-evident audit log."
        "The elevation request ID to approve"
        "JSON or text explaining the approval decision: risk assessment, blast radius, context signals consulted"
    ∷ id_and_reasoning "deny_request"
        "Deny a Tier 2 elevation request. Always provide reasoning — it is stored in the audit log and shown to the requester."
        "The elevation request ID to deny" "JSON or text explaining the denial decision"
    ∷ id_and_reasoning "escalate_to_human"
        "Escalate a Tier 2 request to human review when uncertain. The request stays PENDING and is routed to the human approval queue. Always escalate on uncertainty — never approve or deny silently on model error."
        "The elevation request ID to escalate"
        "JSON or text explaining why human review is needed (uncertainty, high blast radius, missing context, etc.)"
    ∷ []
