-- ===== src/Audit/Action.antt =====
-- internal/server/audit/audit.go: the action constants.
use jitsudo.Prelude.{String}

abbrev pub request_created : String
request_created = "request.created"

abbrev pub request_approved : String
request_approved = "request.approved"

abbrev pub request_auto_approved : String
request_auto_approved = "request.auto_approved"

abbrev pub request_denied : String
request_denied = "request.denied"

abbrev pub request_ai_approved : String
request_ai_approved = "request.ai_approved"

abbrev pub request_ai_denied : String
request_ai_denied = "request.ai_denied"

abbrev pub request_ai_escalated : String
request_ai_escalated = "request.ai_escalated"

abbrev pub grant_issued : String
grant_issued = "grant.issued"

abbrev pub grant_expired : String
grant_expired = "grant.expired"

abbrev pub grant_revoked : String
grant_revoked = "grant.revoked"
