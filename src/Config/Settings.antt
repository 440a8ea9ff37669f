-- ===== src/Config/Settings.antt =====
-- The settings that a variable of the environment names, and the value that a configuration has at each.
use jitsudo.Prelude.{Option, none, some, String, str_eq, if◌then◌else◌}
use jitsudo.Config.{FileConfig}

pub data Setting : Type 0 where
  http_addr grpc_addr database_url oidc_issuer oidc_discovery_url oidc_client_id tls_cert_file
        tls_key_file tls_ca_file log_level mcp_token mcp_agent_identity slack_webhook_url smtp_host
        smtp_password siem_json_url siem_syslog_address :
      Setting

-- The variable's name.
unfoldable pub variable : Setting → String
variable Setting.http_addr = "JITSUDOD_HTTP_ADDR"
variable Setting.grpc_addr = "JITSUDOD_GRPC_ADDR"
variable Setting.database_url = "JITSUDOD_DATABASE_URL"
variable Setting.oidc_issuer = "JITSUDOD_OIDC_ISSUER"
variable Setting.oidc_discovery_url = "JITSUDOD_OIDC_DISCOVERY_URL"
variable Setting.oidc_client_id = "JITSUDOD_OIDC_CLIENT_ID"
variable Setting.tls_cert_file = "JITSUDOD_TLS_CERT_FILE"
variable Setting.tls_key_file = "JITSUDOD_TLS_KEY_FILE"
variable Setting.tls_ca_file = "JITSUDOD_TLS_CA_FILE"
variable Setting.log_level = "JITSUDOD_LOG_LEVEL"
variable Setting.mcp_token = "JITSUDOD_MCP_TOKEN"
variable Setting.mcp_agent_identity = "JITSUDOD_MCP_AGENT_IDENTITY"
variable Setting.slack_webhook_url = "JITSUDOD_SLACK_WEBHOOK_URL"
variable Setting.smtp_host = "JITSUDOD_SMTP_HOST"
variable Setting.smtp_password = "JITSUDOD_SMTP_PASSWORD"
variable Setting.siem_json_url = "JITSUDOD_SIEM_JSON_URL"
variable Setting.siem_syslog_address = "JITSUDOD_SIEM_SYSLOG_ADDRESS"

abbrev of_nil {ℓ} : {A : Type ℓ} → (A → String) → Option A → String
of_nil read none = ""
of_nil read (some a) = read a

-- The setting's value; behind a nil pointer it is the empty text.
unfoldable pub value : Setting → FileConfig → String
value Setting.http_addr cfg = cfg.server.http_addr
value Setting.grpc_addr cfg = cfg.server.grpc_addr
value Setting.database_url cfg = cfg.database_url
value Setting.oidc_issuer cfg = cfg.auth.oidc_issuer
value Setting.oidc_discovery_url cfg = cfg.auth.oidc_discovery_url
value Setting.oidc_client_id cfg = cfg.auth.client_id
value Setting.tls_cert_file cfg = cfg.tls.cert_file
value Setting.tls_key_file cfg = cfg.tls.key_file
value Setting.tls_ca_file cfg = cfg.tls.ca_file
value Setting.log_level cfg = cfg.log.level
value Setting.mcp_token cfg = cfg.mcp.token
value Setting.mcp_agent_identity cfg = cfg.mcp.agent_identity
value Setting.slack_webhook_url cfg = of_nil (λ c. c.webhook_url) cfg.notifications.slack
value Setting.smtp_host cfg = of_nil (λ c. c.host) cfg.notifications.smtp
value Setting.smtp_password cfg = of_nil (λ c. c.password) cfg.notifications.smtp
value Setting.siem_json_url cfg = of_nil (λ c. of_nil (λ j. j.url) c.json) cfg.notifications.siem
value Setting.siem_syslog_address cfg =
    of_nil (λ c. of_nil (λ j. j.address) c.syslog) cfg.notifications.siem

-- What the environment makes of a value: a variable that is set and not empty wins.
abbrev pub overlaid : String → String → String
overlaid found v = if str_eq v "" then found else v
