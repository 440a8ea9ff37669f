-- ===== src/Assembly.antt =====
-- internal/server/server.go and cmd/jitsudod/serve.go: what Start assembles from the configuration.
pub mod Registered
pub mod Tls
use jitsudo.Prelude.{ℕ, Option, none, some, String, str_eq, List, [], ◌∷◌, ◌++◌, if◌then◌else◌}
use jitsudo.Prelude.Texts.{texts}
use jitsudo.Config.{FileConfig, TlsCfg, ProvidersCfg, NotificationsCfg}
use jitsudo.Notifications.Mail.{SmtpConfig}
use jitsudo.Notifications.Posts.{WebhookConfig, SiemJsonConfig, SlackConfig}
use jitsudo.Notifications.Syslog.{SyslogConfig}
use jitsudo.Providers.{Provider, Registry, register}
use jitsudo.Providers.Aws.{Config as AwsConfig, name as aws_name}
use jitsudo.Providers.Azure.{Config as AzureConfig, name as azure_name}
use jitsudo.Providers.Gcp.{Config as GcpConfig, name as gcp_name}
use jitsudo.Providers.Kubernetes.{Config as KubernetesConfig, name as kubernetes_name}
use jitsudo.World.{Error, Result, ok, err}

-- Config of server.go, with the types of config.go for the groups of the same fields.
pub record ServerConfig : Type 0 where
  pub http_addr : String
  pub grpc_addr : String
  pub database_url : String
  pub oidc_issuer : String
  pub oidc_discovery_url : String
  pub oidc_client_id : String
  pub tls : TlsCfg
  pub notifications : NotificationsCfg
  pub providers : ProvidersCfg
  pub mcp_token : String
  pub mcp_agent_identity : String
  pub admin_emails : List String

-- runServe: the server's configuration. AdminEmails is not set.
unfoldable pub server_config : FileConfig → ServerConfig
server_config cfg = record {
  http_addr = cfg.server.http_addr;
  grpc_addr = cfg.server.grpc_addr;
  database_url = cfg.database_url;
  oidc_issuer = cfg.auth.oidc_issuer;
  oidc_discovery_url = cfg.auth.oidc_discovery_url;
  oidc_client_id = cfg.auth.client_id;
  tls = cfg.tls;
  notifications = cfg.notifications;
  providers = cfg.providers;
  mcp_token = cfg.mcp.token;
  mcp_agent_identity = cfg.mcp.agent_identity;
  admin_emails = [];
}

-- The notifiers, by the configuration that each is made with.
pub data Channel : Type 0 where
  slack : SlackConfig → Channel
  smtp : SmtpConfig → Channel
  webhook : WebhookConfig → Channel
  siem_json : SiemJsonConfig → Channel
  siem_syslog : SyslogConfig → Channel

-- One channel, where its configuration is there and the text that it needs is not empty.
abbrev channel {ℓ} : {A : Type ℓ} → (A → Channel) → (A → String) → Option A → List Channel
channel make needs none = []
channel make needs (some cfg) = if str_eq (needs cfg) "" then [] else make cfg ∷ []

abbrev syslog_channel : Option SyslogConfig → List Channel
syslog_channel none = []
syslog_channel (some cfg) = siem_syslog cfg ∷ []

abbrev webhook_channels : List WebhookConfig → List Channel
webhook_channels [] = []
webhook_channels (w ∷ ws) = channel webhook (λ c. c.url) (some w) ++ webhook_channels ws

unfoldable pub notifiers : NotificationsCfg → List Channel
notifiers cfg =
    let siem : List Channel = elim cfg.siem [
      | none ↦ []
      | some c ↦ channel siem_json (λ j. j.url) c.json ++ syslog_channel c.syslog
    ] in
    channel slack (λ c. c.webhook_url) cfg.slack
    ++ (channel smtp (λ c. c.host) cfg.smtp ++ (webhook_channels cfg.webhooks ++ siem))

-- The constructors New of the adapters, which build the clients of the libraries; mock.New.
pub record Adapters : Type 0 where
  pub mock : Provider
  pub kubernetes : KubernetesConfig → Result Provider
  pub aws : AwsConfig → Result Provider
  pub gcp : GcpConfig → Result Provider
  pub azure : AzureConfig → Result Provider

-- A provider under the name that its adapter answers to.
abbrev pub named : String → Provider → Provider
named n p = record p { name = n }

-- A provider that is configured and whose New succeeds is registered, and another is skipped. `none` is
-- the panic of Register.
unfoldable pub register_configured {ℓ} :
    {C : Type ℓ} → String → Option C → (C → Result Provider) → Registry → Option Registry
register_configured n none make r = some r
register_configured n (some cfg) make r = elim (make cfg) [
  | err _ ↦ some r
  | ok p ↦ register r (named n p)
]

infixl 5 ◌>>=◌
abbrev pub ◌>>=◌ : {A B : Type 0} → Option A → (A → Option B) → Option B
none >>= f = none
some a >>= f = f a

unfoldable pub build_registry : Adapters → ProvidersCfg → Option Registry
unfolding register register_configured
build_registry new cfg = do
  r ← register [] (named "mock" new.mock)
  r ← register_configured kubernetes_name cfg.kubernetes new.kubernetes r
  r ← register_configured aws_name cfg.aws new.aws r
  r ← register_configured gcp_name cfg.gcp new.gcp r
  register_configured azure_name cfg.azure new.azure r

-- Ping of the store: the status and the body of /readyz.
unfoldable pub readyz : (Error → String) → Option Error → ℕ × String
readyz show none = (200, "ok")
readyz show (some e) = (503, texts ("db: " ∷ show e ∷ []))
