-- ===== src/Tests/Settings.antt =====
-- A configuration file that an environment overrides in part.
use jitsudo.Prelude.{◌≡◌, refl, none, some, str_eq, [], ◌∷◌, if◌then◌else◌}
use jitsudo.Config.{FileConfig, Getenv, Files, defaults, read_file, load, apply_env}
use jitsudo.Config.Overlay.{IsOverlaid, load-IsOverlaid}
use jitsudo.Config.Settings.{Setting, value}
use jitsudo.Notifications.Posts.{WebhookConfig}
use jitsudo.Assembly.{
  Adapters, Channel, build_registry, register_configured, notifiers, server_config,
}
use jitsudo.Assembly.Registered.{IsRegistry, build_registry-IsRegistry}
use jitsudo.Providers.{Registry, get, register}
use jitsudo.Prelude.Int.{pos}
use jitsudo.Tests.Fixtures.{aws}
use jitsudo.World.{ok, err, message}

abbrev env : Getenv
env name =
    if str_eq name "JITSUDOD_HTTP_ADDR"
    then ":9090"
    else if str_eq name "JITSUDOD_SIEM_JSON_URL"
    then "https://siem"
    else if str_eq name "JITSUDOD_WEBHOOK_URL"
    then "https://hook"
    else ""

abbrev hook : WebhookConfig
hook = record { url = "https://file"; headers = []; secret = "s"; events = [] }

abbrev written : FileConfig → FileConfig
written cfg = record cfg {
  database_url = "postgres://db";
  notifications = record cfg.notifications { webhooks = hook ∷ [] };
}

abbrev files : Files
files = record {
  open_file =
      λ path. if str_eq path "jitsudod.yaml" then ok "text" else err (message "no such file");
  decode = λ text cfg. ok (written cfg);
  quote = λ s. s;
}

load_merges : load env files "jitsudod.yaml" ≡ ok (apply_env env (written defaults))
unfolding load read_file
load_merges = refl

load_values :
    (value Setting.http_addr (apply_env env (written defaults)) ≡ ":9090")
    × (value Setting.database_url (apply_env env (written defaults)) ≡ "postgres://db")
    × (value Setting.siem_json_url (apply_env env (written defaults)) ≡ "https://siem")
unfolding value apply_env
load_values = (refl, refl, refl)

-- The webhook of the environment does not replace the file's, but serves where the file has none.
webhook_of_file :
    ((apply_env env (written defaults)).notifications.webhooks ≡ hook ∷ [])
    × ((apply_env env defaults).notifications.webhooks
        ≡ record { url = "https://hook"; headers = []; secret = ""; events = [] } ∷ [])
unfolding apply_env defaults
webhook_of_file = (refl, refl)

load-IsOverlaid_example :
    (cfg : FileConfig) × (load env files "jitsudod.yaml" ≡ ok cfg)
    × IsOverlaid env (written defaults) cfg
    × (apply_env env cfg ≡ cfg)
unfolding read_file
load-IsOverlaid_example = load-IsOverlaid env files "jitsudod.yaml" (written defaults) refl

-- A cluster that cannot be reached, beside two clouds that can.
abbrev adapters : Adapters
adapters = record {
  mock = aws;
  kubernetes = λ c. err (message "no cluster");
  aws = λ c. ok aws;
  gcp = λ c. ok aws;
  azure = λ c. ok aws;
}

abbrev clouds : FileConfig
clouds = record defaults {
  providers = record {
    aws = none;
    gcp = some (record {
      organization_id = "o";
      credentials_source = "";
      max_duration = pos 0;
      condition_title_prefix = "";
    });
    azure = none;
    kubernetes = some (record {
      kubeconfig_path = "";
      default_namespace = "";
      max_duration = pos 0;
      managed_label = "";
    });
  };
}

build_registry-IsRegistry_example :
    (r : Registry) × (build_registry adapters (server_config clouds).providers ≡ some r)
    × IsRegistry adapters (server_config clouds).providers r
build_registry-IsRegistry_example =
    build_registry-IsRegistry adapters (server_config clouds).providers

registered :
    build_registry adapters (server_config clouds).providers
    ≡ some (("gcp", record aws { name = "gcp" }) ∷ ("mock", record aws { name = "mock" }) ∷ [])
unfolding build_registry server_config defaults register_configured register get
registered = refl

channels :
    notifiers (server_config (apply_env env (written defaults))).notifications
    ≡ Channel.webhook hook
      ∷ Channel.siem_json (record { url = "https://siem"; headers = []; events = [] })
      ∷ []
unfolding notifiers server_config apply_env defaults
channels = refl
