-- ===== src/Config/Overlay.antt =====
-- internal/config/config.go, Load: what the environment overrides, and what the file keeps.
use jitsudo.Prelude.{Option, String, List, [], ◌∷◌, ◌≡◌, ◌⊎◌, inl, inr, refl, arith}
use jitsudo.Config.{
  FileConfig, SiemConfig, Getenv, Files, apply_env, load, read_file, defaults, set_if_env,
  set_slack, set_smtp_host, set_smtp_password, set_webhooks, set_siem_json, set_siem_syslog,
}
use jitsudo.Config.Settings.{Setting, variable, value, overlaid}
use jitsudo.Notifications.Mail.{SmtpConfig}
use jitsudo.Notifications.Posts.{WebhookConfig, SlackConfig}
use jitsudo.World.{ok}

-- The environment read over a configuration: every named setting, and all that no variable names.
pub record IsOverlaid (env : Getenv) (cfg cfg' : FileConfig) : Type 0 where
  pub settings : (s : Setting) → value s cfg' ≡ overlaid (value s cfg) (env (variable s))
  pub providers : cfg'.providers ≡ cfg.providers
  pub format : cfg'.log.format ≡ cfg.log.format
  pub webhooks :
      (cfg.notifications.webhooks ≡ []) ⊎ (cfg'.notifications.webhooks ≡ cfg.notifications.webhooks)

pub value-apply_env :
    (env : Getenv) (s : Setting) (cfg : FileConfig)
    → value s (apply_env env cfg) ≡ overlaid (value s cfg) (env (variable s))
unfolding apply_env value variable set_slack set_smtp_host set_smtp_password set_webhooks
    set_siem_json set_siem_syslog
value-apply_env env Setting.http_addr cfg = refl
value-apply_env env Setting.slack_webhook_url cfg = ground arith
value-apply_env env Setting.smtp_host cfg = ground arith
value-apply_env env Setting.smtp_password cfg = ground arith
value-apply_env env Setting.siem_json_url cfg = ground arith
value-apply_env env Setting.siem_syslog_address cfg = ground arith
value-apply_env env _ cfg = refl

-- The environment read a second time changes nothing.
set_if_env-idempotent :
    (env : Getenv) (found key : String)
    → set_if_env env (set_if_env env found key) key ≡ set_if_env env found key
set_if_env-idempotent env found key = ground arith

set_slack-idempotent :
    (env : Getenv) (c : Option SlackConfig) → set_slack env (set_slack env c) ≡ set_slack env c
unfolding set_slack
set_slack-idempotent env c = ground arith

set_webhooks-idempotent :
    (env : Getenv) (ws : List WebhookConfig)
    → set_webhooks env (set_webhooks env ws) ≡ set_webhooks env ws
unfolding set_webhooks
set_webhooks-idempotent env [] = ground arith
set_webhooks-idempotent env (w ∷ ws) = refl

abbrev set_smtp : Getenv → Option SmtpConfig → Option SmtpConfig
set_smtp env c = set_smtp_password env (set_smtp_host env c)

set_smtp-idempotent :
    (env : Getenv) (c : Option SmtpConfig) → set_smtp env (set_smtp env c) ≡ set_smtp env c
unfolding set_smtp_host set_smtp_password
set_smtp-idempotent env c = ground arith

abbrev set_siem : Getenv → Option SiemConfig → Option SiemConfig
set_siem env c = set_siem_syslog env (set_siem_json env c)

set_siem-idempotent :
    (env : Getenv) (c : Option SiemConfig) → set_siem env (set_siem env c) ≡ set_siem env c
unfolding set_siem_syslog set_siem_json
set_siem-idempotent env c = ground arith

pub apply_env-idempotent :
    (env : Getenv) (cfg : FileConfig) → apply_env env (apply_env env cfg) ≡ apply_env env cfg
unfolding apply_env
apply_env-idempotent env cfg = simp (
  set_if_env-idempotent, set_slack-idempotent, set_webhooks-idempotent, set_smtp-idempotent,
  set_siem-idempotent,
)

webhooks-apply_env :
    (env : Getenv) (ws : List WebhookConfig) → (ws ≡ []) ⊎ (set_webhooks env ws ≡ ws)
unfolding set_webhooks
webhooks-apply_env env [] = inl refl
webhooks-apply_env env (w ∷ ws) = inr refl

apply_env-IsOverlaid : (env : Getenv) (cfg : FileConfig) → IsOverlaid env cfg (apply_env env cfg)
unfolding apply_env
apply_env-IsOverlaid env cfg = record {
  settings = λ s. value-apply_env env s cfg;
  providers = refl;
  format = refl;
  webhooks = webhooks-apply_env env cfg.notifications.webhooks;
}

-- Where `read_file` gives `base` from the defaults (the path is empty and `base` is the defaults, or the file opens
-- and decodes), `load` returns a configuration in which each of the 17 settings is the value of its variable if that is
-- not empty and else the value in `base`; the providers and the log format are those of `base`, and so are its
-- webhooks unless it has none; and to apply the environment to it again changes nothing.
pub load-IsOverlaid :
    (env : Getenv) (files : Files) (path : String) (base : FileConfig)
    → read_file files path defaults ≡ ok base
    → (cfg : FileConfig) × (load env files path ≡ ok cfg)
      × IsOverlaid env base cfg
      × (apply_env env cfg ≡ cfg)
unfolding load
load-IsOverlaid env files path base reads = (
  apply_env env base,
  rw (reads, load) refl,
  apply_env-IsOverlaid env base,
  apply_env-idempotent env base,
)
