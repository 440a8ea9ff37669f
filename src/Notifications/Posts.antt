-- ===== src/Notifications/Posts.antt =====
-- webhook.go, siem_json.go and slack.go: one HTTP POST for each event.
use jitsudo.Prelude.{
  ℕ, ◌&&◌, not, Bool, Option, none, some, String, str_eq, str_append, List, [], ◌∷◌, ◌++◌, ltb, leb,
  ◌==◌, if◌then◌else◌,
}
use jitsudo.Prelude.Decimal.{decimal}
use jitsudo.Prelude.Texts.{texts}
use jitsudo.Notifications.{event_text, is_forwarded, Verbs}
use jitsudo.World.{EventType, Event, Error, message, wrap, Result, ok, err}

-- http.NewRequest's objection to a URL, and http.Client.Do for a POST with the headers in the order in
-- which they are set: the status of the answer.
pub record HttpClient (S : Type 0) : Type 0 where
  pub request_error : String → Option Error
  pub post : String → List (String × String) → String → S → Result ℕ × S

pub record WebhookConfig : Type 0 where
  pub url : String
  pub headers : List (String × String)
  pub secret : String
  pub events : List String

pub record WebhookPayload : Type 0 where
  pub type : String
  pub request_id : String
  pub actor : String
  pub provider : String
  pub role : String
  pub scope : String
  pub reason : String
  pub expires_at : String
  pub timestamp : String

pub record SiemJsonConfig : Type 0 where
  pub url : String
  pub headers : List (String × String)
  pub events : List String

pub record SiemJsonPayload : Type 0 where
  pub source : String
  pub schema_version : String
  pub event_id : String
  pub type : String
  pub request_id : String
  pub actor : String
  pub provider : String
  pub role : String
  pub scope : String
  pub reason : String
  pub expires_at : String
  pub timestamp : String

pub record SlackConfig : Type 0 where
  pub webhook_url : String
  pub channel : String
  pub mention_on_break_glass : String

-- encoding/json, HMAC-SHA256 in hexadecimal by its key, and fmt's and time's verbs.
pub record Formats : Type 0 where
  pub verbs : Verbs
  pub marshal_webhook : WebhookPayload → Result String
  pub marshal_siem : SiemJsonPayload → Result String
  pub marshal_slack : List (String × String) → Result String
  pub hmac_sha256_hex : String → String → String

abbrev pub expiry_text : Verbs → Option ℕ → String
expiry_text v none = ""
expiry_text v (some t) = v.format_rfc3339 t

abbrev json_type : String × String
json_type = ("Content-Type", "application/json")

-- An answer outside 200 to 299.
abbrev is_success : ℕ → Bool
is_success status = leb 200 status && ltb status 300

module _ {S : Type 0} (client : HttpClient S) where
  -- `none` is a nil error; the name begins each error.
  abbrev pub send :
      String
      → (ℕ → Bool)
      → String
      → String
      → String
      → List (String × String)
      → String
      → S
      → Option Error × S
  send name is_good posted refusal url headers body s = elim (client.request_error url) [
    | some e ↦ (some (wrap (str_append name ": create request") e), s)
    | none ↦
        let (answer, s') = client.post url headers body s in
        elim answer [
          | err e ↦ (some (wrap (str_append name posted) e), s')
          | ok status ↦
              if is_good status
              then (none, s')
              else (some (message (str_append name (str_append refusal (decimal status)))), s')
        ]
  ]

  -- The `Notify` methods at the time `now`.
  unfoldable pub webhook_notify : Formats → WebhookConfig → ℕ → Event → S → Option Error × S
  webhook_notify f cfg now event s =
      if not (is_forwarded cfg.events event.type)
      then (none, s)
      else elim (f.marshal_webhook (record {
        type = event_text event.type;
        request_id = event.request_id;
        actor = event.actor;
        provider = event.provider;
        role = event.role;
        scope = event.scope;
        reason = event.reason;
        expires_at = expiry_text f.verbs event.expires_at;
        timestamp = f.verbs.format_rfc3339 now;
      })) [
        | err e ↦ (some (wrap "webhook: marshal payload" e), s)
        | ok body ↦
            let signature =
              if str_eq cfg.secret ""
              then []
              else (
                "X-Jitsudo-Signature-256",
                str_append "sha256=" (f.hmac_sha256_hex cfg.secret body),
              )
                ∷ [] in
            send "webhook" is_success ": post" ": server returned " cfg.url
              ((json_type ∷ cfg.headers) ++ signature) body s
      ]

  unfoldable pub siem_json_notify :
      Formats → SiemJsonConfig → String → ℕ → Event → S → Option Error × S
  siem_json_notify f cfg uuid now event s =
      if not (is_forwarded cfg.events event.type)
      then (none, s)
      else elim (f.marshal_siem (record {
        source = "jitsudo";
        schema_version = "1";
        event_id = uuid;
        type = event_text event.type;
        request_id = event.request_id;
        actor = event.actor;
        provider = event.provider;
        role = event.role;
        scope = event.scope;
        reason = event.reason;
        expires_at = expiry_text f.verbs event.expires_at;
        timestamp = f.verbs.format_rfc3339 now;
      })) [
        | err e ↦ (some (wrap "siem_json: marshal payload" e), s)
        | ok body ↦
            send "siem_json" is_success ": post" ": server returned " cfg.url
              (json_type ∷ cfg.headers) body s
      ]

unfoldable pub format_message : Verbs → SlackConfig → Event → String
format_message v cfg event = elim event.type [
  | EventType.break_glass ↦
      let prefix =
        if str_eq cfg.mention_on_break_glass ""
        then ""
        else str_append cfg.mention_on_break_glass " " in
      texts (
        prefix
        ∷ "*[BREAK-GLASS]* `"
        ∷ event.actor
        ∷ "` invoked break-glass access: role="
        ∷ event.role
        ∷ " scope="
        ∷ event.scope
        ∷ " reason="
        ∷ v.quote event.reason
        ∷ [])
  | EventType.request_created ↦ texts (
      "`"
      ∷ event.actor
      ∷ "` requested access: role="
      ∷ event.role
      ∷ " scope="
      ∷ event.scope
      ∷ " reason="
      ∷ v.quote event.reason
      ∷ " (request "
      ∷ event.request_id
      ∷ ")"
      ∷ [])
  | EventType.approved ↦
      let expiry : String = elim event.expires_at [
        | none ↦ ""
        | some t ↦ str_append ", expires " (v.format_rfc3339 t)
      ] in
      texts (
        "*[APPROVED]* Request `" ∷ event.request_id ∷ "` approved by `" ∷ event.actor ∷ "`" ∷ expiry
        ∷ [])
  | EventType.denied ↦ texts (
      "*[DENIED]* Request `" ∷ event.request_id ∷ "` denied by `" ∷ event.actor ∷ "`: "
      ∷ event.reason ∷ [])
  | EventType.revoked ↦ texts (
      "*[REVOKED]* Request `" ∷ event.request_id ∷ "` revoked by `" ∷ event.actor ∷ "`: "
      ∷ event.reason ∷ [])
  | EventType.expired ↦ texts (
      "*[EXPIRED]* Request `" ∷ event.request_id ∷ "` has expired (provider=" ∷ event.provider ∷ ")"
      ∷ [])
  | _ ↦
      texts (
        "["
        ∷ event_text event.type
        ∷ "] request="
        ∷ event.request_id
        ∷ " actor="
        ∷ event.actor
        ∷ [])
]

module _ {S : Type 0} (client : HttpClient S) where
  unfoldable pub slack_notify : Formats → SlackConfig → Event → S → Option Error × S
  unfolding format_message
  slack_notify f cfg event s =
      let channel = if str_eq cfg.channel "" then [] else ("channel", cfg.channel) ∷ [] in
      elim (f.marshal_slack (("text", format_message f.verbs cfg event) ∷ channel)) [
        | err e ↦ (some (wrap "slack: marshal payload" e), s)
        | ok body ↦
            send client "slack" (λ status. status == 200) ": post webhook" ": webhook returned "
              cfg.webhook_url (json_type ∷ []) body s
      ]
