-- ===== src/Notifications/Mail.antt =====
-- smtp.go: one mail for each event.
use jitsudo.Prelude.{
  ℕ, Option, none, some, String, str_eq, str_append, List, [], ◌∷◌, if◌then◌else◌,
}
use jitsudo.Prelude.Decimal.{decimal}
use jitsudo.Prelude.Texts.{texts}
use jitsudo.Notifications.{event_text, Verbs}
use jitsudo.World.{EventType, Event, Error, wrap}

pub record SmtpConfig : Type 0 where
  pub host : String
  pub port : ℕ
  pub username : String
  pub password : String
  pub from : String
  pub to : List String

-- smtp.PlainAuth
pub record PlainAuth : Type 0 where
  pub username : String
  pub password : String
  pub host : String

-- smtp.SendMail over an unknown state: the address, the credentials, the envelope and the message.
abbrev pub SendMail : Type 0 → Type 0
SendMail S = String → Option PlainAuth → String → List String → String → S → Option Error × S

abbrev pub join : String → List String → String
join separator [] = ""
join separator (t ∷ []) = t
join separator (t ∷ u ∷ ts) = str_append t (str_append separator (join separator (u ∷ ts)))

unfoldable pub format_body : Verbs → Event → String
format_body v event =
    let reason =
      if str_eq event.reason "" then "" else texts ("Reason:     " ∷ event.reason ∷ "\n" ∷ []) in
    let expiry : String = elim event.expires_at [
      | none ↦ ""
      | some t ↦ texts ("Expires At: " ∷ v.format_rfc3339 t ∷ "\n" ∷ [])
    ] in
    let warning : String = elim event.type [
      | EventType.break_glass ↦ texts (
          "\nWARNING: This was a break-glass access request that bypassed normal approval.\n"
          ∷ "Please review immediately.\n" ∷ [])
      | _ ↦ ""
    ] in
    texts (
      "Event:      "
      ∷ event_text event.type
      ∷ "\nRequest ID: "
      ∷ event.request_id
      ∷ "\nActor:      "
      ∷ event.actor
      ∷ "\nProvider:   "
      ∷ event.provider
      ∷ "\nRole:       "
      ∷ event.role
      ∷ "\nScope:      "
      ∷ event.scope
      ∷ "\n"
      ∷ reason
      ∷ expiry
      ∷ warning
      ∷ [])

unfoldable pub build_mime_message : String → List String → String → String → String
build_mime_message from to subject body = texts (
    "From: "
    ∷ from
    ∷ "\r\nTo: "
    ∷ join ", " to
    ∷ "\r\nSubject: "
    ∷ subject
    ∷ "\r\nMIME-Version: 1.0\r\nContent-Type: text/plain; charset=utf-8\r\n\r\n"
    ∷ body
    ∷ [])

module _ {S : Type 0} (send_mail : SendMail S) where
  -- `Notify`; `none` is a nil error.
  unfoldable pub smtp_notify : Verbs → SmtpConfig → Event → S → Option Error × S
  unfolding format_body build_mime_message
  smtp_notify v cfg event s =
      let subject = texts ("[jitsudo] " ∷ event_text event.type ∷ " – " ∷ event.request_id ∷ []) in
      let msg = build_mime_message cfg.from cfg.to subject (format_body v event) in
      let auth =
        if str_eq cfg.username ""
        then none
        else some (record { username = cfg.username; password = cfg.password; host = cfg.host }) in
      let (failed, s') =
        send_mail (texts (cfg.host ∷ ":" ∷ decimal cfg.port ∷ [])) auth cfg.from cfg.to msg s in
      (elim failed [ none ↦ none | some e ↦ some (wrap "smtp: send mail" e) ], s')
