-- ===== src/Notifications/Syslog.antt =====
-- siem_syslog.go: one line for each event, over a connection that is dialled when it is needed.
pub mod Delivery
use jitsudo.Prelude.{ℕ, Option, none, some, String, str_eq, str_append, if◌then◌else◌}
use jitsudo.Notifications.{event_text, Verbs}
use jitsudo.World.{EventType, Event, Error, wrap, Result, ok, err}

-- The severities of log/syslog that are used.
pub data Severity : Type 0 where
  log_info log_notice log_warning : Severity

-- The facilities.
pub data Facility : Type 0 where
  log_auth log_daemon log_local0 log_local1 log_local2 log_local3 log_local4 log_local5 log_local6
        log_local7 :
      Facility

pub record SyslogConfig : Type 0 where
  pub network : String
  pub address : String
  pub tag : String
  pub facility : String

-- log/syslog over an unknown state of the connections: Dial, the writer's method for a severity, Close.
pub record SyslogApi (S Writer : Type 0) : Type 0 where
  pub dial : String → String → Facility → String → S → Result Writer × S
  pub write : Writer → Severity → String → S → Option Error × S
  pub close : Writer → S → S

-- SIEMSyslogNotifier: its configuration, and the writer that its mutex guards.
pub record Notifier (Writer : Type 0) : Type 0 where
  pub config : SyslogConfig
  pub facility : Facility
  pub writer : Option Writer

unfoldable pub parse_facility : (String → String) → String → Facility
parse_facility to_lower name =
    let n = to_lower name in
    if str_eq n "daemon"
    then log_daemon
    else if str_eq n "local0"
    then log_local0
    else if str_eq n "local1"
    then log_local1
    else if str_eq n "local2"
    then log_local2
    else if str_eq n "local3"
    then log_local3
    else if str_eq n "local4"
    then log_local4
    else if str_eq n "local5"
    then log_local5
    else if str_eq n "local6"
    then log_local6
    else if str_eq n "local7"
    then log_local7
    else log_auth

unfoldable pub new_notifier : {Writer : Type 0} → (String → String) → SyslogConfig → Notifier Writer
unfolding parse_facility
new_notifier to_lower cfg = record {
  config = record cfg { tag = if str_eq cfg.tag "" then "jitsudo" else cfg.tag };
  facility = parse_facility to_lower cfg.facility;
  writer = none;
}

unfoldable pub severity_for : EventType → Severity
severity_for EventType.break_glass = log_warning
severity_for EventType.denied = log_notice
severity_for EventType.ai_denied = log_notice
severity_for _ = log_info

abbrev with_reason : Verbs → String → String → String
with_reason v reason msg =
    if str_eq reason "" then msg else str_append (str_append msg " reason=") (v.quote reason)

abbrev with_expiry : Verbs → Option ℕ → String → String
with_expiry v none msg = msg
with_expiry v (some t) msg = str_append (str_append msg " expires_at=") (v.format_rfc3339 t)

abbrev pair : String → String → String → String
pair key value rest = str_append key (str_append value rest)

unfoldable pub format_syslog_msg : Verbs → Event → String
format_syslog_msg v event = with_expiry v event.expires_at (
    with_reason v event.reason (
      pair "type=" (event_text event.type) (
        pair " request_id=" event.request_id (
          pair " actor=" event.actor (
            pair " provider=" event.provider
              (pair " role=" event.role (pair " scope=" event.scope "")))))))

module _ {S Writer : Type 0} (api : SyslogApi S Writer) where
  abbrev pub dial_for : Notifier Writer → S → Result Writer × S
  dial_for n s = api.dial n.config.network n.config.address n.facility n.config.tag s

  -- The write that follows a failed one, on a new connection.
  unfoldable pub reconnect :
      Severity → String → Notifier Writer → S → Option Error × Notifier Writer × S
  reconnect severity msg n s =
      let (dialled, s1) = dial_for n s in
      elim dialled [
        | err e ↦ (
          some (wrap "siem_syslog: reconnect after write failure" e),
          record n { writer = none },
          s1,
        )
        | ok w ↦
            let (failed, s2) = api.write w severity msg s1 in
            elim failed [
              | some e ↦ (
                some (wrap "siem_syslog: write after reconnect" e),
                record n { writer = some w },
                s2,
              )
              | none ↦ (none, record n { writer = some w }, s2)
            ]
      ]

  -- The write on the connection that is there.
  unfoldable pub write_first :
      Severity → String → Notifier Writer → Writer → S → Option Error × Notifier Writer × S
  unfolding reconnect
  write_first severity msg n w s =
      let (failed, s1) = api.write w severity msg s in
      elim failed [
        | none ↦ (none, record n { writer = some w }, s1)
        | some e ↦ reconnect severity msg n (api.close w s1)
      ]

  unfoldable pub notify_line :
      Severity → String → Notifier Writer → S → Option Error × Notifier Writer × S
  unfolding write_first
  notify_line severity msg n s = elim n.writer [
    | some w ↦ write_first severity msg n w s
    | none ↦
        let (dialled, s1) = dial_for n s in
        elim dialled [
          | err e ↦ (some (wrap "siem_syslog: dial" e), n, s1)
          | ok w ↦ write_first severity msg n w s1
        ]
  ]

  -- `Notify`; its mutex makes it one step. `none` is a nil error.
  unfoldable pub notify : Verbs → Event → Notifier Writer → S → Option Error × Notifier Writer × S
  unfolding severity_for format_syslog_msg notify_line
  notify v event n s = notify_line (severity_for event.type) (format_syslog_msg v event) n s
