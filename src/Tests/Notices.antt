-- ===== src/Tests/Notices.antt =====
-- A syslog server that loses one connection, and the texts of a break-glass event.
use jitsudo.Prelude.{◌≡◌, refl, Bool, true, false, Option, none, some, String, List, [], ◌∷◌}
use jitsudo.Notifications.{Verbs}
use jitsudo.Notifications.Posts.{format_message}
use jitsudo.Notifications.Syslog.{
  Severity, log_warning, log_auth, SyslogApi, Notifier, severity_for, format_syslog_msg, notify,
}
use jitsudo.World.{EventType, Event, Error, message, ok}

-- Whether the connection is up, and what has arrived.
abbrev Lines : Type 0
Lines = Bool × List (Severity × String)

abbrev put : Severity → String → Lines → Option Error × Lines
put severity msg (true, lines) = (none, (true, (severity, msg) ∷ lines))
put severity msg (false, lines) = (some (message "broken pipe"), (false, lines))

abbrev syslog : SyslogApi Lines (Unit {0})
syslog = record {
  dial = λ network address facility tag s. (ok tt, (true, s.1));
  write = λ w severity msg s. put severity msg s;
  close = λ w s. s;
}

abbrev verbs : Verbs
verbs = record { quote = λ s. s; format_rfc3339 = λ t. "2026-03-19T10:00:00Z" }

abbrev alarm : Event
alarm = record {
  type = EventType.break_glass;
  request_id = "req_1";
  actor = "alice@example.com";
  provider = "aws";
  role = "admin";
  scope = "123456789012";
  reason = "outage";
  expires_at = none;
}

-- A notifier whose connection has dropped.
abbrev dropped : Notifier (Unit {0})
dropped = record {
  config = record { network = "tcp"; address = "siem:514"; tag = "jitsudo"; facility = "" };
  facility = log_auth;
  writer = some tt;
}

reconnected : (notify syslog verbs alarm dropped (false, [])).2 ≡ (
  true,
  (
    log_warning,
    "type=break_glass request_id=req_1 actor=alice@example.com provider=aws role=admin scope=123456789012 reason=outage",
  )
      ∷ [],
)
unfolding notify severity_for format_syslog_msg
reconnected = refl

slack_text :
    format_message verbs
      (record { webhook_url = ""; channel = ""; mention_on_break_glass = "<!channel>" })
      alarm
    ≡ "<!channel> *[BREAK-GLASS]* `alice@example.com` invoked break-glass access: role=admin scope=123456789012 reason=outage"
unfolding format_message
slack_text = refl
