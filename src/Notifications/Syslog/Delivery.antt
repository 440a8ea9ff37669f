-- ===== src/Notifications/Syslog/Delivery.antt =====
-- What a call of the syslog notifier delivers.
use jitsudo.Prelude.{◌≡◌, true, is_some, Option, none, some, String, List, ◌∷◌}
use jitsudo.Notifications.Syslog.{Severity, Facility, SyslogApi, Notifier, dial_for}
use jitsudo.World.{Error}

-- What the notifier relies on of log/syslog: `written` is what the servers have received, newest
-- first, and a write that reports an error has not arrived.
pub record IsSyslog {S Writer : Type 0} (api : SyslogApi S Writer)
    (written : S → List (Severity × String)) : Type 0 where
  pub dial_keeps :
      (network address : String) (facility : Facility) (tag : String) (s : S)
      → written (api.dial network address facility tag s).1 ≡ written s
  pub write :
      (w : Writer) (severity : Severity) (msg : String) (s : S)
      → (api.write w severity msg s).0 ≡ none
      → written (api.write w severity msg s).1 ≡ (severity, msg) ∷ written s
  pub write_failed :
      (w : Writer) (severity : Severity) (msg : String) (e : Error) (s : S)
      → (api.write w severity msg s).0 ≡ some e
      → written (api.write w severity msg s).1 ≡ written s
  pub close_keeps : (w : Writer) (s : S) → written (api.close w s) ≡ written s

module _ {S Writer : Type 0} (written : S → List (Severity × String)) where
  -- The line has arrived once and the connection is kept; or an error, and it has not arrived.
  abbrev pub IsDelivered : Severity → String → S → Option Error × Notifier Writer × S → Type 0
  IsDelivered severity msg s (none, n, s') =
      (written s' ≡ (severity, msg) ∷ written s) × (is_some n.writer ≡ true)
  IsDelivered severity msg s (some e, n, s') = written s' ≡ written s

module _ {S Writer : Type 0} (api : SyslogApi S Writer) (written : S → List (Severity × String))
    (laws : IsSyslog api written) (severity : Severity) (msg : String) where
  dial_keeps : (n : Notifier Writer) (s : S) → written (dial_for api n s).1 ≡ written s
  dial_keeps n s = laws.dial_keeps n.config.network n.config.address n.facility n.config.tag s
