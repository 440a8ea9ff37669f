-- ===== src/Notifications.antt =====
-- internal/server/notifications: the notifiers that the dispatcher calls for each event.
pub mod Syslog
pub mod Posts
pub mod Mail
use jitsudo.Prelude.{
  ℕ, Bool, true, false, Option, none, some, String, str_eq, List, [], ◌∷◌, any, if◌then◌else◌,
}
use jitsudo.World.{EventType, Event}

-- The texts of the event types.
abbrev pub event_text : EventType → String
event_text EventType.request_created = "request_created"
event_text EventType.approved = "approved"
event_text EventType.auto_approved = "auto_approved"
event_text EventType.ai_approved = "ai_approved"
event_text EventType.ai_denied = "ai_denied"
event_text EventType.ai_escalated = "ai_escalated"
event_text EventType.denied = "denied"
event_text EventType.expired = "expired"
event_text EventType.revoked = "revoked"
event_text EventType.break_glass = "break_glass"

-- The allowlist of a notifier: an empty one lets every event through.
abbrev pub is_forwarded : List String → EventType → Bool
is_forwarded [] type = true
is_forwarded (e ∷ events) type = any (λ x. str_eq x (event_text type)) (e ∷ events)

-- fmt's %q and time's Format(time.RFC3339).
pub record Verbs : Type 0 where
  pub quote : String → String
  pub format_rfc3339 : ℕ → String
