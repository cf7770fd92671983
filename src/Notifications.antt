-- ===== src/Notifications.antt =====
-- sentinel_home/notifications/router.py: whether an alert is sent on, and sending it.
use sentinel_home.Prelude.{
  ℕ, String, Bool, false, Option, none, some, List, [], ◌∷◌, ◌++◌, leb, if◌then◌else◌, lower, not,
  string_eq,
}
use sentinel_home.Prelude.Dict.{Dict, lookup}

abbrev severity_order : Dict String ℕ
severity_order = ("info", 0) ∷ ("low", 1) ∷ ("medium", 2) ∷ ("high", 3) ∷ ("critical", 4) ∷ []

-- `_SEVERITY_ORDER.get(severity, default)`
severity_rank : ℕ → String → ℕ
severity_rank default severity = elim (lookup severity severity_order) [
  | none ↦ default
  | some rank ↦ rank
]

unfoldable pub should_notify : (min_severity severity : String) → Bool
unfolding severity_rank
should_notify min_severity severity =
    leb (severity_rank 3 (lower min_severity)) (severity_rank 0 (lower severity))

pub record Notification : Type 0 where
  pub rule_name : String
  pub severity : String
  pub message : String
  pub device_id : Option String

-- `settings.notifications.min_severity`, whether Apprise came up with a target, and what Apprise
-- answers to a message.
pub record Channel : Type 0 where
  pub min_severity : String
  pub ready : Bool
  pub notify : Notification → Bool

-- The answer, and the messages that were handed to Apprise so far.
unfoldable pub send_alert : Channel → Notification → List Notification → Bool × List Notification
send_alert ch n sent =
    if not (should_notify ch.min_severity n.severity)
    then (false, sent)
    else if not ch.ready
    then (false, sent)
    else (ch.notify n, sent ++ n ∷ [])
