-- ===== src/Engine/State.antt =====
-- The attributes of `RuleEngine`, and what its methods change around it.
use sentinel_home.Prelude.{ℕ, String, Bool, Option, List, ◌*◌}
use sentinel_home.Prelude.Dict.{Dict}
use sentinel_home.Models.{Parameters, Definition, Value, Database}
use sentinel_home.Notifications.{Notification, Channel}

abbrev pub second : ℕ
second = 1000000

abbrev pub window_prune_interval : ℕ
window_prune_interval = 500

abbrev pub window_entry_max_age : ℕ
window_entry_max_age = 3600 * second

-- `_cache_ttl`
abbrev pub cache_ttl : ℕ
cache_ttl = 30 * second

-- a rule as `_get_rules` caches it
pub record CachedRule : Type 0 where
  pub id : ℕ
  pub name : String
  pub category : String
  pub severity : String
  pub priority : ℕ
  pub parameters : Parameters
  pub action : String
  pub cooldown_seconds : ℕ
  pub frozen : Bool

pub record Suppression : Type 0 where
  pub scope : String
  pub definition : Definition

-- one event in a window: when it came, and its fields
pub record Entry : Type 0 where
  pub ts : ℕ
  pub fields : Dict String Value

abbrev pub Groups : Type 0
Groups = Dict String (List Entry)

pub record Engine : Type 0 where
  pub rules_cache : List CachedRule
  pub cache_ts : ℕ
  pub windows : Dict ℕ Groups
  pub last_fired : Dict ℕ ℕ
  pub known_macs : Option (List String)
  pub suppressions : List Suppression
  pub suppressions_ts : ℕ
  pub eval_count : ℕ

pub record World : Type 0 where
  pub engine : Engine
  pub db : Database
  pub sent : List Notification

-- `settings.network.smb_whitelist` and the notification settings
pub record Settings : Type 0 where
  pub smb_whitelist : List String
  pub channel : Channel
