-- ===== src/Engine/Matching.antt =====
-- `_rule_matches`: the filters that a rule's parameters put on a parsed event.
use sentinel_home.Prelude.{
  String, Bool, true, false, not, ◌&&◌, ◌||◌, Option, none, some, List, [], ◌∷◌, any, all, is_nil,
  truthy, contains, lower, has_substring, ◌==◌, string_eq, if◌then◌else◌,
}
use sentinel_home.Models.{
  Parameters, ParseResult, Value, value_eq, Expected, one, one_of, get_value,
}
use sentinel_home.Engine.State.{CachedRule}

-- the sets of `_event_is_syslog`, `_event_is_sniff`, `_event_is_nmap` and `_event_is_pihole`
abbrev pub syslog_types : List String
syslog_types =
    "fw_wan_block" ∷ "fw_block" ∷ "fw_lan_traffic" ∷ "wifi_auth_success" ∷ "wifi_auth_reject"
    ∷ "wifi_disassoc" ∷ "wifi_deauth" ∷ "wifi_assoc" ∷ "wifi_anomaly" ∷ "sta_assoc" ∷ "sta_leave"
    ∷ "sta_roam" ∷ "sta_join" ∷ "sta_ip_assign" ∷ "sta_soft_failure" ∷ "dns_timeout"
    ∷ "switch_provision" ∷ "switch_state" ∷ "switch_config_write" ∷ "switch_authkey_leak"
    ∷ "disk_warning" ∷ "docker_crash" ∷ "emhttpd_event" ∷ "mover_event" ∷ "sudo_session"
    ∷ "ssh_auth" ∷ "dhcp_dhcpack" ∷ "dhcp_dhcpdiscover" ∷ "dhcp_dhcprequest" ∷ "dns_query"
    ∷ "dns_reply" ∷ []

abbrev sniff_types : List String
sniff_types = "arp_conflict" ∷ "upnp_port_request" ∷ "unexpected_smb_traffic" ∷ []

abbrev nmap_types : List String
nmap_types = "new_open_port" ∷ "nmap_diff" ∷ []

abbrev pihole_types : List String
pihole_types = "dns_query" ∷ "dns_reply" ∷ "suspicious_dns" ∷ []

unfoldable pub event_is_syslog : ParseResult → Bool
event_is_syslog result = contains result.event_type syslog_types

unfoldable pub event_is_sniff : ParseResult → Bool
event_is_sniff result = contains result.event_type sniff_types

unfoldable pub event_is_nmap : ParseResult → Bool
event_is_nmap result = contains result.event_type nmap_types

unfoldable pub event_is_pihole : ParseResult → Bool
event_is_pihole result = contains result.event_type pihole_types

-- the source filter; a source that the chain does not name lets every event pass
unfoldable pub source_allows : Option String → ParseResult → Bool
source_allows none result = true
source_allows (some source) result =
    if not (truthy source)
    then true
    else if source == "syslog"
    then event_is_syslog result
    else if source == "sniff"
    then event_is_sniff result
    else if source == "nmap"
    then event_is_nmap result
    else if source == "pihole"
    then event_is_pihole result
    else not (source == "unifi")

unfoldable pub types_allow : Option (List String) → ParseResult → Bool
types_allow none result = true
types_allow (some types) result = is_nil types || contains result.event_type types

unfoldable pub expected_meets : Value → Expected → Bool
expected_meets actual (one v) = actual == v
expected_meets actual (one_of vs) = contains actual vs

unfoldable pub fields_allow : Option (List (String × Expected)) → ParseResult → Bool
fields_allow none result = true
fields_allow (some wanted) result =
    all (λ (name, expected). expected_meets (get_value name result.fields) expected) wanted

unfoldable pub patterns_allow : Option (List String) → ParseResult → Bool
patterns_allow none result = true
patterns_allow (some patterns) result =
    is_nil patterns || any (λ p. has_substring (lower result.message) (lower p)) patterns

abbrev pub is_some {ℓ} : {A : Type ℓ} → Option A → Bool
is_some none = false
is_some (some a) = true

-- `any(k in params for k in …)`
unfoldable pub has_criteria : Parameters → Bool
has_criteria p =
    is_some p.match_source
    || is_some p.match_event_types
    || is_some p.match_fields
    || is_some p.match_patterns
    || is_some p.check_baseline
    || is_some p.check_smb_whitelist

unfoldable pub rule_matches : CachedRule → ParseResult → Bool
rule_matches rule result =
    let p = rule.parameters in
    source_allows p.match_source result
    && types_allow p.match_event_types result
    && fields_allow p.match_fields result
    && patterns_allow p.match_patterns result
    && has_criteria p
