-- ===== src/Engine/Windows.antt =====
-- `_check_windowed`, `_get_group_key` and `_prune_windows`: counting events in a sliding window.
use Prim.Native.String.{◌++◌ as ◌<>◌}
use sentinel_home.Prelude.{
  ℕ, suc, ◌+◌, ◌*◌, String, Bool, true, false, ◌||◌, not, Option, none, some, List, [], ◌∷◌, ◌++◌,
  ltb, leb, length, select, is_nil, contains, ◌==◌, nat_eq, string_eq, if◌then◌else◌,
}
use sentinel_home.Prelude.Dict.{Dict, lookup, insert}
use sentinel_home.Models.{Parameters, ParseResult, Value, value_eq, get_text}
use sentinel_home.Engine.State.{CachedRule, Entry, Groups, Engine, second, window_entry_max_age}

-- a number that `if x:` lets pass
abbrev pub set_number : Option ℕ → Bool
set_number none = false
set_number (some n) = not (n == 0)

unfoldable pub get_group_key : CachedRule → ParseResult → String
get_group_key rule result =
    if set_number rule.parameters.distinct_ports_threshold || rule.name == "wan_targeted_attack"
    then (if rule.name == "wan_targeted_attack"
        then get_text "src" "" result.fields <> ":" <> get_text "dpt" "" result.fields
        else get_text "src" "" result.fields)
    else if rule.name == "wifi_deauth_storm"
    then get_text "vap" "default" result.fields
    else if rule.name == "dns_timeout_anomaly"
    then get_text "mac" "default" result.fields
    else "default"

-- the entries that are not older than the window
unfoldable pub in_window : (now window : ℕ) → List Entry → List Entry
in_window now window = select (λ e. leb now (e.ts + window))

-- `len(set(d.get("dpt", "") for _, d in entries))`
unfoldable pub distinct_ports : List Entry → List Value → ℕ
distinct_ports [] seen = length seen
distinct_ports (e ∷ rest) seen =
    let port : Value = elim (lookup "dpt" e.fields) [ none ↦ Value.text "" | some v ↦ v ] in
    distinct_ports rest (if contains port seen then seen else port ∷ seen)

-- `_et if _et is not None else _rt`
unfoldable pub threshold_of : Parameters → Option ℕ
threshold_of p = elim p.event_threshold [ some n ↦ some n | none ↦ p.repeat_threshold ]

-- Whether the entries reach the rule's threshold, and what is left of them.
unfoldable pub count_entries : Parameters → List Entry → Bool × List Entry
unfolding threshold_of
count_entries p entries = elim p.distinct_ports_threshold [
  | some (suc n) ↦ if leb (suc n) (distinct_ports entries []) then (true, []) else (false, entries)
  | _ ↦ elim (threshold_of p) [
    | some (suc n) ↦ if leb (suc n) (length entries) then (true, []) else (false, entries)
    | _ ↦ (true, entries)
  ]
]

-- `self._windows[rule_id]`, a `defaultdict`
unfoldable pub groups_of : ℕ → Dict ℕ Groups → Groups
groups_of rule_id windows = elim (lookup rule_id windows) [ none ↦ [] | some groups ↦ groups ]

unfoldable pub entries_of : String → Groups → List Entry
entries_of key groups = elim (lookup key groups) [ none ↦ [] | some entries ↦ entries ]

-- one event in one group: add it, drop what is out of the window, and count
unfoldable pub window_step : Parameters → (now window : ℕ) → Entry → List Entry → Bool × List Entry
window_step p now window event entries =
    count_entries p (in_window now window (entries ++ event ∷ []))

unfoldable pub check_windowed : ℕ → CachedRule → ParseResult → Engine → Bool × Engine
check_windowed now rule result engine = elim rule.parameters.window_seconds [
  | some (suc n) ↦
      let key = get_group_key rule result in
      let groups = groups_of rule.id engine.windows in
      let (reached, left) =
        window_step rule.parameters now (suc n * second)
          (record { ts = now; fields = result.fields }) (entries_of key groups) in
      (reached, record engine { windows = insert rule.id (insert key left groups) engine.windows })
  | _ ↦ (true, engine)
]

-- the inner loop of `_prune_windows`
unfoldable pub prune_groups : ℕ → Groups → Groups
prune_groups now [] = []
prune_groups now ((key, entries) ∷ rest) =
    let kept = prune_groups now rest in
    let left = select (λ (e : Entry). ltb now (e.ts + window_entry_max_age)) entries in
    if is_nil left then kept else (key, left) ∷ kept

unfoldable pub prune_rules : ℕ → Dict ℕ Groups → Dict ℕ Groups
unfolding prune_groups
prune_rules now [] = []
prune_rules now ((rule_id, groups) ∷ rest) =
    let kept = prune_rules now rest in
    let left = prune_groups now groups in if is_nil left then kept else (rule_id, left) ∷ kept

unfoldable pub prune_windows : ℕ → Engine → Engine
unfolding prune_rules
prune_windows now engine = record engine { windows = prune_rules now engine.windows }
