-- ===== src/Metrics/Windows.antt =====
-- `compute_rule_metrics` of sentinel_home/metrics/rollup.py: a snapshot of each rule a day.
use sentinel_home.Prelude.{
  ℕ, ◌+◌, ◌≡◌, refl, ◌∙◌, ap, Bool, true, not, ◌&&◌, Option, none, some, List, [], ◌∷◌, max, ltb,
  select-append_one, length-append, ◌++◌, arith, All, map, length, select, any, is_nil, if_cases,
  Bool-cases, inl, inr, ◌==◌, nat_eq, ==_refl, if◌then◌else◌,
}
use sentinel_home.Models.{Rule, RuleVersion, Database, greatest}
use sentinel_home.Rules.{versions_of}

pub record RuleMetricWindow : Type 0 where
  pub rule_id : ℕ
  pub window_date : ℕ
  pub fire_count : ℕ
  pub tp_count : ℕ
  pub fp_count : ℕ
  pub auto_resolved_count : ℕ
  pub version_at_window : ℕ

abbrev pub is_window_of : ℕ → ℕ → RuleMetricWindow → Bool
is_window_of today id w = w.rule_id == id && w.window_date == today

unfoldable pub latest_version : Database → Rule → ℕ
latest_version db rule =
    let versions = versions_of rule.id db.versions in
    if is_nil versions then 1 else greatest (map (λ (v : RuleVersion). v.version) versions)

unfoldable pub new_window : ℕ → Database → Rule → RuleMetricWindow
new_window today db rule = record {
  rule_id = rule.id;
  window_date = today;
  fire_count = rule.fire_count;
  tp_count = rule.true_positive_count;
  fp_count = rule.false_positive_count;
  auto_resolved_count = 0;
  version_at_window = latest_version db rule;
}

-- the loop over the rules: the windows after it, and how many are new
unfoldable pub add_windows :
    ℕ → Database → List Rule → List RuleMetricWindow → List RuleMetricWindow × ℕ
add_windows today db [] windows = (windows, 0)
add_windows today db (rule ∷ rules) windows =
    let has_window = any (is_window_of today rule.id) windows in
    let now = if has_window then windows else windows ++ new_window today db rule ∷ [] in
    let (after, count) = add_windows today db rules now in
    (after, (if has_window then 0 else 1) + count)

-- `none` is a session that raises.
unfoldable pub compute_rule_metrics :
    ℕ → Database → List RuleMetricWindow → List RuleMetricWindow × Option ℕ
compute_rule_metrics today db windows =
    if not db.available
    then (windows, none)
    else let (after, count) =
        add_windows today db (select (λ (r : Rule). r.enabled) db.rules) windows in
      (after, some count)

abbrev pub windows_of : ℕ → ℕ → List RuleMetricWindow → ℕ
windows_of today id windows = length (select (is_window_of today id) windows)

any_count : {A : Type 0} (p : A → Bool) (xs : List A) → any p xs ≡ ltb 0 (length (select p xs))
any_count p [] = ground arith
any_count p (x ∷ xs) = ground (arith, any_count p xs)

abbrev has_rule : ℕ → List Rule → Bool
has_rule id rules = any (λ (r : Rule). r.id == id) rules

new_window-is_window_of :
    (today id : ℕ) (db : Database) (rule : Rule)
    → is_window_of today id (new_window today db rule) ≡ (rule.id == id)
unfolding new_window
new_window-is_window_of today id db rule = ground arith

one_more :
    (today id : ℕ) (db : Database) (rule : Rule) (windows : List RuleMetricWindow)
    → windows_of today id (windows ++ new_window today db rule ∷ [])
      ≡ windows_of today id windows + (if rule.id == id then 1 else 0)
one_more today id db rule windows =
    rw
      (
        select-append_one (is_window_of today id) windows (new_window today db rule),
        new_window-is_window_of today id db rule,
      )
      (ground (
        arith,
        length-append (select (is_window_of today id) windows) (new_window today db rule ∷ []),
      ))

add_windows_count :
    (today id : ℕ) (db : Database) (rules : List Rule) (windows : List RuleMetricWindow)
    → windows_of today id (add_windows today db rules windows).0 ≡ (
        if has_rule id rules
        then max 1 (windows_of today id windows)
        else windows_of today id windows)
unfolding add_windows
add_windows_count today id db [] windows = refl
add_windows_count today id db (rule ∷ rules) windows =
    let there = any_count (is_window_of today rule.id) windows in
    let more = one_more today id db rule windows in
    if_cases
      (λ now. windows_of today id (add_windows today db rules now).0 ≡ (
        if has_rule id (rule ∷ rules)
        then max 1 (windows_of today id windows)
        else windows_of today id windows))
      (any (is_window_of today rule.id) windows) windows (windows ++ new_window today db rule ∷ [])
      (λ old.
        let rest = add_windows_count today id db rules windows in
        elim (Bool-cases (rule.id == id)) [
          | inr miss ↦ rw miss rest
          | inl hit ↦
              let same : windows_of today rule.id windows ≡ windows_of today id windows =
                ap (λ k. windows_of today k windows) ((nat_eq.decides rule.id id).0 hit) in
              rw hit (ground (arith, old, there, same, rest))
        ])
      (λ new.
        let rest = add_windows_count today id db rules (windows ++ new_window today db rule ∷ []) in
        elim (Bool-cases (rule.id == id)) [
          | inr miss ↦ rw miss (ground (arith, miss, more, rest))
          | inl hit ↦
              let same : windows_of today rule.id windows ≡ windows_of today id windows =
                ap (λ k. windows_of today k windows) ((nat_eq.decides rule.id id).0 hit) in
              rw hit (ground (arith, hit, new, there, same, more, rest))
        ])

length-add_windows :
    (today : ℕ) (db : Database) (rules : List Rule) (windows : List RuleMetricWindow)
    → let (after, count) = add_windows today db rules windows in
      length after ≡ length windows + count
unfolding add_windows
length-add_windows today db [] windows = omega arith
length-add_windows today db (rule ∷ rules) windows = ground (
  arith,
  length-add_windows today db rules windows,
  length-add_windows today db rules (windows ++ new_window today db rule ∷ []),
  length-append windows (new_window today db rule ∷ []),
)

-- Where every rule has its window nothing is added.
add_windows_again :
    (today : ℕ) (db : Database) (rules : List Rule) (windows : List RuleMetricWindow)
    → All (λ (r : Rule). any (is_window_of today r.id) windows ≡ true) rules
    → add_windows today db rules windows ≡ (windows, 0)
unfolding add_windows
add_windows_again today db [] windows h = refl
add_windows_again today db (rule ∷ rules) windows h =
    rw (h.0, add_windows_again today db rules windows h.1) refl

windows_there :
    (today : ℕ) (rules all_rules : List Rule) (windows : List RuleMetricWindow)
    → ((id : ℕ) → has_rule id all_rules ≡ true → any (is_window_of today id) windows ≡ true)
    → ((id : ℕ) → has_rule id rules ≡ true → has_rule id all_rules ≡ true)
    → All (λ (r : Rule). any (is_window_of today r.id) windows ≡ true) rules
windows_there today [] every windows h sub = tt
windows_there today (rule ∷ rules) every windows h sub = (
  h rule.id (sub rule.id (ground (arith, ==_refl rule.id))),
  windows_there today rules every windows h (λ id e. sub id (ground (arith, e))),
)

abbrev pub enabled_rules : Database → List Rule
enabled_rules db = select (λ (r : Rule). r.enabled) db.rules

compute_rule_metrics_up :
    (today : ℕ) (db : Database) (windows : List RuleMetricWindow)
    → db.available ≡ true
    → compute_rule_metrics today db windows ≡ (
      (add_windows today db (enabled_rules db) windows).0,
      some (add_windows today db (enabled_rules db) windows).1,
    )
unfolding compute_rule_metrics
compute_rule_metrics_up today db windows up =
    let (after, count) = add_windows today db (enabled_rules db) windows in
    if_cases (λ (r : List RuleMetricWindow × Option ℕ). r ≡ (after, some count)) (not db.available)
      _ _ (λ down. ground (arith, up, down)) (λ e. refl)

-- If the database answers, the daily job leaves every enabled rule with a window of the day, adds one
-- where there was none and none where there was one, and says how many it has added. A second run on
-- the same day adds none.
pub compute_rule_metrics_once :
    (today : ℕ) (db : Database) (windows : List RuleMetricWindow)
    → db.available ≡ true
    → let (after, answer) = compute_rule_metrics today db windows in
      ((id : ℕ)
        → windows_of today id after ≡ (
            if any (λ (r : Rule). r.id == id) (enabled_rules db)
            then max 1 (windows_of today id windows)
            else windows_of today id windows))
      × ((added : ℕ) × (answer ≡ some added) × (length after ≡ length windows + added))
      × (compute_rule_metrics today db after ≡ (after, some 0))
compute_rule_metrics_once today db windows up =
    let rules = enabled_rules db in
    let (after, count) = add_windows today db rules windows in
    let counts = λ (id : ℕ). add_windows_count today id db rules windows in
    let have =
      windows_there today rules rules after
        (λ id e. ground (arith, any_count (is_window_of today id) after, counts id, e))
        (λ id e. e) in
    rw (compute_rule_metrics_up today db windows up) (
      counts,
      (count, refl, length-add_windows today db rules windows),
      compute_rule_metrics_up today db after up
          ∙ ap (λ (r : List RuleMetricWindow × ℕ). (r.0, some r.1))
              (add_windows_again today db rules after have),
    )
