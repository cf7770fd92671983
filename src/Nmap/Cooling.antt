-- ===== src/Nmap/Cooling.antt =====
-- The alerts of one scan (sentinel_home/collectors/nmap.py) under the cooldown of the rule engine.
use sentinel_home.Prelude.{
  ℕ, suc, ◌+◌, ◌*◌, ◌≤◌, ◌<◌, String, ◌≡◌, refl, sym, ◌∙◌, ap, subst, Bool, true, false, not, ◌&&◌,
  ◌||◌, Option, some, List, [], ◌∷◌, arith, first, length, length-append, is_nil, truthy, lower,
  ltb, Bool-cases, if_cases, inl, inr, ◌==◌, ==_refl, nat_eq, string_eq, if◌then◌else◌,
}
use sentinel_home.Prelude.Dict.{Dict, insert, lookup-insert}
use sentinel_home.Models.{Value, Device, Database, get_or, get_text}
use sentinel_home.Engine.State.{CachedRule, Engine, World, Settings, cache_ttl, second}
use sentinel_home.Engine.Loading.{get_rules}
use sentinel_home.Engine.Firing.{
  check_cooldown, last_fire, note_fire, update_rule_counters, create_alert, new_alert, enqueue_job,
  do_fire,
}
use sentinel_home.Engine.Evaluate.{fire_rule}
use sentinel_home.Devices.{Sighting, enrich_device, is_blank}
use sentinel_home.Nmap.{
  HostData, Collector, Surroundings, diff, enrich_from_scan, sighting_of, port_context,
  fire_new_ports, process_result,
}

abbrev is_port_rule : CachedRule → Bool
is_port_rule r = r.name == "new_open_port"

abbrev KnownBy : ℕ → CachedRule → Engine → Type 0
KnownBy now rule engine =
    ((ltb now (engine.cache_ts + cache_ttl) && not (is_nil engine.rules_cache)) ≡ true)
    × (first is_port_rule engine.rules_cache ≡ some rule)

-- The engine's copy of the rules is fresh, and the given one is the first of its name.
abbrev pub Knows : ℕ → CachedRule → World → Type 0
Knows now rule w = KnownBy now rule w.engine

note_fire-alerts :
    (now : ℕ) (rule : CachedRule) (w : World) → (note_fire now rule w).db.alerts ≡ w.db.alerts
unfolding note_fire update_rule_counters
note_fire-alerts now rule w = ground arith

module _ (settings : Settings) (now : ℕ) (rule : CachedRule) (mac : Option String)
    (context : Dict String Value) where
  create_alert-alerts :
      (message : String) (w : World)
      → length (create_alert settings now rule mac message context w).db.alerts
        ≤ length w.db.alerts + 1
  unfolding create_alert
  create_alert-alerts message w =
      ground
        (arith, length-append w.db.alerts (new_alert now rule mac message context w.db.alerts ∷ []))

  enqueue_job-alerts : (w : World) → (enqueue_job now rule mac context w).db.alerts ≡ w.db.alerts
  unfolding enqueue_job
  enqueue_job-alerts w = ground arith

  do_fire-alerts :
      (w : World)
      → length (do_fire settings now rule mac context w).1.db.alerts ≤ length w.db.alerts + 1
  unfolding do_fire
  do_fire-alerts w =
      let noted = note_fire now rule w in
      let P : World → Type 0 = λ u. length u.db.alerts ≤ length w.db.alerts + 1 in
      let message = get_text "message" rule.name context in
      let same = ap length (note_fire-alerts now rule w) in
      let queued = enqueue_job now rule mac context noted in
      let told = create_alert settings now rule mac message context noted in
      let other = if rule.action == "investigate" then queued else noted in
      if_cases P (rule.action == "alert") told other
        (λ e. omega (arith, same, create_alert-alerts message noted))
        (λ e.
          if_cases P (rule.action == "investigate") queued noted
            (λ i. omega (arith, same, ap length (enqueue_job-alerts noted)))
            (λ i. omega (arith, same)))

  do_fire-engine :
      (w : World)
      → (do_fire settings now rule mac context w).1.engine
        ≡ record (w.engine) { last_fired = insert rule.id now w.engine.last_fired }
  unfolding do_fire note_fire create_alert enqueue_job
  do_fire-engine w = ground arith

  get_rules-fresh : (w : World) → Knows now rule w → get_rules now w ≡ w
  unfolding get_rules
  get_rules-fresh w known = rw known.0 refl

  fire_rule-cooling :
      (w : World)
      → Knows now rule w
      → check_cooldown now rule w.engine ≡ false
      → fire_rule settings now "new_open_port" mac context w ≡ w
  unfolding fire_rule
  fire_rule-cooling w known cooling =
      let fresh = get_rules-fresh w known in
      let named : first is_port_rule (get_rules now w).engine.rules_cache ≡ some rule =
        rw fresh known.1 in
      let waits : check_cooldown now rule (get_rules now w).engine ≡ false = rw fresh cooling in
      rw (named, fire_rule) (rw waits fresh)

  fire_rule-fires :
      (w : World)
      → Knows now rule w
      → check_cooldown now rule w.engine ≡ true
      → fire_rule settings now "new_open_port" mac context w
        ≡ (do_fire settings now rule mac context w).1
  unfolding fire_rule
  fire_rule-fires w known allowed =
      let fresh = get_rules-fresh w known in
      let named : first is_port_rule (get_rules now w).engine.rules_cache ≡ some rule =
        rw fresh known.1 in
      let fires : check_cooldown now rule (get_rules now w).engine ≡ true = rw fresh allowed in
      rw (named, fire_rule) (rw fires (ap (λ u. (do_fire settings now rule mac context u).1) fresh))

last_fire-insert :
    (now id : ℕ) (engine : Engine)
    → last_fire id (record engine { last_fired = insert id now engine.last_fired }) ≡ now
unfolding last_fire
last_fire-insert now id engine =
    rw (lookup-insert id id now engine.last_fired, ==_refl id, last_fire) refl

check_cooldown-fired :
    (fired now : ℕ) (rule : CachedRule) (engine : Engine)
    → 0 < rule.cooldown_seconds
    → now < fired + rule.cooldown_seconds * second
    → check_cooldown now rule
        (record engine { last_fired = insert rule.id fired engine.last_fired })
      ≡ false
unfolding check_cooldown
check_cooldown-fired fired now rule engine positive soon =
    ground (arith, positive, soon, last_fire-insert fired rule.id engine)

fire_new_ports-cooling :
    (settings : Settings) (clock : ℕ → ℕ) (i : ℕ) (rule : CachedRule) (devices : List Device)
    (ports : List String) (w : World)
    → ((j : ℕ) → Knows (clock j) rule w)
    → ((j : ℕ) → check_cooldown (clock j) rule w.engine ≡ false)
    → fire_new_ports settings clock i devices ports w ≡ w
unfolding fire_new_ports
fire_new_ports-cooling settings clock i rule devices [] w known cooling = refl
fire_new_ports-cooling settings clock i rule devices (port ∷ ports) w known cooling =
    let c = port_context devices port in
    ap (fire_new_ports settings clock (suc i) devices ports)
      (fire_rule-cooling settings (clock i) rule c.0 c.1 w (known i) (cooling i))
    ∙ fire_new_ports-cooling settings clock (suc i) rule devices ports w known cooling

enrich_device-alerts :
    (tracks : Bool) (oui : Option (Dict String String)) (now : ℕ) (mac : String) (s : Sighting)
    (db : Database)
    → (enrich_device tracks oui now mac s db).alerts ≡ db.alerts
unfolding enrich_device
enrich_device-alerts tracks oui now mac s db = ground arith

enrich_from_scan-alerts :
    (e : Surroundings) (now : ℕ) (hosts : List HostData) (db : Database)
    → (enrich_from_scan e now hosts db).alerts ≡ db.alerts
unfolding enrich_from_scan
enrich_from_scan-alerts e now [] db = refl
enrich_from_scan-alerts e now (h ∷ hosts) db =
    let mac = lower (get_or "" h.mac) in
    let sighting = sighting_of e.entry mac h in
    let seen = enrich_device e.tracks e.oui now mac sighting db in
    if_cases (λ (next : Database). (enrich_from_scan e now hosts next).alerts ≡ db.alerts)
      (not (truthy mac) || is_blank h.ipv4) db seen (λ skip. enrich_from_scan-alerts e now hosts db)
      (λ fine.
        enrich_from_scan-alerts e now hosts seen
        ∙ enrich_device-alerts e.tracks e.oui now mac sighting db)

-- every reading lies within the cooldown of the rule after the first possible one
abbrev pub IsQuick : (clock : ℕ → ℕ) → (start : ℕ) → CachedRule → Type 0
IsQuick clock start rule =
    (i : ℕ) → (start ≤ clock i) × (clock i < start + rule.cooldown_seconds * second)

fire_new_ports-alerts :
    (settings : Settings) (clock : ℕ → ℕ) (start i : ℕ) (rule : CachedRule) (devices : List Device)
    (ports : List String) (w : World)
    → 0 < rule.cooldown_seconds
    → IsQuick clock start rule
    → ((j : ℕ) → Knows (clock j) rule w)
    → length (fire_new_ports settings clock i devices ports w).db.alerts ≤ length w.db.alerts + 1
unfolding fire_new_ports
fire_new_ports-alerts settings clock start i rule devices [] w positive quick known = omega arith
fire_new_ports-alerts settings clock start i rule devices (port ∷ ports) w positive quick known =
    let (mac, context) = port_context devices port in
    let now = clock i in
    let Q : World → Type 0 = λ u. length u.db.alerts ≤ length w.db.alerts + 1 in
    let after = fire_new_ports settings clock (suc i) devices ports in
    let rest =
      fire_new_ports-alerts settings clock start (suc i) rule devices ports w positive quick
        known in
    elim (Bool-cases (check_cooldown now rule w.engine)) [
      | inr cooling ↦
          subst Q
            (sym (ap after (fire_rule-cooling settings now rule mac context w (known i) cooling)))
            rest
      | inl allowed ↦
          let u = (do_fire settings now rule mac context w).1 in
          let engine = do_fire-engine settings now rule mac context w in
          let knows : (j : ℕ) → Knows (clock j) rule u =
            λ j. subst (KnownBy (clock j) rule) (sym engine) (known j) in
          let cools : (j : ℕ) → check_cooldown (clock j) rule u.engine ≡ false = λ j. rw engine (
            check_cooldown-fired now (clock j) rule w.engine positive
              (omega (arith, quick i, quick j))) in
          subst Q
            (sym (
              ap after (fire_rule-fires settings now rule mac context w (known i) allowed)
              ∙ fire_new_ports-cooling settings clock (suc i) rule devices ports u knows cools))
            (do_fire-alerts settings now rule mac context w)
    ]

-- If the rule `new_open_port` has a cooldown and the new ports of a scan are all handled within that
-- time, the scan adds one alert at most, however many there are: the first one that fires puts the
-- rule in its cooldown for the others. The engine's copy of the rules must be fresh for every one.
pub process_result-one_alert :
    (e : Surroundings) (now : ℕ) (clock : ℕ → ℕ) (start : ℕ) (rule : CachedRule)
    (result : List HostData) (c : Collector) (w : World)
    → 0 < rule.cooldown_seconds
    → IsQuick clock start rule
    → ((j : ℕ) → Knows (clock j) rule w)
    → length (process_result e now clock result c w).1.db.alerts ≤ length w.db.alerts + 1
unfolding process_result
process_result-one_alert e now clock start rule result c w positive quick known =
    let enriched : World = record w { db = enrich_from_scan e now result w.db } in
    let ports = (diff c.last_scan result).new_ports in
    if_cases (λ (r : Collector × World). length r.1.db.alerts ≤ length w.db.alerts + 1)
      (not w.db.available) _ _ (λ down. omega arith)
      (λ up. omega (
        arith,
        ap length (enrich_from_scan-alerts e now result w.db),
        fire_new_ports-alerts e.settings clock start 0 rule enriched.db.devices ports enriched
            positive quick known,
      ))
