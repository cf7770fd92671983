-- ===== src/Engine/WindowSpec.antt =====
-- What a window counts: after any events of one group, it holds exactly those that came since the
-- last fire and are not older than the window; so a fire means that that many events came.
use sentinel_home.Prelude.{
  ℕ, suc, ◌+◌, ◌≤◌, ◌<◌, none, Option, ◌≡◌, refl, sym, ◌∙◌, ap, Bool, true, false, some, List, [],
  ◌∷◌, ◌++◌, arith, ltb, leb, length, select-append, if◌then◌else◌, Bool-cases, inl, inr, ◌⊎◌, ◌&&◌,
  ◌==◌, nat_eq, string_eq, eq_iff, String, ◌*◌, map, All,
}
use mathlib.Core.Option
use sentinel_home.Prelude.Dict.{Dict, insert, lookup-insert}
use sentinel_home.Models.{Parameters, ParseResult}
use sentinel_home.Engine.State.{Entry, CachedRule, Engine, Groups, second}
use sentinel_home.Engine.Distinct.{port_of, different, distinct_ports-different}
use sentinel_home.Engine.Windows.{
  in_window, count_entries, threshold_of, window_step, check_windowed, entries_of, groups_of,
  get_group_key,
}

-- how many events `event_threshold` or, where it is absent, `repeat_threshold` asks for
abbrev pub events_needed : Option ℕ → Option ℕ → ℕ
events_needed (some n) repeats = n
events_needed none (some n) = n
events_needed none none = 0

abbrev pub ports_needed : Parameters → ℕ
ports_needed p = Option.get_or p.distinct_ports_threshold 0

-- the rule counts: distinct ports or events
abbrev pub HasThreshold : Parameters → Type 0
HasThreshold p = (0 < ports_needed p) ⊎ (0 < events_needed p.event_threshold p.repeat_threshold)

-- whether these entries make the rule fire
unfoldable pub reaches : Parameters → List Entry → Bool
reaches p entries =
    if ltb 0 (ports_needed p)
    then leb (ports_needed p) (different (map port_of entries))
    else leb (events_needed p.event_threshold p.repeat_threshold) (length entries)

-- the events that the specification counts: those that are not older than the window
unfoldable pub recent : (now window : ℕ) → List Entry → List Entry
recent now window [] = []
recent now window (e ∷ events) =
    let rest = recent now window events in if ltb (e.ts + window) now then rest else e ∷ rest

-- The specification keeps every event since the last fire, and asks of each new one whether those
-- in its window make the rule fire.
unfoldable pub spec_fires :
    Parameters → (window : ℕ) → (since : List Entry) → List Entry → List Bool
spec_fires p window since [] = []
spec_fires p window since (e ∷ events) =
    let all = since ++ e ∷ [] in
    let fires = reaches p (recent e.ts window all) in
    fires ∷ spec_fires p window (if fires then [] else all) events

-- The engine on the same events: what each call of `_check_windowed` answers.
unfoldable pub engine_fires :
    Parameters → (window : ℕ) → (entries : List Entry) → List Entry → List Bool
engine_fires p window entries [] = []
engine_fires p window entries (e ∷ events) =
    let (fires, left) = window_step p e.ts window e entries in
    fires ∷ engine_fires p window left events

-- the clock does not run backwards between the events
abbrev pub InOrder : ℕ → List Entry → Type 0
InOrder last [] = Unit
InOrder last (e ∷ events) = (last ≤ e.ts) × InOrder e.ts events

count_entries_lem :
    (p : Parameters) (entries : List Entry)
    → HasThreshold p
    → count_entries p entries ≡ (reaches p entries, if reaches p entries then [] else entries)
unfolding count_entries reaches threshold_of
count_entries_lem p entries h = ground (arith, distinct_ports-different entries)

in_window-nil : (now window : ℕ) → in_window now window [] ≡ []
unfolding in_window
in_window-nil now window = refl

in_window-recent :
    (now window : ℕ) (events : List Entry) → in_window now window events ≡ recent now window events
unfolding in_window recent
in_window-recent now window [] = refl
in_window-recent now window (e ∷ events) = ground (arith, in_window-recent now window events)

in_window-in_window :
    (now now' window : ℕ) (entries : List Entry)
    → now ≤ now'
    → in_window now' window (in_window now window entries) ≡ in_window now' window entries
unfolding in_window
in_window-in_window now now' window [] le = refl
in_window-in_window now now' window (e ∷ entries) le =
    ground (arith, in_window-in_window now now' window entries le)

in_window-append :
    (now window : ℕ) (xs ys : List Entry)
    → in_window now window (xs ++ ys) ≡ in_window now window xs ++ in_window now window ys
unfolding in_window
in_window-append now window xs ys = select-append (λ (e : Entry). leb now (e.ts + window)) xs ys

in_window_twice :
    (now now' window : ℕ) (entries : List Entry) (e : Entry)
    → now ≤ now'
    → in_window now' window (in_window now window entries ++ e ∷ [])
      ≡ in_window now' window (entries ++ e ∷ [])
in_window_twice now now' window entries e le =
    rw (in_window-append, in_window-in_window now now' window entries le)
      (sym (in_window-append now' window entries (e ∷ [])))

module _ (p : Parameters) (window : ℕ) (counts : HasThreshold p) where
  engine_fires_from :
      (last : ℕ) (since entries events : List Entry)
      → entries ≡ in_window last window since
      → InOrder last events
      → engine_fires p window entries events ≡ spec_fires p window since events
  unfolding engine_fires spec_fires window_step
  engine_fires_from last since entries [] e order = refl
  engine_fires_from last since entries (x ∷ events) e order =
      let all = since ++ x ∷ [] in
      let window_now : in_window x.ts window (entries ++ x ∷ []) ≡ recent x.ts window all =
        rw e (in_window_twice last x.ts window since x order.0)
        ∙ in_window-recent x.ts window all in
      rw (window_now, count_entries_lem p (recent x.ts window all) counts)
        (elim (Bool-cases (reaches p (recent x.ts window all))) [
          | inl fires ↦ rw fires (
              ap (λ l. true ∷ l)
                (engine_fires_from x.ts [] [] events (sym (in_window-nil x.ts window)) order.1))
          | inr below ↦ rw below (
              ap (λ l. false ∷ l)
                (engine_fires_from x.ts all (recent x.ts window all) events
                  (sym (in_window-recent x.ts window all)) order.1))
        ])

groups_of-insert :
    (rule_id id : ℕ) (groups : Groups) (windows : Dict ℕ Groups)
    → groups_of id (insert rule_id groups windows)
      ≡ (if rule_id == id then groups else groups_of id windows)
unfolding groups_of
groups_of-insert rule_id id groups windows = ground (arith, lookup-insert rule_id id groups windows)

entries_of-insert :
    (key key' : String) (entries : List Entry) (groups : Groups)
    → entries_of key' (insert key entries groups)
      ≡ (if key == key' then entries else entries_of key' groups)
unfolding entries_of
entries_of-insert key key' entries groups = ground (arith, lookup-insert key key' entries groups)

-- A call of `_check_windowed` changes the window of its own rule and group only.
entries_of-check_windowed :
    (now seconds : ℕ) (rule : CachedRule) (result : ParseResult) (engine : Engine) (id : ℕ)
    (key : String)
    → rule.parameters.window_seconds ≡ some (suc seconds)
    → entries_of key (groups_of id (check_windowed now rule result engine).1.windows) ≡ (
        if rule.id == id && get_group_key rule result == key
        then (window_step rule.parameters now
            (suc seconds * second)
            (record { ts = now; fields = result.fields })
            (entries_of key (groups_of id engine.windows))).1
        else entries_of key (groups_of id engine.windows))
unfolding check_windowed
entries_of-check_windowed now seconds rule result engine id key sized =
    let own = get_group_key rule result in
    let groups = groups_of rule.id engine.windows in
    let left =
      (window_step rule.parameters now (suc seconds * second)
        (record { ts = now; fields = result.fields }) (entries_of own groups)).1 in
    ground (
      arith,
      sized,
      groups_of-insert rule.id id (insert own left groups) engine.windows,
      entries_of-insert own key left groups,
      eq_iff own key,
    )

-- a parsed event and the time at which the engine sees it
pub record Call : Type 0 where
  pub now : ℕ
  pub result : ParseResult

abbrev pub entry_of : Call → Entry
entry_of c = record { ts = c.now; fields = c.result.fields }

-- what `_check_windowed` answers to each of the calls in turn
unfoldable pub answers : CachedRule → Engine → List Call → List Bool
answers rule engine [] = []
answers rule engine (c ∷ calls) =
    let (reached, engine') = check_windowed c.now rule c.result engine in
    reached ∷ answers rule engine' calls

module _ (rule : CachedRule) (seconds : ℕ) (key : String)
    (sized : rule.parameters.window_seconds ≡ some (suc seconds)) where
  -- every call is about the same group
  abbrev pub SameGroup : List Call → Type 0
  SameGroup = All (λ (c : Call). get_group_key rule c.result ≡ key)

  check_windowed_answer :
      (now : ℕ) (result : ParseResult) (engine : Engine)
      → get_group_key rule result ≡ key
      → (check_windowed now rule result engine).0
        ≡ (window_step rule.parameters now
            (suc seconds * second)
            (record { ts = now; fields = result.fields })
            (entries_of key (groups_of rule.id engine.windows))).0
  unfolding check_windowed
  check_windowed_answer now result engine own = ground (arith, sized)

  check_windowed_left :
      (now : ℕ) (result : ParseResult) (engine : Engine)
      → get_group_key rule result ≡ key
      → entries_of key (groups_of rule.id (check_windowed now rule result engine).1.windows)
        ≡ (window_step rule.parameters now
            (suc seconds * second)
            (record { ts = now; fields = result.fields })
            (entries_of key (groups_of rule.id engine.windows))).1
  check_windowed_left now result engine own = ground (
    arith,
    entries_of-check_windowed now seconds rule result engine rule.id key sized,
    eq_iff (get_group_key rule result) key,
  )

  answers-engine_fires :
      (calls : List Call) (engine : Engine)
      → SameGroup calls
      → answers rule engine calls
        ≡ engine_fires rule.parameters
            (suc seconds * second)
            (entries_of key (groups_of rule.id engine.windows))
            (map entry_of calls)
  unfolding answers engine_fires
  answers-engine_fires [] engine same = refl
  answers-engine_fires (c ∷ calls) engine same =
      let engine' = (check_windowed c.now rule c.result engine).1 in
      cc (
        check_windowed_answer c.now c.result engine same.0,
        check_windowed_left c.now c.result engine same.0,
        answers-engine_fires calls engine' same.1,
      )

  -- Over any events of one group, in clock order and from an empty window, `_check_windowed` fires
  -- at exactly those events at which the events since the last fire that are not older than the
  -- window reach the rule's threshold, of distinct ports or of events.
  pub answers-eq-spec_fires :
      (engine : Engine) (calls : List Call)
      → HasThreshold rule.parameters
      → entries_of key (groups_of rule.id engine.windows) ≡ []
      → SameGroup calls
      → InOrder 0 (map entry_of calls)
      → answers rule engine calls
        ≡ spec_fires rule.parameters (suc seconds * second) [] (map entry_of calls)
  answers-eq-spec_fires engine calls counts empty same order =
      let window = suc seconds * second in
      answers-engine_fires calls engine same
      ∙ engine_fires_from rule.parameters window counts 0 []
          (entries_of key (groups_of rule.id engine.windows)) (map entry_of calls)
          (empty ∙ sym (in_window-nil 0 window)) order
