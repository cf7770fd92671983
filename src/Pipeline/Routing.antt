-- ===== src/Pipeline/Routing.antt =====
-- Every parsed event is stored once, where it belongs.
use sentinel_home.Prelude.{
  ℕ, ◌+◌, ◌≡◌, refl, sym, ◌∙◌, ap, Bool, true, false, ◌&&◌, List, [], ◌∷◌, ◌++◌, arith, if_cases,
  if◌then◌else◌, string_eq, ◌==◌, ◌||◌, none, some, prefix_of, Option, String, inl, inr,
  Option-cases,
}
use sentinel_home.Prelude.Dict.{Dict, insert}
use sentinel_home.Models.{Value, Event, Database}
use sentinel_home.Engine.State.{Settings}
use sentinel_home.Metrics.{Key, same_key}
use sentinel_home.Metrics.Counting.{held, record_event-held}
use sentinel_home.Pipeline.{
  is_counter_event, Intake, Received, key_of, event_of, persist_event, record_counter,
  evaluate_rules, process_result, process_results,
}
use sentinel_home.Engine.Evaluate.{evaluate}
use sentinel_home.Pipeline.Frame.{evaluate-Leaves}

-- the events of blocked packets from the Internet and of packets of the network
abbrev pub is_counted : Received → Bool
is_counted r = "fw_wan_block" == r.result.event_type || "fw_lan_traffic" == r.result.event_type

-- fields with the sender's address, if there is one
abbrev pub with_sender : Option String → Dict String Value → Dict String Value
with_sender none fields = fields
with_sender (some ip) fields =
    if ip == "" then fields else insert "source_ip" (Value.text ip) fields

-- the row that an event is to have: the first 500 characters of its message, and its fields with the
-- sender's address, if there is one
abbrev pub row_of : Received → Event
row_of r = record {
  ts = r.now;
  source = r.source_name;
  event_type = r.result.event_type;
  severity = r.result.severity;
  category = r.result.category;
  kind = "event";
  device_id = none;
  message = some (prefix_of 500 r.result.message);
  raw = with_sender r.source_ip r.result.fields;
}

event_of-row_of : (r : Received) → event_of r ≡ row_of r
unfolding event_of
event_of-row_of r = elim (Option-cases r.source_ip) [
  | inl unsent ↦ rw unsent refl
  | inr (ip, sent) ↦ rw sent (ground arith)
]

is_counter_event_lem : (r : Received) → is_counter_event r.result ≡ is_counted r
is_counter_event_lem r = ground arith

-- the rows of the events among the results that go to the table
abbrev pub rows_of : List Received → List Event
rows_of [] = []
rows_of (r ∷ rs) = if is_counted r then rows_of rs else row_of r ∷ rows_of rs

-- how many of the results go to the counter of a key
abbrev pub counted_for : Key → List Received → ℕ
counted_for q [] = 0
counted_for q (r ∷ rs) = (if is_counted r && same_key (key_of r) q then 1 else 0) + counted_for q rs

append-nil : (events : List Event) → events ++ [] ≡ events
append-nil [] = refl
append-nil (e ∷ events) = ap (λ es. e ∷ es) (append-nil events)

append_assoc : (a b c : List Event) → (a ++ b) ++ c ≡ a ++ (b ++ c)
append_assoc [] b c = refl
append_assoc (e ∷ a) b c = ap (λ es. e ∷ es) (append_assoc a b c)

-- the table of events after results whose rows are `rows`
abbrev stored_rows : Bool → List Event → List Event → List Event
stored_rows available events rows = if available then events ++ rows else events

pub record Routed (rs : List Received) (s s' : Intake) : Type 0 where
  pub available : s'.world.db.available ≡ s.world.db.available
  pub events : s'.world.db.events ≡ stored_rows s.world.db.available s.world.db.events (rows_of rs)
  pub buckets : (q : Key) → held q s'.buckets ≡ counted_for q rs + held q s.buckets

stored_rows-nil :
    (available : Bool) (events : List Event) → stored_rows available events [] ≡ events
stored_rows-nil true events = append-nil events
stored_rows-nil false events = refl

stored_rows-append :
    (available : Bool) (events a b : List Event)
    → stored_rows available (stored_rows available events a) b
      ≡ stored_rows available events (a ++ b)
stored_rows-append true events a b = append_assoc events a b
stored_rows-append false events a b = refl

persist_event-events :
    (r : Received) (db : Database)
    → (persist_event r db).events ≡ stored_rows db.available db.events (row_of r ∷ [])
unfolding persist_event
persist_event-events r db =
    if_cases (λ (d : Database). d.events ≡ stored_rows db.available db.events (row_of r ∷ []))
      db.available _ _ (λ e. ground (arith, e, event_of-row_of r)) (λ e. ground (arith, e))

persist_event-available :
    (r : Received) (db : Database) → (persist_event r db).available ≡ db.available
unfolding persist_event
persist_event-available r db = ground arith

process_result-Routed :
    (cfg : Settings) (r : Received) (s : Intake) → Routed (r ∷ []) s (process_result cfg r s)
unfolding process_result evaluate_rules record_counter
process_result-Routed cfg r s =
    let w = (evaluate cfg r.now r.result r.source_ip s.world).1 in
    let left = evaluate-Leaves cfg r.now r.result r.source_ip s.world in
    if_cases (λ (s' : Intake). Routed (r ∷ []) s s') (is_counter_event r.result) _ _
      (λ is_counter.
        let hit : is_counted r ≡ true = sym (is_counter_event_lem r) ∙ is_counter in
        record {
          available = left.available;
          events =
              left.events
              ∙ sym (stored_rows-nil s.world.db.available s.world.db.events)
              ∙ ap (stored_rows s.world.db.available s.world.db.events) (sym (rw hit refl));
          buckets = λ q.
              ground (arith, hit, record_event-held q r.now (key_of r) r.result.fields s.buckets);
        })
      (λ no_counter.
        let miss : is_counted r ≡ false = sym (is_counter_event_lem r) ∙ no_counter in
        record {
          available = persist_event-available r w.db ∙ left.available;
          events =
              persist_event-events r w.db
              ∙ rw (left.available, left.events)
                  (ap (stored_rows s.world.db.available s.world.db.events) (sym (rw miss refl)));
          buckets = λ q. ground (arith, miss);
        })

rows_of-cons :
    (r : Received) (rs : List Received) → rows_of (r ∷ rs) ≡ rows_of (r ∷ []) ++ rows_of rs
rows_of-cons r rs =
    if_cases (λ rows. rows_of (r ∷ rs) ≡ rows ++ rows_of rs) (is_counted r) [] (row_of r ∷ [])
      (λ hit. rw hit refl) (λ miss. rw miss refl)

-- Whatever the rules do with them, results that are processed one after the other are stored once each:
-- a packet from the Internet that the firewall blocks (fw_wan_block) and one within the network
-- (fw_lan_traffic) in the counter of its key, every other event, also any other block, as a row at
-- the end of the table of events, in order. While every session raises, the table stays as it was.
pub process_results-Routed :
    (cfg : Settings) (rs : List Received) (s : Intake)
    → let s' = process_results cfg rs s in
      (s'.world.db.events
        ≡ (if s.world.db.available then s.world.db.events ++ rows_of rs else s.world.db.events))
      × ((q : Key) → held q s'.buckets ≡ counted_for q rs + held q s.buckets)
      × (s'.world.db.available ≡ s.world.db.available)
unfolding process_results
process_results-Routed cfg [] s =
    (sym (stored_rows-nil s.world.db.available s.world.db.events), (λ q. omega arith), refl)
process_results-Routed cfg (r ∷ rs) s =
    let one = process_result-Routed cfg r s in
    let (stored, counted, answers) = process_results-Routed cfg rs (process_result cfg r s) in
    let events = s.world.db.events in
    let up = s.world.db.available in
    (
      stored
          ∙ rw (one.available, one.events)
              (stored_rows-append up events (rows_of (r ∷ [])) (rows_of rs))
          ∙ ap (stored_rows up events) (sym (rows_of-cons r rs)),
      (λ q. omega (arith, counted q, one.buckets q)),
      answers ∙ one.available,
    )
