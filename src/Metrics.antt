-- ===== src/Metrics.antt =====
-- sentinel_home/metrics/counters.py: the counters of events that are not stored one by one, and
-- `flush_counters` of rollup.py. A set is a list without repetition, in the order of insertion.
pub mod Counting
pub mod Caps
pub mod Retention
pub mod Windows
mod Examples
use Prim.Native.String.{◌++◌ as str_append}
use sentinel_home.Prelude.{
  ℕ, ◌+◌, ◌*◌, ◌/◌, String, [], ◌∷◌, ◌++◌, Bool, true, false, not, ◌&&◌, Option, none, some, List,
  map, length, select, take, contains, is_nil, truthy, leb, ltb, Equality, ◌==◌, nat_eq, string_eq,
  if◌then◌else◌,
}
use sentinel_home.Prelude.Dict.{Dict, lookup, insert}
use sentinel_home.Models.{Value, null, text, number, value_eq, value_str, get_or}
use sentinel_home.Engine.State.{second}
use sentinel_home.Queue.{order_by}

pub record CounterBucket : Type 0 where
  pub count : ℕ
  pub unique_sources : List Value
  pub unique_destinations : List Value
  pub top_ports : Dict String ℕ
  pub top_sources : Dict Value ℕ
  pub first_seen : ℕ
  pub last_seen : ℕ

abbrev pub empty_bucket : CounterBucket
empty_bucket = record {
  count = 0;
  unique_sources = [];
  unique_destinations = [];
  top_ports = [];
  top_sources = [];
  first_seen = 0;
  last_seen = 0;
}

-- `fields.get(key, "")`
abbrev field_or_empty : String → Dict String Value → Value
field_or_empty key fields = get_or (text "") (lookup key fields)

-- `bool(v)`
abbrev is_set : Value → Bool
is_set null = false
is_set (text s) = truthy s
is_set (number n) = not (n == 0)

-- `s.add(v)`
abbrev pub add_to_set : Value → List Value → List Value
add_to_set v set = if contains v set then set else set ++ v ∷ []

-- `d[k] += 1` of a `defaultdict(int)`
abbrev bump {ℓ} : {K : Type ℓ} ⦃e : Equality K⦄ → K → Dict K ℕ → Dict K ℕ
bump k d = insert k (get_or 0 (lookup k d) + 1) d

-- `sorted(d.items(), key=lambda x: x[1], reverse=True)[:n]`
unfoldable pub most_common {ℓ} : {K : Type ℓ} → ℕ → Dict K ℕ → Dict K ℕ
most_common n d = take n (order_by (λ a b. leb b.1 a.1) d)

unfoldable pub cap_sources : Dict Value ℕ → List Value → List Value
cap_sources top sources =
    if ltb 5000 (length sources)
    then select (λ s. contains s sources) (map (λ (e : Value × ℕ). e.0) (most_common 2500 top))
    else sources

unfoldable pub cap_destinations : List Value → List Value
cap_destinations destinations =
    if ltb 1000 (length destinations) then take 500 destinations else destinations

-- `CounterBucket.record`
unfoldable pub record_fields : ℕ → Dict String Value → CounterBucket → CounterBucket
record_fields now fields b =
    let src = field_or_empty "src" fields in
    let dst = field_or_empty "dst" fields in
    let dpt = field_or_empty "dpt" fields in
    let sources = if is_set src then add_to_set src b.unique_sources else b.unique_sources in
    let top = if is_set src then bump src b.top_sources else b.top_sources in
    let destinations =
      if is_set dst then add_to_set dst b.unique_destinations else b.unique_destinations in
    record b {
      count = b.count + 1;
      first_seen = if b.first_seen == 0 then now else b.first_seen;
      last_seen = now;
      top_sources = top;
      top_ports = if is_set dpt then bump (value_str dpt) b.top_ports else b.top_ports;
      unique_sources = cap_sources top sources;
      unique_destinations = cap_destinations destinations;
    }

pub record Metadata : Type 0 where
  pub unique_source_count : ℕ
  pub unique_dest_count : ℕ
  pub top_ports : Dict String ℕ
  pub top_sources : Dict Value ℕ
  pub sample_sources : List Value

unfoldable pub to_metadata : CounterBucket → Metadata
to_metadata b = record {
  unique_source_count = length b.unique_sources;
  unique_dest_count = length b.unique_destinations;
  top_ports = most_common 20 b.top_ports;
  top_sources = most_common 50 b.top_sources;
  sample_sources = take 10 b.unique_sources;
}

-- `(source, category, event_type)`
pub record Key : Type 0 where
  pub source : String
  pub category : String
  pub event_type : String

abbrev pub same_key : Key → Key → Bool
same_key a b = a.source == b.source && (a.category == b.category && a.event_type == b.event_type)

abbrev pub Buckets : Type 0
Buckets = List (Key × CounterBucket)

-- `EventCounters.record`
unfoldable pub record_event : ℕ → Key → Dict String Value → Buckets → Buckets
record_event now key fields [] = (key, record_fields now fields empty_bucket) ∷ []
record_event now key fields ((k, b) ∷ buckets) =
    if same_key k key
    then (k, record_fields now fields b) ∷ buckets
    else (k, b) ∷ record_event now key fields buckets

-- `f"{s}/{c}/{t}"`
abbrev path_of : Key → String
path_of k =
    str_append k.source (str_append "/" (str_append k.category (str_append "/" k.event_type)))

-- the comprehension of `get_snapshot`
unfoldable pub snapshot_from : Buckets → Dict String ℕ → Dict String ℕ
snapshot_from [] counts = counts
snapshot_from ((k, b) ∷ buckets) counts = snapshot_from buckets (insert (path_of k) b.count counts)

unfoldable pub get_snapshot : Buckets → Dict String ℕ
get_snapshot buckets = snapshot_from buckets []

pub record EventRollup : Type 0 where
  pub hour : ℕ
  pub key : Key
  pub count : ℕ
  pub extra : Metadata

abbrev hour_of : ℕ → ℕ
hour_of now = now / (3600 * second) * (3600 * second)

unfoldable pub rollups_of : ℕ → Buckets → List EventRollup
rollups_of now = map (λ (e : Key × CounterBucket). record {
  hour = hour_of now;
  key = e.0;
  count = e.1.count;
  extra = to_metadata e.1;
})

-- `flush_counters`: the buckets and the table after it, and the rows written; `none` is an exception.
-- The buckets are emptied before the session begins.
unfoldable pub flush_counters :
    Bool → ℕ → Buckets → List EventRollup → Buckets × List EventRollup × Option ℕ
flush_counters available now buckets rollups =
    if is_nil buckets
    then ([], rollups, some 0)
    else if available
    then ([], rollups ++ rollups_of now buckets, some (length buckets))
    else ([], rollups, none)
