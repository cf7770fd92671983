-- ===== src/Metrics/Caps.antt =====
-- The caps on the sets of a bucket.
use sentinel_home.Prelude.{
  ℕ, ◌≤◌, String, ◌≡◌, refl, Bool, List, [], ◌∷◌, arith, All, map, length, select, take, contains,
  length-take, length-select-le, if_cases, ltb, leb, is_nil, nat_eq,
}
use sentinel_home.Prelude.Dict.{Dict}
use sentinel_home.Models.{Value, value_eq}
use sentinel_home.Queue.{order_by}
use sentinel_home.Metrics.{
  CounterBucket, empty_bucket, most_common, cap_sources, cap_destinations, record_fields, Key,
  same_key, Buckets, record_event, EventRollup, flush_counters,
}
use sentinel_home.Metrics.Counting.{Happening, event, flush, happen, run_counters}

abbrev pub IsCapped : CounterBucket → Type 0
IsCapped b = (length b.unique_sources ≤ 5000) × (length b.unique_destinations ≤ 1000)

abbrev pub AreCapped : Buckets → Type 0
AreCapped = All (λ (e : Key × CounterBucket). IsCapped e.1)

length-map {ℓ κ} :
    {A : Type ℓ} {B : Type κ} (f : A → B) (xs : List A) → length (map f xs) ≡ length xs
length-map f [] = refl
length-map f (x ∷ xs) = omega (arith, length-map f xs)

length-cap_sources :
    (top : Dict Value ℕ) (sources : List Value) → length (cap_sources top sources) ≤ 5000
unfolding most_common cap_sources
length-cap_sources top sources =
    let commonest = take 2500 (order_by (λ (a b : Value × ℕ). leb b.1 a.1) top) in
    let keys = map (λ (e : Value × ℕ). e.0) commonest in
    if_cases (λ ss. length ss ≤ 5000) (ltb 5000 (length sources))
      (select (λ s. contains s sources) keys) sources
      (λ e. omega (
        arith,
        length-select-le (λ s. contains s sources) keys,
        length-map (λ (e : Value × ℕ). e.0) commonest,
        length-take 2500 (order_by (λ (a b : Value × ℕ). leb b.1 a.1) top),
      ))
      (λ e. ground (arith, e))

length-cap_destinations :
    (destinations : List Value) → length (cap_destinations destinations) ≤ 1000
unfolding cap_destinations
length-cap_destinations destinations =
    if_cases (λ ds. length ds ≤ 1000) (ltb 1000 (length destinations)) (take 500 destinations)
      destinations (λ e. omega (arith, length-take 500 destinations)) (λ e. ground (arith, e))

record_fields-IsCapped :
    (now : ℕ) (fields : Dict String Value) (b : CounterBucket)
    → IsCapped (record_fields now fields b)
unfolding record_fields
record_fields-IsCapped now fields b = (length-cap_sources _ _, length-cap_destinations _)

record_event-AreCapped :
    (now : ℕ) (key : Key) (fields : Dict String Value) (buckets : Buckets)
    → AreCapped buckets
    → AreCapped (record_event now key fields buckets)
unfolding record_event
record_event-AreCapped now key fields [] h = (record_fields-IsCapped now fields empty_bucket, tt)
record_event-AreCapped now key fields ((k, b) ∷ buckets) h =
    if_cases AreCapped (same_key k key) _ _ (λ e. (record_fields-IsCapped now fields b, h.1))
      (λ e. (h.0, record_event-AreCapped now key fields buckets h.1))

flush_counters-AreCapped :
    (available : Bool) (now : ℕ) (buckets : Buckets) (rollups : List EventRollup)
    → AreCapped (flush_counters available now buckets rollups).0
unfolding flush_counters
flush_counters-AreCapped available now buckets rollups =
    if_cases (λ (r : Buckets × List EventRollup × _). AreCapped r.0) (is_nil buckets) _ _ (λ e. tt)
      (λ e.
        if_cases (λ (r : Buckets × List EventRollup × _). AreCapped r.0) available _ _ (λ a. tt)
          (λ a. tt))

-- However events and hourly flushes follow each other, no bucket holds more than 5000 sources or more
-- than 1000 destinations, if none did at the start.
pub run_counters-AreCapped :
    (hs : List Happening) (st : Buckets × List EventRollup)
    → AreCapped st.0
    → AreCapped (run_counters hs st).0
unfolding run_counters happen
run_counters-AreCapped [] st h = h
run_counters-AreCapped (event now key fields ∷ hs) st h =
    run_counters-AreCapped hs (happen (event now key fields) st)
      (record_event-AreCapped now key fields st.0 h)
run_counters-AreCapped (flush available now ∷ hs) st h =
    run_counters-AreCapped hs (happen (flush available now) st)
      (flush_counters-AreCapped available now st.0 st.1)
