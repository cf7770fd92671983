-- ===== src/Metrics/Counting.antt =====
-- Every event that is recorded is counted in one place.
use sentinel_home.Prelude.{
  ℕ, ◌+◌, String, ◌≡◌, refl, ap, Bool, true, false, List, [], ◌∷◌, ◌++◌, arith, if_cases, nat_eq,
  string_eq, if◌then◌else◌,
}
use sentinel_home.Prelude.Dict.{Dict}
use sentinel_home.Models.{Value}
use sentinel_home.Metrics.{
  CounterBucket, empty_bucket, record_fields, Key, same_key, Buckets, record_event, EventRollup,
  rollups_of, flush_counters,
}

-- what happens to the counters: an event, or the hourly job, with whether the database answers
pub data Happening : Type 0 where
  event : ℕ → Key → Dict String Value → Happening
  flush : Bool → ℕ → Happening

-- the events of a key that the buckets, and the rollups, count
abbrev pub held : Key → Buckets → ℕ
held q [] = 0
held q ((k, b) ∷ buckets) = (if same_key k q then b.count else 0) + held q buckets

abbrev pub rolled_up : Key → List EventRollup → ℕ
rolled_up q [] = 0
rolled_up q (r ∷ rollups) = (if same_key r.key q then r.count else 0) + rolled_up q rollups

unfoldable pub happen : Happening → Buckets × List EventRollup → Buckets × List EventRollup
happen (event now key fields) (buckets, rollups) = (record_event now key fields buckets, rollups)
happen (flush available now) (buckets, rollups) =
    let (buckets', rollups', written) = flush_counters available now buckets rollups in
    (buckets', rollups')

unfoldable pub run_counters :
    List Happening → Buckets × List EventRollup → Buckets × List EventRollup
run_counters [] st = st
run_counters (h ∷ hs) st = run_counters hs (happen h st)

-- the events of a key among the happenings
abbrev pub seen : Key → List Happening → ℕ
seen q [] = 0
seen q (event now key fields ∷ hs) = (if same_key key q then 1 else 0) + seen q hs
seen q (flush available now ∷ hs) = seen q hs

-- what the flushes drop whose session raises
abbrev pub dropped_by : Key → List Happening → Buckets × List EventRollup → ℕ
dropped_by q [] st = 0
dropped_by q (event now key fields ∷ hs) st = dropped_by q hs (happen (event now key fields) st)
dropped_by q (flush available now ∷ hs) st =
    (if available then 0 else held q st.0) + dropped_by q hs (happen (flush available now) st)

record_fields-count :
    (now : ℕ) (fields : Dict String Value) (b : CounterBucket)
    → (record_fields now fields b).count ≡ b.count + 1
unfolding record_fields
record_fields-count now fields b = refl

same_key_left : (k key q : Key) → same_key k key ≡ true → same_key k q ≡ same_key key q
same_key_left k key q h = ground (
  arith,
  h,
  string_eq.decides k.source key.source,
  string_eq.decides k.category key.category,
  string_eq.decides k.event_type key.event_type,
)

pub record_event-held :
    (q : Key) (now : ℕ) (key : Key) (fields : Dict String Value) (buckets : Buckets)
    → held q (record_event now key fields buckets)
      ≡ (if same_key key q then 1 else 0) + held q buckets
unfolding record_event
record_event-held q now key fields [] = ground (arith, record_fields-count now fields empty_bucket)
record_event-held q now key fields ((k, b) ∷ buckets) =
    if_cases (λ bs. held q bs ≡ (if same_key key q then 1 else 0) + held q ((k, b) ∷ buckets))
      (same_key k key) _ _
      (λ hit. ground (arith, same_key_left k key q hit, record_fields-count now fields b))
      (λ miss. omega (arith, record_event-held q now key fields buckets))

rolled_up-append :
    (q : Key) (a b : List EventRollup) → rolled_up q (a ++ b) ≡ rolled_up q a + rolled_up q b
rolled_up-append q [] b = omega arith
rolled_up-append q (r ∷ a) b = omega (arith, rolled_up-append q a b)

rolled_up-rollups_of :
    (q : Key) (now : ℕ) (buckets : Buckets) → rolled_up q (rollups_of now buckets) ≡ held q buckets
unfolding rollups_of
rolled_up-rollups_of q now [] = refl
rolled_up-rollups_of q now ((k, b) ∷ buckets) = omega (arith, rolled_up-rollups_of q now buckets)

abbrev counted : Key → Buckets × List EventRollup → ℕ
counted q st = held q st.0 + rolled_up q st.1

flush-counted :
    (q : Key) (available : Bool) (now : ℕ) (st : Buckets × List EventRollup)
    → counted q (happen (flush available now) st) + (if available then 0 else held q st.0)
      ≡ counted q st
unfolding happen flush_counters
flush-counted q available now ([], rollups) = ground arith
flush-counted q true now ((e ∷ buckets), rollups) = omega (
  arith,
  rolled_up-append q rollups (rollups_of now (e ∷ buckets)),
  rolled_up-rollups_of q now (e ∷ buckets),
)
flush-counted q false now ((e ∷ buckets), rollups) = omega arith

-- However events and hourly flushes follow each other, each event of a key is counted once: in the
-- buckets, in the rollups, or among those that a flush has dropped because its session raised.
pub run_counters-counted :
    (q : Key) (hs : List Happening) (st : Buckets × List EventRollup)
    → let st' = run_counters hs st in
      held q st'.0 + rolled_up q st'.1 + dropped_by q hs st
      ≡ held q st.0 + rolled_up q st.1 + seen q hs
unfolding run_counters
run_counters-counted q [] st = refl
run_counters-counted q (event now key fields ∷ hs) st =
    let rest = run_counters-counted q hs (happen (event now key fields) st) in
    let one : held q (happen (event now key fields) st).0
        ≡ (if same_key key q then 1 else 0) + held q st.0 =
      unfold happen in (record_event-held q now key fields st.0) in
    let same : (happen (event now key fields) st).1 ≡ st.1 = unfold happen in refl in
    omega (arith, rest, one, ap (rolled_up q) same)
run_counters-counted q (flush available now ∷ hs) st =
    let rest = run_counters-counted q hs (happen (flush available now) st) in
    omega (arith, rest, flush-counted q available now st)
