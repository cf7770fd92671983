-- ===== src/Queue/Compaction/Waiting.antt =====
-- The pending jobs of one device: what a compaction of it drops stands among them.
use sentinel_home.Prelude.{
  ℕ, String, ◌≡◌, ◌≢◌, refl, sym, Bool, true, false, ◌&&◌, Option, none, some, List, [], ◌∷◌, arith,
  All, select, Distinct, Distinct-select, All-select, if_cases, nat_eq, string_eq,
}
use sentinel_home.Models.{Job}
use sentinel_home.Queue.{order_by, by_recency}
use sentinel_home.Queue.Compaction.{ids_of, is_of, is_pending, pending_for}
use sentinel_home.Queue.Compaction.Drops.{drops_of}
use sentinel_home.Queue.Compaction.Counts.{
  Apart, drops_of-absent, order_by-Distinct, order_by-Apart, All-imp,
}

abbrev pub is_waiting : String → Job → Bool
is_waiting device j = is_of device j.device_id && is_pending j

-- Where ids are keys, a row that is not selected has no id of the selection.
pub not_selected :
    (p : Job → Bool) (jobs : List Job)
    → Distinct (ids_of jobs)
    → All (λ (j : Job). p j ≡ false → Apart j.id (select p jobs)) jobs
unfolding Apart
not_selected p [] d = tt
not_selected p (j ∷ jobs) d = (
  λ out. rw out (All-select (λ (k : Job). k.id) (λ n. j.id ≢ n) p jobs d.0),
  later jobs d.0 (not_selected p jobs d.1),
)
  where
    later :
        (ks : List Job)
        → All (λ n. j.id ≢ n) (ids_of ks)
        → All (λ (k : Job). p k ≡ false → Apart k.id (select p jobs)) ks
        → All (λ (k : Job). p k ≡ false → Apart k.id (select p (j ∷ jobs))) ks
    later [] h a = tt
    later (k ∷ ks) h a = (
      λ out.
          if_cases (λ js. All (λ n. k.id ≢ n) (ids_of js)) (p j) _ _
            (λ e. ((λ same. h.0 (sym same)), a.0 out)) (λ e. a.0 out),
      later ks h.1 a.1,
    )

pub two_devices :
    (device other : String) (o : Option String)
    → device ≢ other
    → is_of device o ≡ true
    → is_of other o ≡ false
two_devices device other none ne e = refl
two_devices device other (some d) ne e =
    ground (arith, e, ne, string_eq.decides d device, string_eq.decides d other)

-- the drops of a compaction of one device
abbrev pub drops_for : String → List Job → ℕ → Bool
drops_for device jobs = drops_of [] (pending_for device jobs)

pub drops_for-others :
    (device : String) (jobs : List Job)
    → Distinct (ids_of jobs)
    → All (λ (j : Job). is_waiting device j ≡ false → drops_for device jobs j.id ≡ false) jobs
unfolding pending_for
drops_for-others device jobs d =
    All-imp _ _ jobs
      (λ j apart out.
        drops_of-absent [] (order_by by_recency (select (is_waiting device) jobs)) j.id
          (order_by-Apart by_recency j.id (select (is_waiting device) jobs) (apart out)))
      (not_selected (is_waiting device) jobs d)

pub pending_for-Distinct :
    (device : String) (jobs : List Job)
    → Distinct (ids_of jobs)
    → Distinct (ids_of (pending_for device jobs))
unfolding pending_for
pending_for-Distinct device jobs d =
    order_by-Distinct by_recency _ (Distinct-select (λ (j : Job). j.id) (is_waiting device) jobs d)
