-- ===== src/Queue/Compaction/Drops.antt =====
-- Which jobs a compaction drops: every one whose rule has come before in the order of the queue.
use sentinel_home.Prelude.{
  ℕ, ◌+◌, ◌-◌, ◌<◌, String, ◌≡◌, refl, ◌∙◌, Bool, true, false, ◌&&◌, ◌||◌, none, some, List, [],
  ◌∷◌, ◌++◌, arith, All, length, contains, length-append, if_cases, ◌==◌, nat_eq, string_eq,
  if◌then◌else◌,
}
use sentinel_home.Prelude.Dict.{Dict, lookup, insert, lookup-insert}
use sentinel_home.Models.{Job, get_or}
use sentinel_home.Queue.Compaction.{
  ids_of, add_to_group, group_by_rule, compact_group, compact_groups,
}
use sentinel_home.Queue.Compaction.Rows.{dropped}

-- the same drops, from the ordered list; `seen` holds the rules that have come before
abbrev pub drops_of : List String → List Job → ℕ → Bool
drops_of seen [] x = false
drops_of seen (j ∷ jobs) x =
    (contains j.rule_name seen && j.id == x) || drops_of (j.rule_name ∷ seen) jobs x

abbrev pub repeats : List String → List Job → ℕ
repeats seen [] = 0
repeats seen (j ∷ jobs) =
    (if contains j.rule_name seen then 1 else 0) + repeats (j.rule_name ∷ seen) jobs

abbrev pub tally : Dict String (List Job) → ℕ
tally [] = 0
tally ((rule_name, group) ∷ groups) = (length group - 1) + tally groups

-- Groups are made with a job in them.
abbrev pub Filled : Dict String (List Job) → Type 0
Filled = All (λ (entry : String × List Job). 0 < length entry.1)

abbrev pub has_rule : String → Dict String (List Job) → Bool
has_rule r groups = elim (lookup r groups) [ none ↦ false | some g ↦ true ]

contains-append_one :
    (x : ℕ) (jobs : List Job) (j : Job)
    → contains x (ids_of (jobs ++ j ∷ [])) ≡ contains x (ids_of jobs) || j.id == x
contains-append_one x [] j = ground arith
contains-append_one x (i ∷ jobs) j = ground (arith, contains-append_one x jobs j)

-- `old` is the group of the rule, empty if there is none
insert-dropped :
    (j : Job) (old : List Job) (groups : Dict String (List Job)) (x : ℕ)
    → Filled groups
    → old ≡ get_or [] (lookup j.rule_name groups)
    → dropped (insert j.rule_name (old ++ j ∷ []) groups) x
      ≡ ((has_rule j.rule_name groups && j.id == x) || dropped groups x)
unfolding lookup insert
insert-dropped j old [] x f e = rw e (ground arith)
insert-dropped j old ((r, []) ∷ groups) x f e = ground (arith, f.0)
insert-dropped j old ((r, keep ∷ rest) ∷ groups) x f e =
    if_cases
      (λ gs. dropped gs x ≡ (
        (has_rule j.rule_name ((r, keep ∷ rest) ∷ groups) && j.id == x)
        || dropped ((r, keep ∷ rest) ∷ groups) x))
      (r == j.rule_name) _ _
      (λ hit.
        let same : old ≡ keep ∷ rest = ground (arith, hit, e) in
        rw same (ground (arith, hit, contains-append_one x rest j)))
      (λ miss.
        let e' : old ≡ get_or [] (lookup j.rule_name groups) = ground (arith, miss, e) in
        ground (arith, miss, insert-dropped j old groups x f.1 e'))

insert-tally :
    (j : Job) (old : List Job) (groups : Dict String (List Job))
    → Filled groups
    → old ≡ get_or [] (lookup j.rule_name groups)
    → tally (insert j.rule_name (old ++ j ∷ []) groups)
      ≡ (if has_rule j.rule_name groups then 1 else 0) + tally groups
unfolding lookup insert
insert-tally j old [] f e = rw e (ground arith)
insert-tally j old ((r, group) ∷ groups) f e =
    if_cases
      (λ gs.
        tally gs
        ≡ (if has_rule j.rule_name ((r, group) ∷ groups) then 1 else 0)
          + tally ((r, group) ∷ groups))
      (r == j.rule_name) _ _
      (λ hit.
        let same : old ≡ group = ground (arith, hit, e) in
        rw same (ground (arith, hit, length-append group (j ∷ []), f.0)))
      (λ miss.
        let e' : old ≡ get_or [] (lookup j.rule_name groups) = ground (arith, miss, e) in
        ground (arith, miss, insert-tally j old groups f.1 e'))

add_to_group-dropped :
    (j : Job) (groups : Dict String (List Job)) (x : ℕ)
    → Filled groups
    → dropped (add_to_group j groups) x
      ≡ ((has_rule j.rule_name groups && j.id == x) || dropped groups x)
unfolding add_to_group
add_to_group-dropped j groups x f = insert-dropped j _ groups x f refl

add_to_group-tally :
    (j : Job) (groups : Dict String (List Job))
    → Filled groups
    → tally (add_to_group j groups) ≡ (if has_rule j.rule_name groups then 1 else 0) + tally groups
unfolding add_to_group
add_to_group-tally j groups f = insert-tally j _ groups f refl

Filled-insert :
    (r : String) (g : List Job) (groups : Dict String (List Job))
    → 0 < length g
    → Filled groups
    → Filled (insert r g groups)
unfolding insert
Filled-insert r g [] p f = (p, tt)
Filled-insert r g ((s, h) ∷ groups) p f =
    if_cases Filled (s == r) _ _ (λ e. (p, f.1)) (λ e. (f.0, Filled-insert r g groups p f.1))

add_to_group-Filled :
    (j : Job) (groups : Dict String (List Job)) → Filled groups → Filled (add_to_group j groups)
unfolding add_to_group
add_to_group-Filled j groups f =
    Filled-insert j.rule_name _ groups
      (omega (arith, length-append (get_or [] (lookup j.rule_name groups)) (j ∷ []))) f

has_rule-add_to_group :
    (j : Job) (r : String) (groups : Dict String (List Job))
    → has_rule r (add_to_group j groups) ≡ (j.rule_name == r || has_rule r groups)
unfolding add_to_group
has_rule-add_to_group j r groups =
    ground
      (arith, lookup-insert j.rule_name r (get_or [] (lookup j.rule_name groups) ++ j ∷ []) groups)

-- `seen` holds the rules of the groups that are there
abbrev pub Knows : List String → Dict String (List Job) → Type 0
Knows seen groups = (r : String) → has_rule r groups ≡ contains r seen

pub group_by_rule-dropped :
    (seen : List String) (jobs : List Job) (groups : Dict String (List Job)) (x : ℕ)
    → Filled groups
    → Knows seen groups
    → dropped (group_by_rule jobs groups) x ≡ dropped groups x || drops_of seen jobs x
unfolding group_by_rule
group_by_rule-dropped seen [] groups x f k = ground arith
group_by_rule-dropped seen (j ∷ jobs) groups x f k =
    group_by_rule-dropped (j.rule_name ∷ seen) jobs (add_to_group j groups) x
      (add_to_group-Filled j groups f) (λ r. ground (arith, has_rule-add_to_group j r groups, k r))
    ∙ ground (arith, add_to_group-dropped j groups x f, k j.rule_name)

pub group_by_rule-tally :
    (seen : List String) (jobs : List Job) (groups : Dict String (List Job))
    → Filled groups
    → Knows seen groups
    → tally (group_by_rule jobs groups) ≡ tally groups + repeats seen jobs
unfolding group_by_rule
group_by_rule-tally seen [] groups f k = omega arith
group_by_rule-tally seen (j ∷ jobs) groups f k =
    let rest =
      group_by_rule-tally (j.rule_name ∷ seen) jobs (add_to_group j groups)
        (add_to_group-Filled j groups f)
        (λ r. ground (arith, has_rule-add_to_group j r groups, k r)) in
    ground (arith, rest, add_to_group-tally j groups f, k j.rule_name)

module _ (isoformat : ℕ → String) (now : ℕ) where
  pub compact_groups-tally :
      (groups : Dict String (List Job)) (jobs : List Job)
      → (compact_groups isoformat now groups jobs).1 ≡ tally groups
  unfolding compact_groups compact_group
  compact_groups-tally [] jobs = refl
  compact_groups-tally ((r, []) ∷ groups) jobs = omega (arith, compact_groups-tally groups jobs)
  compact_groups-tally ((r, keep ∷ []) ∷ groups) jobs =
      omega (arith, compact_groups-tally groups jobs)
  compact_groups-tally ((r, keep ∷ next ∷ rest) ∷ groups) jobs = omega (
    arith,
    compact_groups-tally groups (compact_group isoformat now r (keep ∷ next ∷ rest) jobs).0,
  )
