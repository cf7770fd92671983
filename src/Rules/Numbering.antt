-- ===== src/Rules/Numbering.antt =====
-- The version numbers of a rule: `_snapshot_rule` counts on from the newest one.
use sentinel_home.Prelude.{
  ℕ, zero, suc, ◌+◌, String, ◌≡◌, refl, ◌∙◌, ap, not, List, [], ◌∷◌, ◌++◌, map, arith, length,
  select, max, Bool-cases, ◌==◌, nat_eq, if◌then◌else◌, length-append, inl, inr,
}
use sentinel_home.Models.{Rule, RuleVersion, Database, greatest}
use sentinel_home.Rules.{Request, serve_db, versions_of, snapshot, snapshot_rule}
use sentinel_home.Rules.Frame.{Effect, same, added, marked, tuned, removed, serve_db-Effect}

-- the version numbers of a rule, oldest first
abbrev pub numbers : ℕ → List RuleVersion → List ℕ
numbers id versions = map (λ (v : RuleVersion). v.version) (versions_of id versions)

-- 1, 2, …, n
abbrev pub count_up : ℕ → List ℕ
count_up zero = []
count_up (suc n) = count_up n ++ suc n ∷ []

abbrev pub IsNumbered : Database → Type 0
IsNumbered db = (id : ℕ) → numbers id db.versions ≡ count_up (length (numbers id db.versions))

-- the database after requests, each with its clock reading, in their order
abbrev pub serve_all : List (ℕ × Request) → Database → Database
serve_all [] db = db
serve_all ((now, request) ∷ rest) db = serve_all rest (serve_db now request db)

pub greatest-append_one : (ns : List ℕ) (n : ℕ) → greatest (ns ++ n ∷ []) ≡ max (greatest ns) n
greatest-append_one [] n = omega arith
greatest-append_one (m ∷ ns) n = omega (arith, greatest-append_one ns n)

greatest-count_up : (n : ℕ) → greatest (count_up n) ≡ n
greatest-count_up zero = refl
greatest-count_up (suc n) =
    omega (arith, greatest-append_one (count_up n) (suc n), greatest-count_up n)

pub numbers-append_one :
    (id : ℕ) (versions : List RuleVersion) (v : RuleVersion)
    → numbers id (versions ++ v ∷ [])
      ≡ (if v.rule_id == id then numbers id versions ++ v.version ∷ [] else numbers id versions)
numbers-append_one id [] v = ground arith
numbers-append_one id (u ∷ versions) v = ground (arith, numbers-append_one id versions v)

numbers-removed :
    (id other : ℕ) (versions : List RuleVersion)
    → numbers id (select (λ v. not (v.rule_id == other)) versions)
      ≡ (if other == id then [] else numbers id versions)
numbers-removed id other [] = ground arith
numbers-removed id other (v ∷ versions) = ground (arith, numbers-removed id other versions)

-- one more than the greatest of numbers in order carries them on
counts_on :
    (ns : List ℕ)
    → ns ≡ count_up (length ns)
    → ns ++ (greatest ns + 1) ∷ [] ≡ count_up (length (ns ++ (greatest ns + 1) ∷ []))
counts_on ns h =
    let top : greatest ns ≡ length ns = ap greatest h ∙ greatest-count_up (length ns) in
    let size : length (ns ++ (greatest ns + 1) ∷ []) ≡ suc (length ns) =
      omega (arith, length-append ns ((greatest ns + 1) ∷ [])) in
    let next : greatest ns + 1 ≡ suc (length ns) = omega arith in
    rw (size, next) (ap (λ ms. ms ++ suc (length ns) ∷ []) h)

pub IsNumbered-snapshot :
    (rule : Rule) (changed_by reason : String) (db : Database)
    → IsNumbered db
    → IsNumbered (snapshot_rule rule changed_by reason db)
unfolding snapshot
IsNumbered-snapshot rule changed_by reason db h id = elim (Bool-cases (rule.id == id)) [
  | inl own ↦
      let e : rule.id ≡ id = (nat_eq.decides rule.id id).0 own in
      rw (numbers-append_one id db.versions (snapshot rule changed_by reason db.versions), own, e)
        (counts_on (numbers id db.versions) (h id))
  | inr other ↦
      rw (numbers-append_one id db.versions (snapshot rule changed_by reason db.versions), other)
        (h id)
]

IsNumbered-Effect : {db db' : Database} → Effect db db' → IsNumbered db → IsNumbered db'
IsNumbered-Effect same h = h
IsNumbered-Effect (added name source body free own) h = h
IsNumbered-Effect (marked id f keeps) h = h
IsNumbered-Effect {db} (tuned id rule changed_by reason f keeps e) h =
    IsNumbered-snapshot rule changed_by reason db h
IsNumbered-Effect {db} (removed id rule e own) h = λ other. elim (Bool-cases (id == other)) [
  | inl gone ↦ rw (numbers-removed other id db.versions, gone) refl
  | inr kept ↦ rw (numbers-removed other id db.versions, kept) (h other)
]

-- Whatever the requests, the versions of every rule stay numbered 1, 2, 3 and so on in the order in
-- which they were made, without a gap or a repetition, if they were before.
pub serve_all-IsNumbered :
    (requests : List (ℕ × Request)) (db : Database)
    → IsNumbered db
    → IsNumbered (serve_all requests db)
serve_all-IsNumbered [] db h = h
serve_all-IsNumbered ((now, request) ∷ rest) db h =
    serve_all-IsNumbered rest (serve_db now request db)
      (IsNumbered-Effect (serve_db-Effect now request db) h)
