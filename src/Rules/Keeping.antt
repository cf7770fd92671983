-- ===== src/Rules/Keeping.antt =====
-- Which rules stay: ids and names are keys, and no request removes a system rule.
use sentinel_home.Prelude.{
  ℕ, ◌<◌, String, ◌≡◌, ◌≢◌, refl, sym, ◌∙◌, ap, subst, Bool, false, not, some, List, [], ◌∷◌, ◌++◌,
  map, arith, All, select, first, any, update_where, Bool-cases, if_cases, ◌==◌, nat_eq, string_eq,
  if◌then◌else◌, inl, inr, Distinct, Distinct-append_one, Distinct-select, map-update_where,
  map-append_one, absent-All, select-append_one,
}
use sentinel_home.Models.{Rule, Database, greatest, next_id}
use sentinel_home.Rules.{Request, serve_db, find_rule, new_rule, set_rule}
use sentinel_home.Rules.Frame.{
  Effect, same, added, marked, tuned, removed, KeepsIdentity, serve_db-Effect,
}
use sentinel_home.Rules.Numbering.{serve_all}

abbrev pub id_of : Rule → ℕ
id_of r = r.id

abbrev name_of : Rule → String
name_of r = r.name

-- No two rules share an id or a name.
pub record HasKeys (rules : List Rule) : Type 0 where
  pub ids : Distinct (map id_of rules)
  pub names : Distinct (map name_of rules)

abbrev is_system : Rule → Bool
is_system r = r.source == "system"

-- the names of the system rules, in table order
abbrev pub system_rules : Database → List String
system_rules db = map name_of (select is_system db.rules)

All-below : (ns : List ℕ) (n : ℕ) → greatest ns < n → All (λ m. m ≢ n) ns
All-below [] n h = tt
All-below (m ∷ ns) n h = (λ e. omega arith, All-below ns n (omega arith))

HasKeys-added :
    (name source : String) (body : sentinel_home.Rules.Body) (rules : List Rule)
    → any (λ (r : Rule). r.name == name) rules ≡ false
    → HasKeys rules
    → HasKeys (rules ++ new_rule name source body rules ∷ [])
unfolding new_rule next_id
HasKeys-added name source body rules free h = record {
  ids =
      rw (map-append_one id_of rules (new_rule name source body rules)) (
        Distinct-append_one (map id_of rules) _ h.ids
          (All-below (map id_of rules) _ (omega arith)));
  names =
      rw (map-append_one name_of rules (new_rule name source body rules))
        (Distinct-append_one (map name_of rules) name h.names (absent-All name_of name rules free));
}

HasKeys-set :
    (id : ℕ) (f : Rule → Rule) (rules : List Rule)
    → KeepsIdentity f
    → HasKeys rules
    → HasKeys (update_where (λ r. r.id == id) f rules)
HasKeys-set id f rules keeps h = record {
  ids = rw (map-update_where id_of (λ r. r.id == id) f rules keeps.id) h.ids;
  names = rw (map-update_where name_of (λ r. r.id == id) f rules keeps.name) h.names;
}

HasKeys-Effect : {db db' : Database} → Effect db db' → HasKeys db.rules → HasKeys db'.rules
HasKeys-Effect same h = h
HasKeys-Effect {db} (added name source body free own) h =
    HasKeys-added name source body db.rules free h
HasKeys-Effect {db} (marked id f keeps) h = HasKeys-set id f db.rules keeps h
HasKeys-Effect {db} (tuned id rule changed_by reason f keeps e) h =
    HasKeys-set id f db.rules keeps h
HasKeys-Effect {db} (removed id rule e own) h = record {
  ids = Distinct-select id_of (λ r. not (r.id == id)) db.rules h.ids;
  names = Distinct-select name_of (λ r. not (r.id == id)) db.rules h.names;
}

system_rules-set :
    (id : ℕ) (f : Rule → Rule) (rules : List Rule)
    → KeepsIdentity f
    → map name_of (select is_system (update_where (λ r. r.id == id) f rules))
      ≡ map name_of (select is_system rules)
system_rules-set id f [] keeps = refl
system_rules-set id f (r ∷ rules) keeps =
    ground (arith, keeps.source r, keeps.name r, system_rules-set id f rules keeps)

-- A rule whose id no row has removes nothing.
remove_absent :
    (id : ℕ) (rules : List Rule)
    → All (λ n. id ≢ n) (map id_of rules)
    → select (λ r. not (r.id == id)) rules ≡ rules
remove_absent id [] h = refl
remove_absent id (r ∷ rules) h = ground (arith, h.0, remove_absent id rules h.1)

system_rules-removed :
    (id : ℕ) (rule : Rule) (rules : List Rule)
    → Distinct (map id_of rules)
    → first (λ r. r.id == id) rules ≡ some rule
    → rule.source ≢ "system"
    → select is_system (select (λ r. not (r.id == id)) rules) ≡ select is_system rules
system_rules-removed id rule [] d e own = refl
system_rules-removed id rule (r ∷ rules) d e own = elim (Bool-cases (r.id == id)) [
  | inr other ↦ rw other (
      let e' : first (λ r. r.id == id) rules ≡ some rule = ground (arith, other, e) in
      let rest = system_rules-removed id rule rules d.1 e' own in
      if_cases
        (λ rs. rs ≡ (if is_system r then r ∷ select is_system rules else select is_system rules))
        (is_system r) _ _ (λ s. rw (s, rest) refl) (λ s. rw (s, rest) refl))
  | inl hit ↦
      let found : r ≡ rule = ground (arith, hit, e) in
      let mine : r.source ≢ "system" = subst (λ (x : Rule). x.source ≢ "system") (sym found) own in
      let plain : is_system r ≡ false = ground (arith, string_eq.decides r.source "system", mine) in
      let others : All (λ n. id ≢ n) (map id_of rules) =
        subst (λ i. All (λ n. i ≢ n) (map id_of rules)) ((nat_eq.decides r.id id).0 hit) d.0 in
      rw (hit, plain) (ap (select is_system) (remove_absent id rules others))
]

system_rules-Effect :
    {db db' : Database} → Effect db db' → HasKeys db.rules → system_rules db' ≡ system_rules db
unfolding new_rule
system_rules-Effect same h = refl
system_rules-Effect {db} (added name source body free own) h =
    let plain : (source == "system") ≡ false =
      ground (arith, string_eq.decides source "system", own) in
    rw (select-append_one is_system db.rules (new_rule name source body db.rules), plain) refl
system_rules-Effect {db} (marked id f keeps) h = system_rules-set id f db.rules keeps
system_rules-Effect {db} (tuned id rule changed_by reason f keeps e) h =
    system_rules-set id f db.rules keeps
system_rules-Effect {db} (removed id rule e own) h =
    ap (map name_of) (system_rules-removed id rule db.rules h.ids e own)

-- Whatever the requests, ids and names of the rules stay without repetition, if they were before.
serve_all-HasKeys :
    (requests : List (ℕ × Request)) (db : Database)
    → HasKeys db.rules
    → HasKeys (serve_all requests db).rules
serve_all-HasKeys [] db h = h
serve_all-HasKeys ((now, request) ∷ rest) db h =
    serve_all-HasKeys rest (serve_db now request db)
      (HasKeys-Effect (serve_db-Effect now request db) h)

-- Whatever the requests, the system rules are the same ones afterwards, by name and in the same
-- order, if ids and names of the rules were without repetition: none is deleted, renamed or added.
pub serve_all-system_rules :
    (requests : List (ℕ × Request)) (db : Database)
    → HasKeys db.rules
    → system_rules (serve_all requests db) ≡ system_rules db
serve_all-system_rules [] db h = refl
serve_all-system_rules ((now, request) ∷ rest) db h =
    let effect = serve_db-Effect now request db in
    serve_all-system_rules rest (serve_db now request db) (HasKeys-Effect effect h)
    ∙ system_rules-Effect effect h
