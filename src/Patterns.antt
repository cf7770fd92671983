-- ===== src/Patterns.antt =====
-- sentinel_home/api/routes/patterns.py: the endpoints of the learned patterns. A handler answers with
-- a payload or an HTTP error and returns the tables it leaves; a session that raises makes it answer
-- 500. The times of a row are left out, and with them the listing that they order.
pub mod Creation
pub mod History
pub mod Suppression
mod Examples
use sentinel_home.Prelude.{
  ℕ, ◌+◌, String, Bool, not, ◌||◌, Option, none, some, List, [], ◌∷◌, ◌++◌, map, first, any, select,
  update_where, truthy, ◌==◌, nat_eq, string_eq, if◌then◌else◌,
}
use sentinel_home.Models.{Definition, Pattern, greatest, next_id, get_or}

-- A row of `patterns`. Of a definition the keys that the rule engine reads; the confidence counts
-- hundredths.
pub record PatternRow : Type 0 where
  pub id : ℕ
  pub name : String
  pub pattern_type : String
  pub scope : String
  pub definition : Definition
  pub confidence : ℕ
  pub sample_count : ℕ
  pub created_by : String
  pub notes : Option String

pub record PatternVersion : Type 0 where
  pub pattern_id : ℕ
  pub version : ℕ
  pub definition : Definition
  pub confidence : ℕ
  pub scope : String
  pub changed_by : String
  pub change_reason : String

-- the two tables; `available` is false while every session raises
pub record PatternStore : Type 0 where
  pub available : Bool
  pub patterns : List PatternRow
  pub versions : List PatternVersion

-- The keys of the request bodies; `none` is an absent key. `notes` may be there and null.
pub record PatternBody : Type 0 where
  pub name : Option String
  pub pattern_type : Option String
  pub scope : Option String
  pub definition : Option Definition
  pub confidence : Option ℕ
  pub sample_count : Option ℕ
  pub created_by : Option String
  pub notes : Option (Option String)
  pub changed_by : Option String
  pub change_reason : Option String

-- an answer: the row of the payload, the id that it carries, or the status and code of an error
pub data Answer : Type 0 where
  shown : PatternRow → Answer
  answered : ℕ → Answer
  refused : ℕ → String → Answer

abbrev pub find_pattern : ℕ → PatternStore → Option PatternRow
find_pattern id s = first (λ p. p.id == id) s.patterns

unfoldable pub with_pattern :
    ℕ → PatternStore → (PatternRow → PatternStore × Answer) → PatternStore × Answer
with_pattern id s act =
    if not s.available
    then (s, refused 500 "")
    else elim (find_pattern id s) [ none ↦ (s, refused 404 "NOT_FOUND") | some p ↦ act p ]

unfoldable pub get_pattern : ℕ → PatternStore → PatternStore × Answer
unfolding with_pattern
get_pattern id s = with_pattern id s (λ p. (s, shown p))

abbrev pub no_definition : Definition
no_definition = record { event_type = none; source = none }

unfoldable pub new_pattern : String → String → PatternBody → List PatternRow → PatternRow
new_pattern name pattern_type body rows = record {
  id = next_id (λ (p : PatternRow). p.id) rows;
  name = name;
  pattern_type = pattern_type;
  scope = get_or "*" body.scope;
  definition = get_or no_definition body.definition;
  confidence = get_or 50 body.confidence;
  sample_count = get_or 0 body.sample_count;
  created_by = get_or "agent" body.created_by;
  notes = get_or none body.notes;
}

abbrev pub is_pattern_type : String → Bool
is_pattern_type t = t == "baseline" || (t == "suppression" || t == "watchlist")

-- the session of `create_pattern`
unfoldable pub add_pattern : PatternRow → PatternStore → PatternStore × Answer
add_pattern p s =
    if not s.available
    then (s, refused 500 "")
    else if any (λ (q : PatternRow). q.name == p.name) s.patterns
    then (s, refused 409 "CONFLICT")
    else (record s { patterns = s.patterns ++ p ∷ [] }, answered p.id)

-- `create_pattern` once the name is known
unfoldable pub create_named : String → PatternBody → PatternStore → PatternStore × Answer
unfolding new_pattern add_pattern
create_named name body s =
    let pattern_type = get_or "baseline" body.pattern_type in
    if is_pattern_type pattern_type
    then add_pattern (new_pattern name pattern_type body s.patterns) s
    else (s, refused 400 "BAD_REQUEST")

unfoldable pub create_pattern : PatternBody → PatternStore → PatternStore × Answer
unfolding create_named
create_pattern body s = elim body.name [
  | none ↦ (s, refused 400 "BAD_REQUEST")
  | some name ↦ if truthy name then create_named name body s else (s, refused 400 "BAD_REQUEST")
]

abbrev pub versions_of : ℕ → List PatternVersion → List PatternVersion
versions_of id = select (λ v. v.pattern_id == id)

unfoldable pub snapshot : PatternRow → String → String → List PatternVersion → PatternVersion
snapshot p changed_by reason versions = record {
  pattern_id = p.id;
  version = greatest (map (λ (v : PatternVersion). v.version) (versions_of p.id versions)) + 1;
  definition = p.definition;
  confidence = p.confidence;
  scope = p.scope;
  changed_by = changed_by;
  change_reason = reason;
}

-- the writes of an update
unfoldable pub apply_body : PatternBody → PatternRow → PatternRow
apply_body body p = record p {
  definition = get_or p.definition body.definition;
  confidence = get_or p.confidence body.confidence;
  scope = get_or p.scope body.scope;
  sample_count = get_or p.sample_count body.sample_count;
  notes = get_or p.notes body.notes;
}

unfoldable pub update_pattern : ℕ → PatternBody → PatternStore → PatternStore × Answer
unfolding with_pattern apply_body snapshot
update_pattern id body s = with_pattern id s (λ p. (
  record s {
    patterns = update_where (λ q. q.id == id) (apply_body body) s.patterns;
    versions =
        s.versions
        ++ snapshot p (get_or "agent" body.changed_by) (get_or "" body.change_reason) s.versions
          ∷ [];
  },
  answered id,
))

-- The versions of a pattern go with it.
unfoldable pub delete_pattern : ℕ → PatternStore → PatternStore × Answer
unfolding with_pattern
delete_pattern id s = with_pattern id s (λ p. (
  record s {
    patterns = select (λ q. not (q.id == id)) s.patterns;
    versions = select (λ v. not (v.pattern_id == id)) s.versions;
  },
  answered id,
))

-- the row as the rule engine reads it
abbrev pub pattern_of : PatternRow → Pattern
pattern_of p = record { pattern_type = p.pattern_type; scope = p.scope; definition = p.definition }

pub data PatternRequest : Type 0 where
  reading : ℕ → PatternRequest
  creation : PatternBody → PatternRequest
  update : ℕ → PatternBody → PatternRequest
  deletion : ℕ → PatternRequest

unfoldable pub serve : PatternRequest → PatternStore → PatternStore × Answer
unfolding get_pattern create_pattern update_pattern delete_pattern
serve (reading id) s = get_pattern id s
serve (creation body) s = create_pattern body s
serve (update id body) s = update_pattern id body s
serve (deletion id) s = delete_pattern id s
