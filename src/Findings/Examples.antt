-- ===== src/Findings/Examples.antt =====
-- The theorem about the listing of findings at concrete ones.
use sentinel_home.Prelude.{
  ℕ, ◌≡◌, ◌↔◌, inl, inr, refl, true, false, none, some, List, [], ◌∷◌, arith, map, leb, select,
}
use sentinel_home.Models.{Finding, Database}
use sentinel_home.Queue.{order_by, put_in}
use sentinel_home.Findings.{Query, matches, list_findings}
use sentinel_home.Findings.Rows.{IsIn, IsWanted, IsNewestFirst, IsSorted}
use sentinel_home.Findings.Pages.{pages, pages-matches}

abbrev finding : ℕ → ℕ → Finding
finding id ts = record {
  id = id;
  job_id = none;
  ts = ts;
  source = "agent";
  rule_id = none;
  rule_name = none;
  device_id = none;
  severity = "low";
  confidence = "low";
  summary = "";
  reasoning = none;
  likely_cause = none;
  recommended_action = none;
  mitre_reference = none;
  needs_followup = false;
  followup_question = none;
  acknowledged = false;
  dismissed = false;
}

abbrev db : Database
db = record {
  available = true;
  rules = [];
  versions = [];
  patterns = [];
  jobs = [];
  findings =
      finding 1 10 ∷ record (finding 2 20) { severity = "high" } ∷ finding 3 30 ∷ finding 4 5 ∷ [];
  alerts = [];
  baselines = [];
  devices = [];
  events = [];
}

abbrev low : Query
low = record {
  severity = some "low";
  acknowledged = none;
  dismissed = some false;
  device_id = none;
  limit = some 50;
  offset = 0;
}

-- a database that sorts by insertion
abbrev sorted : ℕ → List Finding → List Finding
sorted k = order_by (λ f g. leb g.ts f.ts)

two_pages : map {B = ℕ} (λ (f : Finding). f.id) (pages sorted 2 low 2 0 db) ≡ 3 ∷ 1 ∷ 4 ∷ []
unfolding list_findings order_by put_in
two_pages = refl

-- the first two rows change places
swapped : (f a b : Finding) (rows : List Finding) → IsIn f (a ∷ b ∷ rows) → IsIn f (b ∷ a ∷ rows)
swapped f a b rows (inl e) = inr (inl e)
swapped f a b rows (inr (inl e)) = inl e
swapped f a b rows (inr (inr m)) = inr (inr m)

found-IsSorted :
    (k : ℕ)
    → IsSorted (select (matches low) db.findings) (sorted k (select (matches low) db.findings))
unfolding matches order_by put_in
found-IsSorted k = record {
  newest = ((omega arith, (omega arith, tt)), ((omega arith, tt), (tt, tt)));
  same_rows = λ f. (
    swapped f (finding 3 30) (finding 1 10) (finding 4 5 ∷ []),
    swapped f (finding 1 10) (finding 3 30) (finding 4 5 ∷ []),
  );
  same_length = refl;
}

pages-matches_example :
    ((f : Finding) → IsIn f (pages sorted 2 low 2 0 db) ↔ (IsIn f db.findings × IsWanted low f))
    × IsNewestFirst (pages sorted 2 low 2 0 db)
unfolding matches
pages-matches_example =
    pages-matches sorted low 2 db refl (omega arith) 2 found-IsSorted (omega arith)
