-- ===== src/Findings.antt =====
-- sentinel_home/api/routes/findings.py: the endpoints of the findings. A session that raises makes a
-- handler answer 500.
pub mod Rows
pub mod Pages
mod Examples
use sentinel_home.Prelude.{
  drop, ℕ, zero, suc, String, Bool, true, false, not, ◌&&◌, ◌||◌, Option, none, some, List, [], ◌∷◌,
  length, map, take, first, select, update_where, truthy, ltb, ◌==◌, nat_eq, string_eq,
  if◌then◌else◌,
}
use sentinel_home.Models.{Finding, Database}

-- a payload: rows, how many there are, or that the write is done; or the status of an error
pub record Summary : Type 0 where
  pub total : ℕ
  pub by_severity : List (String × ℕ)
  pub unacknowledged : ℕ

pub data Answer : Type 0 where
  listed : List Finding → Answer
  summed : Summary → Answer
  done : Answer
  refused : ℕ → Answer

-- The parameters of the listing. A negative limit, which the bound of 500 lets pass, is `none`: SQLite
-- takes it for no limit.
pub record Query : Type 0 where
  pub severity : Option String
  pub acknowledged : Option Bool
  pub dismissed : Option Bool
  pub device_id : Option String
  pub limit : Option ℕ
  pub offset : ℕ

abbrev pub same_bool : Bool → Bool → Bool
same_bool true b = b
same_bool false b = not b

-- `if wanted: q = q.filter(column == wanted)`, and the same for `is not None`
abbrev pub allows_text : Option String → Option String → Bool
allows_text none column = true
allows_text (some wanted) none = not (truthy wanted)
allows_text (some wanted) (some s) = not (truthy wanted) || s == wanted

abbrev pub allows_bool : Option Bool → Bool → Bool
allows_bool none column = true
allows_bool (some wanted) column = same_bool wanted column

unfoldable pub matches : Query → Finding → Bool
matches q f =
    allows_text q.severity (some f.severity)
    && (allows_bool q.acknowledged f.acknowledged
        && (allows_bool q.dismissed f.dismissed && allows_text q.device_id f.device_id))

abbrev pub cut_to : Option ℕ → List Finding → List Finding
cut_to none rows = rows
cut_to (some n) rows = take n rows

abbrev is_too_high : Option ℕ → Bool
is_too_high none = false
is_too_high (some n) = ltb 500 n

-- The rows of a listing before it is cut to a page. `order` is what the database makes of
-- `order_by(Finding.ts.desc())`, which leaves open how rows of the same time follow each other.
unfoldable pub found : (order : List Finding → List Finding) → Query → Database → List Finding
unfolding matches
found order q db = order (select (matches q) db.findings)

unfoldable pub list_findings :
    (order : List Finding → List Finding) → Query → Database → Database × Answer
unfolding found
list_findings order q db =
    if is_too_high q.limit
    then (db, refused 422)
    else if not db.available
    then (db, refused 500)
    else (db, listed (cut_to q.limit (drop q.offset (found order q db))))

abbrev pub count : (Finding → Bool) → List Finding → ℕ
count p rows = length (select p rows)

abbrev pub is_unseen : Finding → Bool
is_unseen f = not f.acknowledged && not f.dismissed

unfoldable pub get_findings_summary : Database → Database × Answer
get_findings_summary db =
    let rows = db.findings in
    if not db.available then (db, refused 500) else (
      db,
      summed (record {
        total = length rows;
        by_severity =
            map (λ s. (s, count (λ f. f.severity == s) rows))
              ("low" ∷ "medium" ∷ "high" ∷ "critical" ∷ []);
        unacknowledged = count is_unseen rows;
      }),
    )

unfoldable pub with_finding : ℕ → (Finding → Finding) → Database → Database × Answer
with_finding id write db =
    if not db.available
    then (db, refused 500)
    else elim (first (λ (f : Finding). f.id == id) db.findings) [
      | none ↦ (db, refused 404)
      | some f ↦ (
        record db { findings = update_where (λ (f : Finding). f.id == id) write db.findings },
        done,
      )
    ]

unfoldable pub acknowledge_finding : ℕ → Database → Database × Answer
unfolding with_finding
acknowledge_finding id = with_finding id (λ f. record f { acknowledged = true })

unfoldable pub dismiss_finding : ℕ → Database → Database × Answer
unfolding with_finding
dismiss_finding id = with_finding id (λ f. record f { dismissed = true })
