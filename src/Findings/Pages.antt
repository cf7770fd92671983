-- ===== src/Findings/Pages.antt =====
-- Going through the listing of sentinel_home/api/routes/findings.py page by page.
use sentinel_home.Prelude.{
  nat_eq, drop, ℕ, zero, suc, ◌+◌, ◌*◌, ◌≤◌, ◌≡◌, ◌↔◌, string_eq, refl, sym, ◌∙◌, ap, true, some,
  List, [], ◌∷◌, ◌++◌, arith, length, take, select, subst,
}
use sentinel_home.Models.{Finding, Database}
use sentinel_home.Findings.{Query, Answer, listed, found, matches, list_findings}
use sentinel_home.Findings.Rows.{
  IsIn, IsWanted, IsNewestFirst, IsSorted, matches-IsWanted, IsSorted-unique, IsIn-select,
}

-- the rows of an answer
abbrev pub rows_of : Answer → List Finding
rows_of (listed rows) = rows
rows_of _ = []

abbrev pub page : Query → (limit offset : ℕ) → Query
page q limit offset = record q { limit = some limit; offset = offset }

-- The pages of a listing from an offset on, one after the other. Each request may find another order:
-- `order k` is that of the one with the offset k.
abbrev pub pages :
    (order : ℕ → List Finding → List Finding) (count : ℕ)
    → Query
    → (limit offset : ℕ) → Database
    → List Finding
pages order zero q limit offset db = []
pages order (suc n) q limit offset db =
    rows_of (list_findings (order offset) (page q limit offset) db).1
    ++ pages order n q limit (offset + limit) db

module _ {A : Type 0} where
  drop_none : (n : ℕ) → drop {A = A} n [] ≡ []
  drop_none zero = refl
  drop_none (suc n) = refl

  take_none : (n : ℕ) → take {A = A} n [] ≡ []
  take_none zero = refl
  take_none (suc n) = refl

  drop_add : (n m : ℕ) (xs : List A) → drop m (drop n xs) ≡ drop (n + m) xs
  drop_add zero m xs = ap (λ k. drop k xs) (omega arith)
  drop_add (suc n) m [] = drop_none m ∙ sym (drop_none (suc n + m))
  drop_add (suc n) m (x ∷ xs) =
      let e : suc (n + m) ≡ suc n + m = omega arith in drop_add n m xs ∙ ap (λ k. drop k (x ∷ xs)) e

  take_add : (n m : ℕ) (xs : List A) → take n xs ++ take m (drop n xs) ≡ take (n + m) xs
  take_add zero m xs = ap (λ k. take k xs) (omega arith)
  take_add (suc n) m [] = take_none m ∙ sym (take_none (suc n + m))
  take_add (suc n) m (x ∷ xs) =
      let e : suc (n + m) ≡ suc n + m = omega arith in
      ap (λ ys. x ∷ ys) (take_add n m xs) ∙ ap (λ k. take k (x ∷ xs)) e

  take_whole : (n : ℕ) (xs : List A) → length xs ≤ n → take n xs ≡ xs
  take_whole zero [] h = refl
  take_whole zero (x ∷ xs) h = absurd (omega arith)
  take_whole (suc n) [] h = refl
  take_whole (suc n) (x ∷ xs) h = ap (λ ys. x ∷ ys) (take_whole n xs (omega arith))

module _ (order : ℕ → List Finding → List Finding) (q : Query) (limit : ℕ) (db : Database)
    (up : db.available ≡ true) (small : limit ≤ 500) where
  page_rows :
      (offset : ℕ)
      → rows_of (list_findings (order offset) (page q limit offset) db).1
        ≡ take limit (drop offset (found (order offset) q db))
  unfolding list_findings
  page_rows offset = ground (arith, up, small)

  pages-take :
      (whole : List Finding) (n offset : ℕ)
      → ((k : ℕ) → found (order k) q db ≡ whole)
      → pages order n q limit offset db ≡ take (n * limit) (drop offset whole)
  pages-take whole zero offset same =
      let none_left : 0 ≡ zero * limit = omega arith in
      ap (λ k. take k (drop offset whole)) none_left
  pages-take whole (suc n) offset same =
      let e : limit + n * limit ≡ suc n * limit = omega arith in
      rw
        (
          page_rows offset,
          same offset,
          pages-take whole n (offset + limit) same,
          sym (drop_add offset limit whole),
        )
        (take_add limit (n * limit) (drop offset whole) ∙ ap (λ k. take k (drop offset whole)) e)

  -- Pages of at most 500 findings, asked for one after the other from the start, hold, if there are
  -- enough of them, exactly the findings of the table that the parameters ask for, each newer than all that
  -- follow it, however the database orders the rows for each request. The database must answer, and no
  -- two of these findings may have the same time: the order of each request is then from the newest on.
  pub pages-matches :
      (n : ℕ)
      → ((k : ℕ)
          → IsSorted (select (matches q) db.findings) (order k (select (matches q) db.findings)))
      → length (select (matches q) db.findings) ≤ n * limit
      → ((f : Finding) → IsIn f (pages order n q limit 0 db) ↔ (IsIn f db.findings × IsWanted q f))
        × IsNewestFirst (pages order n q limit 0 db)
  unfolding found
  pages-matches n sorted enough =
      let rows = select (matches q) db.findings in
      let whole = found (order 0) q db in
      let first = sorted 0 in
      let size = first.same_length in
      let all_of : pages order n q limit 0 db ≡ whole =
        pages-take whole n 0
          (λ k. IsSorted-unique rows (found (order k) q db) whole (sorted k) first)
        ∙ take_whole (n * limit) whole (omega (arith, size, enough)) in
      (
        λ f. (
          λ m.
              let h =
                (IsIn-select (matches q) f db.findings).0
                  ((first.same_rows f).0 (subst (IsIn f) all_of m)) in
              (h.0, (matches-IsWanted q f).0 h.1),
          λ h. subst (IsIn f) (sym all_of) (
              (first.same_rows f).1
                ((IsIn-select (matches q) f db.findings).1 (h.0, (matches-IsWanted q f).1 h.1))),
        ),
        subst IsNewestFirst (sym all_of) first.newest,
      )
