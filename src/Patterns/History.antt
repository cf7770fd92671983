-- ===== src/Patterns/History.antt =====
-- What the versions of a pattern keep, over requests to sentinel_home/api/routes/patterns.py.
use sentinel_home.Prelude.{
  ℕ, String, string_eq, ◌≡◌, ◌≢◌, refl, sym, subst, Bool, false, not, some, List, [], ◌∷◌, ◌++◌,
  ◌⊎◌, inl, inr, arith, All, first, select, update_where, Bool-cases, if_cases, option_cases, ◌==◌,
  nat_eq,
}
use sentinel_home.Models.{Definition, get_or}
use sentinel_home.Patterns.{
  PatternRow, PatternVersion, PatternStore, PatternBody, Answer, PatternRequest, reading, creation,
  update, deletion, find_pattern, with_pattern, get_pattern, apply_body, snapshot, update_pattern,
  delete_pattern, serve,
}
use sentinel_home.Patterns.Creation.{create_pattern-IsCreated}

-- `P` holds of a row of the list.
abbrev pub Some {ℓ} : {A : Type ℓ} → (A → Type 0) → List A → Type 0
Some P [] = ⊥
Some P (x ∷ xs) = P x ⊎ Some P xs

-- what a version saves of a pattern
abbrev pub Contents : Type 0
Contents = Definition × ℕ × String

abbrev pub contents : PatternRow → Contents
contents p = (p.definition, p.confidence, p.scope)

abbrev IsVersion : ℕ → Contents → PatternVersion → Type 0
IsVersion id c v = (v.pattern_id ≡ id) × ((v.definition, v.confidence, v.scope) ≡ c)

-- The pattern is there, and its contents or one of its versions are the given ones.
abbrev pub Remembers : ℕ → Contents → PatternStore → Type 0
Remembers id c s =
    (p : PatternRow) × (find_pattern id s ≡ some p)
    × ((contents p ≡ c) ⊎ Some (IsVersion id c) s.versions)

-- requests after each other; with each, whether the database answers
abbrev pub serve_all : List (Bool × PatternRequest) → PatternStore → PatternStore
serve_all [] s = s
serve_all ((up, request) ∷ rest) s = serve_all rest (serve request (record s { available = up })).0

abbrev pub Spares : ℕ → Bool × PatternRequest → Type 0
Spares id (up, deletion other) = other ≢ id
Spares id (up, request) = Unit

first-append :
    (id : ℕ) (ps : List PatternRow) (q p : PatternRow)
    → first (λ (r : PatternRow). r.id == id) ps ≡ some p
    → first (λ (r : PatternRow). r.id == id) (ps ++ q ∷ []) ≡ some p
first-append id [] q p h = ground (arith, h)
first-append id (r ∷ ps) q p h = ground (arith, h, first-append id ps q p)

first-select :
    (id other : ℕ) (ps : List PatternRow) (p : PatternRow)
    → other ≢ id
    → first (λ (r : PatternRow). r.id == id) ps ≡ some p
    → first (λ (r : PatternRow). r.id == id) (select (λ r. not (r.id == other)) ps) ≡ some p
first-select id other [] p ne h = ground (arith, h)
first-select id other (r ∷ ps) p ne h = ground (arith, h, ne, first-select id other ps p ne)

first-update :
    (id : ℕ) (body : PatternBody) (ps : List PatternRow) (p : PatternRow)
    → first (λ (r : PatternRow). r.id == id) ps ≡ some p
    → first (λ (r : PatternRow). r.id == id) (update_where (λ r. r.id == id) (apply_body body) ps)
      ≡ some (apply_body body p)
unfolding apply_body
first-update id body [] p h = ground (arith, h)
first-update id body (r ∷ ps) p h = ground (arith, h, first-update id body ps p)

first-update_other :
    (id other : ℕ) (body : PatternBody) (ps : List PatternRow) (p : PatternRow)
    → other ≢ id
    → first (λ (r : PatternRow). r.id == id) ps ≡ some p
    → first
        (λ (r : PatternRow). r.id == id)
        (update_where (λ r. r.id == other) (apply_body body) ps)
      ≡ some p
unfolding apply_body
first-update_other id other body [] p ne h = ground (arith, h)
first-update_other id other body (r ∷ ps) p ne h =
    ground (arith, h, ne, first-update_other id other body ps p ne)

Some-append :
    (P : PatternVersion → Type 0) (vs : List PatternVersion) (v : PatternVersion)
    → Some P vs
    → Some P (vs ++ v ∷ [])
Some-append P [] v h = absurd h
Some-append P (u ∷ vs) v (inl h) = inl h
Some-append P (u ∷ vs) v (inr h) = inr (Some-append P vs v h)

Some-last :
    (P : PatternVersion → Type 0) (vs : List PatternVersion) (v : PatternVersion)
    → P v
    → Some P (vs ++ v ∷ [])
Some-last P [] v h = inl h
Some-last P (u ∷ vs) v h = inr (Some-last P vs v h)

Some-select :
    (id other : ℕ) (c : Contents) (vs : List PatternVersion)
    → other ≢ id
    → Some (IsVersion id c) vs
    → Some (IsVersion id c) (select (λ v. not (v.pattern_id == other)) vs)
Some-select id other c [] ne h = absurd h
Some-select id other c (v ∷ vs) ne (inl h) =
    let kept : (v.pattern_id == other) ≡ false =
      ground (arith, nat_eq.decides v.pattern_id other, h.0, ne) in
    rw kept (inl h)
Some-select id other c (v ∷ vs) ne (inr h) =
    let rest = Some-select id other c vs ne h in
    if_cases (Some (IsVersion id c)) (not (v.pattern_id == other)) _ _ (λ e. inr rest) (λ e. rest)

first-found :
    (id : ℕ) (ps : List PatternRow) (p : PatternRow)
    → first (λ (r : PatternRow). r.id == id) ps ≡ some p
    → p.id ≡ id
first-found id [] p h = ground (arith, h)
first-found id (r ∷ ps) p h = elim (Bool-cases (r.id == id)) [
  | inl own ↦ ground (arith, h, own, nat_eq.decides r.id id)
  | inr other ↦ first-found id ps p (ground (arith, h, other))
]

with_pattern-cases :
    (P : PatternStore → Type 0) (id : ℕ) (s : PatternStore)
    (act : PatternRow → PatternStore × Answer)
    → P s
    → ((p : PatternRow) → find_pattern id s ≡ some p → P (act p).0)
    → P (with_pattern id s act).0
unfolding with_pattern
with_pattern-cases P id s act kept acted =
    if_cases (λ (r : PatternStore × Answer). P r.0) (not s.available) _ _ (λ down. kept)
      (λ up.
        option_cases (λ (r : PatternStore × Answer). P r.0) (find_pattern id s) _ act
          (λ absent. kept) acted)

module _ (id : ℕ) (c : Contents) (s : PatternStore) (h : Remembers id c s) where
  updated-Remembers :
      (body : PatternBody) (changed_by reason : String) (q : PatternRow)
      → find_pattern id s ≡ some q
      → Remembers id c (record s {
        patterns = update_where (λ p. p.id == id) (apply_body body) s.patterns;
        versions = s.versions ++ snapshot q changed_by reason s.versions ∷ [];
      })
  unfolding snapshot
  updated-Remembers body changed_by reason q found =
      let same : h.0 ≡ q = cc in
      let saved : contents h.0 ≡ c → contents q ≡ c = λ e. subst (λ p. contents p ≡ c) same e in
      (
        apply_body body q,
        first-update id body s.patterns q found,
        elim h.2 [
          | inl now ↦ inr (
              Some-last (IsVersion id c) s.versions _
                (first-found id s.patterns q found, saved now))
          | inr before ↦ inr (Some-append (IsVersion id c) s.versions _ before)
        ],
      )

  update-Remembers :
      (other : ℕ) (body : PatternBody) → Remembers id c (update_pattern other body s).0
  unfolding update_pattern
  update-Remembers other body =
      let changed_by = get_or "agent" body.changed_by in
      let reason = get_or "" body.change_reason in
      with_pattern-cases (Remembers id c) other s _ h (λ q found. elim (Bool-cases (other == id)) [
        | inl own ↦
            let e : other ≡ id = (nat_eq.decides other id).0 own in
            rw e (updated-Remembers body changed_by reason q (rw (sym e) found))
        | inr apart ↦
            let ne : other ≢ id = λ e. ground (arith, nat_eq.decides other id, e, apart) in
            (
              h.0,
              first-update_other id other body s.patterns h.0 ne h.1,
              elim h.2 [
                | inl now ↦ inl now
                | inr before ↦ inr (Some-append (IsVersion id c) s.versions _ before)
              ],
            )
      ])

  delete-Remembers : (other : ℕ) → other ≢ id → Remembers id c (delete_pattern other s).0
  unfolding delete_pattern
  delete-Remembers other ne = with_pattern-cases (Remembers id c) other s _ h (λ q found. (
    h.0,
    first-select id other s.patterns h.0 ne h.1,
    elim h.2 [ inl now ↦ inl now | inr before ↦ inr (Some-select id other c s.versions ne before) ],
  ))

  serve-Remembers :
      (up : Bool) (request : PatternRequest)
      → Spares id (up, request)
      → Remembers id c (serve request s).0
  unfolding serve get_pattern
  serve-Remembers up (reading other) spared =
      with_pattern-cases (Remembers id c) other s (λ p. (s, Answer.shown p)) h (λ q found. h)
  serve-Remembers up (creation body) spared = elim (create_pattern-IsCreated body s) [
    | inl bad ↦ subst (Remembers id c) (sym bad.3) h
    | inr made ↦
        subst (Remembers id c) (sym made.3) (h.0, first-append id s.patterns made.0 h.0 h.1, h.2)
  ]
  serve-Remembers up (update other body) spared = update-Remembers other body
  serve-Remembers up (deletion other) spared = delete-Remembers other spared

-- Whatever the requests are, and while the database answers or not, as long as none of them deletes the
-- pattern: the definition, confidence and scope that it has now are afterwards still its own or those of
-- one of its versions.
pub serve_all-Remembers :
    (requests : List (Bool × PatternRequest)) (s : PatternStore) (id : ℕ) (p : PatternRow)
    → find_pattern id s ≡ some p
    → All (Spares id) requests
    → Remembers id (contents p) (serve_all requests s)
serve_all-Remembers requests s id p found spared = go requests s spared (p, found, inl refl)
  where
    go :
        (requests : List (Bool × PatternRequest)) (s : PatternStore)
        → All (Spares id) requests
        → Remembers id (contents p) s
        → Remembers id (contents p) (serve_all requests s)
    go [] s spared h = h
    go ((up, request) ∷ rest) s spared h =
        let t : PatternStore = record s { available = up } in
        go rest (serve request t).0 spared.1
          (serve-Remembers id (contents p) t h up request spared.0)
