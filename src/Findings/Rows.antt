-- ===== src/Findings/Rows.antt =====
-- The rows that sentinel_home/api/routes/findings.py lists: which they are, and in which order.
use sentinel_home.Prelude.{
  nat_eq, ◌<◌, ◌≡◌, ◌≢◌, ◌↔◌, Option, String, none, false, string_eq, ◌==◌, ◌⊎◌, inl, inr, refl,
  sym, ◌∙◌, ap, Bool, true, some, List, [], ◌∷◌, arith, All, length, select, subst, Bool-cases,
}
use sentinel_home.Models.{Finding}
use sentinel_home.Findings.{Query, matches, allows_text, allows_bool}

abbrev pub IsIn : Finding → List Finding → Type 0
IsIn f [] = ⊥
IsIn f (g ∷ rows) = (f ≡ g) ⊎ IsIn f rows

-- every finding is newer than those after it
abbrev pub IsNewestFirst : List Finding → Type 0
IsNewestFirst [] = Unit
IsNewestFirst (f ∷ rows) = All (λ g. g.ts < f.ts) rows × IsNewestFirst rows

-- a filter on a text that is given and not empty asks for that text
abbrev pub Asks : Option String → Option String → Type 0
Asks wanted column = (s : String) → wanted ≡ some s → s ≢ "" → column ≡ some s

-- the findings that the parameters of the listing ask for
pub record IsWanted (q : Query) (f : Finding) : Type 0 where
  pub severity : Asks q.severity (some f.severity)
  pub acknowledged : (b : Bool) → q.acknowledged ≡ some b → f.acknowledged ≡ b
  pub dismissed : (b : Bool) → q.dismissed ≡ some b → f.dismissed ≡ b
  pub device_id : Asks q.device_id f.device_id

allows_text-Asks :
    (wanted column : Option String) → (allows_text wanted column ≡ true) ↔ Asks wanted column
allows_text-Asks none column = (λ h s e n. absurd (ground (arith, e)), λ h. refl)
allows_text-Asks (some w) none = (
  λ h s e n.
      let same : w ≡ s = ground (arith, e) in
      absurd (ground (arith, h, same, n, string_eq.decides s "")),
  λ h. elim (Bool-cases (w == "")) [
    | inl empty ↦ rw empty refl
    | inr full ↦
        let c : none ≡ some w = h w refl (λ e. ground (arith, full, string_eq.decides w "", e)) in
        absurd (ground (arith, c))
  ],
)
allows_text-Asks (some w) (some c) = (
  λ h s e n.
      let same : w ≡ s = ground (arith, e) in
      ap some (elim (Bool-cases (c == w)) [
        | inl hit ↦ (string_eq.decides c w).0 hit ∙ same
        | inr miss ↦ absurd (ground (arith, h, miss, same, n, string_eq.decides s ""))
      ]),
  λ h. elim (Bool-cases (w == "")) [
    | inl empty ↦ rw empty refl
    | inr full ↦
        let e : some c ≡ some w = h w refl (λ e. ground (arith, full, string_eq.decides w "", e)) in
        let same : c ≡ w = ground (arith, e) in ground (arith, full, (string_eq.decides c w).1 same)
  ],
)

allows_bool-asks :
    (wanted : Option Bool) (column : Bool)
    → (allows_bool wanted column ≡ true) ↔ ((b : Bool) → wanted ≡ some b → column ≡ b)
allows_bool-asks none column = (λ h b e. absurd (ground (arith, e)), λ h. refl)
allows_bool-asks (some true) column = (λ h b e. ground (arith, h, e), λ h. h true refl)
allows_bool-asks (some false) column =
    (λ h b e. ground (arith, h, e), λ h. let c = h false refl in ground (arith, c))

pub matches-IsWanted : (q : Query) (f : Finding) → (matches q f ≡ true) ↔ IsWanted q f
unfolding matches
matches-IsWanted q f =
    let severity = allows_text-Asks q.severity (some f.severity) in
    let device = allows_text-Asks q.device_id f.device_id in
    let seen = allows_bool-asks q.acknowledged f.acknowledged in
    let gone = allows_bool-asks q.dismissed f.dismissed in
    (
      λ h. record {
        severity = severity.0 (ground (arith, h));
        acknowledged = seen.0 (ground (arith, h));
        dismissed = gone.0 (ground (arith, h));
        device_id = device.0 (ground (arith, h));
      },
      λ w.
          let a = severity.1 w.severity in
          let b = seen.1 w.acknowledged in
          let c = gone.1 w.dismissed in let d = device.1 w.device_id in ground (arith, a, b, c, d),
    )

-- what `ORDER BY ts DESC` says of rows no two of which have the same time
pub record IsSorted (rows sorted : List Finding) : Type 0 where
  pub newest : IsNewestFirst sorted
  pub same_rows : (f : Finding) → IsIn f sorted ↔ IsIn f rows
  pub same_length : length sorted ≡ length rows

All-IsIn :
    (P : Finding → Type 0) (f : Finding) (rows : List Finding) → All P rows → IsIn f rows → P f
All-IsIn P f [] h m = absurd m
All-IsIn P f (g ∷ rows) h (inl e) = subst P (sym e) h.0
All-IsIn P f (g ∷ rows) h (inr m) = All-IsIn P f rows h.1 m

-- a finding of the tail is older than the head
older_tail :
    (f g : Finding) (rows : List Finding) → All (λ k. k.ts < g.ts) rows → IsIn f rows → f.ts < g.ts
older_tail f g rows h m = All-IsIn (λ k. k.ts < g.ts) f rows h m

same_head :
    (f g : Finding) (xs ys : List Finding)
    → IsNewestFirst (f ∷ xs)
    → IsNewestFirst (g ∷ ys)
    → IsIn f (g ∷ ys)
    → IsIn g (f ∷ xs)
    → f ≡ g
same_head f g xs ys x y (inl e) n = e
same_head f g xs ys x y (inr m) (inl e) = sym e
same_head f g xs ys x y (inr m) (inr n) =
    absurd (omega (arith, older_tail f g ys y.0 m, older_tail g f xs x.0 n))

into_tail :
    (f g k : Finding) (xs ys : List Finding)
    → f ≡ g
    → IsNewestFirst (f ∷ xs)
    → IsIn k xs
    → IsIn k (g ∷ ys)
    → IsIn k ys
into_tail f g k xs ys e x m (inr n) = n
into_tail f g k xs ys e x m (inl here) =
    let time : k.ts ≡ f.ts = ap (λ (l : Finding). l.ts) (here ∙ sym e) in
    absurd (omega (arith, time, older_tail k f xs x.0 m))

-- two such lists of the same findings are the same
IsNewestFirst-unique :
    (xs ys : List Finding)
    → IsNewestFirst xs
    → IsNewestFirst ys
    → ((f : Finding) → IsIn f xs → IsIn f ys)
    → ((f : Finding) → IsIn f ys → IsIn f xs)
    → xs ≡ ys
IsNewestFirst-unique [] [] x y to from = refl
IsNewestFirst-unique [] (g ∷ ys) x y to from = absurd (from g (inl refl))
IsNewestFirst-unique (f ∷ xs) [] x y to from = absurd (to f (inl refl))
IsNewestFirst-unique (f ∷ xs) (g ∷ ys) x y to from =
    let e = same_head f g xs ys x y (to f (inl refl)) (from g (inl refl)) in
    let rest =
      IsNewestFirst-unique xs ys x.1 y.1 (λ k m. into_tail f g k xs ys e x m (to k (inr m)))
        (λ k m. into_tail g f k ys xs (sym e) y m (from k (inr m))) in
    ap (λ h. h ∷ xs) e ∙ ap (λ t. g ∷ t) rest

pub IsSorted-unique : (rows xs ys : List Finding) → IsSorted rows xs → IsSorted rows ys → xs ≡ ys
IsSorted-unique rows xs ys x y =
    IsNewestFirst-unique xs ys x.newest y.newest (λ f m. (y.same_rows f).1 ((x.same_rows f).0 m))
      (λ f m. (x.same_rows f).1 ((y.same_rows f).0 m))

pub IsIn-select :
    (p : Finding → Bool) (f : Finding) (rows : List Finding)
    → IsIn f (select p rows) ↔ (IsIn f rows × (p f ≡ true))
IsIn-select p f [] = (λ m. absurd m, λ h. absurd h.0)
IsIn-select p f (g ∷ rows) =
    let (to, from) = IsIn-select p f rows in
    elim (Bool-cases (p g)) [
      | inl kept ↦ rw kept (
        (λ m. elim m [ inl e ↦ (inl e, ap p e ∙ kept) | inr n ↦ (inr (to n).0, (to n).1) ]),
        λ h. elim h.0 [ inl e ↦ inl e | inr n ↦ inr (from (n, h.1)) ],
      )
      | inr left ↦ rw left (
        λ m. (inr (to m).0, (to m).1),
        λ h. elim h.0 [
          | inl e ↦ absurd (ground (arith, sym (ap p e) ∙ h.1, left))
          | inr n ↦ from (n, h.1)
        ],
      )
    ]
