-- ===== src/Engine/Distinct.antt =====
-- The number of different ports among events, which `len(set(…))` in `_check_windowed` counts.
use sentinel_home.Prelude.{
  ℕ, ◌+◌, ◌≡◌, refl, sym, ap, subst, true, false, ◌||◌, List, [], ◌∷◌, arith, length, map, contains,
  Bool-cases, inl, inr, ◌==◌, if◌then◌else◌, none, some, string_eq,
}
use sentinel_home.Prelude.Dict.{lookup}
use sentinel_home.Models.{Value, value_eq}
use sentinel_home.Engine.State.{Entry}
use sentinel_home.Engine.Windows.{distinct_ports}

-- the port of an event; an event without one has the empty text
abbrev pub port_of : Entry → Value
port_of e = elim (lookup "dpt" e.fields) [ none ↦ Value.text "" | some v ↦ v ]

-- how many different values a list has: those that do not come again are counted
unfoldable pub different : List Value → ℕ
different [] = 0
different (v ∷ values) = (if contains v values then 0 else 1) + different values

-- the same without the values already seen
fresh : List Value → List Value → ℕ
fresh seen [] = 0
fresh seen (v ∷ values) =
    (if contains v seen || contains v values then 0 else 1) + fresh seen values

fresh-cons :
    (seen : List Value) (p : Value) (values : List Value)
    → contains p seen ≡ false
    → fresh seen values ≡ (if contains p values then 1 else 0) + fresh (p ∷ seen) values
unfolding fresh
fresh-cons seen p [] new = refl
fresh-cons seen p (q ∷ values) new = elim (Bool-cases (p == q)) [
  | inl hit ↦
      let same : p ≡ q = (value_eq.decides p q).0 hit in
      subst
        (λ v.
          fresh seen (v ∷ values)
          ≡ (if contains p (v ∷ values) then 1 else 0) + fresh (p ∷ seen) (v ∷ values))
        same (ground (arith, new, (value_eq.decides p p).1 refl, fresh-cons seen p values new))
  | inr other ↦ ground (
    arith,
    other,
    value_eq.decides q p,
    value_eq.decides p q,
    different_values p q other,
    fresh-cons seen p values new,
  )
]
  where
    different_values : (a b : Value) → (a == b) ≡ false → (b == a) ≡ false
    different_values a b ne = elim (Bool-cases (b == a)) [
      | inr miss ↦ miss
      | inl hit ↦
          let back : (a == b) ≡ true =
            (value_eq.decides a b).1 (sym ((value_eq.decides b a).0 hit)) in
          absurd (ground (arith, back, ne))
    ]

distinct_ports-fresh :
    (entries : List Entry) (seen : List Value)
    → distinct_ports entries seen ≡ length seen + fresh seen (map port_of entries)
unfolding distinct_ports fresh
distinct_ports-fresh [] seen = omega arith
distinct_ports-fresh (e ∷ entries) seen =
    let p = port_of e in
    elim (Bool-cases (contains p seen)) [
      | inl old ↦ rw old (omega (arith, distinct_ports-fresh entries seen))
      | inr new ↦ rw new (
          ground (
            arith,
            distinct_ports-fresh entries (p ∷ seen),
            fresh-cons seen p (map port_of entries) new,
          ))
    ]

fresh-nil : (values : List Value) → fresh [] values ≡ different values
unfolding fresh different
fresh-nil [] = refl
fresh-nil (v ∷ values) = ap (λ n. (if contains v values then 0 else 1) + n) (fresh-nil values)

pub distinct_ports-different :
    (entries : List Entry) → distinct_ports entries [] ≡ different (map port_of entries)
distinct_ports-different entries =
    let counted = distinct_ports-fresh entries [] in
    let same = fresh-nil (map port_of entries) in ground (arith, counted, same)
