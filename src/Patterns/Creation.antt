-- ===== src/Patterns/Creation.antt =====
-- What a request for a new pattern leaves (sentinel_home/api/routes/patterns.py).
use sentinel_home.Prelude.{
  ℕ, String, string_eq, ◌≡◌, refl, Bool, true, false, not, [], ◌∷◌, ◌++◌, ◌⊎◌, inl, inr, any,
  truthy, option_cases, ◌==◌, if◌then◌else◌,
}
use sentinel_home.Models.{get_or}
use sentinel_home.Patterns.{
  PatternRow, PatternStore, PatternBody, Answer, answered, refused, no_definition, is_pattern_type,
  new_pattern, add_pattern, create_named, create_pattern,
}

-- a new row with the keys of the body
pub record IsNew (body : PatternBody) (p : PatternRow) : Type 0 where
  pub pattern_type : p.pattern_type ≡ get_or "baseline" body.pattern_type
  pub scope : p.scope ≡ get_or "*" body.scope
  pub definition : p.definition ≡ get_or no_definition body.definition

-- what a creation leaves: the tables as they were and an error, or one row more and its id
abbrev pub IsCreated : PatternBody → PatternStore → PatternStore × Answer → Type 0
IsCreated body s (t, answer) =
    ((status : ℕ) × (code : String) × (answer ≡ refused status code) × (t ≡ s))
    ⊎ ((p : PatternRow) × IsNew body p
        × (answer ≡ answered p.id)
        × (t ≡ record s { patterns = s.patterns ++ p ∷ [] }))

module _ (body : PatternBody) (s : PatternStore) where
  if-IsCreated :
      (b : Bool) (r q : PatternStore × Answer)
      → IsCreated body s r
      → IsCreated body s q
      → IsCreated body s (if b then r else q)
  if-IsCreated true r q hr hq = hr
  if-IsCreated false r q hr hq = hq

  add_pattern-IsCreated : (p : PatternRow) → IsNew body p → IsCreated body s (add_pattern p s)
  unfolding add_pattern
  add_pattern-IsCreated p new =
      let taken = any (λ (q : PatternRow). q.name == p.name) s.patterns in
      let added : PatternStore × Answer =
        (record s { patterns = s.patterns ++ p ∷ [] }, answered p.id) in
      let conflict : PatternStore × Answer = (s, refused 409 "CONFLICT") in
      if-IsCreated (not s.available) (s, refused 500 "") (if taken then conflict else added)
        (inl (500, "", refl, refl))
        (if-IsCreated taken conflict added (inl (409, "CONFLICT", refl, refl))
          (inr (p, new, refl, refl)))

  create_named-IsCreated : (name : String) → IsCreated body s (create_named name body s)
  unfolding create_named
  create_named-IsCreated name =
      let pattern_type = get_or "baseline" body.pattern_type in
      let p = new_pattern name pattern_type body s.patterns in
      if-IsCreated (is_pattern_type pattern_type) (add_pattern p s) (s, refused 400 "BAD_REQUEST")
        (add_pattern-IsCreated p
          (unfold new_pattern in record { pattern_type = refl; scope = refl; definition = refl }))
        (inl (400, "BAD_REQUEST", refl, refl))

  pub create_pattern-IsCreated : IsCreated body s (create_pattern body s)
  unfolding create_pattern
  create_pattern-IsCreated =
      let bad : PatternStore × Answer = (s, refused 400 "BAD_REQUEST") in
      let bad-IsCreated : IsCreated body s bad = inl (400, "BAD_REQUEST", refl, refl) in
      option_cases (IsCreated body s) body.name bad
        (λ name. if truthy name then create_named name body s else bad) (λ e. bad-IsCreated)
        (λ name e.
          if-IsCreated (truthy name) (create_named name body s) bad (create_named-IsCreated name)
            bad-IsCreated)
