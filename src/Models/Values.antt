-- ===== src/Models/Values.antt =====
-- The values that event fields and job contexts hold, and Python's `==` and `in` on them.
use sentinel_home.Prelude.{
  ℕ, String, ◌≡◌, ◌↔◌, Bool, true, false, none, some, List, arith, Equality, ◌==◌, nat_eq,
  string_eq, decimal,
}
use sentinel_home.Prelude.Dict.{Dict, lookup}

pub data Value : Type 0 where
  null : Value
  text : String → Value
  number : ℕ → Value

abbrev value_beq : Value → Value → Bool
value_beq null null = true
value_beq (text s) (text t) = s == t
value_beq (number m) (number n) = m == n
value_beq _ _ = false

pub value_beq_iff : (a b : Value) → (value_beq a b ≡ true) ↔ (a ≡ b)
value_beq_iff null b = ground arith
value_beq_iff (text s) (text t) = ground (arith, string_eq.decides s t)
value_beq_iff (text s) b = ground arith
value_beq_iff (number m) b = ground arith

instance abbrev pub value_eq : Equality Value
value_eq = record { equals = value_beq; decides = value_beq_iff }

-- what a rule's `match_fields` asks of a field: one value, or one of a list
pub data Expected : Type 0 where
  one : Value → Expected
  one_of : List Value → Expected

-- `fields.get(key)`
unfoldable pub get_value : String → Dict String Value → Value
get_value key fields = elim (lookup key fields) [ none ↦ null | some v ↦ v ]

-- `fields.get(key, default)` of a field that is read as text
unfoldable pub get_text : String → String → Dict String Value → String
get_text key default fields = elim (lookup key fields) [ some (text s) ↦ s | _ ↦ default ]

-- `str` of a value
abbrev pub value_str : Value → String
value_str null = "None"
value_str (text s) = s
value_str (number n) = decimal n
