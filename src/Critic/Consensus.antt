-- ===== src/Critic/Consensus.antt =====
-- The vote of `_run_consensus`.
use sentinel_home.Prelude.{
  ℕ, ◌≡◌, ◌≢◌, ◌⊎◌, ◌↔◌, true, Option, none, some, arith, string_eq, String,
}
use sentinel_home.Critic.{Result, check_consensus, majority, run_consensus}

-- two of the three answers are `choice`
abbrev pub TwoOf : String → Result → Result → Result → Type 0
TwoOf choice a b c =
    ((a.choice ≡ choice) × (b.choice ≡ choice))
    ⊎ (((a.choice ≡ choice) × (c.choice ≡ choice)) ⊎ ((b.choice ≡ choice) × (c.choice ≡ choice)))

abbrev pub choice_of : Option Result → Option String
choice_of none = none
choice_of (some r) = some r.choice

-- The first two answers are valid and both are the choice, or they differ, the third is valid too and
-- two of the three are the choice.
abbrev pub Agreed : String → (ℕ → Result) → Type 0
Agreed choice ask =
    ((ask 0).valid ≡ true)
    × (((ask 1).valid ≡ true)
        × (((ask 0).choice ≡ choice × (ask 1).choice ≡ choice)
            ⊎ (((ask 2).valid ≡ true)
                × (TwoOf choice (ask 0) (ask 1) (ask 2) × ((ask 0).choice ≢ (ask 1).choice)))))

-- A consensus on a choice is reached exactly if the first two answers are valid and both are the
-- choice, or they differ, the third is valid and two of the three are the choice.
pub run_consensus_iff :
    (ask : ℕ → Result) (choice : String)
    → (choice_of (run_consensus ask) ≡ some choice) ↔ Agreed choice ask
unfolding run_consensus check_consensus majority
run_consensus_iff ask choice = ground (
  arith,
  string_eq.decides (ask 0).choice (ask 1).choice,
  string_eq.decides (ask 0).choice (ask 2).choice,
  string_eq.decides (ask 1).choice (ask 2).choice,
  string_eq.decides (ask 1).choice (ask 0).choice,
  string_eq.decides (ask 2).choice (ask 0).choice,
  string_eq.decides (ask 2).choice (ask 1).choice,
  string_eq.decides (ask 0).choice (ask 0).choice,
  string_eq.decides (ask 1).choice (ask 1).choice,
  string_eq.decides (ask 2).choice (ask 2).choice,
)
