-- ===== src/Queue/Compaction/Rows.antt =====
-- What the writes of a compaction do to the rows: a row keeps its key, and it is pending afterwards if
-- it was and no group drops it.
use sentinel_home.Prelude.{
  ℕ, String, ◌≡◌, refl, ◌∙◌, Bool, false, not, ◌&&◌, ◌||◌, Option, List, [], ◌∷◌, arith, length,
  select, contains, map-update_where, nat_eq, string_eq,
}
use sentinel_home.Prelude.Dict.{Dict}
use sentinel_home.Models.{Job}
use sentinel_home.Queue.Compaction.{is_pending, ids_of, collapse, compact_group, compact_groups}

-- the ids that a group drops
abbrev pub drops : List Job → ℕ → Bool
drops [] x = false
drops (keep ∷ rest) x = contains x (ids_of rest)

abbrev pub dropped : Dict String (List Job) → ℕ → Bool
dropped [] x = false
dropped ((rule_name, group) ∷ groups) x = drops group x || dropped groups x

-- a question about a row that its key answers
abbrev pub Question : Type 0
Question = ℕ → Option String → String → Bool

abbrev pub asks : Question → Job → Bool
asks q j = q j.id j.device_id j.rule_name

abbrev pub pending_count : Question → List Job → ℕ
pending_count q jobs = length (select (λ j. asks q j && is_pending j) jobs)

-- how many pending rows of the question a test of ids spares
abbrev pub spared_count : Question → (ℕ → Bool) → List Job → ℕ
spared_count q out jobs = length (select (λ j. asks q j && (is_pending j && not (out j.id))) jobs)

module _ (isoformat : ℕ → String) (now : ℕ) where
  compact_group-count :
      (q : Question) (out : ℕ → Bool) (rule_name : String) (group jobs : List Job)
      → spared_count q out (compact_group isoformat now rule_name group jobs).0
        ≡ spared_count q (λ x. drops group x || out x) jobs
  unfolding compact_group collapse
  compact_group-count q out rule_name [] jobs = refl
  compact_group-count q out rule_name (keep ∷ []) jobs = refl
  compact_group-count q out rule_name (keep ∷ next ∷ rest) [] = refl
  compact_group-count q out rule_name (keep ∷ next ∷ rest) (j ∷ jobs) =
      ground (arith, compact_group-count q out rule_name (keep ∷ next ∷ rest) jobs)

  pub spared_count-cong :
      (q : Question) (a b : ℕ → Bool) (jobs : List Job)
      → ((x : ℕ) → a x ≡ b x)
      → spared_count q a jobs ≡ spared_count q b jobs
  spared_count-cong q a b [] h = refl
  spared_count-cong q a b (j ∷ jobs) h = ground (arith, h j.id, spared_count-cong q a b jobs h)

  pub compact_groups-count :
      (q : Question) (groups : Dict String (List Job)) (jobs : List Job)
      → pending_count q (compact_groups isoformat now groups jobs).0
        ≡ spared_count q (dropped groups) jobs
  unfolding compact_groups
  compact_groups-count q groups jobs =
      none_spared (compact_groups isoformat now groups jobs).0
      ∙ go groups (λ x. false) jobs
      ∙ spared_count-cong q (λ x. dropped groups x || false) (dropped groups) jobs
          (λ x. ground arith)
    where
      none_spared : (js : List Job) → pending_count q js ≡ spared_count q (λ x. false) js
      none_spared [] = refl
      none_spared (j ∷ js) = ground (arith, none_spared js)

      go :
          (gs : Dict String (List Job)) (out : ℕ → Bool) (js : List Job)
          → spared_count q out (compact_groups isoformat now gs js).0
            ≡ spared_count q (λ x. dropped gs x || out x) js
      go [] out js = refl
      go ((rule_name, group) ∷ gs) out js =
          go gs out (compact_group isoformat now rule_name group js).0
          ∙ compact_group-count q (λ x. dropped gs x || out x) rule_name group js
          ∙ spared_count-cong q (λ x. drops group x || (dropped gs x || out x))
              (λ x. dropped ((rule_name, group) ∷ gs) x || out x) js (λ x. ground arith)

  compact_group-ids :
      (rule_name : String) (group jobs : List Job)
      → ids_of (compact_group isoformat now rule_name group jobs).0 ≡ ids_of jobs
  unfolding compact_group collapse
  compact_group-ids rule_name [] jobs = refl
  compact_group-ids rule_name (keep ∷ []) jobs = refl
  compact_group-ids rule_name (keep ∷ next ∷ rest) jobs =
      map-update_where (λ (j : Job). j.id) _ _ _ (λ j. refl)
      ∙ map-update_where (λ (j : Job). j.id) _ _ jobs (λ j. refl)

  pub compact_groups-ids :
      (groups : Dict String (List Job)) (jobs : List Job)
      → ids_of (compact_groups isoformat now groups jobs).0 ≡ ids_of jobs
  unfolding compact_groups
  compact_groups-ids [] jobs = refl
  compact_groups-ids ((rule_name, group) ∷ groups) jobs =
      compact_groups-ids groups (compact_group isoformat now rule_name group jobs).0
      ∙ compact_group-ids rule_name group jobs
