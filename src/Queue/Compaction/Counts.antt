-- ===== src/Queue/Compaction/Counts.antt =====
-- How many pending jobs a compaction leaves.
use sentinel_home.Prelude.{
  ℕ, String, ◌≡◌, ◌≢◌, refl, sym, ◌∙◌, ap, Bool, false, not, ◌&&◌, List, [], ◌∷◌, arith, All,
  length, select, contains, min, Distinct, if_cases, Bool-cases, inl, inr, ◌==◌, nat_eq, string_eq,
  if◌then◌else◌,
}
use sentinel_home.Models.{Job}
use sentinel_home.Queue.{put_in, order_by}
use sentinel_home.Queue.Compaction.{ids_of}
use sentinel_home.Queue.Compaction.Drops.{drops_of, repeats}

-- lists of jobs with an id each
unfoldable pub Apart : ℕ → List Job → Type 0
Apart x jobs = All (λ n. x ≢ n) (ids_of jobs)

module _ (before : Job → Job → Bool) where
  put_in-Apart :
      (x : ℕ) (j : Job) (jobs : List Job) → x ≢ j.id → Apart x jobs → Apart x (put_in before j jobs)
  unfolding put_in Apart
  put_in-Apart x j [] ne h = (ne, tt)
  put_in-Apart x j (k ∷ jobs) ne h =
      if_cases (λ js. All (λ n. x ≢ n) (ids_of js)) (before j k) _ _ (λ e. (ne, h))
        (λ e. (h.0, put_in-Apart x j jobs ne h.1))

  put_in-Distinct :
      (j : Job) (jobs : List Job)
      → Apart j.id jobs
      → Distinct (ids_of jobs)
      → Distinct (ids_of (put_in before j jobs))
  unfolding put_in Apart
  put_in-Distinct j [] h d = (tt, tt)
  put_in-Distinct j (k ∷ jobs) h d =
      if_cases (λ js. Distinct (ids_of js)) (before j k) _ _ (λ e. (h, d))
        (λ e.
          (put_in-Apart k.id j jobs (λ same. h.0 (sym same)) d.0, put_in-Distinct j jobs h.1 d.1))

  pub order_by-Apart : (x : ℕ) (jobs : List Job) → Apart x jobs → Apart x (order_by before jobs)
  unfolding order_by Apart
  order_by-Apart x [] h = tt
  order_by-Apart x (j ∷ jobs) h =
      put_in-Apart x j (order_by before jobs) h.0 (order_by-Apart x jobs h.1)

  pub order_by-Distinct :
      (jobs : List Job) → Distinct (ids_of jobs) → Distinct (ids_of (order_by before jobs))
  unfolding order_by Apart
  order_by-Distinct [] d = tt
  order_by-Distinct (j ∷ jobs) d =
      put_in-Distinct j (order_by before jobs) (order_by-Apart j.id jobs d.0)
        (order_by-Distinct jobs d.1)

pub select-cong {ℓ} :
    {A : Type ℓ} (p q : A → Bool) (xs : List A)
    → All (λ x. p x ≡ q x) xs
    → select p xs ≡ select q xs
select-cong p q [] h = refl
select-cong p q (x ∷ xs) h = rw (h.0, select-cong p q xs h.1) refl

pub drops_of-absent :
    (seen : List String) (jobs : List Job) (x : ℕ) → Apart x jobs → drops_of seen jobs x ≡ false
unfolding Apart
drops_of-absent seen [] x h = refl
drops_of-absent seen (j ∷ jobs) x h =
    ground (arith, h.0, drops_of-absent (j.rule_name ∷ seen) jobs x h.1)

-- The first job is not among the drops of the others.
drops_of-tail :
    (seen : List String) (j : Job) (jobs all_jobs : List Job)
    → Apart j.id jobs
    → All
        (λ (y : Job).
          drops_of seen (j ∷ all_jobs) y.id ≡ drops_of (j.rule_name ∷ seen) all_jobs y.id)
        jobs
unfolding Apart
drops_of-tail seen j [] all_jobs h = tt
drops_of-tail seen j (y ∷ jobs) all_jobs h =
    (ground (arith, h.0), drops_of-tail seen j jobs all_jobs h.1)

pub All-imp {ℓ κ μ} :
    {A : Type ℓ} (P : A → Type κ) (Q : A → Type μ) (xs : List A)
    → ((x : A) → P x → Q x)
    → All P xs
    → All Q xs
All-imp P Q [] f h = tt
All-imp P Q (x ∷ xs) f h = (f x h.0, All-imp P Q xs f h.1)

drops_of-head :
    (seen : List String) (j : Job) (jobs : List Job)
    → Apart j.id jobs
    → drops_of seen (j ∷ jobs) j.id ≡ contains j.rule_name seen
drops_of-head seen j jobs h = ground (arith, drops_of-absent (j.rule_name ∷ seen) jobs j.id h)

abbrev pub kept : List String → List Job → String → Job → Bool
kept seen jobs r j = j.rule_name == r && not (drops_of seen jobs j.id)

kept-tail :
    (seen : List String) (j : Job) (jobs : List Job) (r : String)
    → Apart j.id jobs
    → select (kept seen (j ∷ jobs) r) jobs ≡ select (kept (j.rule_name ∷ seen) jobs r) jobs
kept-tail seen j jobs r h =
    select-cong (kept seen (j ∷ jobs) r) (kept (j.rule_name ∷ seen) jobs r) jobs (
      All-imp (λ (y : Job). drops_of seen (j ∷ jobs) y.id ≡ drops_of (j.rule_name ∷ seen) jobs y.id)
        (λ (y : Job). kept seen (j ∷ jobs) r y ≡ kept (j.rule_name ∷ seen) jobs r y) jobs
        (λ y e. ap (λ b. y.rule_name == r && not b) e) (drops_of-tail seen j jobs jobs h))

-- Of a rule that has not come before, the first job is kept and no other.
pub kept_count :
    (seen : List String) (jobs : List Job) (r : String)
    → Distinct (ids_of jobs)
    → length (select (kept seen jobs r) jobs) ≡ (
        if contains r seen then 0 else min 1 (length (select (λ (j : Job). j.rule_name == r) jobs)))
kept_count seen [] r d = ground arith
kept_count seen (j ∷ jobs) r d =
    let apart : Apart j.id jobs = unfold Apart in d.0 in
    let first_drop = drops_of-head seen j jobs apart in
    let rest : length (select (kept seen (j ∷ jobs) r) jobs) ≡ (
        if contains r (j.rule_name ∷ seen)
        then 0
        else min 1 (length (select (λ (k : Job). k.rule_name == r) jobs))) =
      ap length (kept-tail seen j jobs r apart) ∙ kept_count (j.rule_name ∷ seen) jobs r d.1 in
    elim (Bool-cases (j.rule_name == r)) [
      | inr other ↦ rw other (rest ∙ (rw other refl))
      | inl own ↦
          let same : contains j.rule_name seen ≡ contains r seen =
            ap (λ s. contains s seen) ((string_eq.decides j.rule_name r).0 own) in
          ground (arith, own, first_drop, rest, same)
    ]

abbrev pub drop_count : (ℕ → Bool) → List Job → ℕ
drop_count out jobs = length (select (λ (j : Job). out j.id) jobs)

pub repeats_count :
    (seen : List String) (jobs : List Job)
    → Distinct (ids_of jobs)
    → drop_count (drops_of seen jobs) jobs ≡ repeats seen jobs
repeats_count seen [] d = refl
repeats_count seen (j ∷ jobs) d =
    let apart : Apart j.id jobs = unfold Apart in d.0 in
    let first_drop = drops_of-head seen j jobs apart in
    let rest : drop_count (drops_of seen (j ∷ jobs)) jobs ≡ repeats (j.rule_name ∷ seen) jobs =
      ap length (
        select-cong (λ (y : Job). drops_of seen (j ∷ jobs) y.id)
          (λ (y : Job). drops_of (j.rule_name ∷ seen) jobs y.id) jobs
          (drops_of-tail seen j jobs jobs apart))
      ∙ repeats_count (j.rule_name ∷ seen) jobs d.1 in
    ground (arith, first_drop, rest)
