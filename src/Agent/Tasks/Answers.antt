-- ===== src/Agent/Tasks/Answers.antt =====
-- A valid result of a task is one of the task's choices.
use sentinel_home.Prelude.{
  ℕ, suc, String, ◌≡◌, Bool, true, false, not, ◌&&◌, List, arith, contains, is_nil, truthy,
  if_cases, option_cases, string_eq,
}
use sentinel_home.Models.{Value}
use sentinel_home.Critic.{Result}
use sentinel_home.Agent.Reading.{extract_choice}
use sentinel_home.Agent.Reading.Choices.{extract_choice-IsValid}
use sentinel_home.Agent.Tasks.{
  Task, Prompt, template, plain, build_retry_prompt, Response, invalid, validate_response,
  retry_task, run_task,
}

abbrev pub IsAnswer : List String → Result → Type 0
IsAnswer choices r = r.valid ≡ true → contains r.choice choices ≡ true

pub validate_response-IsAnswer :
    (raw_text : String) (choices : List String) (reasons : Bool)
    → is_nil choices ≡ false
    → IsAnswer choices (validate_response raw_text choices reasons)
unfolding validate_response
validate_response-IsAnswer raw_text choices reasons some_choice =
    if_cases (IsAnswer choices) (not (truthy raw_text)) _ _ (λ e v. ground (arith, v))
      (λ e.
        if_cases (IsAnswer choices) (is_nil choices) _ _ (λ n v. ground (arith, n, some_choice))
          (λ n.
            option_cases (IsAnswer choices) (extract_choice raw_text choices) _ _
              (λ m v. ground (arith, v))
              (λ c found v. extract_choice-IsValid raw_text c choices found)))

module _ (ask : ℕ → Task → Prompt → Response) where
  retry_task-IsAnswer :
      (task : Task) (calls : ℕ)
      → is_nil task.valid_choices ≡ false
      → IsAnswer task.valid_choices (retry_task ask task calls).0
  unfolding retry_task
  retry_task-IsAnswer task calls some_choice =
      if_cases (λ (r : Result × ℕ). IsAnswer task.valid_choices r.0) (is_nil task.valid_choices) _ _
        (λ e v. ground (arith, v))
        (λ e.
          let response = ask calls task (plain (build_retry_prompt task.valid_choices)) in
          let result = validate_response response.text task.valid_choices false in
          if_cases (IsAnswer task.valid_choices) (response.success && result.valid) result invalid
            (λ t. validate_response-IsAnswer response.text task.valid_choices false some_choice)
            (λ t v. ground (arith, v)))

  pub run_task-IsAnswer :
      (task : Task) (vars : List (String × Value)) (calls : ℕ)
      → is_nil task.valid_choices ≡ false
      → IsAnswer task.valid_choices (run_task ask task vars calls).0
  unfolding run_task
  run_task-IsAnswer task vars calls some_choice =
      let response = ask calls task (template vars) in
      let result = validate_response response.text task.valid_choices task.needs_reasoning in
      if_cases (λ (r : Result × ℕ). IsAnswer task.valid_choices r.0) (not response.success) _ _
        (λ e v. ground (arith, v))
        (λ e.
          if_cases (λ (r : Result × ℕ). IsAnswer task.valid_choices r.0) result.valid _ _
            (λ t.
              validate_response-IsAnswer response.text task.valid_choices task.needs_reasoning
                some_choice)
            (λ t. retry_task-IsAnswer task (suc calls) some_choice))
