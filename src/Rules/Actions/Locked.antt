-- ===== src/Rules/Actions/Locked.antt =====
-- A frozen rule under the requests of the API and the actions of the dashboard.
use sentinel_home.Prelude.{
  ℕ, ◌≡◌, refl, sym, Bool, true, false, not, ◌||◌, List, [], ◌∷◌, arith, all, if_cases,
  option_cases, ◌==◌, nat_eq, string_eq,
}
use sentinel_home.Models.{Rule, Database}
use sentinel_home.Rules.{find_rule, is_referenced}
use sentinel_home.Rules.Frozen.{
  Keeps, is_agents, first-append_one, first-remove_other, set_other, set_any, serve_db-Keeps,
}
use sentinel_home.Rules.Actions.{
  with_row, action_approve_rule, action_reject_rule, action_freeze_rule, action_unfreeze_rule,
  action_toggle_rule, Form, form_rule, is_refused, create_row, Action, approve_suggestion,
  reject_suggestion, lock, unlock, toggle, fill_in, act, Step, api, board, serve_step, serve_steps,
}

-- actions that neither unlock the rule nor delete it nor turn its switch
abbrev pub spares : ℕ → Action → Bool
spares id (reject_suggestion n) = not (n == id)
spares id (unlock n) = not (n == id)
spares id (toggle n) = not (n == id)
spares id action = true

abbrev pub is_no_decision : ℕ → Step → Bool
is_no_decision id (api now request) = is_agents id request
is_no_decision id (board action) = spares id action

with_row_cases :
    (P : Database → Type 0) (id : ℕ) (db : Database) (act : Rule → Database)
    → P db
    → ((r : Rule) → P (act r))
    → P (with_row id db act)
unfolding with_row
with_row_cases P id db act skip done =
    if_cases P db.available _ db
      (λ up. option_cases P (find_rule id db) _ _ (λ absent. skip) (λ r found. done r))
      (λ down. skip)

module _ (id : ℕ) (rule : Rule) (locked : rule.frozen ≡ true) where
  reject-Keeps :
      (n : ℕ) (db : Database)
      → (n == id) ≡ false
      → Keeps id rule db
      → Keeps id rule (action_reject_rule n db)
  unfolding action_reject_rule
  reject-Keeps n db ne (s, e, c) =
      with_row_cases (Keeps id rule) n db _ (s, e, c)
        (λ r.
          if_cases (Keeps id rule) (r.source == "system" || is_referenced n db) db _
            (λ stays. (s, e, c)) (λ goes. (s, first-remove_other id n db.rules s ne e, c)))

  create_row-Keeps : (f : Form) (db : Database) → Keeps id rule db → Keeps id rule (create_row f db)
  unfolding create_row
  create_row-Keeps f db (s, e, c) =
      if_cases (Keeps id rule) (is_refused f db) db _ (λ no. (s, e, c))
        (λ yes_. (s, first-append_one id db.rules (form_rule f db.rules) s e, c))

  act-Keeps :
      (action : Action) (db : Database)
      → spares id action ≡ true
      → Keeps id rule db
      → Keeps id rule (act action db)
  unfolding act action_approve_rule action_freeze_rule action_unfreeze_rule action_toggle_rule
  act-Keeps (approve_suggestion n) db own h = with_row_cases (Keeps id rule) n db _ h (λ r.
      set_any id rule locked n _ db (λ x. refl)
        (λ x c. record {
          parameters = c.parameters;
          severity = c.severity;
          enabled = c.enabled;
          cooldown_seconds = c.cooldown_seconds;
          action = c.action;
          priority = c.priority;
          frozen = c.frozen;
        })
        h)
  act-Keeps (reject_suggestion n) db own h = reject-Keeps n db (ground (arith, own)) h
  act-Keeps (lock n) db own h = with_row_cases (Keeps id rule) n db _ h (λ r.
      set_any id rule locked n _ db (λ x. refl)
        (λ x c. record {
          parameters = c.parameters;
          severity = c.severity;
          enabled = c.enabled;
          cooldown_seconds = c.cooldown_seconds;
          action = c.action;
          priority = c.priority;
          frozen = sym locked;
        })
        h)
  act-Keeps (unlock n) db own h =
      with_row_cases (Keeps id rule) n db _ h
        (λ r. set_other id rule locked n _ db (ground (arith, own)) (λ x. refl) h)
  act-Keeps (toggle n) db own h =
      with_row_cases (Keeps id rule) n db _ h
        (λ r. set_other id rule locked n _ db (ground (arith, own)) (λ x. refl) h)
  act-Keeps (fill_in f) db own h = create_row-Keeps f db h

  serve_step-Keeps :
      (step : Step) (db : Database)
      → is_no_decision id step ≡ true
      → Keeps id rule db
      → Keeps id rule (serve_step step db)
  unfolding serve_step
  serve_step-Keeps (api now request) db own h = serve_db-Keeps id rule locked now request db own h
  serve_step-Keeps (board action) db own h = act-Keeps action db own h

  -- A frozen rule stays in the table, frozen and with its parameters, severity, switch, cooldown,
  -- action and priority, whatever requests to the endpoints of rules and actions of the dashboard on
  -- rules follow each other, as long as no request unfreezes, rolls back or deletes it or updates it in
  -- the user's name, and no action unfreezes or rejects it or turns its switch.
  pub serve_steps-Keeps :
      (steps : List Step) (db : Database)
      → all (is_no_decision id) steps ≡ true
      → Keeps id rule db
      → Keeps id rule (serve_steps steps db)
  serve_steps-Keeps [] db own h = h
  serve_steps-Keeps (step ∷ steps) db own h =
      serve_steps-Keeps steps (serve_step step db) (ground (arith, own))
        (serve_step-Keeps step db (ground (arith, own)) h)
