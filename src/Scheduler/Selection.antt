-- ===== src/Scheduler/Selection.antt =====
-- `select_next` of src/ampa/scheduler.py with the scores of src/ampa/scheduler_executor.py, for any
-- floating-point numbers. Whether a language model answers is an argument.
use ampa.Prelude.{
  sort_by, ℕ, Bool, false, not, ◌&&◌, List, [], ◌∷◌, Option, none, some, if◌then◌else◌, map, keep,
  ℤ, pos, gt_ℤ,
}
use ampa.Scheduler.{CommandSpec, Store, get_state, elapsed}
use ampa.Scheduler.Numbers.{Floats, max_of, text_lt}

module _ (num : Floats) where
  pub record Config : Type 0 where
    pub priority_weight : num.Float
    pub global_min_interval_seconds : ℤ

  abbrev pub number : ℕ → num.Float
  number n = num.of_ℤ (pos n)

  abbrev pub desired_interval : CommandSpec → num.Float
  desired_interval spec =
      max_of num (number 1) (num.times (num.of_ℤ spec.frequency_minutes) (number 60))

  abbrev pub time_since_last : ℕ → Option ℕ → num.Float
  time_since_last now none = num.timestamp now
  time_since_last now (some last_run) = num.seconds (elapsed now last_run)

  abbrev pub lateness : CommandSpec → ℕ → Option ℕ → num.Float
  lateness spec now last_run = num.minus (time_since_last now last_run) (desired_interval spec)

  abbrev pub normalized_lateness : CommandSpec → ℕ → Option ℕ → num.Float
  normalized_lateness spec now last_run =
      max_of num (num.over (lateness spec now last_run) (desired_interval spec)) (number 0)

  abbrev pub priority_factor : num.Float → CommandSpec → num.Float
  priority_factor weight spec =
      num.add (number 1) (num.times (max_of num weight (number 0)) (num.of_ℤ spec.priority))

  -- A tuple `(score, normalized, spec)`.
  pub record Scored : Type 0 where
    pub score : num.Float
    pub normalized : num.Float
    pub spec : CommandSpec

  unfoldable pub score_command : Config → ℕ → Option ℕ → CommandSpec → Scored
  score_command config now last_run spec =
      let normalized = normalized_lateness spec now last_run in
      record {
        score = num.times normalized (priority_factor config.priority_weight spec);
        normalized = normalized;
        spec = spec;
      }

  -- `<` on the sort keys `(score, normalized, command_id)`
  unfoldable pub key_lt : Scored → Scored → Bool
  unfolding text_lt
  key_lt a b =
      if num.eq a.score b.score
      then (if num.eq a.normalized b.normalized
          then text_lt a.spec.command_id b.spec.command_id
          else num.lt a.normalized b.normalized)
      else num.lt a.score b.score

  -- `scored.sort(key=..., reverse=True)`: the greatest key first.
  abbrev pub stands_before : Scored → Scored → Bool
  stands_before a b = key_lt b a

  unfoldable pub sort_reversed : List Scored → List Scored
  unfolding sort_by key_lt
  sort_reversed xs = sort_by stands_before xs

  unfoldable pub is_eligible : Store → (llm_available : Bool) → CommandSpec → Bool
  unfolding get_state
  is_eligible store llm_available spec =
      gt_ℤ spec.frequency_minutes 0
      && not (spec.requires_llm && not llm_available)
      && not (get_state spec.command_id store).running

  unfoldable pub eligible_commands :
      Store → (llm_available : Bool) → List CommandSpec → List CommandSpec
  eligible_commands store llm_available commands = keep (is_eligible store llm_available) commands

  abbrev since_start : Config → ℕ → Option ℕ → Bool
  since_start config now none = false
  since_start config now (some last_start) =
      num.lt (num.seconds (elapsed now last_start)) (num.of_ℤ config.global_min_interval_seconds)

  unfoldable pub global_rate_limited : Config → ℕ → Store → Bool
  global_rate_limited config now store = since_start config now store.last_global_start

  abbrev pub scored_of : Config → ℕ → Store → CommandSpec → Scored
  scored_of config now store spec =
      score_command config now (get_state spec.command_id store).last_run_ts spec

  -- The first of the sorted list, unless its score is zero or less.
  abbrev pub first_positive : List Scored → Option CommandSpec
  first_positive [] = none
  first_positive (best ∷ rest) = if num.le best.score (number 0) then none else some best.spec

  unfoldable pub select_next : Config → (llm_available : Bool) → ℕ → Store → Option CommandSpec
  unfolding global_rate_limited eligible_commands sort_reversed
  select_next config llm_available now store =
      if global_rate_limited config now store
      then none
      else first_positive (
          sort_reversed (
            map (scored_of config now store)
              (eligible_commands store llm_available store.commands)))
