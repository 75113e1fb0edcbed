-- ===== src/Scheduler/Scan.antt =====
-- The sort of the scored commands, against one scan for the greatest.
use ampa.Prelude.{
  ℕ, Bool, List, [], ◌∷◌, Option, none, some, if◌then◌else◌, map, ◌≡◌, refl, ap, ◌∙◌, first, best,
  first-sort,
}
use ampa.Scheduler.{CommandSpec, Store}
use ampa.Scheduler.Numbers.{Floats}
use ampa.Scheduler.Selection.{
  Config, Scored, number, stands_before, sort_reversed, eligible_commands, global_rate_limited,
  scored_of, first_positive, select_next,
}

module _ (num : Floats) where
  -- The greatest of a list by one scan, the first of those that are equal.
  abbrev pub greatest : List (Scored num) → Option (Scored num)
  greatest xs = best (stands_before num) xs

  abbrev pub spec_if_positive : Option (Scored num) → Option CommandSpec
  spec_if_positive none = none
  spec_if_positive (some best) = if num.le best.score (number num 0) then none else some best.spec

  first_positive_lem :
      (xs : List (Scored num)) → first_positive num xs ≡ spec_if_positive (first xs)
  first_positive_lem [] = refl
  first_positive_lem (x ∷ xs) = refl

  module _ (config : Config num) (llm_available : Bool) (now : ℕ) (store : Store) where
    abbrev pub candidates : List (Scored num)
    candidates =
        map (scored_of num config now store)
          (eligible_commands num store llm_available store.commands)

    -- The sort and the choice of its first element are one scan for the greatest key: the choice is
    -- the first among the commands with the greatest key, where the score of that one is positive.
    pub select_next_scan : select_next num config llm_available now store ≡ (
        if global_rate_limited num config now store
        then none
        else spec_if_positive (greatest candidates))
    unfolding select_next sort_reversed
    select_next_scan =
        ap
          (λ (o : Option CommandSpec). if global_rate_limited num config now store then none else o)
          (first_positive_lem (sort_reversed num candidates)
            ∙ ap spec_if_positive (first-sort (stands_before num) candidates))
