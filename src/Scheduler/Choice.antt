-- ===== src/Scheduler/Choice.antt =====
-- What the scheduler chooses.
use mathlib.Core.List.{Memᴰ}
use ampa.Prelude.{
  ℕ, Bool, true, false, List, Option, none, some, if◌then◌else◌, ◌≡◌, refl, sym, ap, arith, inl,
  ◌⊎◌, inr, Bool-cases, subst, ◌∙◌, Memᴰ-of_keep, Memᴰ-keep, Memᴰ-map, Memᴰ-of_map, some_inj,
  IsBest, best-IsBest, best_there,
}
use ampa.Scheduler.{CommandSpec, Store, get_state}
use ampa.Scheduler.Numbers.{Floats, Laws}
use ampa.Scheduler.Selection.{
  Config, Scored, number, desired_interval, lateness, priority_factor, score_command, key_lt,
  stands_before, is_eligible, eligible_commands, global_rate_limited, scored_of, select_next,
}
use ampa.Scheduler.Scan.{greatest, spec_if_positive, candidates, select_next_scan}
use ampa.Scheduler.Keys.{key_lt_asym, key_lt_cotrans}
use ampa.Scheduler.Scores.{positive_above, times_max, desired_interval_pos}

module _ {num : Floats} (laws : Laws num) where
  abbrev zero : num.Float
  zero = number num 0

  greatest-IsBest :
      (xs : List (Scored num)) (b : Scored num)
      → greatest num xs ≡ some b
      → IsBest (stands_before num) b xs
  greatest-IsBest xs b h =
      best-IsBest (stands_before num) (λ a c. key_lt_asym laws c a) (λ a c d. cotrans a c d) xs b h
    where
      cotrans :
          (a c d : Scored num)
          → key_lt num d a ≡ true
          → (key_lt num c a ≡ true) ⊎ (key_lt num d c ≡ true)
      cotrans a c d e = elim (key_lt_cotrans laws d c a e) [ inl l ↦ inr l | inr r ↦ inl r ]

  module _ (config : Config num) (llm_available : Bool) (now : ℕ) (store : Store) where
    abbrev value_of : CommandSpec → Scored num
    value_of spec = scored_of num config now store spec

    abbrev scored : List (Scored num)
    scored = candidates num config llm_available now store

    -- A positive score needs a command that is late.
    late :
        (spec : CommandSpec) (last_run : Option ℕ)
        → num.le (score_command num config now last_run spec).score zero ≡ false
        → num.lt zero (lateness num spec now last_run) ≡ true
    unfolding score_command
    late spec last_run h =
        laws.over_sign (lateness num spec now last_run) (desired_interval num spec)
          (desired_interval_pos laws spec)
          (times_max laws (num.over (lateness num spec now last_run) (desired_interval num spec))
            (priority_factor num config.priority_weight spec)
            (ground
              (arith, h, laws.le_lem (score_command num config now last_run spec).score zero)))

    -- A choice: an eligible command of the store, late by more than its interval, such that no
    -- eligible command has a greater key.
    pub record IsChoice (spec : CommandSpec) : Type 0 where
      pub listed : Memᴰ spec store.commands
      pub eligible : is_eligible num store llm_available spec ≡ true
      pub is_late :
          num.lt zero (lateness num spec now (get_state spec.command_id store).last_run_ts) ≡ true
      pub greatest :
          (other : CommandSpec)
          → Memᴰ other store.commands
          → is_eligible num store llm_available other ≡ true
          → key_lt num (value_of spec) (value_of other) ≡ false

    Memᴰ-scored :
        {other : CommandSpec}
        → Memᴰ other store.commands
        → is_eligible num store llm_available other ≡ true
        → Memᴰ (value_of other) scored
    unfolding eligible_commands
    Memᴰ-scored m eligible =
        Memᴰ-map value_of (Memᴰ-keep (is_eligible num store llm_available) m eligible)

    positive_spec :
        (best : Scored num) {spec : CommandSpec}
        → spec_if_positive num (some best) ≡ some spec
        → (num.le best.score zero ≡ false) × (best.spec ≡ spec)
    positive_spec best q = elim (Bool-cases (num.le best.score zero)) [
      | inl low ↦ absurd (ground (arith, q, low))
      | inr high ↦ (high, some_inj (rw high at q))
    ]

    greatest-IsChoice :
        (best : Scored num)
        → IsBest (stands_before num) best scored
        → num.le best.score zero ≡ false
        → IsChoice best.spec
    unfolding eligible_commands score_command
    greatest-IsChoice best (there, top) high =
        let (found, in_kept, same) = Memᴰ-of_map value_of _ there in
        let (listed, eligible) =
          Memᴰ-of_keep (is_eligible num store llm_available) store.commands in_kept in
        subst IsChoice (sym (ap (λ (b : Scored num). b.spec) same)) (record {
          listed = listed;
          eligible = eligible;
          is_late =
              late found _ (subst (λ (b : Scored num). num.le b.score zero ≡ false) same high);
          greatest = λ other m ok.
              subst (λ (b : Scored num). key_lt num b (value_of other) ≡ false) same
                (top (value_of other) (Memᴰ-scored m ok));
        })

    -- The command that is chosen is an eligible command of the store, later than its interval asks,
    -- no eligible command has a greater key (the score, the normalized lateness, the id), and the
    -- last start of a command is not too recent.
    pub select_next_lem :
        (spec : CommandSpec)
        → select_next num config llm_available now store ≡ some spec
        → IsChoice spec × (global_rate_limited num config now store ≡ false)
    select_next_lem spec h =
        go (global_rate_limited num config now store) (greatest num scored) refl
          (sym (select_next_scan num config llm_available now store) ∙ h)
      where
        go :
            (limited : Bool) (o : Option (Scored num))
            → greatest num scored ≡ o
            → (if limited then none else spec_if_positive num o) ≡ some spec
            → IsChoice spec × (limited ≡ false)
        go true o e q = absurd (ground arith)
        go false none e q = absurd (ground arith)
        go false (some best) e q =
            let (high, same) = positive_spec best q in
            (
              subst IsChoice same (greatest-IsChoice best (greatest-IsBest scored best e) high),
              refl,
            )

    -- Where the last start is not too recent and some eligible command has a positive score, a
    -- command is chosen.
    pub select_next_live :
        (other : CommandSpec)
        → global_rate_limited num config now store ≡ false
        → Memᴰ other store.commands
        → is_eligible num store llm_available other ≡ true
        → num.le (value_of other).score zero ≡ false
        → (spec : CommandSpec) × (select_next num config llm_available now store ≡ some spec)
    select_next_live other free listed eligible positive =
        let there = Memᴰ-scored listed eligible in
        let (best, e) = best_there (stands_before num) there in
        let top = (greatest-IsBest scored best e).1 (value_of other) there in
        (
          best.spec,
          select_next_scan num config llm_available now store
              ∙ rw (free, e, positive_above laws best (value_of other) top positive) refl,
        )
