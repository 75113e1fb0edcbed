-- ===== src/Scheduler/Scores.antt =====
-- The signs of the scores.
use ampa.Prelude.{true, false, if◌then◌else◌, ◌≡◌, sym, arith, inl, inr, Bool-cases, subst, ◌∙◌}
use ampa.Scheduler.{CommandSpec}
use ampa.Scheduler.Numbers.{Floats, Laws, max_of}
use ampa.Scheduler.Selection.{Scored, number, desired_interval, key_lt}
use ampa.Scheduler.Keys.{key_lt_lem}

module _ {num : Floats} (laws : Laws num) where
  abbrev zero : num.Float
  zero = number num 0

  -- A score above a positive one is positive.
  pub positive_above :
      (a b : Scored num)
      → key_lt num a b ≡ false
      → num.le b.score zero ≡ false
      → num.le a.score zero ≡ false
  positive_above a b not_less positive = ground (
    arith,
    laws.le_lem a.score zero,
    laws.le_lem b.score zero,
    positive,
    laws.cotrans zero a.score b.score,
    laws.asym a.score b.score,
    sym (key_lt_lem laws a b) ∙ not_less,
  )

  zero_irrefl : num.lt zero zero ≡ false
  zero_irrefl = ground (arith, laws.asym zero zero)

  -- A product with a maximum of zero is positive only where the other number is.
  pub times_max :
      (q f : num.Float)
      → num.lt zero (num.times (max_of num q zero) f) ≡ true
      → num.lt zero q ≡ true
  times_max q f h = elim (Bool-cases (num.lt q zero)) [
    | inl below ↦ absurd (
        ground (
          arith,
          laws.times_zero zero f zero_irrefl zero_irrefl,
          subst (λ b. num.lt zero (num.times (if b then zero else q) f) ≡ true) below h,
        ))
    | inr not_below ↦ ground (
      arith,
      laws.times_zero q f,
      not_below,
      subst (λ b. num.lt zero (num.times (if b then zero else q) f) ≡ true) not_below h,
    )
  ]

  pub desired_interval_pos : (spec : CommandSpec) → num.lt zero (desired_interval num spec) ≡ true
  desired_interval_pos spec =
      above_one (num.times (num.of_ℤ spec.frequency_minutes) (number num 60))
    where
      above_one : (x : num.Float) → num.lt zero (max_of num (number num 1) x) ≡ true
      above_one x = elim (Bool-cases (num.lt (number num 1) x)) [
        | inl more ↦ rw more (
            ground (
              arith,
              laws.cotrans zero x (number num 1) laws.zero_lt_one,
              laws.asym (number num 1) x more,
            ))
        | inr not_more ↦ rw not_more laws.zero_lt_one
      ]
