-- ===== src/PlanRunner/Retries.antt =====
-- The retry counters that the plan runner keeps.
use ampa.Prelude.{
  ℕ, ◌+◌, String, Bool, true, false, not, ◌&&◌, [], ◌∷◌, Option, none, some, ◌≡◌, refl, arith, all,
  Dict, lookup, insert, remove, values, lookup-insert, lookup-remove, ltb, leb, Bool-cases,
  if◌then◌else◌, inl, inr, str_eq,
}
use ampa.Engine.Records.{DispatchResult}
use ampa.PlanRunner.{
  PlanDispatch, Retry, PlanState, Inputs, check_existing, entry_of, attempt, count_failure,
  update_retries, attempt_item, continue_item, run_item,
}

-- A counter that agrees with its flag: the failure is permanent exactly when the attempts have
-- reached the limit, and another attempt is planned exactly when it is not.
abbrev pub is_planned : Option ℕ → Bool
is_planned none = false
is_planned (some _) = true

abbrev pub is_consistent : ℕ → Retry → Bool
is_consistent max_retries r =
    if r.permanent_failure
    then leb max_retries r.attempts && not (is_planned r.next_attempt)
    else ltb r.attempts max_retries && is_planned r.next_attempt

abbrev pub AreConsistent : ℕ → Dict Retry → Type 0
AreConsistent max_retries m = all (is_consistent max_retries) (values m) ≡ true

all-insert :
    (p : Retry → Bool) (k : String) (r : Retry) (m : Dict Retry)
    → p r ≡ true
    → all p (values m) ≡ true
    → all p (values (insert k r m)) ≡ true
unfolding insert
all-insert p k r [] h a = rw h
all-insert p k r ((j, s) ∷ m) h a = ground (arith, all-insert p k r m h)

all-remove :
    (p : Retry → Bool) (k : String) (m : Dict Retry)
    → all p (values m) ≡ true
    → all p (values (remove k m)) ≡ true
unfolding remove
all-remove p k [] a = refl
all-remove p k ((j, s) ∷ m) a = ground (arith, all-remove p k m)

module _ (inp : Inputs) (wid : String) where
  count_failure-AreConsistent :
      (m : Dict Retry) (error : Option String)
      → AreConsistent inp.max_retries m
      → AreConsistent inp.max_retries (count_failure inp wid m error).0
  unfolding count_failure
  count_failure-AreConsistent m error h =
      let n = (entry_of inp wid m).attempts + 1 in
      elim (Bool-cases (leb inp.max_retries n)) [
        | inl reached ↦ rw reached (all-insert _ wid _ m (rw reached refl) h)
        | inr below ↦ rw below (all-insert _ wid _ m (ground arith) h)
      ]

  update_retries-AreConsistent :
      (m : Dict Retry) (o : Option DispatchResult)
      → AreConsistent inp.max_retries m
      → AreConsistent inp.max_retries (update_retries inp wid m o).0
  unfolding update_retries
  update_retries-AreConsistent m none h = count_failure-AreConsistent m none h
  update_retries-AreConsistent m (some r) h = elim (Bool-cases r.success) [
    | inl won ↦ rw won (all-remove _ wid m h)
    | inr lost ↦ rw lost (count_failure-AreConsistent m r.error h)
  ]

  count_failure-lookup :
      (k : String) (m : Dict Retry) (error : Option String)
      → str_eq wid k ≡ false
      → lookup k (count_failure inp wid m error).0 ≡ lookup k m
  unfolding count_failure
  count_failure-lookup k m error other =
      elim (Bool-cases (leb inp.max_retries ((entry_of inp wid m).attempts + 1))) [
        | inl reached ↦ rw (reached, lookup-insert, other) refl
        | inr below ↦ rw (below, lookup-insert, other) refl
      ]

  update_retries-lookup :
      (k : String) (m : Dict Retry) (o : Option DispatchResult)
      → str_eq wid k ≡ false
      → lookup k (update_retries inp wid m o).0 ≡ lookup k m
  unfolding update_retries
  update_retries-lookup k m none other = count_failure-lookup k m none other
  update_retries-lookup k m (some r) other = elim (Bool-cases r.success) [
    | inl won ↦ rw (won, lookup-remove, other) refl
    | inr lost ↦ rw lost (count_failure-lookup k m r.error other)
  ]

-- The state that the store holds after a cycle.
abbrev pub after : PlanState → Option PlanState → PlanState
after state none = state
after state (some new) = new

module _ (inp : Inputs) (wid : String) (state : PlanState) where
  continue_item-AreConsistent :
      (c : Dict PlanDispatch × Option ℕ)
      → AreConsistent inp.max_retries state.plan_retries
      → AreConsistent inp.max_retries
          (after state (continue_item inp wid state.plan_retries c).stored).plan_retries
  unfolding continue_item attempt_item
  continue_item-AreConsistent (dispatches, some pid) h = h
  continue_item-AreConsistent (dispatches, none) h =
      update_retries-AreConsistent inp wid state.plan_retries
        (attempt inp wid (entry_of inp wid state.plan_retries)).1 h

  continue_item-others :
      (k : String) (c : Dict PlanDispatch × Option ℕ)
      → str_eq wid k ≡ false
      → lookup k (after state (continue_item inp wid state.plan_retries c).stored).plan_retries
        ≡ lookup k state.plan_retries
  unfolding continue_item attempt_item
  continue_item-others k (dispatches, some pid) other = refl
  continue_item-others k (dispatches, none) other =
      update_retries-lookup inp wid k state.plan_retries
        (attempt inp wid (entry_of inp wid state.plan_retries)).1 other

  -- A cycle keeps every retry counter consistent: the flag of a permanent failure is set exactly
  -- when the attempts have reached the limit, and the time of a next attempt is there exactly when
  -- they have not.
  pub run_item-AreConsistent :
      AreConsistent inp.max_retries state.plan_retries
      → AreConsistent inp.max_retries (after state (run_item inp wid state).stored).plan_retries
  unfolding run_item
  run_item-AreConsistent h =
      continue_item-AreConsistent (check_existing inp wid state.plan_dispatches) h

  -- A cycle leaves the retry counter of every other item as it was.
  pub run_item-others :
      (k : String)
      → str_eq wid k ≡ false
      → lookup k (after state (run_item inp wid state).stored).plan_retries
        ≡ lookup k state.plan_retries
  unfolding run_item
  run_item-others k other =
      continue_item-others k (check_existing inp wid state.plan_dispatches) other
