-- ===== src/PlanRunner/Cycle.antt =====
-- What one cycle of the plan runner does with the selected item.
use ampa.Prelude.{
  ℕ, ◌+◌, ◌≤◌, String, Bool, true, false, not, [], ◌∷◌, Option, none, some, ◌≡◌, subst, refl, ap,
  arith, Dict, insert, lookup, lookup-insert, lookup-remove, leb, Bool-cases, inl, inr, eq_refl,
}
use ampa.Engine.Records.{DispatchResult}
use ampa.PlanRunner.Retries.{after}
use ampa.PlanRunner.{
  PlanDispatch, Retry, PlanState, Inputs, permanent_failure_of, alive, check_existing, entry_of,
  check_backoff, dispatch_unless, attempt, count_failure, update_retries, record_result,
  notify_success, attempt_item, continue_item, run_item,
}

module _ (inp : Inputs) (wid : String) (state : PlanState) where
  -- While the recorded process group of an item is alive and its end was not observed, a cycle
  -- calls no dispatcher and writes no state: a second plan run is not started beside the first.
  pub run_item_running :
      (d : PlanDispatch) (pid : ℕ)
      → lookup wid state.plan_dispatches ≡ some d
      → d.pid ≡ some pid
      → d.observed ≡ false
      → inp.killpg pid ≡ alive
      → ((run_item inp wid state).dispatcher_calls ≡ 0) × ((run_item inp wid state).stored ≡ none)
  unfolding run_item check_existing continue_item
  run_item_running d pid found has_pid unseen lives =
      (rw (found, has_pid, unseen, lives) refl, rw (found, has_pid, unseen, lives) refl)

  -- The state that an item is in when nothing was recorded of a run of it.
  module _ (fresh : lookup wid state.plan_dispatches ≡ none) where
    -- An item without a recorded run, whose failure is permanent and whose attempts have reached the
    -- limit, is not dispatched, but each cycle sends the notice of its permanent failure again, and
    -- writes a state in which the item has one attempt more and its failure is still permanent.
    pub run_item_permanent :
        (r : Retry)
        → lookup wid state.plan_retries ≡ some r
        → r.permanent_failure ≡ true
        → inp.max_retries ≤ r.attempts
        → ((run_item inp wid state).dispatcher_calls ≡ 0)
          × ((run_item inp wid state).notices
              ≡ permanent_failure_of wid (r.attempts + 1) (some "permanent_failure") ∷ [])
          × (new : PlanState) × ((run_item inp wid state).stored ≡ some new)
          × (kept : Retry) × (lookup wid new.plan_retries ≡ some kept)
          × (kept.attempts ≡ r.attempts + 1)
          × (kept.permanent_failure ≡ true)
    unfolding run_item check_existing continue_item attempt_item attempt update_retries
        count_failure entry_of notify_success
    run_item_permanent r found permanent reached = (
      rw (fresh, found, permanent) refl,
      rw (fresh, found, permanent) (ground arith),
      record {
        plan_dispatches =
            record_result inp wid state.plan_dispatches
              (attempt inp wid (entry_of inp wid state.plan_retries)).1;
        plan_retries = insert wid kept state.plan_retries;
      },
      rw (fresh, found, permanent) (ground arith),
      kept,
      rw (lookup-insert, eq_refl wid) refl,
      refl,
      refl,
    )
      where
        kept : Retry
        kept = record { attempts = r.attempts + 1; permanent_failure = true; next_attempt = none }

    -- An item without a recorded run and without a permanent failure is dispatched by every cycle,
    -- also before the time that its backoff sets.
    pub run_item_too_early :
        (r : Retry)
        → lookup wid state.plan_retries ≡ some r
        → r.permanent_failure ≡ false
        → (run_item inp wid state).dispatcher_calls ≡ 1
    unfolding run_item check_existing continue_item attempt_item attempt entry_of check_backoff
        dispatch_unless
    run_item_too_early r found passing = rw (fresh, found, passing) (ground arith)

abbrev pub has_failed : Option DispatchResult → Bool
has_failed none = true
has_failed (some r) = not r.success

module _ (inp : Inputs) (wid : String) where
  count_failure-entry :
      (m : Dict Retry) (error : Option String)
      → ((entry_of inp wid (count_failure inp wid m error).0).attempts
          ≡ (entry_of inp wid m).attempts + 1)
        × ((entry_of inp wid (count_failure inp wid m error).0).permanent_failure
            ≡ leb inp.max_retries ((entry_of inp wid m).attempts + 1))
  unfolding count_failure entry_of
  count_failure-entry m error =
      let n = (entry_of inp wid m).attempts + 1 in
      elim (Bool-cases (leb inp.max_retries n)) [
        | inl reached ↦ (
          rw (reached, lookup-insert, eq_refl wid) refl,
          rw (reached, lookup-insert, eq_refl wid) refl,
        )
        | inr below ↦ (
          rw (below, lookup-insert, eq_refl wid) refl,
          rw (below, lookup-insert, eq_refl wid) refl,
        )
      ]

  update_retries_failed :
      (m : Dict Retry) (o : Option DispatchResult)
      → has_failed o ≡ true
      → ((entry_of inp wid (update_retries inp wid m o).0).attempts
          ≡ (entry_of inp wid m).attempts + 1)
        × ((entry_of inp wid (update_retries inp wid m o).0).permanent_failure
            ≡ leb inp.max_retries ((entry_of inp wid m).attempts + 1))
  unfolding update_retries
  update_retries_failed m none h = count_failure-entry m none
  update_retries_failed m (some r) h =
      let lost : r.success ≡ false = ground (arith, h) in rw lost (count_failure-entry m r.error)

  continue_failed :
      (m : Dict Retry) (c : Dict PlanDispatch × Option ℕ) (new : PlanState)
      → (continue_item inp wid m c).stored ≡ some new
      → has_failed (continue_item inp wid m c).result ≡ true
      → ((entry_of inp wid new.plan_retries).attempts ≡ (entry_of inp wid m).attempts + 1)
        × ((entry_of inp wid new.plan_retries).permanent_failure
            ≡ leb inp.max_retries ((entry_of inp wid m).attempts + 1))
  unfolding continue_item attempt_item
  continue_failed m (ds, some pid) new h f = absurd (cc)
  continue_failed m (ds, none) new h f =
      subst
        (λ (s : PlanState).
          ((entry_of inp wid s.plan_retries).attempts ≡ (entry_of inp wid m).attempts + 1)
          × ((entry_of inp wid s.plan_retries).permanent_failure
              ≡ leb inp.max_retries ((entry_of inp wid m).attempts + 1)))
        (ap (after new) h) (update_retries_failed m (attempt inp wid (entry_of inp wid m)).1 f)

  continue_won :
      (m : Dict Retry) (c : Dict PlanDispatch × Option ℕ) (new : PlanState) (r : DispatchResult)
      → (continue_item inp wid m c).stored ≡ some new
      → (continue_item inp wid m c).result ≡ some r
      → r.success ≡ true
      → (lookup wid new.plan_retries ≡ none)
        × (lookup wid new.plan_dispatches
            ≡ some (record {
              pid = r.pid;
              started_at = inp.save_time;
              success = true;
              observed = false;
            }))
  unfolding continue_item attempt_item update_retries record_result
  continue_won m (ds, some pid) new r h e won = absurd (cc)
  continue_won m (ds, none) new r h e won =
      subst
        (λ (s : PlanState).
          (lookup wid s.plan_retries ≡ none)
          × (lookup wid s.plan_dispatches
              ≡ some (record {
                pid = r.pid;
                started_at = inp.save_time;
                success = true;
                observed = false;
              })))
        (ap (after new) h)
        (rw (e, won, lookup-remove, eq_refl wid) refl, rw (e, lookup-insert, eq_refl wid, won) refl)

  module _ (state new : PlanState) (stored : (run_item inp wid state).stored ≡ some new) where
    -- A cycle that writes the state without a successful dispatch counts exactly one more attempt
    -- for the item, and its failure is permanent exactly when the attempts have reached the limit.
    pub run_item_failed :
        has_failed (run_item inp wid state).result ≡ true
        → ((entry_of inp wid new.plan_retries).attempts
            ≡ (entry_of inp wid state.plan_retries).attempts + 1)
          × ((entry_of inp wid new.plan_retries).permanent_failure
              ≡ leb inp.max_retries ((entry_of inp wid state.plan_retries).attempts + 1))
    unfolding run_item
    run_item_failed f =
        continue_failed state.plan_retries (check_existing inp wid state.plan_dispatches) new stored
          f

    -- A cycle that writes the state after a successful dispatch forgets the retries of the item and
    -- records the process of that dispatch, unobserved.
    pub run_item_dispatched :
        (r : DispatchResult)
        → (run_item inp wid state).result ≡ some r
        → r.success ≡ true
        → (lookup wid new.plan_retries ≡ none)
          × (lookup wid new.plan_dispatches
              ≡ some (record {
                pid = r.pid;
                started_at = inp.save_time;
                success = true;
                observed = false;
              }))
    unfolding run_item
    run_item_dispatched r e won =
        continue_won state.plan_retries (check_existing inp wid state.plan_dispatches) new r stored
          e won
