-- ===== src/Engine/Evaluator/Results.antt =====
-- What the aggregate result of `evaluate` says of the single results.
use ampa.Prelude.{
  sym, ◌≤◌, String, Bool, true, false, not, ◌&&◌, List, [], ◌∷◌, ◌++◌, map, ok, ◌≡◌, refl, ◌∙◌, ap,
  arith, all, count, count-append, Bool-cases, if◌then◌else◌, ◌⊎◌, inl, inr, subst,
}
use mathlib.Core.List.{append-nil, append_assoc, map-append}
use ampa.Value.{Fields}
use ampa.Engine.Records.{SingleInvariantResult, InvariantResult}
use ampa.Engine.World.{Trace, Io, continue-eq-ok, pure}
use ampa.Engine.Expressions.{extract_work_item_fields}
use ampa.Engine.Invariants.{Answer}
use ampa.Engine.Evaluator.{InvariantEvaluator, single, evaluate_name, evaluate_loop, evaluate}

abbrev pub names_of : List SingleInvariantResult → List String
names_of rs = map (λ r. r.name) rs

abbrev pub has_failed : SingleInvariantResult → Bool
has_failed r = not r.passed

-- What a run of the loop over `names` gives of its result.
record IsVerdict (fail_fast : Bool) (names : List String) (r : InvariantResult) : Type 0 where
  verdict : r.passed ≡ all (λ x. x.passed) r.results
  all_named : (r.passed ≡ true) ⊎ (fail_fast ≡ false) → names_of r.results ≡ names
  one_failure : fail_fast ≡ true → count has_failed r.results ≤ 1

all-append :
    (p : SingleInvariantResult → Bool) (xs ys : List SingleInvariantResult)
    → all p (xs ++ ys) ≡ (all p xs && all p ys)
all-append p [] ys = refl
all-append p (x ∷ xs) ys = ground (arith, all-append p xs ys)

module _ (ev : InvariantEvaluator) (fail_fast : Bool) (fields : Fields) where
  -- The state of the loop after the names `done`.
  record IsRunning (done : List String) (results : List SingleInvariantResult) (passed : Bool)
      : Type 0 where
    verdict : passed ≡ all (λ x. x.passed) results
    named : names_of results ≡ done
    no_failure : fail_fast ≡ true → count has_failed results ≡ 0

  IsRunning-single :
      (done : List String) (results : List SingleInvariantResult) (passed : Bool) (name : String)
      (answer : Answer)
      → IsRunning done results passed
      → (answer.0 ≡ true) ⊎ (fail_fast ≡ false)
      → IsRunning (done ++ name ∷ []) (results ++ single name answer ∷ []) (passed && answer.0)
  IsRunning-single done results passed name answer h c = record {
    verdict = ground (
      arith,
      h.verdict,
      all-append (λ (x : SingleInvariantResult). x.passed) results (single name answer ∷ []),
    );
    named =
        map-append (λ (r : SingleInvariantResult). r.name) results (single name answer ∷ [])
        ∙ ap (λ l. l ++ name ∷ []) h.named;
    no_failure = λ ff.
        count-append has_failed results (single name answer ∷ []) ∙ ground (arith, h.no_failure ff);
  }

  -- The run stopped at its first failure.
  stop-IsVerdict :
      (done names : List String) (results : List SingleInvariantResult) (passed : Bool)
      (name : String) (answer : Answer)
      → IsRunning done results passed
      → answer.0 ≡ false
      → fail_fast ≡ true
      → IsVerdict fail_fast names
          (record { passed = false; results = results ++ single name answer ∷ [] })
  stop-IsVerdict done names results passed name answer h failed ff = record {
    verdict = ground (
      arith,
      all-append (λ (x : SingleInvariantResult). x.passed) results (single name answer ∷ []),
    );
    all_named = λ c. ground arith;
    one_failure = λ _.
        ground (arith, h.no_failure ff, count-append has_failed results (single name answer ∷ []));
  }

  -- What the rest of the loop gives, from any state that follows this one.
  module _ (name : String) (names done : List String) (r : InvariantResult)
      (ih : (results : List SingleInvariantResult) (passed : Bool) (t : Trace)
        → IsRunning (done ++ name ∷ []) results passed
        → (evaluate_loop ev fail_fast fields names results passed t).0 ≡ ok r
        → IsVerdict fail_fast (done ++ name ∷ names) r) where
    if-else :
        (b : Bool) (m n : Io InvariantResult) (t : Trace)
        → b ≡ false
        → ((if b then m else n) t).0 ≡ ok r
        → (n t).0 ≡ ok r
    if-else b m n t h e = rw h at e

    if-then :
        (b : Bool) (m n : Io InvariantResult) (t : Trace)
        → b ≡ true
        → ((if b then m else n) t).0 ≡ ok r
        → (m t).0 ≡ ok r
    if-then b m n t h e = rw h at e

    step-IsVerdict :
        (results : List SingleInvariantResult) (passed : Bool) (t : Trace) (answer : Answer)
        → IsRunning done results passed
        → ((if answer.0
              then evaluate_loop ev fail_fast fields names
                  (results ++ single name answer ∷ [])
                  passed
              else if fail_fast
              then pure (record { passed = false; results = results ++ single name answer ∷ [] })
              else evaluate_loop ev fail_fast fields names
                  (results ++ single name answer ∷ [])
                  false)
            t).0
          ≡ ok r
        → IsVerdict fail_fast (done ++ name ∷ names) r
    step-IsVerdict results passed t (true, reason) h e =
        ih _ passed t
          (subst (IsRunning (done ++ name ∷ []) (results ++ single name (true, reason) ∷ []))
            (ground arith) (IsRunning-single done results passed name (true, reason) h (inl refl)))
          e
    step-IsVerdict results passed t (false, reason) h e = elim (Bool-cases fail_fast) [
      | inl ff ↦
          subst (IsVerdict fail_fast (done ++ name ∷ names)) (ground (arith, if-then _ _ _ t ff e))
            (stop-IsVerdict done (done ++ name ∷ names) results passed name (false, reason) h refl
              ff)
      | inr ff ↦
          ih _ false t
            (subst (IsRunning (done ++ name ∷ []) (results ++ single name (false, reason) ∷ []))
              (ground arith) (IsRunning-single done results passed name (false, reason) h (inr ff)))
            (if-else _ _ _ t ff e)
    ]

  loop-IsVerdict :
      (todo done : List String) (results : List SingleInvariantResult) (passed : Bool) (t : Trace)
      (r : InvariantResult)
      → IsRunning done results passed
      → (evaluate_loop ev fail_fast fields todo results passed t).0 ≡ ok r
      → IsVerdict fail_fast (done ++ todo) r
  unfolding evaluate_loop
  loop-IsVerdict [] done results passed t r h e = record {
    verdict = ground (arith, h.verdict);
    all_named = λ _. ground (arith, h.named, append-nil done);
    one_failure = λ ff. ground (arith, h.no_failure ff);
  }
  loop-IsVerdict (name ∷ names) done results passed t r h e =
      let (outcome, t') = evaluate_name ev fail_fast fields name t in
      let (answer, _, rest) = continue-eq-ok outcome _ t' e in
      step-IsVerdict name names done r
        (λ results' passed' t'' h' e'.
          rw append_assoc at
            (loop-IsVerdict names (done ++ name ∷ []) results' passed' t'' r h' e'))
        results passed t' answer h rest

module _ (ev : InvariantEvaluator) (names : List String) (work_item : Fields) (fail_fast : Bool)
    (t : Trace) (r : InvariantResult) (e : (evaluate ev names work_item fail_fast t).0 ≡ ok r) where
  evaluate-IsVerdict : IsVerdict fail_fast names r
  unfolding evaluate
  evaluate-IsVerdict =
      let (fields, _, rest) =
        continue-eq-ok (extract_work_item_fields work_item)
          (λ fields. evaluate_loop ev fail_fast fields names [] true) t e in
      loop-IsVerdict ev fail_fast fields names [] [] true t r
        (record { verdict = refl; named = refl; no_failure = λ _. refl }) rest

  -- A result that `evaluate` returns has passed exactly when all of its single results have.
  pub evaluate-eq-all : r.passed ≡ all (λ x. x.passed) r.results
  evaluate-eq-all = evaluate-IsVerdict.verdict

  -- If the result has passed, or the evaluation does not stop at failures, then `evaluate` gives
  -- one single result for each name that was asked for, in that order.
  pub evaluate_all_named : (r.passed ≡ true) ⊎ (fail_fast ≡ false) → names_of r.results ≡ names
  evaluate_all_named c = evaluate-IsVerdict.all_named c

  -- An evaluation that stops at failures reports at most one failure.
  pub evaluate_one_failure : fail_fast ≡ true → count has_failed r.results ≤ 1
  evaluate_one_failure ff = evaluate-IsVerdict.one_failure ff

-- A run over all of `names` on the item that gave `i`, in which every one of them passed.
pub record Passes (ev : InvariantEvaluator) (names : List String) (work_item : Fields)
    (i : InvariantResult) : Type 0 where
  pub before : Trace
  pub evaluated : (evaluate ev names work_item false before).0 ≡ ok i
  pub named : names_of i.results ≡ names
  pub all_passed : all (λ x. x.passed) i.results ≡ true

pub evaluate-Passes :
    (ev : InvariantEvaluator) (names : List String) (work_item : Fields) (t : Trace)
    (i : InvariantResult)
    → (evaluate ev names work_item false t).0 ≡ ok i
    → i.passed ≡ true
    → Passes ev names work_item i
evaluate-Passes ev names work_item t i e passed = record {
  before = t;
  evaluated = e;
  named = evaluate_all_named ev names work_item false t i e (inl passed);
  all_passed = sym (evaluate-eq-all ev names work_item false t i e) ∙ passed;
}
