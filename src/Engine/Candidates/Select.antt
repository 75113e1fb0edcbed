-- ===== src/Engine/Candidates/Select.antt =====
-- What `select` promises of its result.
use ampa.Prelude.{
  Bool, true, false, List, [], ◌∷◌, ◌++◌, Option, none, some, Result, ok, raise, ◌≡◌, refl, ◌∙◌,
  sym, ap, arith, Bool-cases, inl, inr, is_empty, ℤ, gt_ℤ, nonempty, if◌then◌else◌,
}
use ampa.Value.{Fields}
use ampa.Engine.Descriptor.{StateTuple}
use ampa.Engine.Records.{
  Event, counted, candidates_fetched, query_error, no_candidates_returned, in_progress_exist,
  WorkItemCandidate, CandidateResult,
}
use ampa.Engine.World.{Trace, Services}
use ampa.Engine.World.Silent.{Silent, Silent-pure, Silent-try, Silent-bind, Silent-call}
use ampa.Engine.Candidates.{
  CandidateSelector, rejection, select, is_do_not_delegate, is_in_valid_from_state, blocked_by,
  choose, result_of, select_after,
}
use ampa.Engine.Candidates.Filter.{
  rejected, accepted, cands, select_unblocked, accepted-passes, not_rejected,
}

-- A failed fetch counts as no candidates.
abbrev pub or_nil : Result (List Fields) → List Fields
or_nil (ok raws) = raws
or_nil (raise e) = []

-- What `select` should answer, from the two answers of the services: nothing may be selected
-- while items are in progress or unknown, and else the first candidate with an id, not marked
-- do-not-delegate and in a valid from-state is; every fetched candidate is in the audit trail.
abbrev pub expected : List StateTuple → Result ℤ → Result (List Fields) → CandidateResult
expected states (raise e) fetched = blocked_by query_error []
expected states (ok n) fetched =
    if gt_ℤ n 0
    then blocked_by (in_progress_exist n) (cands (or_nil fetched))
    else if is_empty (or_nil fetched)
    then blocked_by no_candidates_returned []
    else record {
      selected = accepted states (cands (or_nil fetched));
      candidates = cands (or_nil fetched);
      rejections = rejected states (cands (or_nil fetched));
      global_rejections = [];
    }

module _ (sv : Services) (self : CandidateSelector) where
  choose-expected :
      (raws : List Fields)
      → choose sv self raws ≡ (
          if is_empty raws then blocked_by no_candidates_returned [] else record {
            selected = accepted self.valid_states (cands raws);
            candidates = cands raws;
            rejections = rejected self.valid_states (cands raws);
            global_rejections = [];
          })
  choose-expected [] = refl
  choose-expected (raw ∷ raws) = ap result_of (select_unblocked self.valid_states (raw ∷ raws))

  -- `select` always returns, whatever the services raise, and returns what is expected of the
  -- answers to its query and its fetch.
  pub select-expected :
      (t : Trace)
      → (select sv self t).0
        ≡ ok (
            expected self.valid_states
              (sv.count_in_progress t)
              (sv.fetch_candidates (t ++ counted ∷ [])))
  unfolding select
  select-expected t =
      ground (arith, choose-expected (or_nil (sv.fetch_candidates (t ++ counted ∷ []))))

expected_selected :
    (states : List StateTuple) (count : Result ℤ) (fetched : Result (List Fields))
    (c : WorkItemCandidate)
    → (expected states count fetched).selected ≡ some c
    → rejection states c ≡ none
expected_selected states (raise e) fetched c h = cc
expected_selected states (ok n) fetched c h = elim (Bool-cases (gt_ℤ n 0)) [
  | inl blocked ↦ absurd (cc (rw blocked at h))
  | inr free ↦ elim (Bool-cases (is_empty (or_nil fetched))) [
    | inl empty ↦ absurd (cc (rw (free, empty) at h))
    | inr full ↦ accepted-passes states (cands (or_nil fetched)) c (rw (free, full) at h)
  ]
]

module _ (sv : Services) (self : CandidateSelector) (t : Trace) (r : CandidateResult)
    (h : (select sv self t).0 ≡ ok r) where
  select-eq :
      r
      ≡ expected self.valid_states
          (sv.count_in_progress t)
          (sv.fetch_candidates (t ++ counted ∷ []))
  select-eq = cc (select-expected sv self t)

  -- A selected candidate has an id, is not marked do-not-delegate in any way that the program
  -- reads, and its state is one of the from-states that the selector resolved.
  pub select_guards :
      (c : WorkItemCandidate)
      → r.selected ≡ some c
      → (nonempty c.id ≡ true)
        × (is_do_not_delegate c ≡ false)
        × (is_in_valid_from_state c self.valid_states ≡ true)
  select_guards c s =
      let fetched = sv.fetch_candidates (t ++ counted ∷ []) in
      not_rejected self.valid_states c (
        expected_selected self.valid_states (sv.count_in_progress t) fetched c
          (ap (λ x. x.selected) (sym select-eq) ∙ s))

  -- Nothing is selected when the query counts items in progress.
  pub select_blocked : (n : ℤ) → sv.count_in_progress t ≡ ok n → gt_ℤ n 0 ≡ true → r.selected ≡ none
  select_blocked n counts blocked = ap (λ x. x.selected) select-eq ∙ rw (counts, blocked)

-- A selection makes its two queries and no other call.
pub select-Silent :
    {p : Event → Bool} (sv : Services) (self : CandidateSelector)
    → p counted ≡ false
    → p candidates_fetched ≡ false
    → Silent p (select sv self)
unfolding select
select-Silent {p} sv self hc hf =
    Silent-bind _ _
      (Silent-try _ _
        (Silent-bind _ _ (Silent-call sv.count_in_progress (λ t. counted) (λ t. hc))
          (λ n. Silent-pure _))
        (Silent-pure _))
      (λ o. after_count o)
  where
    after_count : (o : Option ℤ) → Silent p (select_after sv self o)
    after_count none = Silent-pure _
    after_count (some n) =
        Silent-bind _ _
          (Silent-try _ _ (Silent-call sv.fetch_candidates (λ t. candidates_fetched) (λ t. hf))
            (Silent-pure _))
          (λ raws. Silent-pure _)
