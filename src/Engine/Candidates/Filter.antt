-- ===== src/Engine/Candidates/Filter.antt =====
-- The loop of `CandidateSelector.select` over the fetched items.
use ampa.Prelude.{
  Bool, true, false, List, [], ◌∷◌, ◌++◌, map, Option, none, some, ◌≡◌, refl, ◌∙◌, sym, arith,
  Option-cases, inl, inr, find, nonempty, if◌then◌else◌,
}
use mathlib.Core.List.{append-nil, append_assoc}
use ampa.Value.{Fields}
use ampa.Engine.Descriptor.{StateTuple}
use ampa.Engine.Records.{WorkItemCandidate, RejectionReason, CandidateRejection}
use ampa.Engine.Candidates.{
  Selection, rejection, consider, filter_loop, nothing_yet, to_candidate, is_do_not_delegate,
  is_in_valid_from_state, or_first,
}

abbrev is_none : Option RejectionReason → Bool
is_none none = true
is_none (some why) = false

abbrev reject_cons :
    Option RejectionReason → WorkItemCandidate → List CandidateRejection → List CandidateRejection
reject_cons none c rs = rs
reject_cons (some why) c rs = (record { candidate = c; reason = why }) ∷ rs

-- The candidates that a list of raw items rejects, each with its reason.
abbrev pub rejected : List StateTuple → List WorkItemCandidate → List CandidateRejection
rejected states [] = []
rejected states (c ∷ cs) = reject_cons (rejection states c) c (rejected states cs)

abbrev pub accepted : List StateTuple → List WorkItemCandidate → Option WorkItemCandidate
accepted states cs = find (λ c. is_none (rejection states c)) cs

abbrev first_of_two : Option WorkItemCandidate → Option WorkItemCandidate → Option WorkItemCandidate
first_of_two none o = o
first_of_two (some c) o = some c

abbrev pub cands : List Fields → List WorkItemCandidate
cands raws = map to_candidate raws

-- What the loop adds to its variables.
abbrev after : List StateTuple → List WorkItemCandidate → Selection → Selection
after states cs s = record {
  candidates = s.candidates ++ cs;
  rejections = s.rejections ++ rejected states cs;
  selected = first_of_two s.selected (accepted states cs);
}

after-nil : (states : List StateTuple) (s : Selection) → s ≡ after states [] s
after-nil states s =
    let keeps : (o : Option WorkItemCandidate) → o ≡ first_of_two o none = elim [
      | none ↦ refl
      | some c ↦ refl
    ] in
    λ i. record {
      candidates = sym (append-nil s.candidates) i;
      rejections = sym (append-nil s.rejections) i;
      selected = keeps s.selected i;
    }

first_of_two-or_first :
    (o p : Option WorkItemCandidate) (c : WorkItemCandidate)
    → first_of_two (or_first o c) p ≡ first_of_two o (some c)
first_of_two-or_first none p c = refl
first_of_two-or_first (some d) p c = refl

after-consider :
    (states : List StateTuple) (c : WorkItemCandidate) (cs : List WorkItemCandidate) (s : Selection)
    (o : Option RejectionReason)
    → after states cs (consider s c o) ≡ record {
      candidates = s.candidates ++ c ∷ cs;
      rejections = s.rejections ++ reject_cons o c (rejected states cs);
      selected = first_of_two s.selected (if is_none o then some c else accepted states cs);
    }
after-consider states c cs s none = λ i. record {
  candidates = append_assoc s.candidates (c ∷ []) cs i;
  rejections = s.rejections ++ rejected states cs;
  selected = first_of_two-or_first s.selected (accepted states cs) c i;
}
after-consider states c cs s (some why) = λ i. record {
  candidates = append_assoc s.candidates (c ∷ []) cs i;
  rejections =
      append_assoc s.rejections ((record { candidate = c; reason = why }) ∷ []) (rejected states cs)
        i;
  selected = first_of_two s.selected (accepted states cs);
}

filter_loop_lem :
    (states : List StateTuple) (raws : List Fields) (s : Selection)
    → filter_loop states raws s ≡ after states (cands raws) s
unfolding filter_loop
filter_loop_lem states [] s = after-nil states s
filter_loop_lem states (raw ∷ raws) s =
    let c = to_candidate raw in
    filter_loop_lem states raws (consider s c (rejection states c))
    ∙ after-consider states c (cands raws) s (rejection states c)

-- The whole of what a selection with no blocker returns: every candidate in the fetched order, the
-- rejected ones with their reasons, and the first one that is not rejected.
pub select_unblocked :
    (states : List StateTuple) (raws : List Fields)
    → filter_loop states raws nothing_yet ≡ record {
      candidates = cands raws;
      rejections = rejected states (cands raws);
      selected = accepted states (cands raws);
    }
select_unblocked states raws = filter_loop_lem states raws nothing_yet

pub accepted-passes :
    (states : List StateTuple) (cs : List WorkItemCandidate) (c : WorkItemCandidate)
    → accepted states cs ≡ some c
    → rejection states c ≡ none
accepted-passes states [] c h = cc
accepted-passes states (d ∷ cs) c h = elim (Option-cases (rejection states d)) [
  | inl e ↦ let found : Option.some d ≡ some c = rw e at h in cc
  | inr (why, e) ↦ accepted-passes states cs c (rw e at h)
]

pub not_rejected :
    (states : List StateTuple) (c : WorkItemCandidate)
    → rejection states c ≡ none
    → (nonempty c.id ≡ true)
      × (is_do_not_delegate c ≡ false)
      × (is_in_valid_from_state c states ≡ true)
unfolding rejection
not_rejected states c h = ground arith
