-- ===== src/Engine/Candidates.antt =====
-- src/ampa/engine/candidates.py. The proofs are below.
pub mod Filter
pub mod Select
use Prim.Native.String.{char_at}
use ampa.Prelude.{
  and_then, String, Bool, true, false, ◌&&◌, ◌||◌, not, List, [], ◌∷◌, ◌++◌, map, Option, none,
  some, Result, ok, raise, if◌then◌else◌, str_eq, any, contains, keep, nonempty, is_empty, ℤ, gt_ℤ,
  traverse, ◌==◌, length, ltb,
}
use ampa.Text.{strip, lower, split}
use ampa.Value.{
  Value, Items, Fields, null, bool, int, number, str, list, dict, end, truthy, ◌or◌, str_of, get,
  get_default, items_to_list,
}
use ampa.Engine.Descriptor.{
  StateTuple, WorkflowDescriptor, state_in, resolve_state_ref, get_command,
}
use ampa.Engine.Records.{
  WorkItemCandidate, RejectionReason, missing_id, tagged_do_not_delegate, not_delegatable,
  CandidateRejection, GlobalRejection, query_error, no_candidates_returned, in_progress_exist,
  CandidateResult,
}
use ampa.Engine.World.{Services, Io, ◌>>=◌, pure, try_except, call_count, call_fetch_candidates}

abbrev normal : Value → String
normal v = lower (strip (str_of v))

unfoldable pub extract_id : Fields → String
extract_id raw = str_of (get raw "id" or get raw "work_item_id" or get raw "workItemId" or str "")

unfoldable pub extract_title : Fields → String
extract_title raw = str_of (get raw "title" or get raw "name" or str "")

unfoldable pub extract_status : Fields → String
extract_status raw = normal (get raw "status" or str "")

unfoldable pub extract_stage : Fields → String
extract_stage raw = normal (get raw "stage" or get raw "state" or str "")

unfoldable pub extract_priority : Fields → String
extract_priority raw = str_of (get raw "priority" or str "")

-- A text is a list of tags between commas; anything but a text or a list gives none.
abbrev tags_of : Value → List String
tags_of (str s) =
    map (λ t. lower (strip t)) (keep (λ t. nonempty (strip t)) (split (char_at "," 0) s))
tags_of (list xs) = map normal (keep truthy (items_to_list xs))
tags_of _ = []

unfoldable pub extract_tags : Fields → List String
extract_tags raw = tags_of (get raw "tags" or get raw "tag" or list Items.nil)

unfoldable pub to_candidate : Fields → WorkItemCandidate
unfolding extract_id extract_title extract_status extract_stage extract_priority extract_tags
to_candidate raw = record {
  id = extract_id raw;
  title = extract_title raw;
  status = extract_status raw;
  stage = extract_stage raw;
  priority = extract_priority raw;
  tags = extract_tags raw;
  raw = raw;
}

abbrev pub do_not_delegate_tags : List String
do_not_delegate_tags = "do-not-delegate" ∷ "do_not_delegate" ∷ []

abbrev yes_texts : List String
yes_texts = "1" ∷ "true" ∷ "yes" ∷ "y" ∷ []

-- The legacy metadata keys; metadata that is no dict is passed over.
abbrev marked_in_metadata : Value → Bool
marked_in_metadata (dict meta) =
    any (λ key. contains yes_texts (normal (get_default meta key (str ""))))
      ("do_not_delegate" ∷ "no_delegation" ∷ [])
marked_in_metadata _ = false

-- `value in (True, "true", "1", 1)`
abbrev marked_by_field : Value → Bool
marked_by_field (bool b) = b
marked_by_field (int n) = n == 1
marked_by_field (str s) = str_eq s "true" || str_eq s "1"
marked_by_field (number t) = str_eq t "1.0"
marked_by_field _ = false

unfoldable pub is_do_not_delegate : WorkItemCandidate → Bool
is_do_not_delegate candidate =
    any (λ t. contains do_not_delegate_tags t) candidate.tags
    || (marked_in_metadata (get candidate.raw "metadata" or get candidate.raw "meta" or dict end)
        || marked_by_field (get candidate.raw "do_not_delegate"))

unfoldable pub get_valid_from_states : WorkflowDescriptor → String → Result (List StateTuple)
get_valid_from_states d command_name =
    and_then (get_command d command_name) (λ cmd. traverse (resolve_state_ref d) cmd.from_states)

abbrev pub state_of : WorkItemCandidate → StateTuple
state_of c = record { status = c.status; stage = c.stage }

unfoldable pub is_in_valid_from_state : WorkItemCandidate → List StateTuple → Bool
is_in_valid_from_state candidate valid_states = state_in (state_of candidate) valid_states

-- The object: what its constructor resolves once.
pub record CandidateSelector : Type 0 where
  pub valid_states : List StateTuple

unfoldable pub new_selector : WorkflowDescriptor → String → Result CandidateSelector
new_selector d command_name =
    and_then (get_valid_from_states d command_name)
      (λ states. ok (record { valid_states = states }))

-- Why a candidate is rejected; `none` for one that passes the three filters, which are tried in
-- this order.
unfoldable pub rejection : List StateTuple → WorkItemCandidate → Option RejectionReason
rejection valid_states c =
    if not (nonempty c.id)
    then some missing_id
    else if is_do_not_delegate c
    then some tagged_do_not_delegate
    else if not (is_in_valid_from_state c valid_states)
    then some (not_delegatable c.stage (map (λ s. s.stage) valid_states))
    else none

-- The variables of the loop of `select`.
pub record Selection : Type 0 where
  pub candidates : List WorkItemCandidate
  pub rejections : List CandidateRejection
  pub selected : Option WorkItemCandidate

abbrev or_first : Option WorkItemCandidate → WorkItemCandidate → Option WorkItemCandidate
or_first none c = some c
or_first (some d) c = some d

-- One round of the loop.
abbrev consider : Selection → WorkItemCandidate → Option RejectionReason → Selection
consider s c (some why) = record {
  candidates = s.candidates ++ c ∷ [];
  rejections = s.rejections ++ (record { candidate = c; reason = why }) ∷ [];
  selected = s.selected;
}
consider s c none = record {
  candidates = s.candidates ++ c ∷ [];
  rejections = s.rejections;
  selected = or_first s.selected c;
}

unfoldable pub filter_loop : List StateTuple → List Fields → Selection → Selection
filter_loop valid_states [] s = s
filter_loop valid_states (raw ∷ raws) s =
    let c = to_candidate raw in
    filter_loop valid_states raws (consider s c (rejection valid_states c))

abbrev nothing_yet : Selection
nothing_yet = record { candidates = []; rejections = []; selected = none }

abbrev blocked_by : GlobalRejection → List WorkItemCandidate → CandidateResult
blocked_by why cs = record {
  selected = none;
  candidates = cs;
  rejections = [];
  global_rejections = why ∷ [];
}

abbrev result_of : Selection → CandidateResult
result_of s = record {
  selected = s.selected;
  candidates = s.candidates;
  rejections = s.rejections;
  global_rejections = [];
}

module _ (sv : Services) where
  -- `_fetch_candidates`: a failed fetch counts as no candidates.
  abbrev pub fetch_candidates : Io (List Fields)
  fetch_candidates = try_except (call_fetch_candidates sv) (pure [])

  -- `none` stands for a query that raised.
  abbrev in_progress_count : Io (Option ℤ)
  in_progress_count = try_except (call_count sv >>= λ n. pure (some n)) (pure none)

  abbrev choose : CandidateSelector → List Fields → CandidateResult
  choose self raws =
      if is_empty raws
      then blocked_by no_candidates_returned []
      else result_of (filter_loop self.valid_states raws nothing_yet)

  abbrev select_after : CandidateSelector → Option ℤ → Io CandidateResult
  select_after self none = pure (blocked_by query_error [])
  select_after self (some n) = fetch_candidates >>= λ raws. pure (
      if gt_ℤ n 0
      then blocked_by (in_progress_exist n) (map to_candidate raws)
      else choose self raws)

  unfoldable pub select : CandidateSelector → Io CandidateResult
  select self = in_progress_count >>= λ count. select_after self count
