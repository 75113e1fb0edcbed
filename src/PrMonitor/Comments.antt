-- ===== src/PrMonitor/Comments.antt =====
-- What src/ampa/pr_monitor.py reads in comments: markers, dispatch states and audits.
use Prim.Native.Char.{Char, code}
use Prim.Native.String.{◌++◌ as append}
use ampa.Prelude.{
  ℕ, ◌+◌, ◌-◌, String, Bool, true, false, not, ◌&&◌, ◌==◌, if◌then◌else◌, List, [], ◌∷◌, Option,
  none, some, Result, ok, raise, and_then, type_error, nonempty,
}
use ampa.Text.{strip}
use ampa.Text.Find.{split_at}
use ampa.Value.{
  Value, Fields, null, bool, int, str, list, dict, nil, get, get_default, as_dict, str_of, truthy,
}
use ampa.Shell.{pr_view_comments, wl_show}
use ampa.Scheduler.Numbers.{text_lt}
use ampa.Engine.Expressions.{iterate, value_in}
use ampa.Engine.World.{Io, ◌>>=◌, pure, lift, try_except}
use ampa.PrMonitor.{audit_result_marker, dispatch_marker, shell, output, PrMonitorRunner}

-- The loop over the comments of a pull request, up to the first that has the marker.
unfoldable pub any_has : (marker : String) → List Value → Result Bool
any_has marker [] = ok false
any_has marker (c ∷ cs) =
    let rest = any_has marker cs in
    and_then (as_dict c) (λ comment.
      and_then (value_in marker (get_default comment "body" (str "")))
        (λ found. if found then ok true else rest))

abbrev pub put : Char → Option String → Option String
put c none = none
put c (some rest) = some (String.◌∷◌ c rest)

-- The text up to the brace that closes the first one, and whether there is one; `depth` counts the
-- braces that are open.
unfoldable pub to_closing : (depth : ℕ) → String → Option String
to_closing depth String.[] = none
to_closing depth (String.◌∷◌ c s) =
    let opened = to_closing (depth + 1) s in
    let closed = to_closing (depth - 1) s in
    let other = to_closing depth s in
    if code c == 123
    then put c opened
    else if code c == 125
    then (if depth == 1 then some (String.◌∷◌ c String.[]) else put c closed)
    else put c other

abbrev pub from_brace : Option (String × String) → Option String
from_brace none = none
from_brace (some (before, after)) = to_closing 0 (append "{" after)

abbrev pub after_marker : Option (String × String) → Option String
after_marker none = none
after_marker (some (before, after)) = from_brace (split_at "{" (strip after))

-- The text that `_parse_marker_json` gives to `json.loads`.
unfoldable pub marked_json : (body marker : String) → Option String
unfolding to_closing
marked_json body marker = after_marker (split_at marker body)

abbrev answer : Result Value → Option Value
answer (raise e) = none
answer (ok null) = none
answer (ok v) = some v

module _ (m : PrMonitorRunner) where
  abbrev comments_of : String → String → Result (List Value)
  comments_of key text =
      and_then (m.loads text)
        (λ v. and_then (as_dict v) (λ fields. iterate (get_default fields key (list nil))))

  abbrev has_marker : (marker : String) → Option String → Result Bool
  has_marker marker none = ok false
  has_marker marker (some text) = and_then (comments_of "comments" text) (any_has marker)

  unfoldable pub has_existing_comment : ℕ → (marker : String) → Io Bool
  has_existing_comment n marker =
      try_except (shell m (pr_view_comments n) >>= λ proc. lift (has_marker marker (output m proc)))
        (pure false)

  unfoldable pub parse_marker_json : (body marker : String) → Option Value
  parse_marker_json body marker = elim (marked_json body marker) [
    | none ↦ none
    | some text ↦ answer (m.loads text)
  ]

  -- The loop over the comments of a work item, up to the first that has the marker.
  unfoldable pub first_state : (marker : String) → List Value → Result (Option Value)
  first_state marker [] = ok none
  first_state marker (c ∷ cs) =
      let rest = first_state marker cs in
      and_then (as_dict c) (λ comment.
        let body = get_default comment "comment" (str "") in
        and_then (value_in marker body)
          (λ found. if found then ok (parse_marker_json (str_of body) marker) else rest))

  abbrev state_in_output : (marker : String) → Option String → Result (Option Value)
  state_in_output marker none = ok none
  state_in_output marker (some text) = and_then (comments_of "comments" text) (first_state marker)

  unfoldable pub get_audit_dispatch_state : (id : String) → ℕ → Io (Option Value)
  get_audit_dispatch_state id n =
      try_except
        (shell m (wl_show id) >>= λ proc.
          lift (state_in_output (dispatch_marker n) (output m proc)))
        (pure none)

  -- `v == n` for a number of a pull request.
  abbrev is_number : ℕ → Value → Bool
  is_number n (int k) = k == n
  is_number n (bool b) = (if b then 1 else 0) == n
  is_number n _ = false

  abbrev is_other_pr : ℕ → Value → Bool
  is_other_pr n null = false
  is_other_pr n v = not (is_number n v)

  -- `audit["audited_at"] <= after_iso`
  abbrev is_stale : (after_iso : Option String) → Value → Result Bool
  is_stale none v = ok false
  is_stale (some iso) (str s) = ok (nonempty iso && (nonempty s && not (text_lt iso s)))
  is_stale (some iso) v = if nonempty iso && truthy v then raise type_error else ok false

  abbrev audit_in : Fields → Result Fields
  audit_in result = as_dict (get_default result "audit_result" (dict result))

  -- What the loop makes of the value behind a marker: an audit, or nothing.
  unfoldable pub usable : ℕ → (after_iso : Option String) → Option Value → Result (Option Fields)
  usable n after_iso none = ok none
  usable n after_iso (some v) = and_then (as_dict v) (λ result. and_then (audit_in result) (λ audit.
      if is_other_pr n (get audit "pr_number")
      then ok none
      else and_then (is_stale after_iso (get audit "audited_at"))
          (λ stale. ok (if stale then none else some audit))))

  abbrev first_of : Option Fields → Result (Option Fields) → Result (Option Fields)
  first_of none rest = rest
  first_of (some audit) rest = ok (some audit)

  unfoldable pub first_audit : ℕ → (after_iso : Option String) → List Value → Result (Option Fields)
  first_audit n after_iso [] = ok none
  first_audit n after_iso (c ∷ cs) =
      let rest = first_audit n after_iso cs in
      and_then (as_dict c) (λ comment.
        let body = get_default comment "comment" (str "") in
        and_then (value_in audit_result_marker body) (λ found.
          if not found
          then rest
          else and_then (usable n after_iso (parse_marker_json (str_of body) audit_result_marker))
              (λ o. first_of o rest)))

  abbrev audit_in_output : ℕ → Option String → Option String → Result (Option Fields)
  audit_in_output n after_iso none = ok none
  audit_in_output n after_iso (some text) =
      and_then (comments_of "comments" text) (first_audit n after_iso)

  unfoldable pub get_audit_result :
      (id : String) → ℕ → (after_iso : Option String) → Io (Option Fields)
  get_audit_result id n after_iso =
      try_except
        (shell m (wl_show id) >>= λ proc. lift (audit_in_output n after_iso (output m proc)))
        (pure none)
