-- ===== src/Audit/Checks.antt =====
-- The checks before an item is closed, `_run_completion_checks` of src/ampa/audit/handlers.py.
use ampa.Prelude.{
  String, Bool, true, false, if◌then◌else◌, List, [], ◌∷◌, ◌++◌, Option, none, some, Result, all,
  contains, nonempty, eq_ℤ,
}
use mathlib.Core.List.{reverse}
use ampa.Text.{strip, lower}
use ampa.Value.{Value, Fields, str, list, dict, get, as_dict, str_of, truthy, items_to_list, ◌or◌}
use ampa.Shell.{Completed, ShellCommand, view_merged, show_children}
use ampa.Engine.World.{Io, ◌>>=◌, pure, lift, try_except}
use ampa.Audit.Commands.{Handlers, run, get_work_item_id}

abbrev as_list : Value → List Value
as_list (list xs) = items_to_list xs
as_list _ = []

-- The body of a comment, where it is a text.
abbrev body_of : Value → Option String
body_of (dict c) = text_of (get c "comment" or get c "body" or get c "text" or str "")
  where
    text_of : Value → Option String
    text_of (str s) = some s
    text_of _ = none
body_of _ = none

abbrev or_else : Option (String × String) → Option (String × String) → Option (String × String)
or_else none later = later
or_else (some pr) later = some pr

abbrev pull_in : (String → Option (String × String)) → Option String → Option (String × String)
pull_in find none = none
pull_in find (some body) = find body

-- The loop over the comments.
unfoldable pub first_pull :
    (String → Option (String × String)) → List Value → Option (String × String)
first_pull find [] = none
first_pull find (c ∷ cs) = or_else (pull_in find (body_of c)) (first_pull find cs)

-- A child that is not known to be open.
unfoldable pub is_settled : (closed : List String) → Value → Bool
is_settled closed (dict child) =
    let status = lower (strip (str_of (get child "status" or str ""))) in
    if nonempty status then contains closed status else true
is_settled closed _ = true

module _ (h : Handlers) where
  -- The latest comment that names a pull request.
  unfoldable pub extract_pr_from_work_item : Fields → Option (String × String)
  extract_pr_from_work_item item = first_pull h.find_pull (reverse (as_list (get item "comments")))

  abbrev json_of : Completed → Result Value
  json_of proc = h.parse_json (if nonempty proc.stdout then proc.stdout else "{}")

  -- The value that a command prints, or none where it fails or prints no JSON.
  unfoldable pub query_json : ShellCommand → Io (Option Value)
  query_json command =
      try_except
        (run h command >>= λ proc.
          if eq_ℤ proc.returncode 0
          then (lift (json_of proc) >>= λ v. pure (some v))
          else pure none)
        (pure none)

  -- What is read of a dict that a command prints; anything else that it prints raises.
  abbrev pub ask : Option Value → (Fields → Bool) → Io Bool
  ask none read = pure false
  ask (some v) read = lift (as_dict v) >>= λ fields. pure (read fields)

  unfoldable pub is_pr_merged : (owner_repo pr_num : String) → Io Bool
  is_pr_merged owner_repo pr_num = query_json (view_merged owner_repo pr_num) >>= λ found.
      ask found (λ fields. truthy (get fields "merged"))

  unfoldable pub has_no_open_children : String → Io Bool
  has_no_open_children id = query_json (show_children id) >>= λ found.
      ask found (λ fields. all (is_settled h.closed_statuses) (as_list (get fields "children")))

  unfoldable pub check_pr : Option (String × String) → Io (List String)
  check_pr none = pure ("pr_not_found" ∷ [])
  check_pr (some (owner_repo, pr_num)) = is_pr_merged owner_repo pr_num >>= λ merged.
      pure (if merged then [] else "pr_not_merged" ∷ [])

  unfoldable pub run_completion_checks : Fields → Io (List String)
  run_completion_checks item = lift (get_work_item_id item) >>= λ id.
      check_pr (extract_pr_from_work_item item) >>= λ failures.
      has_no_open_children id >>= λ settled.
      pure (failures ++ (if settled then [] else "open_children_exist" ∷ []))
