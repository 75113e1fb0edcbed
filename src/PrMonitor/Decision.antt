-- ===== src/PrMonitor/Decision.antt =====
-- An operator's decision on a pull request: `handle_review_decision` of src/ampa/pr_monitor.py.
pub mod Merged
use Prim.Native.String.{◌++◌ as append}
use ampa.Prelude.{
  ℕ, String, Bool, true, false, if◌then◌else◌, List, [], ◌∷◌, Option, none, some, Result, ok, raise,
  contains, nonempty,
}
use ampa.Text.{strip, lower, show_ℕ}
use ampa.Shell.{Completed, pr_merge, pr_view_branch, pr_comment, push_delete, wl_comment, wl_close}
use ampa.Engine.World.{Io, ◌>>=◌, ◌>>◌, pure, try_except}
use ampa.PrMonitor.{PrMonitorRunner, succeeded, shell, try_shell}
use ampa.PrMonitor.Actions.{concat, post_gh_comment, try_send}

pub data Outcome : Type 0 where
  merged rejected error : Outcome

-- An id that is absent or empty stands for no work item.
abbrev pub given : Option String → Option String
given none = none
given (some id) = if nonempty id then some id else none

abbrev branch_in : Completed → Option String
branch_in proc =
    if succeeded proc
    then (if nonempty (strip proc.stdout) then some (strip proc.stdout) else none)
    else none

unfoldable pub is_approval : String → Bool
is_approval action = contains ("accept" ∷ "approve" ∷ []) (lower (strip action))

module _ (m : PrMonitorRunner) where
  unfoldable pub merge_pr : ℕ → Io Bool
  merge_pr n = try_shell m (pr_merge n)

  unfoldable pub close_work_item : String → String → Io Bool
  close_work_item id reason = try_shell m (wl_close id reason)

  unfoldable pub cleanup_branch : String → Io Bool
  cleanup_branch branch = try_shell m (push_delete branch)

  unfoldable pub get_pr_branch : ℕ → Io (Option String)
  get_pr_branch n =
      try_except (shell m (pr_view_branch n) >>= λ proc. pure (branch_in proc)) (pure none)

  unfoldable pub add_wl_comment : String → String → Io Bool
  add_wl_comment id comment = try_shell m (wl_comment id comment)

  -- The title of the outcome is in the text of the notification; its description is not modelled.
  unfoldable pub notify_review_outcome : ℕ → (title : String) → Io Bool
  notify_review_outcome n title = try_send m (concat (title ∷ " — PR #" ∷ show_ℕ n ∷ [])) "command"

  abbrev pub if_given : Option String → (String → Io Bool) → Io Bool
  if_given none f = pure false
  if_given (some id) f = f id

  -- What follows a merge; each step is tried whatever the ones before gave.
  unfoldable pub after_merge : ℕ → Option String → (approved_by : String) → Io Outcome
  after_merge n id approved_by =
      if_given (given id) (λ i.
        close_work_item i
          (concat ("PR #" ∷ show_ℕ n ∷ " merged via auto-review approval by " ∷ approved_by ∷ [])))
      >> (get_pr_branch n >>= λ branch.
          if_given branch cleanup_branch
          >> (if_given (given id) (λ i. add_wl_comment i (
                concat (
                  "PR #"
                  ∷ show_ℕ n
                  ∷ " merged and branch cleaned up. Approved by "
                  ∷ approved_by
                  ∷ " via Discord."
                  ∷ [])))
              >> (notify_review_outcome n "PR Merged" >> pure merged)))

  unfoldable pub handle_approve : ℕ → Option String → (approved_by : String) → Io Outcome
  handle_approve n id approved_by = merge_pr n >>= λ merge_ok.
      if merge_ok
      then after_merge n id approved_by
      else (notify_review_outcome n "Merge Failed" >> pure error)

  unfoldable pub handle_reject : ℕ → Option String → (approved_by : String) → Io Outcome
  handle_reject n id approved_by =
      post_gh_comment m n (
        concat (
          "This PR was **declined** during auto-review by **" ∷ approved_by
          ∷ "**.\n\nThe automated audit was reviewed and the operator chose not to merge at this time.  Please address any concerns and re-request review when ready."
          ∷ []))
      >> (if_given (given id) (λ i. add_wl_comment i (
            concat (
              "PR #"
              ∷ show_ℕ n
              ∷ " review rejected by "
              ∷ approved_by
              ∷ " via Discord.  PR comment posted."
              ∷ [])))
          >> (notify_review_outcome n "PR Review Rejected" >> pure rejected))

  -- The result's `action`; its note is not modelled.
  unfoldable pub handle_review_decision :
      (action : String) → ℕ → (work_item_id : Option String) → (approved_by : String) → Io Outcome
  handle_review_decision action n id approved_by =
      if is_approval action then handle_approve n id approved_by else handle_reject n id approved_by
