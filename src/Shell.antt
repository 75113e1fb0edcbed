-- ===== src/Shell.antt =====
-- The commands that the program runs in a shell, a constructor for each, with the values that the
-- source puts into its text; and what a command gives.
use ampa.Prelude.{ℕ, String, Bool, ℤ}

-- The attributes of `subprocess.CompletedProcess` that the program reads. An output that is absent
-- is the empty text, since the program reads it as `proc.stdout or ""`.
pub record Completed : Type 0 where
  pub returncode : ℤ
  pub stdout : String
  pub stderr : String

pub data ShellCommand : Type 0 where
  -- audit/handlers.py
  run_audit_skill : (id : String) → ShellCommand
  update_tags : (id tags : String) → ShellCommand
  update_needs_review : (id : String) (value : Bool) → ShellCommand
  view_merged : (owner_repo pr_num : String) → ShellCommand
  show_children : (id : String) → ShellCommand
  -- pr_monitor.py
  gh_version : ShellCommand
  pr_list : (max_prs : ℤ) → ShellCommand
  pr_checks pr_view_comments pr_view_body pr_view_branch pr_merge : (number : ℕ) → ShellCommand
  pr_comment : (number : ℕ) (body : String) → ShellCommand
  push_delete : (branch : String) → ShellCommand
  wl_search_pr : (number : ℕ) → ShellCommand
  wl_show : (id : String) → ShellCommand
  wl_comment : (id comment : String) → ShellCommand
  wl_create : (title description : String) → ShellCommand
  wl_close : (id reason : String) → ShellCommand
