-- ===== src/PrMonitor.antt =====
-- The PR monitor, src/ampa/pr_monitor.py: what it reads of pull requests and work items. A pull
-- request and the answers of the commands are values of JSON; a title is the text that an f-string
-- makes of it.
pub mod Checks
pub mod Comments
pub mod Actions
pub mod Reviews
pub mod Run
pub mod Decision
pub mod Marker
mod Examples
use Prim.Native.Char.{Char, code}
use Prim.Native.String.{◌++◌ as append}
use ampa.Prelude.{
  ℕ, zero, suc, ◌+◌, ◌-◌, ℤ, String, Bool, true, false, not, ◌&&◌, ◌||◌, ◌==◌, if◌then◌else◌, List,
  [], ◌∷◌, Option, none, some, Result, ok, raise, and_then, type_error, contains, str_eq, nonempty,
  is_empty, eq_ℤ,
}
use ampa.Text.{strip, lower, has_text, show_ℕ, join}
use ampa.Text.Find.{split_at}
use ampa.Value.{
  Value, Fields, null, bool, int, str, list, dict, nil, get, get_default, as_dict, str_of, truthy,
  items_to_list,
}
use ampa.Shell.{
  Completed, ShellCommand, gh_version, pr_list, pr_checks, pr_view_comments, pr_view_body, wl_show,
}
use ampa.Scheduler.Numbers.{text_lt}
use ampa.Engine.Expressions.{iterate, value_in}
use ampa.Engine.World.{Trace, Services, Io, ◌>>=◌, pure, lift, try_except, call_shell}

-- The runner, and what lies outside the code: the shell, `json`, `int` for the number of a pull
-- request and, as `to_limit`, for the option `max_prs`, where it may be negative, `upper`, the two
-- patterns for ids, and the state in the file of a review session, where it can be read.
pub record PrMonitorRunner : Type 0 where
  pub services : Services
  pub has_notifier : Bool
  pub has_dispatcher : Bool
  pub run_shell : Trace → ShellCommand → Result Completed
  pub loads : String → Result Value
  pub dumps_dispatch : (pr_number at : ℕ) (container_id work_item_id : String) → String
  pub to_int : Value → Result ℕ
  pub to_limit : Value → Result ℤ
  pub upper : String → String
  pub branch_id : String → Option String
  pub body_id : String → Option String
  pub session_state : Trace → (session_id : String) → Option String

abbrev pub ready_comment_marker : String
ready_comment_marker = "<!-- ampa-pr-monitor:ready -->"

abbrev pub failure_comment_marker : String
failure_comment_marker = "<!-- ampa-pr-monitor:failure -->"

abbrev pub audit_result_marker : String
audit_result_marker = "<!-- ampa-pr-audit-result -->"

unfoldable pub dispatch_marker : ℕ → String
dispatch_marker n = append "<!-- ampa-pr-audit-dispatch:" (append (show_ℕ n) " -->")

-- `_coerce_bool`
unfoldable pub coerce_bool : Value → Bool
coerce_bool (bool b) = b
coerce_bool null = false
coerce_bool v = contains ("1" ∷ "true" ∷ "yes" ∷ "y" ∷ "on" ∷ []) (lower (strip (str_of v)))

abbrev pub succeeded : Completed → Bool
succeeded proc = eq_ℤ proc.returncode 0

module _ (m : PrMonitorRunner) where
  abbrev pub shell : ShellCommand → Io Completed
  shell command = call_shell m.run_shell command

  -- A command of which only the success counts.
  unfoldable pub try_shell : ShellCommand → Io Bool
  try_shell command = try_except (shell command >>= λ proc. pure (succeeded proc)) (pure false)

  unfoldable pub gh_available : Io Bool
  gh_available = try_shell gh_version

  abbrev pub prs_in : Result Value → Option (List Value)
  prs_in (raise e) = none
  prs_in (ok (list prs)) = some (items_to_list prs)
  prs_in (ok _) = some []

  abbrev pub listed : Completed → Option (List Value)
  listed proc =
      if not (succeeded proc)
      then none
      else if nonempty (strip proc.stdout)
      then prs_in (m.loads (strip proc.stdout))
      else some []

  unfoldable pub list_open_prs : ℤ → Io (Option (List Value))
  list_open_prs max_prs =
      try_except (shell (pr_list max_prs) >>= λ proc. pure (listed proc)) (pure none)

  -- The output of a command, where it ends well and says something.
  abbrev pub output : Completed → Option String
  output proc =
      if not (succeeded proc)
      then none
      else if nonempty (strip proc.stdout)
      then some (strip proc.stdout)
      else none

  abbrev with_prefix : Option String → Option String
  with_prefix none = none
  with_prefix (some id) = if has_text id "-" then some id else none

  -- Searching anything but a text raises.
  abbrev pub id_in_branch : Value → Result (Option String)
  id_in_branch (str branch) =
      ok (if nonempty branch then with_prefix (m.branch_id branch) else none)
  id_in_branch v = if truthy v then raise type_error else ok none

  abbrev pub body_in : Option String → Result (Option String)
  body_in none = ok none
  body_in (some text) = and_then (m.loads text) (λ v. and_then (as_dict v) (λ fields.
      elim (get_default fields "body" (str "")) [
        | str body ↦ ok (m.body_id body)
        | other ↦ raise type_error
      ]))

  abbrev pub id_in_body : Value → Io (Option String)
  id_in_body null = pure none
  id_in_body v =
      try_except
        (lift (m.to_int v) >>= λ n. shell (pr_view_body n) >>= λ proc. lift (body_in (output proc)))
        (pure none)

  abbrev pub or_body : Fields → Option String → Io (Option String)
  or_body pr (some id) = pure (some id)
  or_body pr none = id_in_body (get pr "number")

  unfoldable pub extract_work_item_id : Fields → Io (Option String)
  extract_work_item_id pr =
      lift (id_in_branch (get_default pr "headRefName" (str ""))) >>= λ o. or_body pr o
