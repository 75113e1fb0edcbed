-- ===== src/PrMonitor/Checks.antt =====
-- The checks of a pull request: `_get_check_status` of src/ampa/pr_monitor.py.
use Prim.Native.String.{◌++◌ as append}
use ampa.Prelude.{
  ℕ, String, Bool, not, ◌&&◌, ◌||◌, if◌then◌else◌, List, [], ◌∷◌, Option, none, some, Result, ok,
  raise, and_then, contains, str_eq, nonempty, is_empty,
}
use ampa.Text.{strip, lower, has_text}
use ampa.Value.{Value, Fields, null, str, list, get, get_default, as_dict, str_of, items_to_list}
use ampa.Shell.{Completed, pr_checks}
use ampa.Engine.World.{Io, ◌>>=◌, pure, lift, try_except}
use ampa.PrMonitor.{succeeded, shell, PrMonitorRunner}

-- The checks of a pull request: the names of those that fail and of those that are pending.
pub record CheckStatus : Type 0 where
  pub failing : List Value
  pub pending : List Value

abbrev pub all_passing : CheckStatus → Bool
all_passing s = is_empty s.failing && is_empty s.pending

abbrev pub no_checks : CheckStatus
no_checks = record { failing = []; pending = [] }

unfoldable pub add_check : (bucket : String) → Value → CheckStatus → CheckStatus
add_check bucket name s =
    if contains ("pass" ∷ "skipping" ∷ []) bucket
    then s
    else if str_eq bucket "pending"
    then record s { pending = name ∷ s.pending }
    else if contains ("fail" ∷ "cancel" ∷ []) bucket
    then record s { failing = name ∷ s.failing }
    else s

abbrev pub with_check : Fields → Value → Result (Option CheckStatus) → Result (Option CheckStatus)
with_check check null rest = ok none
with_check check bucket rest = and_then rest (λ o. ok (elim o [
  | none ↦ none
  | some s ↦ some (add_check (lower (str_of bucket)) (get_default check "name" (str "(unknown)")) s)
]))

-- The loop over the checks: one without a bucket makes the whole unreadable.
unfoldable pub read_checks : List Value → Result (Option CheckStatus)
read_checks [] = ok (some no_checks)
read_checks (c ∷ cs) =
    let rest = read_checks cs in
    and_then (as_dict c) (λ check. with_check check (get check "bucket") rest)

abbrev pub says_no_checks : Completed → Bool
says_no_checks proc =
    let combined = lower (append (strip proc.stdout) (append "\n" (strip proc.stderr))) in
    has_text combined "no checks reported" || has_text combined "no checks found"

abbrev pub checks_of : (says_none : Bool) → Result Value → Result (Option CheckStatus)
checks_of says_none (raise e) = ok (if says_none then some no_checks else none)
checks_of says_none (ok (list cs)) = read_checks (items_to_list cs)
checks_of says_none (ok _) = ok none

module _ (m : PrMonitorRunner) where
  abbrev pub status_of : Option Completed → Result (Option CheckStatus)
  status_of none = ok none
  status_of (some proc) =
      if not (nonempty (strip proc.stdout)) && succeeded proc
      then ok (some no_checks)
      else checks_of (says_no_checks proc) (m.loads (strip proc.stdout))

  unfoldable pub get_check_status : ℕ → Io (Option CheckStatus)
  get_check_status n =
      try_except (shell m (pr_checks n) >>= λ proc. pure (some proc)) (pure none) >>= λ o.
      lift (status_of o)
