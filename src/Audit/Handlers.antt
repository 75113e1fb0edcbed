-- ===== src/Audit/Handlers.antt =====
-- The three handlers of src/ampa/audit/handlers.py, AuditResultHandler, AuditFailHandler and
-- CloseWithAuditHandler: `execute` of each, by its steps. `__call__` is the field `success`.
pub mod Counted
mod Quiet
pub mod Own
pub mod Updates
pub mod Guards
pub mod Closed
pub mod Recorded
use Prim.Native.String.{◌++◌ as append}
use ampa.Prelude.{
  String, Bool, true, false, not, if◌then◌else◌, List, [], ◌∷◌, Option, none, some, Result, ok,
  raise, Exn, external, is_empty, str_eq, nonempty,
}
use ampa.Text.Find.{replace}
use ampa.Value.{Fields}
use ampa.Shell.{Completed, run_audit_skill}
use ampa.Engine.Descriptor.{
  StateTuple, Command, Effects, Notification, get_command, resolve_state_ref,
}
use ampa.Engine.Records.{plain_text}
use ampa.Engine.World.{
  Trace, Services, Io, ◌>>=◌, ◌>>◌, pure, lift, try_except, call_fetch, call_update, call_comment,
  call_send,
}
use ampa.Engine.Evaluator.{evaluate}
use ampa.Audit.Report.{
  AuditResult, AuditParseResult, parsed, unparsed, ParseReason, timed_out, execution_failed,
  parse_audit_output,
}
use ampa.Audit.Comment.{concat, format_audit_comment, format_audit_discord_summary}
use ampa.Audit.Commands.{
  HandlerResult, Handlers, no_details, comment_not_written, not_parsed, invariants, summary,
  no_transition_to, checks, failure, successful, get_work_item_id, get_work_item_state,
  get_work_item_title, get_work_item_tags, check_from_state, run, apply_tags,
  set_needs_producer_review,
}
use ampa.Audit.Checks.{run_completion_checks}

abbrev or_original : Fields → Option Fields → Fields
or_original item none = item
or_original item (some fetched) = fetched

abbrev is_timeout : Exn → Bool
is_timeout (external name) = str_eq name "TimeoutExpired"
is_timeout _ = false

abbrev shell_error : String → Exn → ParseReason
shell_error id e = if is_timeout e then timed_out id else execution_failed e

module _ (h : Handlers) (command : String) where
  -- Steps that the handlers share. Step 1: the id and the state of the item.
  unfoldable pub confirm :
      (id : String) → Option HandlerResult → Io HandlerResult → Io HandlerResult
  confirm id none go_on = go_on
  confirm id (some refused) go_on = pure refused

  unfoldable pub begin : Fields → (String → Io HandlerResult) → Io HandlerResult
  begin item go_on = lift (get_work_item_id item) >>= λ id.
      if not (nonempty id)
      then pure (failure "missing_work_item_id" command "" no_details)
      else (lift (get_work_item_state item) >>= λ current.
          lift (check_from_state h.descriptor command id current) >>= λ refused.
          confirm id refused (go_on id))

  -- The pre-invariants, up to the first that fails.
  unfoldable pub check_pre :
      (id : String) → Fields → (Command → Io HandlerResult) → Io HandlerResult
  check_pre id item go_on = lift (get_command h.descriptor command) >>= λ cmd.
      if is_empty cmd.pre
      then go_on cmd
      else (evaluate h.evaluator cmd.pre item true >>= λ inv.
          if inv.passed
          then go_on cmd
          else pure (failure "pre_invariant_failed" command id (invariants inv)))

  -- The state transition, tried once.
  unfoldable pub apply_transition : (id : String) → Command → Io HandlerResult → Io HandlerResult
  apply_transition id cmd go_on = lift (resolve_state_ref h.descriptor cmd.to) >>= λ to.
      call_update h.services id to.status to.stage none >>= λ update_ok.
      if update_ok
      then go_on
      else pure (failure "state_transition_failed" command id (no_transition_to to))

module _ (h : Handlers) where
  abbrev pub read_audit : String → Result Completed → AuditParseResult
  read_audit id (raise e) = unparsed (record { reason = shell_error id e; raw_output = "" })
  read_audit id (ok proc) = parse_audit_output h.re proc.stdout

  unfoldable pub run_audit : String → Io AuditParseResult
  run_audit id t = let (r, t') = run h (run_audit_skill id) t in (ok (read_audit id r), t')

  unfoldable pub record_audit : (id title : String) → Fields → AuditResult → Io HandlerResult
  record_audit id title item audit =
      let comment_text = format_audit_comment audit in
      let discord_summary = summary (format_audit_discord_summary title id audit) in
      call_comment h.services id (plain_text comment_text) >>= λ comment_ok.
      if not comment_ok
      then pure (failure "comment_write_failed" "audit_result" id comment_not_written)
      else (call_fetch h.services id >>= λ refreshed.
          check_pre h "audit_result" id (or_original item refreshed) (λ cmd.
            if not audit.recommends_closure
            then pure (
                successful "audit_recommends_no_closure" "audit_result" id discord_summary
                  (some comment_text))
            else apply_transition h "audit_result" id cmd (
                pure (
                  successful "audit_result_recorded" "audit_result" id discord_summary
                    (some comment_text)))))

  unfoldable pub use_audit : String → Fields → AuditParseResult → Io HandlerResult
  use_audit id item (unparsed e) =
      pure (failure "audit_parse_error" "audit_result" id (not_parsed e.reason))
  use_audit id item (parsed audit) =
      lift (get_work_item_title item) >>= λ title. record_audit id title item audit

  -- AuditResultHandler.execute
  unfoldable pub execute_audit_result : Fields → Io HandlerResult
  execute_audit_result item =
      begin h "audit_result" item (λ id. run_audit id >>= λ audit. use_audit id item audit)

  abbrev added_tags : Option Effects → List String
  added_tags none = []
  added_tags (some e) = e.add_tags

  unfoldable pub tag_item : String → Fields → Command → Io Bool
  tag_item id item cmd =
      if is_empty (added_tags cmd.effects)
      then pure true
      else (lift (get_work_item_tags item) >>= λ existing.
          apply_tags h id existing (added_tags cmd.effects))

  -- AuditFailHandler.execute
  unfoldable pub execute_audit_fail : Fields → Io HandlerResult
  execute_audit_fail item = begin h "audit_fail" item (λ id.
      check_pre h "audit_fail" id item (λ cmd. apply_transition h "audit_fail" id cmd (
        tag_item id item cmd
        >> pure (successful "audit_fail_recorded" "audit_fail" id no_details none))))

  abbrev wants_review : Option Effects → Bool
  wants_review none = false
  wants_review (some e) = elim e.set_needs_producer_review [ none ↦ false | some b ↦ b ]

  unfoldable pub flag_item : String → Command → Io Bool
  flag_item id cmd =
      if wants_review cmd.effects then set_needs_producer_review h id true else pure true

  abbrev notifications_of : Option Effects → List Notification
  notifications_of none = []
  notifications_of (some e) = e.notifications

  unfoldable pub notify_all : (id title : String) → List Notification → Io Bool
  notify_all id title [] = pure true
  notify_all id title (n ∷ ns) =
      (if str_eq n.channel "discord"
        then try_except
            (call_send h.services (plain_text (replace "${title}" title n.message))
              (concat (title ∷ " [" ∷ id ∷ "]" ∷ [])) "info")
            (pure false)
        else pure true)
      >> notify_all id title ns

  unfoldable pub notify_item : String → Fields → Command → Io Bool
  notify_item id item cmd =
      if is_empty (notifications_of cmd.effects)
      then pure true
      else (lift (get_work_item_title item) >>= λ title.
          notify_all id title (notifications_of cmd.effects))

  -- The effects of a closure, none of which stops it by failing.
  unfoldable pub close_effects : String → Fields → Command → Io HandlerResult
  close_effects id item cmd =
      flag_item id cmd
      >> (tag_item id item cmd
          >> (notify_item id item cmd
              >> pure
                  (successful "close_with_audit_completed" "close_with_audit" id no_details none)))

  unfoldable pub close_checked : String → Fields → Command → List String → Io HandlerResult
  close_checked id item cmd check_failures =
      if is_empty check_failures
      then apply_transition h "close_with_audit" id cmd (close_effects id item cmd)
      else pure (failure "completion_checks_failed" "close_with_audit" id (checks check_failures))

  -- CloseWithAuditHandler.execute
  unfoldable pub execute_close_with_audit : Fields → Io HandlerResult
  execute_close_with_audit item = begin h "close_with_audit" item (λ id.
      check_pre h "close_with_audit" id item (λ cmd.
        run_completion_checks h item >>= λ check_failures.
        close_checked id item cmd check_failures))
