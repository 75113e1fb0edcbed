-- ===== src/Audit/Handlers/Quiet.antt =====
-- The steps of the audit commands that change no state.
use ampa.Prelude.{String, Bool, List, [], ◌∷◌, Option, none, some, refl}
use ampa.Value.{Fields, Value}
use ampa.Shell.{ShellCommand}
use ampa.Engine.Descriptor.{Command, Notification}
use ampa.Engine.Records.{Event, ran}
use ampa.Engine.World.Silent.{
  Silent, Silent-pure, Silent-lift, Silent-if, Silent-try, Silent-bind, Silent-call,
}
use ampa.Audit.Commands.{
  Handlers, run, run_quietly, tags_to_write, write_tags, apply_tags, set_needs_producer_review,
}
use ampa.Audit.Checks.{
  query_json, is_pr_merged, has_no_open_children, check_pr, extract_pr_from_work_item,
  run_completion_checks, ask,
}
use ampa.Audit.Handlers.{run_audit, tag_item, flag_item, notify_all, notify_item}
use ampa.Audit.Handlers.Counted.{OnUpdates}

module _ (h : Handlers) (p : Event → Bool) (on_updates : OnUpdates p) where
  run-Silent : (command : ShellCommand) → Silent p (run h command)
  run-Silent command =
      Silent-call (λ t. h.run_shell t command) (λ t. ran command (h.run_shell t command))
        (λ t. on_updates _ refl)

  run_quietly-Silent : (command : ShellCommand) → Silent p (run_quietly h command)
  unfolding run_quietly
  run_quietly-Silent command =
      Silent-try _ _ (Silent-bind _ _ (run-Silent command) (λ proc. Silent-pure _)) (Silent-pure _)

  query_json-Silent : (command : ShellCommand) → Silent p (query_json h command)
  unfolding query_json
  query_json-Silent command =
      Silent-try _ _
        (Silent-bind _ _ (run-Silent command) (λ proc.
          Silent-if _ _ _ (Silent-bind _ _ (Silent-lift _) (λ v. Silent-pure _)) (Silent-pure _)))
        (Silent-pure _)

  ask-Silent : (v : Option Value) (read : Fields → Bool) → Silent p (ask h v read)
  ask-Silent none read = Silent-pure _
  ask-Silent (some v) read = Silent-bind _ _ (Silent-lift _) (λ fields. Silent-pure _)

  merged-Silent : (repo num : String) → Silent p (is_pr_merged h repo num)
  unfolding is_pr_merged
  merged-Silent repo num = Silent-bind _ _ (query_json-Silent _) (λ v. ask-Silent v _)

  children-Silent : (id : String) → Silent p (has_no_open_children h id)
  unfolding has_no_open_children
  children-Silent id = Silent-bind _ _ (query_json-Silent _) (λ v. ask-Silent v _)

  check_pr-Silent : (pr : Option (String × String)) → Silent p (check_pr h pr)
  unfolding check_pr
  check_pr-Silent none = Silent-pure _
  check_pr-Silent (some (repo, num)) =
      Silent-bind _ _ (merged-Silent repo num) (λ merged. Silent-pure _)

  pub checks-Silent : (item : Fields) → Silent p (run_completion_checks h item)
  unfolding run_completion_checks
  checks-Silent item = Silent-bind _ _ (Silent-lift _) (λ id.
      Silent-bind _ _ (check_pr-Silent (extract_pr_from_work_item h item))
        (λ failures. Silent-bind _ _ (children-Silent id) (λ settled. Silent-pure _)))

  pub tag_item-Silent :
      (id : String) (item : Fields) (cmd : Command) → Silent p (tag_item h id item cmd)
  unfolding tag_item apply_tags
  tag_item-Silent id item cmd = Silent-if _ _ _ (Silent-pure _) (
      Silent-bind _ _ (Silent-lift _) (λ existing.
        Silent-bind _ _ (Silent-lift (tags_to_write h existing _)) (λ tags. write-Silent tags)))
    where
      write-Silent : (tags : Option String) → Silent p (write_tags h id tags)
      write-Silent none = Silent-pure _
      write-Silent (some t) = run_quietly-Silent _

  pub flag_item-Silent : (id : String) (cmd : Command) → Silent p (flag_item h id cmd)
  unfolding flag_item set_needs_producer_review
  flag_item-Silent id cmd = Silent-if _ _ _ (run_quietly-Silent _) (Silent-pure _)

  notify_all-Silent :
      (id title : String) (ns : List Notification) → Silent p (notify_all h id title ns)
  unfolding notify_all
  notify_all-Silent id title [] = Silent-pure _
  notify_all-Silent id title (n ∷ ns) =
      Silent-bind _ _
        (Silent-if _ _ _ (Silent-try _ _ (Silent-call _ _ (λ t. on_updates _ refl)) (Silent-pure _))
          (Silent-pure _))
        (λ sent. notify_all-Silent id title ns)

  pub notify_item-Silent :
      (id : String) (item : Fields) (cmd : Command) → Silent p (notify_item h id item cmd)
  unfolding notify_item
  notify_item-Silent id item cmd =
      Silent-if _ _ _ (Silent-pure _)
        (Silent-bind _ _ (Silent-lift _) (λ title. notify_all-Silent id title _))

  pub run_audit-Silent : (id : String) → Silent p (run_audit h id)
  unfolding run_audit
  run_audit-Silent id = record { at = λ t. (run-Silent _).at t }
