-- ===== src/PrMonitor/Reviews.antt =====
-- The reviews of src/ampa/pr_monitor.py: the dispatch of an audit, and its presentation.
use ampa.Prelude.{
  ℕ, String, Bool, false, not, if◌then◌else◌, List, [], ◌∷◌, ◌++◌, Option, none, some, zero, suc,
  Result, ok, raise, and_then, attribute_error, type_error, str_eq, nonempty,
}
use ampa.Text.{strip, lower, show_ℕ}
use ampa.Value.{Value, Fields, str, list, dict, nil, get_default, as_dict, truthy, items_to_list}
use ampa.Shell.{wl_comment}
use ampa.Engine.Records.{DispatchResult, review_asked}
use ampa.Engine.World.{Io, ◌>>=◌, ◌>>◌, pure, lift, try_except, call_dispatch}
use ampa.Engine.Expressions.{iterate}
use ampa.PrMonitor.{
  PrMonitorRunner, audit_result_marker, dispatch_marker, try_shell, extract_work_item_id,
}
use ampa.PrMonitor.Comments.{get_audit_dispatch_state}
use ampa.PrMonitor.Actions.{no_metrics, sent_if, concat, pr_name, try_send, Metrics}

-- `_review_action_taken` for the state in the file of the session.
abbrev pub is_running : Option String → Bool
is_running none = false
is_running (some state) = str_eq (lower (strip state)) "running"

-- The ten criteria that are shown: each is asked for its fields.
abbrev all_dicts : List Value → Result (Unit {0})
all_dicts [] = ok tt
all_dicts (v ∷ vs) = let rest = all_dicts vs in and_then (as_dict v) (λ fields. rest)

abbrev first_ten : ℕ → List Value → List Value
first_ten zero vs = []
first_ten (suc n) [] = []
first_ten (suc n) (v ∷ vs) = v ∷ first_ten n vs

abbrev sliceable : Value → Result (List Value)
sliceable (list vs) = ok (items_to_list vs)
sliceable (str s) = iterate (str s)
sliceable _ = raise type_error

abbrev overall_text : Value → Result String
overall_text (str s) = ok s
overall_text (list vs) = raise type_error
overall_text (dict fs) = raise type_error
overall_text _ = raise attribute_error

-- What the embed reads of an audit: its verdict, its criteria and its concerns.
unfoldable pub read_audit : Fields → Result String
read_audit audit = and_then (overall_text (get_default audit "overall" (str "unknown"))) (λ overall.
    and_then (sliceable (get_default audit "criteria" (list nil))) (λ criteria.
      and_then (all_dicts (first_ten 10 criteria)) (λ _.
        let concerns = get_default audit "concerns" (list nil) in
        if truthy concerns then and_then (sliceable concerns) (λ _. ok overall) else ok overall)))

module _ (m : PrMonitorRunner) where
  abbrev or_blank : Option String → String
  or_blank none = ""
  or_blank (some s) = s

  unfoldable pub post_audit_dispatch_marker : String → ℕ → DispatchResult → Io Bool
  post_audit_dispatch_marker id n d = try_shell m (
      wl_comment id (
        concat (
          dispatch_marker n
          ∷ "\n"
          ∷ m.dumps_dispatch n d.timestamp (or_blank d.container_id) id
          ∷ [])))

  abbrev pub review_command : String → ℕ → String → String
  review_command id n title = concat (
      "opencode run \"/implement "
      ∷ id
      ∷ " Review "
      ∷ pr_name n title
      ∷ " against the acceptance criteria of work item "
      ∷ id
      ∷ ". Post your audit results as a structured comment on the work item using the marker format: "
      ∷ audit_result_marker
      ∷ "\""
      ∷ [])

  abbrev error_text : Option String → String
  error_text none = "None"
  error_text (some e) = e

  -- What follows the dispatch, by its result; one that raises is logged and no more.
  unfoldable pub after_dispatch : String → ℕ → Option DispatchResult → Io Metrics
  after_dispatch id n none = pure no_metrics
  after_dispatch id n (some d) =
      if d.success
      then (post_audit_dispatch_marker id n d
          >> pure (record no_metrics { llm_reviews_dispatched = 1 }))
      else (try_shell m (
            wl_comment id (
              concat (
                "Auto-review dispatch failed for PR #"
                ∷ show_ℕ n
                ∷ ": "
                ∷ error_text d.error
                ∷ [])))
          >> pure no_metrics)

  unfoldable pub dispatch_audit : String → ℕ → String → Io Metrics
  dispatch_audit id n title =
      try_except (call_dispatch m.services (review_command id n title) id >>= λ d. pure (some d))
        (pure none)
      >>= λ o. after_dispatch id n o

  abbrev pub unless_dispatched : String → ℕ → String → Option Value → Io Metrics
  unless_dispatched id n title none = dispatch_audit id n title
  unless_dispatched id n title (some state) = pure no_metrics

  unfoldable pub dispatch_item : (force : Bool) → ℕ → String → Option String → Io Metrics
  dispatch_item force n title none = pure no_metrics
  dispatch_item force n title (some id) =
      if not (nonempty id)
      then pure no_metrics
      else if force
      then dispatch_audit id n title
      else (get_audit_dispatch_state m id n >>= λ existing. unless_dispatched id n title existing)

  unfoldable pub dispatch_review : Fields → ℕ → String → (force : Bool) → Io Metrics
  dispatch_review pr n title force =
      if m.has_dispatcher
      then (extract_work_item_id m pr >>= λ id. dispatch_item force n title id)
      else pure no_metrics

  abbrev ask_review : ℕ → String → Io (Unit {0})
  ask_review n id t = (ok tt, t ++ review_asked n id ∷ [])

  unfoldable pub present_audit_results : ℕ → String → String → Fields → Io Metrics
  present_audit_results n title id audit =
      if m.has_notifier
      then (lift (read_audit audit) >>= λ overall.
          ask_review n id
          >> (try_send m
                (concat (
                  "Audit complete for PR #"
                  ∷ show_ℕ n
                  ∷ ": "
                  ∷ title
                  ∷ " — "
                  ∷ m.upper overall
                  ∷ []))
                "command"
              >>= λ sent.
                  pure (record (sent_if sent) { llm_reviews_presented = if sent then 1 else 0 })))
      else pure no_metrics
