-- ===== src/PrMonitor/Actions.antt =====
-- What src/ampa/pr_monitor.py does for one pull request: comments and work items. The layout
-- of a notification (its embeds and buttons) is left out: a notification has the text `content`.
use Prim.Native.String.{◌++◌ as append}
use ampa.Prelude.{
  ℕ, String, Bool, true, false, ◌&&◌, if◌then◌else◌, List, [], ◌∷◌, map, Option, none, some, Result,
  ok, raise, and_then, nonempty,
}
use ampa.Text.{strip, show_ℕ, join}
use ampa.Value.{
  Value, Fields, null, list, dict, cons, end, get, get_default, as_dict, str_of, truthy,
}
use ampa.Shell.{Completed, pr_comment, wl_search_pr, wl_comment, wl_create}
use ampa.Engine.Records.{plain_text}
use ampa.Engine.World.{Io, ◌>>=◌, ◌>>◌, pure, lift, try_except, call_send}
use ampa.Engine.Expressions.{all_texts}
use ampa.PrMonitor.{
  PrMonitorRunner, ready_comment_marker, failure_comment_marker, succeeded, shell, try_shell,
}

-- What a step adds to the counters of the run.
pub record Metrics : Type 0 where
  pub llm_reviews_dispatched : ℕ
  pub llm_reviews_presented : ℕ
  pub notifications_sent : ℕ

abbrev pub no_metrics : Metrics
no_metrics = record {
  llm_reviews_dispatched = 0;
  llm_reviews_presented = 0;
  notifications_sent = 0;
}

abbrev pub sent_if : Bool → Metrics
sent_if sent = record no_metrics { notifications_sent = if sent then 1 else 0 }

abbrev pub concat : List String → String
concat parts = join "" parts

-- `PR #n: title` and the like.
abbrev pub pr_name : ℕ → String → String
pr_name n title = concat ("PR #" ∷ show_ℕ n ∷ " (" ∷ title ∷ ")" ∷ [])

-- The first item of a list that a search prints.
abbrev first_item : Value → Result (Option Fields)
first_item (list (cons v vs)) = and_then (as_dict v) (λ fields. ok (some fields))
first_item _ = ok none

abbrev id_of : Option Fields → Option String
id_of none = none
id_of (some fields) = let v = get fields "id" in if truthy v then some (str_of v) else none

-- `data.get("id") or data.get("workItem", {}).get("id")`
abbrev new_id : Value → Result Value
new_id v = and_then (as_dict v) (λ fields.
    if truthy (get fields "id")
    then ok (get fields "id")
    else and_then (as_dict (get_default fields "workItem" (dict end))) (λ item. ok (get item "id")))

abbrev id_created : Result Value → Option Value
id_created (raise e) = none
id_created (ok null) = none
id_created (ok v) = some v

module _ (m : PrMonitorRunner) where
  -- `_send_notification`
  unfoldable pub send_notification : (content message_type : String) → Io Bool
  send_notification content message_type =
      if m.has_notifier
      then call_send m.services (plain_text content) "" message_type >> pure true
      else pure false

  -- The notification of a step, whose failure is logged and no more.
  unfoldable pub try_send : (content message_type : String) → Io Bool
  try_send content message_type = try_except (send_notification content message_type) (pure false)

  unfoldable pub post_gh_comment : ℕ → String → Io Bool
  post_gh_comment n body = try_shell m (pr_comment n body)

  abbrev found_item : Completed → Io (Option String)
  found_item proc =
      lift (and_then (m.loads (strip proc.stdout)) first_item) >>= λ item. pure (id_of item)

  abbrev has_output : Completed → Bool
  has_output proc = succeeded proc && nonempty (strip proc.stdout)

  abbrev comment_on : String → Option String → Io (Unit {0})
  comment_on comment none = pure tt
  comment_on comment (some id) = shell m (wl_comment id comment) >> pure tt

  unfoldable pub post_wl_comment : ℕ → String → Io (Unit {0})
  post_wl_comment n comment =
      try_except
        (shell m (wl_search_pr n) >>= λ proc.
          if has_output proc
          then (try_except (found_item proc >>= λ id. comment_on comment id) (pure tt))
          else pure tt)
        (pure tt)

  unfoldable pub handle_ready_pr : ℕ → (title url : String) → Io Metrics
  handle_ready_pr n title url =
      post_gh_comment n (
        append ready_comment_marker
          "\n## All CI checks are passing\n\nThis PR is **ready for review**.\n\n_Posted automatically by AMPA PR Monitor._")
      >> (post_wl_comment n (
            concat
              (pr_name n title ∷ " — all CI checks passing, ready for review. URL: " ∷ url ∷ []))
          >> (try_send (concat ("PR #" ∷ show_ℕ n ∷ " ready for review: " ∷ title ∷ " " ∷ url ∷ []))
                "command"
              >>= λ sent. pure (sent_if sent)))

  -- The id in the answer of `wl create`, or none.
  abbrev created : Completed → Option Value
  created proc =
      if has_output proc then id_created (and_then (m.loads (strip proc.stdout)) new_id) else none

  unfoldable pub create_critical_work_item : (title description : String) → Io (Option Value)
  create_critical_work_item title description =
      try_except (shell m (wl_create title description) >>= λ proc. pure (created proc)) (pure none)

  abbrev comment_or_create : (title description : String) → Option String → Io (Option Value)
  comment_or_create title description none = create_critical_work_item title description
  comment_or_create title description (some id) = shell m (wl_comment id description) >> pure none

  -- A comment on the work item that names the pull request, or a new critical one.
  unfoldable pub track_failure : ℕ → (title description : String) → Io (Option Value)
  track_failure n title description =
      let create = create_critical_work_item title description in
      try_except
        (shell m (wl_search_pr n) >>= λ proc.
          if has_output proc
          then (try_except (found_item proc >>= λ id. comment_or_create title description id)
              create)
          else create)
        create

  abbrev bullets : List String → String
  bullets (c ∷ []) = c
  bullets cs = join "\n" (map (λ c. append "- " c) cs)

  unfoldable pub handle_failing_pr : ℕ → (title url : String) → List Value → Io Metrics
  handle_failing_pr n title url failing = lift (all_texts failing) >>= λ names.
      track_failure n (concat ("CI failing on PR #" ∷ show_ℕ n ∷ ": " ∷ title ∷ [])) (
        concat (
          "The following required checks are failing on "
          ∷ pr_name n title
          ∷ ":\n\n- "
          ∷ bullets names
          ∷ "\n\nPR URL: "
          ∷ url
          ∷ "\n\ndiscovered-from:SA-0MMJY1K3W15RI0F4\n\n_Created automatically by AMPA PR Monitor._"
          ∷ []))
      >> (post_gh_comment n (
            concat (
              failure_comment_marker
              ∷ "\n## CI checks are failing\n\nThe following required checks are failing:\n"
              ∷ concat (map (λ c. concat ("- " ∷ c ∷ "\n" ∷ [])) names)
              ∷ "\nA critical work item has been created to track this.\n\n_Posted automatically by AMPA PR Monitor._"
              ∷ []))
          >> (try_send (concat ("CI failing on PR #" ∷ show_ℕ n ∷ ": " ∷ title ∷ " " ∷ url ∷ []))
                "error"
              >>= λ sent. pure (sent_if sent)))
