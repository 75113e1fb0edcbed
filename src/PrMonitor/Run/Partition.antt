-- ===== src/PrMonitor/Run/Partition.antt =====
-- How `run` of src/ampa/pr_monitor.py counts the pull requests.
use ampa.Prelude.{
  ℕ, ◌+◌, String, Bool, true, false, not, ◌&&◌, List, [], ◌∷◌, Option, none, some, ok, ◌≡◌, refl,
  ◌∙◌, arith, if◌then◌else◌, length, length-append, count, is_empty, Bool-cases, inl, inr, subst,
  ap,
}
use ampa.Text.{show_ℕ}
use ampa.Value.{Value, Fields, null, bool, int, number, str, list, dict, get}
use ampa.Engine.World.{Trace, Io, continue-eq-ok, ◌>>=◌, pure, lift}
use ampa.PrMonitor.{PrMonitorRunner, gh_available, list_open_prs, ready_comment_marker}
use ampa.PrMonitor.Checks.{CheckStatus, all_passing, get_check_status}
use ampa.PrMonitor.Comments.{has_existing_comment}
use ampa.PrMonitor.Actions.{
  Metrics, no_metrics, handle_ready_pr, handle_failing_pr, concat, sent_if, try_send,
}
use ampa.PrMonitor.Reviews.{dispatch_review}
use ampa.PrMonitor.Run.{
  Options, Tally, empty_tally, RunResult, completed, skip_pending, skip_dedup, mark_ready,
  mark_failing, use_ready, use_status, use_number, if_numbered, use_pr, use_prs, use_list, run_with,
  run, read_options, add, check_and_present_audit_results,
}

-- How many pull requests a tally has counted.
abbrev pub total : Tally → ℕ
total s =
    length s.ready_prs + length s.failing_prs + length s.skipped_prs + s.checks_unavailable_prs

abbrev is_present : Value → Bool
is_present null = false
is_present _ = true

abbrev pub is_numbered : Value → Bool
is_numbered (dict pr) = is_present (get pr "number")
is_numbered _ = false

-- What the loop keeps, and what it adds.
record Grows (n : ℕ) (s s' : Tally) : Type 0 where
  counted : total s' ≡ total s + n
  reasons :
      length s.skipped_prs ≡ s.skipped_pending_prs + s.skipped_dedup_prs
      → length s'.skipped_prs ≡ s'.skipped_pending_prs + s'.skipped_dedup_prs

Grows-none : (s : Tally) → Grows 0 s s
Grows-none s = omega arith

Grows-trans : (a b : ℕ) (s u v : Tally) → Grows a s u → Grows b u v → Grows (a + b) s v
Grows-trans a b s u v g h = record {
  counted = omega (arith, g.counted, h.counted);
  reasons = λ r. h.reasons (g.reasons r);
}

-- Where an action returns, its tally has grown by `n`.
record Adds (n : ℕ) (s : Tally) (m : Io Tally) : Type 0 where
  at : (t : Trace) (s' : Tally) → (m t).0 ≡ ok s' → Grows n s s'

Adds-pure : (n : ℕ) (s s' : Tally) → Grows n s s' → Adds n s (pure s')
Adds-pure n s s' g = record { at = λ t u e. let same : s' ≡ u = cc in subst (Grows n s) same g }

Adds-if :
    (n : ℕ) (s : Tally) (b : Bool) (m k : Io Tally)
    → (b ≡ true → Adds n s m)
    → (b ≡ false → Adds n s k)
    → Adds n s (if b then m else k)
Adds-if n s true m k am ak = am refl
Adds-if n s false m k am ak = ak refl

Adds-bind :
    {A : Type 0} (n : ℕ) (s : Tally) (m : Io A) (f : A → Io Tally)
    → ((a : A) → Adds n s (f a))
    → Adds n s (m >>= f)
Adds-bind n s m f af = record {
  at = λ t s' e. let (o, t') = m t in let (a, _, k) = continue-eq-ok o f t' e in (af a).at t' s' k;
}

-- One more pull request in one of the lists, and the reason in its counter.
appended-Grows :
    (n : ℕ) (more : Metrics) (s : Tally)
    → Grows 1 s (skip_pending n s)
      × Grows 1 s (skip_dedup n more s)
      × Grows 1 s (mark_ready n more s)
      × Grows 1 s (mark_failing n more s)
appended-Grows n more s =
    let longer = λ (xs : List ℕ). length-append xs (n ∷ []) in
    (
      record {
        counted = omega (arith, longer s.skipped_prs);
        reasons = λ r. omega (arith, longer s.skipped_prs, r);
      },
      record {
        counted = omega (arith, longer s.skipped_prs);
        reasons = λ r. omega (arith, longer s.skipped_prs, r);
      },
      record { counted = omega (arith, longer s.ready_prs); reasons = λ r. r },
      record { counted = omega (arith, longer s.failing_prs); reasons = λ r. r },
    )

module _ (m : PrMonitorRunner) (o : Options) where
  use_ready-Adds :
      (pr : Fields) (n : ℕ) (title url : String) (s : Tally) (seen : Bool)
      → Adds 1 s (use_ready m o pr n title url s seen)
  unfolding use_ready
  use_ready-Adds pr n title url s true =
      Adds-bind 1 s
        (if o.auto_review then check_and_present_audit_results m pr n title else pure no_metrics) _
        (λ more. Adds-pure 1 s _ (appended-Grows n more s).1)
  use_ready-Adds pr n title url s false = Adds-bind 1 s (handle_ready_pr m n title url) _ (λ told.
      Adds-bind 1 s (if o.auto_review then dispatch_review m pr n title false else pure no_metrics)
        _ (λ more. Adds-pure 1 s _ (appended-Grows n (add told more) s).2))

  use_status-Adds :
      (pr : Fields) (n : ℕ) (title url : String) (s : Tally) (status : Option CheckStatus)
      → Adds 1 s (use_status m o pr n title url s status)
  unfolding use_status
  use_status-Adds pr n title url s none =
      Adds-pure 1 s _ (record { counted = omega arith; reasons = λ r. r })
  use_status-Adds pr n title url s (some status) =
      Adds-if 1 s (not (is_empty status.pending) && is_empty status.failing) _ _
        (λ only_pending. Adds-pure 1 s _ (appended-Grows n no_metrics s).0)
        (λ a.
          Adds-if 1 s (all_passing status) _ _
            (λ passing.
              Adds-bind 1 s
                (if o.dedup then has_existing_comment m n ready_comment_marker else pure false) _
                (λ seen. use_ready-Adds pr n title url s seen))
            (λ b.
              Adds-if 1 s (not (is_empty status.failing)) _ _
                (λ failing.
                  Adds-bind 1 s (handle_failing_pr m n title url status.failing) _
                    (λ more. Adds-pure 1 s _ (appended-Grows n more s).3))
                (λ c. absurd (ground (arith, a, b, c)))))

  use_number-Adds :
      (pr : Fields) (s : Tally) (v : Value)
      → Adds 1 s (lift (m.to_int v) >>= λ n. use_number m o pr n s)
  unfolding use_number
  use_number-Adds pr s v =
      Adds-bind 1 s (lift (m.to_int v)) _
        (λ n. Adds-bind 1 s (get_check_status m n) _ (λ status. use_status-Adds pr n _ _ s status))

  if_numbered-Adds :
      (pr : Fields) (s : Tally) (v : Value)
      → Adds (if is_present v then 1 else 0) s (if_numbered m o pr s v)
  if_numbered-Adds pr s null = Adds-pure 0 s s (Grows-none s)
  if_numbered-Adds pr s (bool b) = use_number-Adds pr s (bool b)
  if_numbered-Adds pr s (int n) = use_number-Adds pr s (int n)
  if_numbered-Adds pr s (number t) = use_number-Adds pr s (number t)
  if_numbered-Adds pr s (str t) = use_number-Adds pr s (str t)
  if_numbered-Adds pr s (list vs) = use_number-Adds pr s (list vs)
  if_numbered-Adds pr s (dict fs) = use_number-Adds pr s (dict fs)

  use_pr-Adds : (v : Value) (s : Tally) → Adds (if is_numbered v then 1 else 0) s (use_pr m o v s)
  unfolding use_pr
  use_pr-Adds (dict pr) s = record {
    at = λ t s' e. (if_numbered-Adds pr s (get pr "number")).at t s' e;
  }
  use_pr-Adds null s = record { at = λ t s' e. absurd (cc) }
  use_pr-Adds (bool b) s = record { at = λ t s' e. absurd (cc) }
  use_pr-Adds (int n) s = record { at = λ t s' e. absurd (cc) }
  use_pr-Adds (number x) s = record { at = λ t s' e. absurd (cc) }
  use_pr-Adds (str x) s = record { at = λ t s' e. absurd (cc) }
  use_pr-Adds (list x) s = record { at = λ t s' e. absurd (cc) }

  use_prs-Grows :
      (vs : List Value) (s s' : Tally) (t : Trace)
      → (use_prs m o vs s t).0 ≡ ok s'
      → Grows (count is_numbered vs) s s'
  unfolding use_prs
  use_prs-Grows [] s s' t e = (Adds-pure 0 s s (Grows-none s)).at t s' e
  use_prs-Grows (v ∷ vs) s s' t e =
      let (r, t') = use_pr m o v s t in
      let (u, first, k) = continue-eq-ok r _ t' e in
      Grows-trans (if is_numbered v then 1 else 0) (count is_numbered vs) s u s'
        ((use_pr-Adds v s).at t u first) (use_prs-Grows vs u s' t' k)

  -- What a finished list says of its pull requests.
  pub record Counted (prs : List Value) (r : RunResult) : Type 0 where
    pub checked : r.prs_checked ≡ length prs
    pub partition : total r.tally ≡ count is_numbered prs
    pub skips : length r.tally.skipped_prs ≡ r.tally.skipped_pending_prs + r.tally.skipped_dedup_prs

  use_list-Counted :
      (prs : Option (List Value)) (t : Trace) (r : RunResult)
      → (use_list m o prs t).0 ≡ ok r
      → r.action ≡ completed
      → (listed : List Value) × (prs ≡ some listed) × Counted listed r
  unfolding use_list
  use_list-Counted none t r e done = absurd (ground arith)
  use_list-Counted (some []) t r e done = absurd (ground arith)
  use_list-Counted (some (v ∷ vs)) t r e done =
      let (o₁, t₁) = use_prs m o (v ∷ vs) empty_tally t in
      let (s, used, k) = continue-eq-ok o₁ _ t₁ e in
      let g = use_prs-Grows (v ∷ vs) empty_tally s t used in
      let (sent, _, l) =
        continue-eq-ok
          (try_send m
            (concat ("PR Monitor Summary — checked " ∷ show_ℕ (length (v ∷ vs)) ∷ " PR(s)" ∷ []))
            "command" t₁).0
          _ _ k in
      let last : RunResult = record {
        action = completed;
        prs_checked = length (v ∷ vs);
        tally = record s { metrics = add s.metrics (sent_if sent) };
      } in
      let same : last ≡ r = cc in
      (
        v ∷ vs,
        refl,
        subst (Counted (v ∷ vs)) same (record {
          checked = refl;
          partition = omega (arith, g.counted);
          skips = omega (arith, g.reasons refl);
        }),
      )

-- A completed run counts every pull request of the list that `gh` gave that has a number exactly
-- once, as ready, failing, skipped or unavailable, and every skipped one either for pending checks
-- or as already notified.
pub run_partition :
    (m : PrMonitorRunner) (metadata : Fields) (t : Trace) (r : RunResult)
    → (run m metadata t).0 ≡ ok r
    → r.action ≡ completed
    → (o : Options) × (read_options m metadata ≡ ok o)
      × (asked : Trace) × (listed : List Value) × ((list_open_prs m o.max_prs asked).0
          ≡ ok (some listed))
      × Counted m o listed r
unfolding run run_with
run_partition m metadata t r e done =
    let (o, read, e') = continue-eq-ok (read_options m metadata) (run_with m) t e in
    let (a, t₁) = gh_available m t in
    let (available, _, k) = continue-eq-ok a _ t₁ e' in
    elim (Bool-cases available) [
      | inl there ↦
          let (ps, t₂) = list_open_prs m o.max_prs t₁ in
          let (prs, given, l) = continue-eq-ok ps _ t₂ (rw there at k) in
          let (listed, same, counted) = use_list-Counted m o prs t₂ r l done in
          (o, read, t₁, listed, given ∙ ap ok same, counted)
      | inr missing ↦ absurd (ground (arith, rw missing at k, done))
    ]
