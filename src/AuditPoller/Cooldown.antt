-- ===== src/AuditPoller/Cooldown.antt =====
-- The cooldown after a cycle.
use ampa.Prelude.{
  ℕ, String, Bool, true, false, List, Option, none, some, if◌then◌else◌, lookup, insert,
  lookup-insert, ◌≡◌, refl, sym, ap, ◌∙◌, arith, inl, inr, ◌⊎◌, Bool-cases, nonempty, str_eq,
  eq_iff, eq_refl, ℤ,
}
use ampa.Value.{Fields}
use ampa.AuditPoller.{
  AuditState, id_of, passes_cooldown, cools, may_pass, eligible, select_candidate, item_updated_ts,
}
use ampa.AuditPoller.Poll.{
  Inputs, Handled, handled, handler_raised, Outcome, handed_off, attempted, record_outcome,
  fetched_excludes, with_selected, poll_and_handoff,
}

abbrev pub succeeds : Handled → Bool
succeeds (handled success reason) = success
succeeds handler_raised = false

-- What the handler leaves of the moments.
recorded_attempt :
    (now : ℕ) (id : String) (h : Handled) (st : AuditState)
    → (record_outcome now id h st).last_attempt_at ≡ insert id now st.last_attempt_at
unfolding record_outcome
recorded_attempt now id (handled true reason) st = refl
recorded_attempt now id (handled false reason) st = refl
recorded_attempt now id handler_raised st = refl

recorded_audit :
    (now : ℕ) (id : String) (h : Handled) (st : AuditState)
    → (record_outcome now id h st).last_audit_at
      ≡ (if succeeds h then insert id now st.last_audit_at else st.last_audit_at)
unfolding record_outcome
recorded_audit now id (handled true reason) st = refl
recorded_audit now id (handled false reason) st = refl
recorded_audit now id handler_raised st = refl

passes_lem :
    (parse : String → Option ℕ) (now : ℕ) (hours : ℤ) (st : AuditState) (item : Fields)
    → passes_cooldown parse now hours st item
      ≡ may_pass now hours
          (nonempty (id_of item))
          (lookup (id_of item) st.last_audit_at)
          (lookup (id_of item) st.last_attempt_at)
          (item_updated_ts parse item)
unfolding passes_cooldown
passes_lem parse now hours st item = refl

-- The audit of a handler that fails, and the attempt of any.
audit_kept :
    (now : ℕ) (id : String) (h : Handled) (st : AuditState)
    → succeeds h ≡ false
    → lookup id (record_outcome now id h st).last_audit_at ≡ lookup id st.last_audit_at
audit_kept now id h st failed = ap (lookup id) (recorded_audit now id h st ∙ rw failed refl)

attempt_written :
    (now : ℕ) (id : String) (h : Handled) (st : AuditState)
    → lookup id (record_outcome now id h st).last_attempt_at ≡ some now
attempt_written now id h st =
    ap (lookup id) (recorded_attempt now id h st)
    ∙ rw (lookup-insert id id now st.last_attempt_at, eq_refl id) refl

still_cools :
    (later : ℕ) (hours : ℤ) (named : Bool) (now : ℕ) (updated : Option ℕ)
    → cools later hours now ≡ true
    → may_pass later hours named none (some now) updated ≡ false
still_cools later hours named now updated soon = rw soon (ground arith)

-- An item of which no successful audit is known cools down after an attempt that fails: it is not
-- chosen while less than the cooldown has passed since the attempt.
pub cooldown_after_failure :
    (parse : String → Option ℕ) (now later : ℕ) (hours : ℤ) (item : Fields) (h : Handled)
    (st : AuditState)
    → succeeds h ≡ false
    → lookup (id_of item) st.last_audit_at ≡ none
    → cools later hours now ≡ true
    → passes_cooldown parse later hours (record_outcome now (id_of item) h st) item ≡ false
cooldown_after_failure parse now later hours item h st failed never soon =
    passes_lem parse later hours (record_outcome now (id_of item) h st) item
    ∙ rw (audit_kept now (id_of item) h st failed ∙ never, attempt_written now (id_of item) h st)
        (still_cools later hours (nonempty (id_of item)) now (item_updated_ts parse item) soon)

-- For an item that was audited before, neither an attempt that fails nor one that ends at a wrong
-- stage changes whether the item passes the cooldown, at any later moment.
pub record_outcome_ignored :
    (parse : String → Option ℕ) (now later : ℕ) (hours : ℤ) (item : Fields) (h : Handled)
    (st : AuditState) (audit : ℕ)
    → succeeds h ≡ false
    → lookup (id_of item) st.last_audit_at ≡ some audit
    → (passes_cooldown parse later hours (record_outcome now (id_of item) h st) item
        ≡ passes_cooldown parse later hours st item)
      × (passes_cooldown parse later hours (attempted now (id_of item) st) item
          ≡ passes_cooldown parse later hours st item)
record_outcome_ignored parse now later hours item h st audit failed known =
    let before : passes_cooldown parse later hours st item
        ≡ may_pass later hours (nonempty (id_of item)) (some audit) none
            (item_updated_ts parse item) =
      passes_lem parse later hours st item ∙ rw known refl in
    (
      passes_lem parse later hours (record_outcome now (id_of item) h st) item
          ∙ rw (audit_kept now (id_of item) h st failed ∙ known) (sym before),
      passes_lem parse later hours (attempted now (id_of item) st) item ∙ rw known (sym before),
    )

Audits : Inputs → AuditState → String → AuditState × Outcome → Type 0
Audits inp st k (after, outcome) =
    (lookup k after.last_audit_at ≡ lookup k st.last_audit_at)
    ⊎ (item : Fields) × (id_of item ≡ k)
      × (succeeds (inp.handler item) ≡ true)
      × (outcome ≡ handed_off k)
      × (lookup k after.last_audit_at ≡ some inp.now)

outcome_lem :
    (inp : Inputs) (item : Fields) (st : AuditState) (k : String)
    → Audits inp st k
        (record_outcome inp.now (id_of item) (inp.handler item) st, handed_off (id_of item))
unfolding Audits
outcome_lem inp item st k =
    let id = id_of item in
    let h = inp.handler item in
    elim (Bool-cases (succeeds h)) [
      | inr failed ↦ inl (ap (lookup k) (recorded_audit inp.now id h st ∙ rw failed refl))
      | inl succeeded ↦
          let written : (record_outcome inp.now id h st).last_audit_at
              ≡ insert id inp.now st.last_audit_at =
            recorded_audit inp.now id h st ∙ rw succeeded refl in
          elim (Bool-cases (str_eq id k)) [
            | inl same ↦ inr (
              item,
              (eq_iff id k).0 same,
              succeeded,
              ap handed_off ((eq_iff id k).0 same),
              ap (lookup k) written ∙ rw (lookup-insert id k inp.now st.last_audit_at, same) refl,
            )
            | inr other ↦ inl (
                ap (lookup k) written
                ∙ rw (lookup-insert id k inp.now st.last_audit_at, other) refl)
          ]
    ]

cycle_lem :
    (inp : Inputs) (o : Option Fields) (st : AuditState) (k : String)
    → Audits inp st k (with_selected inp o st)
unfolding Audits
cycle_lem inp none st k = inl refl
cycle_lem inp (some item) st k = elim (Bool-cases (nonempty (id_of item))) [
  | inr unnamed ↦ rw unnamed (inl refl)
  | inl named ↦ elim (Bool-cases (fetched_excludes (inp.fetch item))) [
    | inl excluded ↦ rw named (rw excluded (inl refl))
    | inr reviewed ↦ rw named (rw reviewed (outcome_lem inp item st k))
  ]
]

-- A cycle changes the last audit of an item only by handing that item over to a handler that
-- succeeds, and then it is the moment of the cycle.
pub poll_and_handoff_audits :
    (inp : Inputs) (items : Option (List Fields)) (st : AuditState) (k : String)
    → (lookup k (poll_and_handoff inp items st).0.last_audit_at ≡ lookup k st.last_audit_at)
      ⊎ (item : Fields) × (id_of item ≡ k)
        × (succeeds (inp.handler item) ≡ true)
        × ((poll_and_handoff inp items st).1 ≡ handed_off k)
        × (lookup k (poll_and_handoff inp items st).0.last_audit_at ≡ some inp.now)
unfolding poll_and_handoff Audits
poll_and_handoff_audits inp none st k = inl refl
poll_and_handoff_audits inp (some items) st k =
    cycle_lem inp
      (select_candidate inp.parse (eligible inp.parse inp.now inp.cooldown_hours st items)) st k
