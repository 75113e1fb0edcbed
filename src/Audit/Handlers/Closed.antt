-- ===== src/Audit/Handlers/Closed.antt =====
-- When `close_with_audit` closes an item.
use ampa.Prelude.{
  String, Bool, true, false, List, [], ◌∷◌, ◌++◌, Option, none, some, ok, ◌≡◌, refl, ◌∙◌, ap, subst,
  arith, if◌then◌else◌, Bool-cases, inl, inr, is_empty,
}
use ampa.Value.{Fields}
use ampa.Engine.Descriptor.{Command}
use ampa.Engine.World.{Trace, continue-eq-ok}
use ampa.Audit.Commands.{HandlerResult, Handlers, get_work_item_id}
use ampa.Audit.Checks.{
  is_pr_merged, has_no_open_children, check_pr, extract_pr_from_work_item, run_completion_checks,
}
use ampa.Audit.Handlers.{close_effects, close_checked, execute_close_with_audit}
use ampa.Audit.Handlers.Counted.{transitioned}
use ampa.Audit.Handlers.Guards.{
  Admitted, PrePassed, Moved, begin-Admitted, check_pre-PrePassed, apply_transition-Moved,
}

module _ (h : Handlers) where
  -- The closing of an item, with the answers that allowed it: the pull request that is merged, and
  -- the children that are settled.
  pub record Closable (item : Fields) : Type 0 where
    pub id : String
    pub admitted : Admitted h "close_with_audit" item id
    pub command : Command
    pub pre_passed : PrePassed h "close_with_audit" item command
    pub owner_repo : String
    pub pr_num : String
    pub linked : extract_pr_from_work_item h item ≡ some (owner_repo, pr_num)
    pub asked_merged : Trace
    pub merged : (is_pr_merged h owner_repo pr_num asked_merged).0 ≡ ok true
    pub asked_children : Trace
    pub settled : (has_no_open_children h id asked_children).0 ≡ ok true
    pub moved : Moved h "close_with_audit" id command

  -- The first check: it finds no failure only in a merged pull request.
  check_pr-merged :
      (pr : Option (String × String)) (t : Trace)
      → (check_pr h pr t).0 ≡ ok []
      → (owner_repo pr_num : String) × (pr ≡ some (owner_repo, pr_num))
        × ((is_pr_merged h owner_repo pr_num t).0 ≡ ok true)
  unfolding check_pr
  check_pr-merged none t e = absurd (cc)
  check_pr-merged (some (repo, num)) t e =
      let (o, t') = is_pr_merged h repo num t in
      let (merged, asked, k) = continue-eq-ok o _ t' e in
      elim (Bool-cases merged) [
        | inl good ↦ (repo, num, refl, asked ∙ ap ok good)
        | inr bad ↦ absurd (cc (rw bad at k))
      ]

  no_failures :
      (xs : List String) (settled : Bool)
      → is_empty (xs ++ (if settled then [] else "open_children_exist" ∷ [])) ≡ true
      → (xs ≡ []) × (settled ≡ true)
  no_failures [] true e = (refl, refl)
  no_failures [] false e = absurd (cc)
  no_failures (x ∷ xs) b e = absurd (cc)

  checks-passed :
      (item : Fields) (id : String) (t : Trace) (failures : List String)
      → get_work_item_id item ≡ ok id
      → (run_completion_checks h item t).0 ≡ ok failures
      → is_empty failures ≡ true
      → (owner_repo pr_num : String) × (extract_pr_from_work_item h item
          ≡ some (owner_repo, pr_num))
        × ((is_pr_merged h owner_repo pr_num t).0 ≡ ok true)
        × (asked : Trace) × ((has_no_open_children h id asked).0 ≡ ok true)
  unfolding run_completion_checks
  checks-passed item id t failures has_id e empty =
      let (id', same, k) = continue-eq-ok (get_work_item_id item) _ t e in
      let (o, t₁) = check_pr h (extract_pr_from_work_item h item) t in
      let (pr_failures, checked, l) = continue-eq-ok o _ t₁ k in
      let (o₂, t₂) = has_no_open_children h id' t₁ in
      let (settled, asked, m) = continue-eq-ok o₂ _ t₂ l in
      let all_empty : is_empty (pr_failures ++ (if settled then [] else "open_children_exist" ∷ []))
          ≡ true =
        cc in
      let (no_pr, yes_settled) = no_failures pr_failures settled all_empty in
      let (repo, num, linked, merged) =
        check_pr-merged (extract_pr_from_work_item h item) t (checked ∙ ap ok no_pr) in
      let is_id : id' ≡ id = cc in
      (
        repo,
        num,
        linked,
        merged,
        t₁,
        subst (λ i. (has_no_open_children h i t₁).0 ≡ ok true) is_id (asked ∙ ap ok yes_settled),
      )

  -- A closure that reports success was asked for an item with an id and a state that the command
  -- may start from, whose pre-invariants hold; its comments name a pull request that was found
  -- merged, its children were found settled, and the update to the target state was applied.
  pub execute_close_with_audit-Closable :
      (item : Fields) (t : Trace) (r : HandlerResult)
      → (execute_close_with_audit h item t).0 ≡ ok r
      → transitioned r ≡ true
      → Closable item
  unfolding execute_close_with_audit close_checked run_completion_checks
  execute_close_with_audit-Closable item t r e done =
      let (id, admitted, k) = begin-Admitted h "close_with_audit" item _ t r e done in
      let (cmd, pre, t', l) = check_pre-PrePassed h "close_with_audit" id item _ t r k done in
      let (o, t₁) = run_completion_checks h item t' in
      let (failures, checked, m) = continue-eq-ok o _ t₁ l in
      elim (Bool-cases (is_empty failures)) [
        | inl empty ↦
            let (repo, num, linked, merged, asked, settled) =
              checks-passed item id t' failures admitted.has_id checked empty in
            record {
              id = id;
              admitted = admitted;
              command = cmd;
              pre_passed = pre;
              owner_repo = repo;
              pr_num = num;
              linked = linked;
              asked_merged = t';
              merged = merged;
              asked_children = asked;
              settled = settled;
              moved =
                  apply_transition-Moved h "close_with_audit" id cmd (close_effects h id item cmd)
                    t₁ r (rw empty at m) done;
            }
        | inr found ↦ absurd (ground (arith, rw found at m, done))
      ]
