-- ===== src/Engine/Core/Flow.antt =====
-- The results of the engine, its configuration, and code with early returns.
use ampa.Prelude.{ℕ, String, Bool, Option, Result, ok, raise, ◌≡◌, refl, arith, ap}
use ampa.Engine.Descriptor.{StateTuple, WorkflowDescriptor}
use ampa.Engine.Records.{DispatchResult, InvariantResult, CandidateResult}
use ampa.Engine.World.{Io, Trace, Services}
use ampa.Engine.Candidates.{CandidateSelector}
use ampa.Engine.Evaluator.{InvariantEvaluator}

pub data EngineStatus : Type 0 where
  success no_candidates rejected invariant_failed dispatch_failed update_failed skipped error :
      EngineStatus

pub data EngineReason : Type 0 where
  audit_only_enabled mode_is_hold mode_is_discuss_options mode_is_auto_decline : EngineReason
  selection_empty : CandidateResult → EngineReason
  fetch_failed fetch_for_invariants_failed : (id : String) → EngineReason
  no_delegate_command : EngineReason
  not_a_from_state : (id : String) → StateTuple → EngineReason
  invariants_failed : InvariantResult → EngineReason
  transition_not_applied : StateTuple → (id : String) → EngineReason
  no_alias : StateTuple → EngineReason
  no_template : (action : String) → EngineReason
  dispatch_error : Option String → EngineReason
  dispatched_as : (action id : String) → EngineReason
  no_transition : StateTuple → (target_stage : String) → EngineReason
  applied_via : (command : String) → EngineReason

pub record EngineResult : Type 0 where
  pub status : EngineStatus
  pub reason : EngineReason
  pub work_item_id : Option String
  pub command_name : Option String
  pub action : Option String
  pub dispatch_result : Option DispatchResult
  pub invariant_result : Option InvariantResult
  pub candidate_result : Option CandidateResult
  pub timestamp : ℕ

pub record EngineConfig : Type 0 where
  pub descriptor_path : String
  pub max_concurrency : ℕ
  pub fallback_mode : Option String
  pub audit_only : Bool

-- The engine's parts; the updater, writer, recorder, notifier and clock are among the services.
pub record Engine : Type 0 where
  pub descriptor : WorkflowDescriptor
  pub selector : CandidateSelector
  pub evaluator : InvariantEvaluator
  pub config : EngineConfig
  pub services : Services

-- A stretch of code goes on with a value, or returns from the method.
pub data Flow (A : Type 0) : Type 0 where
  next : A → Flow A
  exit : EngineResult → Flow A

abbrev pub Step : Type 0 → Type 0
Step A = Io (Flow A)

module _ {A B : Type 0} where
  abbrev pub resume : Result (Flow A) → (A → Step B) → Step B
  resume (ok (next a)) f t = f a t
  resume (ok (exit r)) f t = (ok (exit r), t)
  resume (raise e) f t = (raise e, t)

  infixl 5 ◌▹◌
  abbrev pub ◌▹◌ : Step A → (A → Step B) → Step B
  ◌▹◌ m f t = let (r, t') = m t in resume r f t'

  pub resume-eq-next :
      (r : Result (Flow A)) (f : A → Step B) (t : Trace) {b : B}
      → (resume r f t).0 ≡ ok (next b)
      → (a : A) × (r ≡ ok (next a)) × ((f a t).0 ≡ ok (next b))
  resume-eq-next (ok (next a)) f t h = (a, refl, h)
  resume-eq-next (ok (exit r)) f t h = absurd (ground arith)
  resume-eq-next (raise e) f t h = absurd (ground arith)

module _ {A B : Type 0} where
  pub resume-next :
      (r : Result (Flow A)) (f : A → Step B) (t : Trace) (a : A)
      → r ≡ ok (next a)
      → (resume r f t).1 ≡ (f a t).1
  resume-next r f t a e = ap (λ x. (resume x f t).1) e

-- The value of the method, returned early or at its end.
abbrev pub flow_value : Flow EngineResult → EngineResult
flow_value (next r) = r
flow_value (exit r) = r
