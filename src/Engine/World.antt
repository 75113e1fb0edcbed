-- ===== src/Engine/World.antt =====
-- The services around the engine (the protocols of core.py, candidates.py and invariants.py), and
-- the actions that call them. A service may answer by all that was asked before, and may raise.
pub mod Silent
pub mod Gives
use ampa.Prelude.{ℕ, String, Bool, List, [], ◌∷◌, ◌++◌, Option, Result, ok, raise, ℤ, ◌≡◌, refl}
use ampa.Value.{Value, Fields}
use ampa.Shell.{ShellCommand, Completed}
use ampa.Engine.Records.{
  DispatchResult, DispatchRecord, Message, Event, counted, candidates_fetched, item_fetched,
  updated, commented, notified, dispatched, recorded, ran,
}

-- What was asked so far, oldest first.
abbrev pub Trace : Type 0
Trace = List Event

-- Python's `re`: the groups of `pattern.search(text)`, and `re.search` for a pattern of the
-- descriptor, which raises `re.error` if it is malformed.
pub record Re : Type 0 where
  pub groups : (pattern text : String) → Option (List String)
  pub search : (pattern text : String) → Result Bool

pub record Services : Type 0 where
  pub count_in_progress : Trace → Result ℤ
  pub fetch_candidates : Trace → Result (List Fields)
  pub fetch : Trace → String → Result (Option Fields)
  pub update : Trace → (id status stage : String) → Option String → Result Bool
  pub write_comment : Trace → String → Message → Result Bool
  pub dispatch : Trace → (command id : String) → Result DispatchResult
  pub record_dispatch : Trace → DispatchRecord → Result (Option String)
  pub send : Trace → Message → Result Bool
  pub clock : Trace → ℕ

-- An action: the calls made stay made when it raises.
abbrev pub Io {ℓ} : Type ℓ → Type ℓ
Io A = Trace → Result A × Trace

abbrev pub continue {ℓ κ} : {A : Type ℓ} {B : Type κ} → Result A → (A → Io B) → Io B
continue (ok a) f t = f a t
continue (raise e) f t = (raise e, t)

infixl 5 ◌>>=◌ ◌>>◌
abbrev pub ◌>>=◌ {ℓ κ} : {A : Type ℓ} {B : Type κ} → Io A → (A → Io B) → Io B
◌>>=◌ m f t = let (r, t') = m t in continue r f t'

abbrev pub ◌>>◌ {ℓ κ} : {A : Type ℓ} {B : Type κ} → Io A → Io B → Io B
m >> n = m >>= λ _. n

abbrev pub pure {ℓ} : {A : Type ℓ} → A → Io A
pure a t = (ok a, t)

abbrev pub lift {ℓ} : {A : Type ℓ} → Result A → Io A
lift r t = (r, t)

-- `try: m except Exception: handler`
abbrev pub recover {ℓ} : {A : Type ℓ} → Result A → Io A → Io A
recover (ok a) handler t = (ok a, t)
recover (raise e) handler t = handler t

abbrev pub try_except {ℓ} : {A : Type ℓ} → Io A → Io A → Io A
try_except m handler t = let (r, t') = m t in recover r handler t'

-- Inversion of a bind that returned.
pub continue-eq-ok {ℓ κ} :
    {A : Type ℓ} {B : Type κ} (r : Result A) (f : A → Io B) (t : Trace) {b : B}
    → (continue r f t).0 ≡ ok b
    → (a : A) × (r ≡ ok a) × ((f a t).0 ≡ ok b)
continue-eq-ok (ok a) f t h = (a, refl, h)
continue-eq-ok (raise e) f t h = cc

module _ (s : Services) where
  abbrev pub call_count : Io ℤ
  call_count t = (s.count_in_progress t, t ++ counted ∷ [])

  abbrev pub call_fetch_candidates : Io (List Fields)
  call_fetch_candidates t = (s.fetch_candidates t, t ++ candidates_fetched ∷ [])

  abbrev pub call_fetch : String → Io (Option Fields)
  call_fetch id t = (s.fetch t id, t ++ item_fetched id ∷ [])

  abbrev pub call_update : (id status stage : String) → Option String → Io Bool
  call_update id status stage assignee t =
      let answer = s.update t id status stage assignee in
      (answer, t ++ updated id status stage assignee answer ∷ [])

  abbrev pub call_comment : String → Message → Io Bool
  call_comment id text t = (s.write_comment t id text, t ++ commented id text ∷ [])

  abbrev pub call_send : Message → (title level : String) → Io Bool
  call_send text title level t = (s.send t text, t ++ notified text title level ∷ [])

  abbrev pub call_dispatch : (command id : String) → Io DispatchResult
  call_dispatch command id t = (s.dispatch t command id, t ++ dispatched command id ∷ [])

  abbrev pub call_record : DispatchRecord → Io (Option String)
  call_record r t = (s.record_dispatch t r, t ++ recorded r ∷ [])

abbrev pub call_shell : (Trace → ShellCommand → Result Completed) → ShellCommand → Io Completed
call_shell shell command t = let answer = shell t command in (answer, t ++ ran command answer ∷ [])
