-- ===== src/Engine/Dispatch/Dispatchers.antt =====
-- The dispatchers of src/ampa/engine/dispatch.py. What starting a process gives is an argument, and
-- so is the time of the call.
use Prim.Native.String.{◌++◌ as append}
use ampa.Prelude.{
  ℕ, ◌+◌, String, Bool, true, false, List, [], ◌∷◌, ◌++◌, Option, none, some, if◌then◌else◌, ℤ,
  gt_ℤ, contains,
}
use ampa.Engine.Records.{DispatchResult}
use ampa.Engine.Dispatch.Pool.{PoolFiles, claim_pool_container, release_pool_container}

-- `subprocess.Popen`: a pid, or an exception of the operating system, as its type and text.
pub data Spawn : Type 0 where
  spawned : (pid : ℕ) → Spawn
  refused : (error : String) → Spawn

abbrev started : ℕ → String → String → ℕ → Option String → DispatchResult
started ts command id pid container = record {
  success = true;
  command = command;
  work_item_id = id;
  timestamp = ts;
  pid = some pid;
  error = none;
  container_id = container;
}

abbrev not_dispatched : ℕ → String → String → String → Option String → DispatchResult
not_dispatched ts command id error container = record {
  success = false;
  command = command;
  work_item_id = id;
  timestamp = ts;
  pid = none;
  error = some error;
  container_id = container;
}

-- `OpenCodeRunDispatcher.dispatch`
unfoldable pub open_code_dispatch : ℕ → Spawn → (command id : String) → DispatchResult
open_code_dispatch ts (spawned pid) command id = started ts command id pid none
open_code_dispatch ts (refused error) command id = not_dispatched ts command id error none

-- A timer that a dispatcher starts: after so many seconds, for the process group.
pub record Timer : Type 0 where
  pub seconds : ℤ
  pub group : ℕ

abbrev intake_timer : ℤ → Option ℕ → Option Timer
intake_timer timeout none = none
intake_timer timeout (some pid) =
    if gt_ℤ timeout 0 then some (record { seconds = timeout; group = pid }) else none

-- `IntakeDispatcher.dispatch`: its own command goes to the runner, whatever command it is given.
unfoldable pub intake_dispatch :
    (runner : String → String → DispatchResult)
    → ℤ
    → (command id : String) → DispatchResult × Option Timer
intake_dispatch runner timeout command id =
    let result =
      runner
        (append "opencode run --agent Casey --command \"intake "
          (append id " do not ask questions\""))
        id in
    (result, if result.success then intake_timer timeout result.pid else none)

pub record ContainerDispatcher : Type 0 where
  pub branch : String
  pub timeout : ℤ

-- What a container dispatch leaves behind: its result, the timer, and the container for which it
-- started the thread that removes it at the end of the session.
pub record Dispatched : Type 0 where
  pub result : DispatchResult
  pub timer : Option Timer
  pub session : Option String

abbrev pub enter : String → String → String
enter container command = append "distrobox enter " (append container (append " -- " command))

-- The rest of `ContainerDispatcher.dispatch`, once the claim is made.
abbrev pub spawn_in :
    ContainerDispatcher
    → ℕ
    → (command id container : String) → PoolFiles
    → Spawn
    → PoolFiles × Dispatched
spawn_in self ts command id container files (spawned pid) = (
  files,
  record {
    result = started ts (enter container command) id pid (some container);
    timer =
        if gt_ℤ self.timeout 0 then some (record { seconds = self.timeout; group = pid }) else none;
    session = some container;
  },
)
spawn_in self ts command id container files (refused error) = (
  release_pool_container container files,
  record {
    result = not_dispatched ts (enter container command) id error (some container);
    timer = none;
    session = none;
  },
)

abbrev pub with_container :
    ContainerDispatcher
    → ℕ
    → Spawn
    → (command id : String) → PoolFiles × Option String
    → PoolFiles × Dispatched
with_container self ts spawn command id (files, none) = (
  files,
  record {
    result = not_dispatched ts command id "No pool containers available" none;
    timer = none;
    session = none;
  },
)
with_container self ts spawn command id (files, some container) =
    spawn_in self ts command id container files spawn

-- `ContainerDispatcher.dispatch`
unfoldable pub container_dispatch :
    ContainerDispatcher
    → (ts : ℕ) (claimed_at : String) (existing : List String) → Spawn
    → (command id : String) → PoolFiles
    → PoolFiles × Dispatched
container_dispatch self ts claimed_at existing spawn command id files =
    with_container self ts spawn command id (
      claim_pool_container existing
        (record { work_item_id = id; branch = self.branch; claimed_at = claimed_at }) files)

-- `DryRunDispatcher`
pub record DryRunCall : Type 0 where
  pub command : String
  pub work_item_id : String
  pub timestamp : ℕ

pub record DryRunDispatcher : Type 0 where
  pub fail_on : List String
  pub calls : List DryRunCall
  pub next_pid : ℕ

abbrev pub simulate :
    ℕ → (command id : String) → DryRunDispatcher → Bool → DryRunDispatcher × DispatchResult
simulate ts command id self true =
    (self, not_dispatched ts command id (append "Simulated spawn failure for " id) none)
simulate ts command id self false =
    (record self { next_pid = self.next_pid + 1 }, started ts command id self.next_pid none)

unfoldable pub dry_run_dispatch :
    ℕ → (command id : String) → DryRunDispatcher → DryRunDispatcher × DispatchResult
dry_run_dispatch ts command id self =
    let call : DryRunCall = record { command = command; work_item_id = id; timestamp = ts } in
    simulate ts command id (record self { calls = self.calls ++ call ∷ [] })
      (contains self.fail_on id)
