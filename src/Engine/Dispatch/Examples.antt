-- ===== src/Engine/Dispatch/Examples.antt =====
-- Tests of the pool and the dispatchers, and their theorems at concrete inputs.
use ampa.Prelude.{
  String, true, false, List, [], ◌∷◌, none, some, ◌≡◌, refl, pos, contains, lookup, insert,
}
use ampa.Engine.Dispatch.Pool.{
  Claim, PoolFiles, pool_name, pool_names, is_available, list_available_pool, claim_pool_container,
}
use ampa.Engine.Dispatch.Teardown.{Signal, enforce_timeout_by_pid, probe_all}
use ampa.Engine.Dispatch.Dispatchers.{
  ContainerDispatcher, spawned, container_dispatch, dry_run_dispatch, intake_dispatch,
  open_code_dispatch,
}
use ampa.Engine.Dispatch.Leases.{World, Step, Reach, Agrees, Reach-Agrees, Reach-exclusive}
use ampa.Engine.Dispatch.Races.{Threads, Claimer, Releaser, lost_claim}
use ampa.Engine.Dispatch.Races

abbrev containers : List String
containers = "ampa-pool-0" ∷ "ampa-pool-2" ∷ "ampa-pool-5" ∷ []

abbrev by_container : ContainerDispatcher
by_container = record { branch = "main"; timeout = pos 240 }

abbrev a_claim : Claim
a_claim = record { work_item_id = "WL-9"; branch = "main"; claimed_at = "noon" }

abbrev files : PoolFiles
files = record { claims = ("ampa-pool-0", a_claim) ∷ []; cleanup = "ampa-pool-5" ∷ [] }

available_test : list_available_pool containers files ≡ "ampa-pool-2" ∷ []
unfolding list_available_pool pool_names is_available pool_name
available_test = refl

no_container_test :
    (container_dispatch by_container 5 "noon" [] (spawned 7) "work" "WL-1" files).1.result.error
    ≡ some "No pool containers available"
unfolding container_dispatch claim_pool_container list_available_pool pool_names is_available
    pool_name
no_container_test = refl

probes_test : enforce_timeout_by_pid true true (true ∷ false ∷ []) ≡ Signal.terminate ∷ []
unfolding enforce_timeout_by_pid probe_all
probes_test = refl

dry_run_test :
    (dry_run_dispatch 5 "work" "WL-1"
      (record { fail_on = "WL-1" ∷ []; calls = []; next_pid = 10000 })).1.error
    ≡ some "Simulated spawn failure for WL-1"
unfolding dry_run_dispatch
dry_run_test = refl

intake_test :
    (intake_dispatch (open_code_dispatch 5 (spawned 7)) (pos 0) "work" "WL-1").0.command
    ≡ "opencode run --agent Casey --command \"intake WL-1 do not ask questions\""
unfolding intake_dispatch open_code_dispatch
intake_test = refl

abbrev with_session : World
with_session = record {
  files = record {
    claims =
        ("ampa-pool-2", record { work_item_id = "WL-1"; branch = "main"; claimed_at = "noon" })
        ∷ [];
    cleanup = "ampa-pool-0" ∷ [];
  };
  sessions = ("ampa-pool-2", "WL-1") ∷ [];
}

reached : Reach with_session
unfolding container_dispatch claim_pool_container list_available_pool pool_names is_available
    pool_name insert
reached =
    Reach.later (Reach.start ("ampa-pool-0" ∷ []))
      (Step.dispatch by_container 5 "noon" containers (spawned 7) "work" "WL-1")

Reach-Agrees_example : Agrees with_session.files.claims with_session.sessions
Reach-Agrees_example = Reach-Agrees reached

Reach-exclusive_example :
    (lookup "ampa-pool-5" with_session.sessions ≡ none)
    × (contains containers "ampa-pool-5" ≡ true)
    × (contains ("ampa-pool-0" ∷ []) "ampa-pool-5" ≡ false)
unfolding container_dispatch claim_pool_container list_available_pool pool_names is_available
    pool_name
Reach-exclusive_example =
    Reach-exclusive reached by_container 6 "later" containers (spawned 8) "work" "WL-2"
      "ampa-pool-5" refl

lost_claim_example :
    (t : Threads) × Races.Reach containers a_claim "ampa-pool-0" files t
    × (t.claimer ≡ Claimer.holds "ampa-pool-2")
    × (t.releaser ≡ Releaser.released)
    × (lookup "ampa-pool-2" t.files.claims ≡ none)
    × (is_available containers t.files "ampa-pool-2" ≡ true)
unfolding claim_pool_container list_available_pool pool_names is_available pool_name
lost_claim_example = lost_claim containers a_claim "ampa-pool-0" "ampa-pool-2" files refl
