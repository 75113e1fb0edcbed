-- ===== src/Engine/Dispatch/Leases.antt =====
-- The pool as a table of leases: the operations of dispatch.py, where each of them runs to its end
-- before the next one starts, and the sessions that run.
use ampa.Prelude.{
  ℕ, String, true, false, List, [], Option, none, some, ◌≡◌, refl, sym, ap, ◌∙◌, arith, subst, inl,
  inr, Dict, lookup, insert, remove, lookup-insert, lookup-remove, Bool-cases, str_eq, eq_iff,
  contains,
}
use ampa.Engine.Dispatch.Pool.{
  Claim, PoolFiles, claim_pool_container, release_pool_container, mark_for_cleanup,
}
use ampa.Engine.Dispatch.Pool.Claims.{IsFree, claim-IsFree, claim_none}
use ampa.Engine.Dispatch.Teardown.{
  CommandEnd, Phase, passed, absent, broken, phase_of, after_stop, teardown_container,
  teardown_on_completion,
}
use ampa.Engine.Dispatch.Dispatchers.{
  ContainerDispatcher, Spawn, spawned, refused, with_container, container_dispatch,
}

-- The files, and the sessions that run: the work item of each container.
pub record World : Type 0 where
  pub files : PoolFiles
  pub sessions : Dict String

abbrev pub add_session : String → Option String → Dict String → Dict String
add_session id none sessions = sessions
add_session id (some container) sessions = insert container id sessions

-- The steps: a dispatch with what it finds, the end of a session with the answers of Podman, and a
-- change of the cleanup list from outside.
pub data Step (w : World) : World → Type 0 where
  dispatch :
      (self : ContainerDispatcher) (ts : ℕ) (claimed_at : String) (existing : List String)
      (spawn : Spawn) (command id : String)
      → Step w (
          let (files, out) =
            container_dispatch self ts claimed_at existing spawn command id w.files in
          record { files = files; sessions = add_session id out.session w.sessions })
  complete :
      (stop rm : CommandEnd) (container : String)
      → Step w (record {
        files = teardown_on_completion stop rm container w.files;
        sessions = remove container w.sessions;
      })
  cleaned :
      (cleanup : List String) → Step w (record w { files = record w.files { cleanup = cleanup } })

pub data Reach : World → Type 0 where
  start :
      (cleanup : List String)
      → Reach (record { files = record { claims = []; cleanup = cleanup }; sessions = [] })
  later : {w v : World} → Reach w → Step w v → Reach v

-- The work item of a claim, and the table of leases that the file stands for.
abbrev pub item_of : Option Claim → Option String
item_of none = none
item_of (some c) = some c.work_item_id

abbrev pub Agrees : Dict Claim → Dict String → Type 0
Agrees claims sessions = (k : String) → item_of (lookup k claims) ≡ lookup k sessions

Agrees-insert :
    (name : String) (c : Claim) (claims : Dict Claim) (sessions : Dict String)
    → Agrees claims sessions
    → Agrees (insert name c claims) (insert name c.work_item_id sessions)
Agrees-insert name c claims sessions h k = elim (Bool-cases (str_eq name k)) [
  | inl same ↦
      rw (lookup-insert name k c claims, lookup-insert name k c.work_item_id sessions, same) refl
  | inr other ↦
      rw (lookup-insert name k c claims, lookup-insert name k c.work_item_id sessions, other) (h k)
]

Agrees-remove :
    (name : String) (claims : Dict Claim) (sessions : Dict String)
    → Agrees claims sessions
    → Agrees (remove name claims) (remove name sessions)
Agrees-remove name claims sessions h k = elim (Bool-cases (str_eq name k)) [
  | inl same ↦ rw (lookup-remove name k claims, lookup-remove name k sessions, same) refl
  | inr other ↦ rw (lookup-remove name k claims, lookup-remove name k sessions, other) (h k)
]

-- A claim of a free container that is given back at once leaves the table as it was.
Agrees-undo :
    (name : String) (c : Claim) (claims : Dict Claim) (sessions : Dict String)
    → lookup name claims ≡ none
    → Agrees claims sessions
    → Agrees (remove name (insert name c claims)) sessions
Agrees-undo name c claims sessions free h k = elim (Bool-cases (str_eq name k)) [
  | inl same ↦
      let here : name ≡ k = (eq_iff name k).0 same in
      let none_here : lookup k claims ≡ none = subst (λ n. lookup n claims ≡ none) here free in
      let unleased : lookup k sessions ≡ none = sym (h k) ∙ ap item_of none_here in
      rw (lookup-remove, same) (sym unleased)
  | inr other ↦ rw (lookup-remove, other) (rw (lookup-insert, other) (h k))
]

dispatch-Agrees :
    (self : ContainerDispatcher) (ts : ℕ) (claimed_at : String) (existing : List String)
    (spawn : Spawn) (command id : String) (w : World)
    → Agrees w.files.claims w.sessions
    → Agrees (container_dispatch self ts claimed_at existing spawn command id w.files).0.claims (
        add_session id
          (container_dispatch self ts claimed_at existing spawn command id w.files).1.session
          w.sessions)
unfolding container_dispatch release_pool_container
dispatch-Agrees self ts claimed_at existing spawn command id w h =
    let c : Claim = record { work_item_id = id; branch = self.branch; claimed_at = claimed_at } in
    go c (claim_pool_container existing c w.files).0 (claim_pool_container existing c w.files).1
      refl (λ e. (claim_none existing c w.files e).0) (claim-IsFree existing c w.files) spawn
  where
    go :
        (c : Claim) (files : PoolFiles) (o : Option String)
        → c.work_item_id ≡ id
        → (o ≡ none → files ≡ w.files)
        → ((name : String)
            → o ≡ some name
            → IsFree existing w.files name
              × (files ≡ record w.files { claims = insert name c w.files.claims }))
        → (spawn : Spawn)
        → Agrees (with_container self ts spawn command id (files, o)).0.claims (
            add_session id
              (with_container self ts spawn command id (files, o)).1.session
              w.sessions)
    go c files none p unchanged claimed s k = rw (unchanged refl) (h k)
    go c files (some name) p unchanged claimed (spawned pid) k =
        let (free, e) = claimed name refl in
        rw (e, ← p) (Agrees-insert name c w.files.claims w.sessions h k)
    go c files (some name) p unchanged claimed (refused error) k =
        let (free, e) = claimed name refl in
        rw e (Agrees-undo name c w.files.claims w.sessions free.unclaimed h k)

teardown_claims :
    (stop rm : CommandEnd) (name : String) (files : PoolFiles)
    → (teardown_container stop rm name files).0.claims ≡ files.claims
unfolding teardown_container mark_for_cleanup
teardown_claims stop rm name files = go (phase_of rm) (phase_of stop)
  where
    go : (r s : Phase) → (after_stop name files r s).0.claims ≡ files.claims
    go passed passed = refl
    go absent passed = refl
    go broken passed = ground arith
    go r absent = refl
    go r broken = ground arith

Step-Agrees :
    {w v : World} → Step w v → Agrees w.files.claims w.sessions → Agrees v.files.claims v.sessions
unfolding teardown_on_completion release_pool_container
Step-Agrees {w} (dispatch self ts claimed_at existing spawn command id) h =
    dispatch-Agrees self ts claimed_at existing spawn command id w h
Step-Agrees {w} (complete stop rm container) h =
    rw (teardown_claims stop rm container w.files)
      (Agrees-remove container w.files.claims w.sessions h)
Step-Agrees (cleaned cleanup) h = h

-- In every world that is reached from an empty pool by whole operations, `pool-state.json` refines
-- the table of leases: it has a claim for exactly the containers of the running sessions, each with
-- the work item of its session.
pub Reach-Agrees : {w : World} → Reach w → Agrees w.files.claims w.sessions
unfolding lookup
Reach-Agrees (start cleanup) k = refl
Reach-Agrees (later r s) k = Step-Agrees s (Reach-Agrees r) k

-- In a world reached from an empty pool by whole operations, a dispatch that starts a session has
-- been given a container that Podman lists, that no running session has, and that does not wait
-- for its removal.
pub Reach-exclusive :
    {w : World}
    → Reach w
    → (self : ContainerDispatcher) (ts : ℕ) (claimed_at : String) (existing : List String)
      (spawn : Spawn) (command id name : String)
    → (container_dispatch self ts claimed_at existing spawn command id w.files).1.session
      ≡ some name
    → (lookup name w.sessions ≡ none)
      × (contains existing name ≡ true)
      × (contains w.files.cleanup name ≡ false)
unfolding container_dispatch
Reach-exclusive {w} reached self ts claimed_at existing spawn command id name h =
    let c : Claim = record { work_item_id = id; branch = self.branch; claimed_at = claimed_at } in
    let free =
      go (claim_pool_container existing c w.files).0 (claim_pool_container existing c w.files).1
        (λ e. (claim-IsFree existing c w.files name e).0) spawn h in
    (sym (Reach-Agrees reached name) ∙ ap item_of free.unclaimed, free.exists, free.not_pending)
  where
    go :
        (files : PoolFiles) (o : Option String)
        → (o ≡ some name → IsFree existing w.files name)
        → (spawn : Spawn)
        → (with_container self ts spawn command id (files, o)).1.session ≡ some name
        → IsFree existing w.files name
    go files none free s q = absurd (ground arith)
    go files (some n) free (spawned pid) q = free q
    go files (some n) free (refused error) q = absurd (ground arith)
