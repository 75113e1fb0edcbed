-- ===== src/Engine/Dispatch/Races.antt =====
-- The same files, step by step: each operation on `pool-state.json` in dispatch.py reads the whole
-- file and later writes the whole file, the scheduler claims in one thread and the end of a session
-- releases in another.
use ampa.Prelude.{
  String, true, List, [], ◌∷◌, none, some, ◌≡◌, refl, arith, Dict, lookup, remove, has,
  lookup-remove, Bool-cases, inl, inr, str_eq,
}
use ampa.Engine.Dispatch.Pool.{
  Claim, PoolFiles, is_available, list_available_pool, with_claim, claim_first,
  claim_pool_container,
}
use ampa.Engine.Dispatch.Pool.Claims.{claim-IsFree}

-- Where the thread that claims is: before the call, with the name it chose, with what it read, and
-- after the call.
pub data Claimer : Type 0 where
  idle : Claimer
  chose : String → Claimer
  read : String → Dict Claim → Claimer
  holds : String → Claimer

-- Where the thread that releases is.
pub data Releaser : Type 0 where
  ready released : Releaser
  read : Dict Claim → Releaser

pub record Threads : Type 0 where
  pub files : PoolFiles
  pub claimer : Claimer
  pub releaser : Releaser

module _ (existing : List String) (c : Claim) (gone : String) where
  pub data Step (t : Threads) : Threads → Type 0 where
    choose :
        (name : String) (rest : List String)
        → t.claimer ≡ Claimer.idle
        → list_available_pool existing t.files ≡ name ∷ rest
        → Step t (record t { claimer = Claimer.chose name })
    read_to_claim :
        (name : String)
        → t.claimer ≡ Claimer.chose name
        → Step t (record t { claimer = Claimer.read name t.files.claims })
    write_claim :
        (name : String) (seen : Dict Claim)
        → t.claimer ≡ Claimer.read name seen
        → Step t (record t {
          files = record t.files { claims = with_claim name c seen };
          claimer = Claimer.holds name;
        })
    read_to_release :
        t.releaser ≡ Releaser.ready → Step t (record t { releaser = Releaser.read t.files.claims })
    write_release :
        (seen : Dict Claim)
        → t.releaser ≡ Releaser.read seen
        → Step t (record t {
          files = record t.files { claims = remove gone seen };
          releaser = Releaser.released;
        })

  pub data Reach (files : PoolFiles) : Threads → Type 0 where
    start :
        Reach files (record { files = files; claimer = Claimer.idle; releaser = Releaser.ready })
    later : {t u : Threads} → Reach files t → Step t u → Reach files u

unclaimed-remove :
    (gone name : String) (claims : Dict Claim)
    → lookup name claims ≡ none
    → lookup name (remove gone claims) ≡ none
unclaimed-remove gone name claims free = elim (Bool-cases (str_eq gone name)) [
  | inl same ↦ rw (lookup-remove gone name claims, same) refl
  | inr other ↦ rw (lookup-remove gone name claims, other) free
]

first_available :
    (existing : List String) (c : Claim) (name : String) (files : PoolFiles)
    → (claim_pool_container existing c files).1 ≡ some name
    → (rest : List String) × (list_available_pool existing files ≡ name ∷ rest)
unfolding claim_pool_container
first_available existing c name files h = go (list_available_pool existing files) h
  where
    go :
        (xs : List String)
        → (claim_first xs c files).1 ≡ some name
        → (rest : List String) × (xs ≡ name ∷ rest)
    go [] q = absurd (ground arith)
    go (x ∷ xs) q = (xs, ground arith)

-- Whenever a container is available, there is an order of the two threads' reads and writes after
-- which the scheduler holds the container and has returned its name, but the claim is not in
-- `pool-state.json`, and the container is available to the next dispatch: the release has written
-- back what it read before the claim.
pub lost_claim :
    (existing : List String) (c : Claim) (gone name : String) (files : PoolFiles)
    → (claim_pool_container existing c files).1 ≡ some name
    → (t : Threads) × Reach existing c gone files t
      × (t.claimer ≡ Claimer.holds name)
      × (t.releaser ≡ Releaser.released)
      × (lookup name t.files.claims ≡ none)
      × (is_available existing t.files name ≡ true)
unfolding is_available has
lost_claim existing c gone name files h =
    let free = (claim-IsFree existing c files name h).0 in
    let unclaimed = unclaimed-remove gone name files.claims free.unclaimed in
    let (rest, listed) = first_available existing c name files h in
    let s1 = Reach.later Reach.start (Step.read_to_release refl) in
    let s2 = Reach.later s1 (Step.choose name rest refl listed) in
    let s3 = Reach.later s2 (Step.read_to_claim name refl) in
    let s4 = Reach.later s3 (Step.write_claim name files.claims refl) in
    (
      _,
      Reach.later s4 (Step.write_release files.claims refl),
      refl,
      refl,
      unclaimed,
      rw (unclaimed, free.exists, free.not_pending) refl,
    )
