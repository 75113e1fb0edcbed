-- ===== src/Engine/Dispatch/Pool/Claims.antt =====
-- What a claim is given.
use mathlib.Core.List.{Memᴰ}
use ampa.Prelude.{
  String, Bool, true, false, List, [], ◌∷◌, none, some, ◌≡◌, refl, sym, ap, arith, insert, has,
  lookup, contains, keep, Bool-cases, Option-cases, inl, inr, subst,
}
use ampa.Engine.Dispatch.Pool.{
  Claim, PoolFiles, pool_names, is_available, list_available_pool, claim_first,
  claim_pool_container,
}

-- The container is free: it exists, has no claim, and is not waiting for its removal.
pub record IsFree (existing : List String) (files : PoolFiles) (name : String) : Type 0 where
  pub in_pool : Memᴰ name pool_names
  pub exists : contains existing name ≡ true
  pub unclaimed : lookup name files.claims ≡ none
  pub not_pending : contains files.cleanup name ≡ false

module _ {A : Type 0} (p : A → Bool) where
  keep-Mem : (xs : List A) (x : A) (rest : List A) → keep p xs ≡ x ∷ rest → Memᴰ x xs × (p x ≡ true)
  keep-Mem [] x rest h = absurd (ground arith)
  keep-Mem (y ∷ ys) x rest h = elim (Bool-cases (p y)) [
    | inl kept ↦
        let same : y ≡ x = ground arith in (Memᴰ.head (sym same), subst (λ z. p z ≡ true) same kept)
    | inr dropped ↦ let (m, q) = keep-Mem ys x rest (rw dropped at h) in (Memᴰ.tail m, q)
  ]

is_available-IsFree :
    (existing : List String) (files : PoolFiles) (name : String)
    → Memᴰ name pool_names
    → is_available existing files name ≡ true
    → IsFree existing files name
unfolding is_available has
is_available-IsFree existing files name m h = record {
  in_pool = m;
  exists = ground arith;
  unclaimed = elim (Option-cases (lookup name files.claims)) [
    | inl e ↦ e
    | inr (c, e) ↦ absurd (ground arith)
  ];
  not_pending = ground arith;
}

-- A claim that succeeds is of a free container, and records exactly that claim.
pub claim-IsFree :
    (existing : List String) (c : Claim) (files : PoolFiles) (name : String)
    → (claim_pool_container existing c files).1 ≡ some name
    → IsFree existing files name
      × ((claim_pool_container existing c files).0
          ≡ record files { claims = insert name c files.claims })
unfolding claim_pool_container list_available_pool
claim-IsFree existing c files name h = go (keep (is_available existing files) pool_names) refl h
  where
    go :
        (xs : List String)
        → keep (is_available existing files) pool_names ≡ xs
        → (claim_first xs c files).1 ≡ some name
        → IsFree existing files name
          × ((claim_first xs c files).0 ≡ record files { claims = insert name c files.claims })
    go [] e q = absurd (ground arith)
    go (x ∷ xs) e q =
        let same : x ≡ name = ground arith in
        let (m, p) = keep-Mem (is_available existing files) pool_names x xs e in
        (
          subst (IsFree existing files) same (is_available-IsFree existing files x m p),
          ap (λ (n : String). record files { claims = insert n c files.claims }) same,
        )

-- Without a free container there is no claim, and nothing is written.
pub claim_none :
    (existing : List String) (c : Claim) (files : PoolFiles)
    → (claim_pool_container existing c files).1 ≡ none
    → ((claim_pool_container existing c files).0 ≡ files)
      × (list_available_pool existing files ≡ [])
unfolding claim_pool_container
claim_none existing c files h = go (list_available_pool existing files) h
  where
    go :
        (xs : List String)
        → (claim_first xs c files).1 ≡ none
        → ((claim_first xs c files).0 ≡ files) × (xs ≡ [])
    go [] q = (refl, refl)
    go (x ∷ xs) q = absurd (ground arith)
