-- ===== src/Engine/Dispatch/Pool.antt =====
-- The pool of containers of src/ampa/engine/dispatch.py: its two state files, and the claims. A
-- file that is missing or broken reads as an empty one; the files here are those that were read.
pub mod Claims
use Prim.Native.String.{◌++◌ as append}
use ampa.Prelude.{
  ℕ, zero, suc, ◌+◌, String, Bool, true, false, not, ◌&&◌, List, [], ◌∷◌, ◌++◌, map, Option, none,
  some, if◌then◌else◌, Dict, lookup, insert, remove, has, contains, keep, ◌≡◌, refl,
}
use ampa.Text.{show_ℕ}

-- An entry of `pool-state.json`.
pub record Claim : Type 0 where
  pub work_item_id : String
  pub branch : String
  pub claimed_at : String

-- `pool-state.json` and `pool-cleanup.json`.
pub record PoolFiles : Type 0 where
  pub claims : Dict Claim
  pub cleanup : List String

abbrev pub pool_size : ℕ
pool_size = 3

abbrev pub pool_max_index : ℕ
pool_max_index = 9

-- `range(start, start + n)`
abbrev range_from : ℕ → ℕ → List ℕ
range_from start zero = []
range_from start (suc n) = start ∷ range_from (start + 1) n

unfoldable pub pool_name : ℕ → String
unfolding show_ℕ
pool_name i = append "ampa-pool-" (show_ℕ i)

unfoldable pub pool_names : List String
unfolding pool_name
pool_names = map pool_name (range_from 0 pool_max_index)

-- What `_list_available_pool` asks of a name; `existing` are the containers that Podman lists.
unfoldable pub is_available : (existing : List String) → PoolFiles → String → Bool
unfolding has
is_available existing files name =
    contains existing name && not (has name files.claims) && not (contains files.cleanup name)

unfoldable pub list_available_pool : (existing : List String) → PoolFiles → List String
list_available_pool existing files = keep (is_available existing files) pool_names

-- The write of a claim.
abbrev pub with_claim : String → Claim → Dict Claim → Dict Claim
with_claim name c claims = insert name c claims

abbrev pub claim_first : List String → Claim → PoolFiles → PoolFiles × Option String
claim_first [] c files = (files, none)
claim_first (name ∷ names) c files =
    (record files { claims = with_claim name c files.claims }, some name)

unfoldable pub claim_pool_container :
    (existing : List String) → Claim → PoolFiles → PoolFiles × Option String
claim_pool_container existing c files = claim_first (list_available_pool existing files) c files

unfoldable pub release_pool_container : String → PoolFiles → PoolFiles
release_pool_container name files = record files { claims = remove name files.claims }

unfoldable pub mark_for_cleanup : String → PoolFiles → PoolFiles
mark_for_cleanup name files =
    if contains files.cleanup name
    then files
    else record files { cleanup = files.cleanup ++ name ∷ [] }

pool_names_test : pool_name 8 ≡ "ampa-pool-8"
unfolding pool_name
pool_names_test = refl
