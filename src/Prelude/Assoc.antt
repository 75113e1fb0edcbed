-- ===== src/Prelude/Assoc.antt =====
-- A Python dict with text keys, in insertion order: a write to a key that is there keeps its place.
use Prim.Native.String.{String}
use mathlib.Core.Path.{◌≡◌, refl}
use mathlib.Core.Bool.{Bool, true, false}
use mathlib.Core.List.{List, [], ◌∷◌, map}
use mathlib.Core.Option.{Option, none, some}
use native.Mathlib.Omega.{arith}
use text.Mathlib.Text.{◌==◌ as str_eq}
use text.Mathlib.TextEquality.{eq_iff}
use ampa.Prelude.Tests.{if◌then◌else◌}

abbrev pub Dict {ℓ} : Type ℓ → Type ℓ
Dict V = List (String × V)

module _ {ℓ} {V : Type ℓ} where
  unfoldable pub lookup : String → Dict V → Option V
  lookup k [] = none
  lookup k ((j, v) ∷ m) = if str_eq j k then some v else lookup k m

  unfoldable pub insert : String → V → Dict V → Dict V
  insert k v [] = (k, v) ∷ []
  insert k v ((j, w) ∷ m) = if str_eq j k then (j, v) ∷ m else (j, w) ∷ insert k v m

  -- `d.pop(k, None)`
  unfoldable pub remove : String → Dict V → Dict V
  remove k [] = []
  remove k ((j, w) ∷ m) = let rest = remove k m in if str_eq j k then rest else (j, w) ∷ rest

  abbrev is_there : Option V → Bool
  is_there none = false
  is_there (some _) = true

  -- `k in d`
  unfoldable pub has : String → Dict V → Bool
  unfolding lookup
  has k m = is_there (lookup k m)

  abbrev pub values : Dict V → List V
  values m = map (λ e. e.1) m

  pub lookup-insert :
      (written read : String) (v : V) (m : Dict V)
      → lookup read (insert written v m) ≡ (if str_eq written read then some v else lookup read m)
  unfolding lookup insert
  lookup-insert written read v [] = refl
  lookup-insert written read v ((key, w) ∷ m) =
      let tail = lookup-insert written read v m in
      ground (arith, tail, eq_iff key written, eq_iff key read, eq_iff written read)

  pub lookup-remove :
      (k j : String) (m : Dict V)
      → lookup j (remove k m) ≡ (if str_eq k j then none else lookup j m)
  unfolding lookup remove
  lookup-remove k j [] = ground arith
  lookup-remove k j ((i, w) ∷ m) =
      ground (arith, eq_iff k j, eq_iff i k, eq_iff i j, lookup-remove k j m)

pub ruleset dict_laws = (lookup-insert, lookup-remove)
