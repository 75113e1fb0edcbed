-- ===== src/Prelude/Sort.antt =====
-- Python's stable sort, and its first element: an element stands before another one that it does not
-- follow, and elements of equal keys keep their order.
use mathlib.Core.Path.{◌≡◌, refl, ap, ◌∙◌, subst}
use mathlib.Core.Logic.{◌⊎◌, inl, inr}
use mathlib.Core.Bool.{Bool, true, false}
use mathlib.Core.List.{List, [], ◌∷◌, Memᴰ}
use mathlib.Core.Option.{Option, none, some}
use native.Mathlib.Omega.{arith}
use ampa.Prelude.Tests.{if◌then◌else◌, Bool-cases, some_inj}

abbrev pub first {ℓ} : {A : Type ℓ} → List A → Option A
first [] = none
first (x ∷ xs) = some x

module _ {A : Type 0} (before : A → A → Bool) where
  unfoldable pub place : A → List A → List A
  place x [] = x ∷ []
  place x (y ∷ ys) = let rest = place x ys in if before y x then y ∷ rest else x ∷ y ∷ ys

  unfoldable pub sort_by : List A → List A
  unfolding place
  sort_by [] = []
  sort_by (x ∷ xs) = place x (sort_by xs)

  -- One scan: the first element that no other stands before.
  abbrev better : A → Option A → A
  better x none = x
  better x (some y) = if before y x then y else x

  abbrev pub best : List A → Option A
  best [] = none
  best (x ∷ xs) = some (better x (best xs))

  first-place : (x : A) (xs : List A) → first (place x xs) ≡ some (better x (first xs))
  unfolding place
  first-place x [] = refl
  first-place x (y ∷ ys) = elim (Bool-cases (before y x)) [
    | inl yes_before ↦ rw yes_before refl
    | inr not_before ↦ rw not_before refl
  ]

  pub first-sort : (xs : List A) → first (sort_by xs) ≡ best xs
  unfolding sort_by
  first-sort [] = refl
  first-sort (x ∷ xs) = first-place x (sort_by xs) ∙ ap (λ o. some (better x o)) (first-sort xs)

  pub best_there : {x : A} {xs : List A} → Memᴰ x xs → (b : A) × (best xs ≡ some b)
  best_there {xs = y ∷ ys} m = (_, refl)
  best_there {xs = []} m = elim m [ ]

  -- An element of the list that none stands before.
  abbrev pub IsBest : A → List A → Type 0
  IsBest b xs = Memᴰ b xs × ((x : A) → Memᴰ x xs → before x b ≡ false)

  module _ (asym : (a b : A) → before a b ≡ true → before b a ≡ false)
      (cotrans : (a b c : A) → before a c ≡ true → (before a b ≡ true) ⊎ (before b c ≡ true)) where
    irrefl : (a : A) → before a a ≡ false
    irrefl a = ground (arith, asym a a)

    better-IsBest :
        (x m : A) (xs : List A) → IsBest m xs → IsBest (if before m x then m else x) (x ∷ xs)
    better-IsBest x m xs (there, above) = elim (Bool-cases (before m x)) [
      | inl less ↦ rw less (Memᴰ.tail there, λ z i. keeps less z i)
      | inr not_less ↦ rw not_less (Memᴰ.head refl, λ z i. wins not_less z i)
    ]
      where
        keeps : before m x ≡ true → (z : A) → Memᴰ z (x ∷ xs) → before z m ≡ false
        keeps less z (Memᴰ.head e) = rw e (asym m x less)
        keeps less z (Memᴰ.tail i) = above z i

        wins : before m x ≡ false → (z : A) → Memᴰ z (x ∷ xs) → before z x ≡ false
        wins not_less z (Memᴰ.head e) = rw e (irrefl x)
        wins not_less z (Memᴰ.tail i) = ground (arith, cotrans z m x, above z i, not_less)

    pub best-IsBest : (xs : List A) (b : A) → best xs ≡ some b → IsBest b xs
    best-IsBest [] b h = absurd (cc)
    best-IsBest (x ∷ []) b h =
        subst (λ (c : A). IsBest c (x ∷ [])) (some_inj h) (Memᴰ.head refl, alone)
      where
        alone : (z : A) → Memᴰ z (x ∷ []) → before z x ≡ false
        alone z (Memᴰ.head e) = rw e (irrefl x)
        alone z (Memᴰ.tail i) = elim i [ ]
    best-IsBest (x ∷ y ∷ ys) b h =
        subst (λ (c : A). IsBest c (x ∷ y ∷ ys)) (some_inj h)
          (better-IsBest x _ (y ∷ ys) (best-IsBest (y ∷ ys) _ refl))
