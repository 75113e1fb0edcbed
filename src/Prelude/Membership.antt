-- ===== src/Prelude/Membership.antt =====
-- Membership in a list that is filtered or mapped.
use mathlib.Core.Path.{◌≡◌, refl, sym, ap, subst}
use mathlib.Core.Logic.{inl, inr}
use mathlib.Core.Bool.{Bool, true}
use mathlib.Core.List.{List, [], ◌∷◌, map, Memᴰ}
use ampa.Prelude.Tests.{Bool-cases}
use ampa.Prelude.Lists.{keep}

module _ {A : Type 0} (p : A → Bool) where
  pub Memᴰ-of_keep : (xs : List A) {x : A} → Memᴰ x (keep p xs) → Memᴰ x xs × (p x ≡ true)
  Memᴰ-of_keep [] m = elim m [ ]
  Memᴰ-of_keep (y ∷ ys) m = elim (Bool-cases (p y)) [
    | inl kept ↦ go (λ t. Memᴰ-of_keep ys t) kept (subst (Memᴰ _) (rw kept refl) m)
    | inr dropped ↦
        let (there, q) = Memᴰ-of_keep ys (subst (Memᴰ _) (rw dropped refl) m) in
        (Memᴰ.tail there, q)
  ]
    where
      go :
          {x : A}
          → (Memᴰ x (keep p ys) → Memᴰ x ys × (p x ≡ true))
          → p y ≡ true
          → Memᴰ x (y ∷ keep p ys)
          → Memᴰ x (y ∷ ys) × (p x ≡ true)
      go later kept (Memᴰ.head e) = (Memᴰ.head e, subst (λ z. p z ≡ true) (sym e) kept)
      go later kept (Memᴰ.tail there) = let (m, q) = later there in (Memᴰ.tail m, q)

  pub Memᴰ-keep : {x : A} {xs : List A} → Memᴰ x xs → p x ≡ true → Memᴰ x (keep p xs)
  Memᴰ-keep {x} (Memᴰ.head {x = y} e) h = rw (subst (λ z. p z ≡ true) e h) (Memᴰ.head e)
  Memᴰ-keep (Memᴰ.tail {x = y} m) h = elim (Bool-cases (p y)) [
    | inl kept ↦ rw kept (Memᴰ.tail (Memᴰ-keep m h))
    | inr dropped ↦ rw dropped (Memᴰ-keep m h)
  ]

pub Memᴰ-map : {A B : Type 0} (f : A → B) {x : A} {xs : List A} → Memᴰ x xs → Memᴰ (f x) (map f xs)
Memᴰ-map f (Memᴰ.head e) = Memᴰ.head (ap f e)
Memᴰ-map f (Memᴰ.tail m) = Memᴰ.tail (Memᴰ-map f m)

pub Memᴰ-of_map :
    {A B : Type 0} (f : A → B) (xs : List A) {y : B}
    → Memᴰ y (map f xs)
    → (x : A) × Memᴰ x xs × (y ≡ f x)
Memᴰ-of_map f [] m = elim m [ ]
Memᴰ-of_map f (x ∷ xs) (Memᴰ.head e) = (x, Memᴰ.head refl, e)
Memᴰ-of_map f (x ∷ xs) (Memᴰ.tail m) =
    let (z, there, e) = Memᴰ-of_map f xs m in (z, Memᴰ.tail there, e)
