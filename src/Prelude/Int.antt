-- ===== src/Prelude/Int.antt =====
-- Integers, compared with natural numbers.
use Prim.Native.Nat.{ℕ, compare, Ordering}
use mathlib.Core.Bool.{Bool, true, false}

-- `negsuc n` is -(n + 1).
pub data ℤ : Type 0 where
  pos : ℕ → ℤ
  negsuc : ℕ → ℤ

abbrev pub compare_ℤ : ℤ → ℕ → Ordering
compare_ℤ (pos a) b = compare a b
compare_ℤ (negsuc a) b = Ordering.lt

-- The comparisons of Python.
abbrev pub gt_ℤ : ℤ → ℕ → Bool
gt_ℤ a b = elim (compare_ℤ a b) [ Ordering.gt ↦ true | _ ↦ false ]

abbrev pub ge_ℤ : ℤ → ℕ → Bool
ge_ℤ a b = elim (compare_ℤ a b) [ Ordering.lt ↦ false | _ ↦ true ]

abbrev pub lt_ℤ : ℤ → ℕ → Bool
lt_ℤ a b = elim (compare_ℤ a b) [ Ordering.lt ↦ true | _ ↦ false ]

abbrev pub le_ℤ : ℤ → ℕ → Bool
le_ℤ a b = elim (compare_ℤ a b) [ Ordering.gt ↦ false | _ ↦ true ]

abbrev pub eq_ℤ : ℤ → ℕ → Bool
eq_ℤ a b = elim (compare_ℤ a b) [ Ordering.eq ↦ true | _ ↦ false ]
