-- ===== src/Fallback/Modes.antt =====
-- The modes that `normalize_mode` gives.
use mathlib.Core.List.{Memᴰ}
use ampa.Prelude.{
  String, Bool, true, false, List, [], ◌∷◌, ◌≡◌, refl, sym, arith, contains, Bool-cases, inl, inr,
  str_eq, eq_iff, lookup, if◌then◌else◌,
}
use ampa.Text.{lower, strip}
use ampa.Value.{Value, str, truthy, str_of}
use ampa.Fallback.{valid_modes, normalize_mode, if_valid, or_hold, aliases}

Memᴰ-of_contains : (xs : List String) (x : String) → contains xs x ≡ true → Memᴰ x xs
Memᴰ-of_contains [] x h = absurd (ground arith)
Memᴰ-of_contains (y ∷ ys) x h = elim (Bool-cases (str_eq y x)) [
  | inl same ↦ Memᴰ.head (sym ((eq_iff y x).0 same))
  | inr other ↦ Memᴰ.tail (Memᴰ-of_contains ys x (rw other at h))
]

if_valid-valid : (mode : String) → contains valid_modes (if_valid mode) ≡ true
if_valid-valid mode = elim (Bool-cases (contains valid_modes mode)) [
  | inl valid ↦ rw valid valid
  | inr other ↦ rw other refl
]

if_given :
    (given : Bool) (mode : String)
    → contains valid_modes (if given then if_valid mode else "hold") ≡ true
if_given true mode = if_valid-valid mode
if_given false mode = refl

-- Whatever value a configuration, an environment variable or a caller gives, the normalized mode is
-- one of the five valid ones.
normalize_mode-valid : (value : Value) → contains valid_modes (normalize_mode value) ≡ true
unfolding normalize_mode
normalize_mode-valid value =
    if_given (truthy value) (or_hold (lookup (lower (strip (str_of value))) aliases))

kept : (mode : String) → Memᴰ mode valid_modes → normalize_mode (str mode) ≡ mode
unfolding normalize_mode lookup strip lower str_of
kept mode (Memᴰ.head e) = rw e refl
kept mode (Memᴰ.tail (Memᴰ.head e)) = rw e refl
kept mode (Memᴰ.tail (Memᴰ.tail (Memᴰ.head e))) = rw e refl
kept mode (Memᴰ.tail (Memᴰ.tail (Memᴰ.tail (Memᴰ.head e)))) = rw e refl
kept mode (Memᴰ.tail (Memᴰ.tail (Memᴰ.tail (Memᴰ.tail (Memᴰ.head e))))) = rw e refl
kept mode (Memᴰ.tail (Memᴰ.tail (Memᴰ.tail (Memᴰ.tail (Memᴰ.tail m))))) = elim m [ ]

-- A mode that is normalized stays as it is.
pub normalize_mode_twice :
    (value : Value) → normalize_mode (str (normalize_mode value)) ≡ normalize_mode value
normalize_mode_twice value =
    kept (normalize_mode value)
      (Memᴰ-of_contains valid_modes (normalize_mode value) (normalize_mode-valid value))
