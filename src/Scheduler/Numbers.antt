-- ===== src/Scheduler/Numbers.antt =====
-- The floating-point numbers of the scheduler, and the order of Python's texts.
use Prim.Native.Char.{code}
use ampa.Prelude.{
  ℕ, String, Bool, true, false, not, ◌&&◌, ◌≡◌, refl, arith, ltb, ◌==◌, if◌then◌else◌, ℤ, pos, ◌⊎◌,
  inl, inr,
}

-- `float` with its operators, `lt` for `<`, `le` for `<=` and `eq` for `==`. `seconds` is `total_seconds` of a time
-- in microseconds, and `timestamp` that of a moment.
pub record Floats : Type 1 where
  pub Float : Type 0
  pub of_ℤ : ℤ → Float
  pub add : Float → Float → Float
  pub minus : Float → Float → Float
  pub times : Float → Float → Float
  pub over : Float → Float → Float
  pub lt : Float → Float → Bool
  pub le : Float → Float → Bool
  pub eq : Float → Float → Bool
  pub seconds : ℤ → Float
  pub timestamp : ℕ → Float

-- What holds of floats that are not NaN: the order is total up to `eq`, 0 < 1, and the signs of
-- quotients and products.
pub record Laws (num : Floats) : Type 0 where
  pub asym : (a b : num.Float) → num.lt a b ≡ true → num.lt b a ≡ false
  pub cotrans : (a b c : num.Float) → num.lt a c ≡ true → (num.lt a b ≡ true) ⊎ (num.lt b c ≡ true)
  pub le_lem : (a b : num.Float) → num.le a b ≡ not (num.lt b a)
  pub eq_lem : (a b : num.Float) → num.eq a b ≡ (not (num.lt a b) && not (num.lt b a))
  pub zero_lt_one : num.lt (num.of_ℤ (pos 0)) (num.of_ℤ (pos 1)) ≡ true
  pub over_sign :
      (a b : num.Float)
      → num.lt (num.of_ℤ (pos 0)) b ≡ true
      → num.lt (num.of_ℤ (pos 0)) (num.over a b) ≡ true
      → num.lt (num.of_ℤ (pos 0)) a ≡ true
  pub times_zero :
      (a b : num.Float)
      → num.lt (num.of_ℤ (pos 0)) a ≡ false
      → num.lt a (num.of_ℤ (pos 0)) ≡ false
      → num.lt (num.of_ℤ (pos 0)) (num.times a b) ≡ false

-- `max(a, b)`: the first of the two, unless the second is greater.
abbrev pub max_of : (num : Floats) → num.Float → num.Float → num.Float
max_of num a b = if num.lt a b then b else a

-- `s < t` on texts, by code points
unfoldable pub text_lt : String → String → Bool
text_lt s String.[] = false
text_lt String.[] (String.◌∷◌ d t) = true
text_lt (String.◌∷◌ c s) (String.◌∷◌ d t) =
    let rest = text_lt s t in
    if ltb (code c) (code d) then true else if code c == code d then rest else false

pub text_lt_asym : (s t : String) → text_lt s t ≡ true → text_lt t s ≡ false
unfolding text_lt
text_lt_asym s String.[] h = absurd (ground arith)
text_lt_asym String.[] (String.◌∷◌ d t) h = refl
text_lt_asym (String.◌∷◌ c s) (String.◌∷◌ d t) h = ground (arith, text_lt_asym s t)

pub text_lt_cotrans :
    (r s t : String) → text_lt r t ≡ true → (text_lt r s ≡ true) ⊎ (text_lt s t ≡ true)
unfolding text_lt
text_lt_cotrans r s String.[] h = absurd (ground arith)
text_lt_cotrans String.[] String.[] (String.◌∷◌ d t) h = inr refl
text_lt_cotrans String.[] (String.◌∷◌ c s) (String.◌∷◌ d t) h = inl refl
text_lt_cotrans (String.◌∷◌ b r) String.[] (String.◌∷◌ d t) h = inr refl
text_lt_cotrans (String.◌∷◌ b r) (String.◌∷◌ c s) (String.◌∷◌ d t) h =
    ground (arith, text_lt_cotrans r s t)
