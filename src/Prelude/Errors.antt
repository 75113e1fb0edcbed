-- ===== src/Prelude/Errors.antt =====
-- Python exceptions as values.
use Prim.Native.String.{String}
use mathlib.Core.Path.{◌≡◌, refl}
use mathlib.Core.List.{List, [], ◌∷◌}

-- `key_error` carries the name that was looked up; `external` is any exception of a service that
-- the program calls.
pub data Exn : Type 0 where
  key_error : String → Exn
  attribute_error type_error value_error : Exn
  external : String → Exn

pub data Result {ℓ} (A : Type ℓ) : Type ℓ where
  ok : A → Result A
  raise : Exn → Result A

-- What follows an expression is skipped once the expression has raised.
abbrev pub and_then {ℓ κ} : {A : Type ℓ} {B : Type κ} → Result A → (A → Result B) → Result B
and_then (raise e) rest = raise e
and_then (ok value) rest = rest value

-- Both halves have returned where the whole has.
pub and_then-eq-ok {ℓ κ} :
    {A : Type ℓ} {B : Type κ} (rest : A → Result B) (first : Result A) {all : B}
    → and_then first rest ≡ ok all
    → (value : A) × (rest value ≡ ok all) × (first ≡ ok value)
and_then-eq-ok rest (raise e) returned = absurd (cc)
and_then-eq-ok rest (ok value) returned = (value, returned, refl)

-- A comprehension whose body may raise.
abbrev pub traverse {ℓ κ} : {A : Type ℓ} {B : Type κ} → (A → Result B) → List A → Result (List B)
traverse f [] = ok []
traverse f (x ∷ xs) =
    let rest = traverse f xs in and_then (f x) (λ y. and_then rest (λ ys. ok (y ∷ ys)))
