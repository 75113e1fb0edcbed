-- ===== src/Value.antt =====
-- The values of Python that JSON gives, as far as the program looks at them: their truth, their
-- text, their type and their members.
mod Repr
use ampa.Prelude.{
  ℕ, String, Bool, true, false, ◌||◌, List, [], ◌∷◌, Option, none, some, Result, ok, raise,
  attribute_error, if◌then◌else◌, str_eq, ◌==◌, nonempty, ◌≡◌, refl, arith, not,
}
use Repr.{
  Value, Items, Fields, null, bool, int, number, str, list, dict, nil, cons, end, field, repr,
}
pub use Repr.{Value, Items, Fields, null, bool, int, number, str, list, dict, nil, cons, end, field}

-- `bool(v)`
abbrev pub truthy : Value → Bool
truthy null = false
truthy (bool b) = b
truthy (int n) = not (n == 0)
truthy (number t) = true
truthy (str s) = nonempty s
truthy (list nil) = false
truthy (list (cons x xs)) = true
truthy (dict end) = false
truthy (dict (field k v fs)) = true

-- `a or b`
infixr 30 ◌or◌
abbrev pub ◌or◌ : Value → Value → Value
a or b = if truthy a then a else b

-- `str(v)`
unfoldable pub str_of : Value → String
unfolding repr
str_of (str s) = s
str_of v = repr v

-- `d.get(k)` and `d.get(k, default)` on a dict
unfoldable pub get_default : Fields → String → Value → Value
get_default end k d = d
get_default (field j v fs) k d = if str_eq j k then v else get_default fs k d

abbrev pub get : Fields → String → Value
get fs k = get_default fs k null

-- A method of a dict is called on a value: any other value has no `get`.
abbrev pub as_dict : Value → Result Fields
as_dict (dict fs) = ok fs
as_dict _ = raise attribute_error

abbrev pub items_to_list : Items → List Value
items_to_list nil = []
items_to_list (cons x xs) = x ∷ items_to_list xs

str_of_test :
    str_of (list (cons (str "a'b") (cons (int 12) (cons (bool true) nil)))) ≡ "[\"a'b\", 12, True]"
unfolding str_of
str_of_test = refl
