-- ===== src/Value/Repr.antt =====
-- The data type of values, and `repr`.
use Prim.Native.Char.{Char, code}
use Prim.Native.String.{[], ◌∷◌, ◌++◌}
use ampa.Prelude.{ℕ, String, Bool, true, false, ◌||◌, ◌&&◌, not, if◌then◌else◌, ◌==◌}
use ampa.Text.{show_ℕ}

-- `int n` is a natural number; any other number, negative or fractional, is kept as its text. A
-- float equal to a natural number (`1.0`) is not distinguished from it.
mutual
  pub data Value : Type 0 where
    null : Value
    bool : Bool → Value
    int : ℕ → Value
    number : String → Value
    str : String → Value
    list : Items → Value
    dict : Fields → Value

  pub data Items : Type 0 where
    nil : Items
    cons : Value → Items → Items

  pub data Fields : Type 0 where
    end : Fields
    field : String → Value → Fields → Fields

abbrev has_char : ℕ → String → Bool
has_char n [] = false
has_char n (c ∷ s) = code c == n || has_char n s

-- One character of a quoted text, for printable ASCII, newline, carriage return and tab.
abbrev escape : Bool → Char → String
escape single c =
    if code c == 92
    then "\\\\"
    else if code c == 10
    then "\\n"
    else if code c == 13
    then "\\r"
    else if code c == 9
    then "\\t"
    else if code c == 39 && single
    then "\\'"
    else c ∷ []

abbrev escape_all : Bool → String → String
escape_all single [] = []
escape_all single (c ∷ s) = escape single c ++ escape_all single s

-- `repr` of a text: single quotes, unless it holds one and no double quote.
repr_str : String → String
repr_str s =
    if has_char 39 s && not (has_char 34 s)
    then "\"" ++ (escape_all false s ++ "\"")
    else "'" ++ (escape_all true s ++ "'")

abbrev comma : String → String
comma [] = []
comma s = ", " ++ s

unfoldable mutual
  unfolding show_ℕ repr_str

  pub repr : Value → String
  repr null = "None"
  repr (bool true) = "True"
  repr (bool false) = "False"
  repr (int n) = show_ℕ n
  repr (number t) = t
  repr (str s) = repr_str s
  repr (list xs) = "[" ++ (repr_items xs ++ "]")
  repr (dict fs) = "{" ++ (repr_fields fs ++ "}")

  repr_items : Items → String
  repr_items nil = ""
  repr_items (cons x xs) = repr x ++ comma (repr_items xs)

  repr_fields : Fields → String
  repr_fields end = ""
  repr_fields (field k v fs) = repr_str k ++ (": " ++ (repr v ++ comma (repr_fields fs)))
