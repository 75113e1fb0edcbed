-- ===== src/Engine/Expressions.antt =====
-- src/ampa/engine/invariants.py: the fields that expressions speak of, and the value of each kind of
-- expression that has no connective.
use Prim.Native.Char.{Char, code}
use text.Mathlib.Text.{find?}
use ampa.Prelude.{
  and_then, ℕ, String, Bool, true, false, ◌&&◌, not, List, [], ◌∷◌, Option, none, some, Result, ok,
  raise, type_error, if◌then◌else◌, str_eq, contains, ltb, leb, ◌==◌, ℤ, eq_ℤ, gt_ℤ, ge_ℤ, lt_ℤ,
  le_ℤ, any,
}
use ampa.Text.{str_len, join}
use ampa.Value.{
  Value, Fields, str, list, dict, nil, end, field, truthy, ◌or◌, str_of, get_default, as_dict,
  items_to_list,
}
use ampa.Engine.World.{Re}

-- `for c in value`: a dict gives its keys, a text its characters.
abbrev keys : Fields → List Value
keys end = []
keys (field k v fs) = str k ∷ keys fs

abbrev characters : String → List Value
characters String.[] = []
characters (String.◌∷◌ c s) = str (String.◌∷◌ c String.[]) ∷ characters s

abbrev pub iterate : Value → Result (List Value)
iterate (list xs) = ok (items_to_list xs)
iterate (dict fs) = ok (keys fs)
iterate (str s) = ok (characters s)
iterate _ = raise type_error

-- The texts of the comments; joining anything but texts raises.
abbrev as_text : Value → Result String
as_text (str s) = ok s
as_text _ = raise type_error

abbrev comment_value : Fields → Value
comment_value c =
    get_default c "comment" (str "")
    or get_default c "body" (str "")
    or get_default c "text" (str "")

unfoldable pub comment_parts : List Value → Result (List Value)
comment_parts [] = ok []
comment_parts (c ∷ cs) =
    let rest = comment_parts cs in
    and_then (as_dict c) (λ fs.
      and_then rest
        (λ parts. let text = comment_value fs in ok (if truthy text then text ∷ parts else parts)))

unfoldable pub all_texts : List Value → Result (List String)
all_texts [] = ok []
all_texts (v ∷ vs) =
    let rest = all_texts vs in and_then (as_text v) (λ t. and_then rest (λ ts. ok (t ∷ ts)))

unfoldable pub extract_work_item_fields : Fields → Result Fields
unfolding comment_parts all_texts
extract_work_item_fields work_item =
    and_then (as_dict (get_default work_item "workItem" (dict work_item))) (λ wi.
      and_then (iterate (get_default work_item "comments" (list nil) or list nil)) (λ comments.
        and_then (comment_parts comments) (λ parts. and_then (all_texts parts) (λ texts. ok (
          field "description" (get_default wi "description" (str "")) (
            field "comments_text" (str (join "\n" texts)) (
              field "tags" (get_default wi "tags" (list nil) or list nil) (
                field "status" (get_default wi "status" (str "")) (
                  field "stage" (get_default wi "stage" (str "")) (
                    field "assignee" (get_default wi "assignee" (str "")) (
                      field "title" (get_default wi "title" (str "")) (
                        field "priority" (get_default wi "priority" (str ""))
                          (field "raw" (dict wi) end)))))))))))))

abbrev pub field_text : Fields → String → String
field_text fields name = str_of (get_default fields name (str ""))

unfoldable pub eval_length : Fields → (field_name op : String) → ℕ → Bool
eval_length fields field_name op value =
    let length = str_len (field_text fields field_name) in
    if str_eq op ">"
    then ltb value length
    else if str_eq op ">="
    then leb value length
    else if str_eq op "<"
    then ltb length value
    else if str_eq op "<="
    then leb length value
    else if str_eq op "=="
    then length == value
    else false

abbrev pub is_backslash : Char → Bool
is_backslash c = code c == 92

-- `_unescape_regex`: of two backslashes in a row the second is passed over.
unfoldable pub unescape_regex : String → String
unescape_regex String.[] = String.[]
unescape_regex (String.◌∷◌ c String.[]) = String.◌∷◌ c String.[]
unescape_regex (String.◌∷◌ c (String.◌∷◌ d s)) =
    let skipped = unescape_regex s in
    let next = unescape_regex (String.◌∷◌ d s) in
    if is_backslash c && is_backslash d then String.◌∷◌ c skipped else String.◌∷◌ c next

abbrev ok_or_false : Result Bool → Bool
ok_or_false (ok b) = b
ok_or_false (raise e) = false

unfoldable pub eval_regex : Re → Fields → (field_name pattern : String) → Bool
eval_regex re fields field_name pattern =
    let text =
      if str_eq field_name "comments"
      then field_text fields "comments_text"
      else field_text fields field_name in
    ok_or_false (re.search (unescape_regex pattern) text)

unfoldable pub eval_membership : Fields → String → List String → Bool
eval_membership fields field_name allowed = contains allowed (field_text fields field_name)

abbrev is_str : String → Value → Bool
is_str t (str s) = str_eq s t
is_str t _ = false

abbrev is_found : Option ℕ → Bool
is_found none = false
is_found (some i) = true

-- `value in container`: an element of a list, a part of a text, a key of a dict.
abbrev pub value_in : String → Value → Result Bool
value_in t (list xs) = ok (any (is_str t) (items_to_list xs))
value_in t (str s) = ok (is_found (find? s t))
value_in t (dict fs) = ok (any (is_str t) (keys fs))
value_in t _ = raise type_error

unfoldable pub eval_not_in_tags : Fields → String → Result Bool
eval_not_in_tags fields t =
    and_then (value_in t (get_default fields "tags" (list nil))) (λ b. ok (not b))

unfoldable pub eval_count : ℤ → String → ℕ → Bool
eval_count count op value =
    if str_eq op "=="
    then eq_ℤ count value
    else if str_eq op ">"
    then gt_ℤ count value
    else if str_eq op ">="
    then ge_ℤ count value
    else if str_eq op "<"
    then lt_ℤ count value
    else if str_eq op "<="
    then le_ℤ count value
    else if str_eq op "!="
    then not (eq_ℤ count value)
    else false
