-- ===== src/Text/Find.antt =====
-- Texts taken apart at a mark: `find` with the slices around it, `replace` and `splitlines`.
use Prim.Native.Char.{Char, code}
use Prim.Native.String.{◌++◌}
use ampa.Prelude.{
  ℕ, zero, suc, ◌-◌, String, Bool, false, ◌&&◌, ◌||◌, ◌==◌, leb, if◌then◌else◌, List, [], ◌∷◌,
  Option, none, some, ◌≡◌, refl,
}
use ampa.Text.{starts_with, str_len}

unfoldable pub str_drop : ℕ → String → String
str_drop zero s = s
str_drop (suc n) String.[] = String.[]
str_drop (suc n) (String.◌∷◌ c s) = str_drop n s

abbrev after_char : Char → Option (String × String) → Option (String × String)
after_char c none = none
after_char c (some (before, after)) = some (String.◌∷◌ c before, after)

-- The texts before and after the first place where the mark stands, at `s.find(mark)`.
unfoldable pub split_at : (mark s : String) → Option (String × String)
unfolding str_drop
split_at mark String.[] = if starts_with String.[] mark then some (String.[], String.[]) else none
split_at mark (String.◌∷◌ c s) =
    let later = split_at mark s in
    if starts_with (String.◌∷◌ c s) mark
    then some (String.[], str_drop (str_len mark) (String.◌∷◌ c s))
    else after_char c later

-- `s.replace(old, new)` for an `old` that is not empty. `skip` counts the characters of an
-- occurrence that are still to be passed over.
replace_loop : (old new : String) → (skip : ℕ) → String → String
replace_loop old new skip String.[] = String.[]
replace_loop old new (suc skip) (String.◌∷◌ c s) = replace_loop old new skip s
replace_loop old new zero (String.◌∷◌ c s) =
    let found = new ++ replace_loop old new (str_len old - 1) s in
    let kept = String.◌∷◌ c (replace_loop old new 0 s) in
    if starts_with (String.◌∷◌ c s) old then found else kept

unfoldable pub replace : (old new s : String) → String
unfolding replace_loop
replace old new s = replace_loop old new 0 s

-- `s.splitlines()` for ASCII texts: `line` is what is read of a line, with a mark that it has
-- begun, and `cr` says that a carriage return has just ended one.
abbrev ends_line : ℕ → Bool
ends_line n = (leb 10 n && leb n 13) || (leb 28 n && leb n 30)

abbrev last_line : Option String → List String
last_line none = []
last_line (some line) = line ∷ []

abbrev so_far : Option String → String
so_far none = ""
so_far (some line) = line

lines_from : Option String → (cr : Bool) → String → List String
lines_from line cr String.[] = last_line line
lines_from line cr (String.◌∷◌ c s) =
    let same = lines_from none false s in
    let ended = so_far line ∷ lines_from none (code c == 13) s in
    let longer = lines_from (some (so_far line ++ String.◌∷◌ c String.[])) false s in
    if cr && code c == 10 then same else if ends_line (code c) then ended else longer

unfoldable pub splitlines : String → List String
unfolding lines_from
splitlines s = lines_from none false s

find_test : split_at "--" "ab--c--d" ≡ some ("ab", "c--d")
unfolding split_at starts_with
find_test = refl

replace_test : replace "${t}" "x" "a ${t}${t}b$" ≡ "a xxb$"
unfolding replace starts_with
replace_test = refl

splitlines_test : splitlines "a\r\n\nb\n" ≡ "a" ∷ "" ∷ "b" ∷ []
unfolding splitlines
splitlines_test = refl
