-- ===== src/Text.antt =====
-- What the program uses of Python's text methods: strip, lower, split and the decimal print, for
-- texts whose letters and spaces are ASCII.
pub mod Find
use Prim.Native.Char.{Char, code}
use Prim.Native.String.{char_at, ◌++◌}
use ampa.Prelude.{
  ℕ, zero, suc, ◌+◌, ◌-◌, ◌*◌, ◌≤◌, arith, ◌/◌, ◌%◌, String, Bool, true, false, ◌&&◌, ◌||◌, leb,
  ltb, ◌==◌, if◌then◌else◌, ◌≡◌, refl, List, [], ◌∷◌, Option, none, some, Dict, lookup, Result, ok,
  raise, key_error, value_error,
}

-- The ASCII characters that `str.isspace` accepts: tab to carriage return, the four separators
-- and the space.
abbrev pub is_space : Char → Bool
is_space c = (leb 9 (code c) && leb (code c) 13) || (leb 28 (code c) && leb (code c) 32)

abbrev pub lower_char : Char → Char
lower_char c =
    if leb b'A' (code c) && leb (code c) b'Z'
    then char_at "abcdefghijklmnopqrstuvwxyz" (code c - b'A')
    else c

unfoldable pub lower : String → String
lower String.[] = String.[]
lower (String.◌∷◌ c s) = String.◌∷◌ (lower_char c) (lower s)

unfoldable pub lstrip : String → String
lstrip String.[] = String.[]
lstrip (String.◌∷◌ c s) = let rest = lstrip s in if is_space c then rest else String.◌∷◌ c s

abbrev pub cons_unless_blank : Char → String → String
cons_unless_blank c String.[] = if is_space c then String.[] else String.◌∷◌ c String.[]
cons_unless_blank c (String.◌∷◌ d s) = String.◌∷◌ c (String.◌∷◌ d s)

unfoldable pub rstrip : String → String
rstrip String.[] = String.[]
rstrip (String.◌∷◌ c s) = cons_unless_blank c (rstrip s)

unfoldable pub strip : String → String
unfolding lstrip rstrip
strip s = rstrip (lstrip s)

-- `s.split(sep)` for a separator of one character: what is read so far, and the rest.
pub split_from : Char → String → String → List String
split_from sep part String.[] = part ∷ []
split_from sep part (String.◌∷◌ c s) =
    let later = split_from sep String.[] s in
    let longer = split_from sep (part ++ (String.◌∷◌ c String.[])) s in
    if code c == code sep then part ∷ later else longer

unfoldable pub split : Char → String → List String
unfolding split_from
split sep s = split_from sep String.[] s

abbrev digit : ℕ → Char
digit n = char_at "0123456789" (n % 10)

-- The digits of `n` in front of a text; `n` digits of room are enough.
pub show_from : ℕ → ℕ → String → String
show_from zero n acc = acc
show_from (suc fuel) n acc =
    let rest = show_from fuel (n / 10) (String.◌∷◌ (digit n) acc) in
    if ltb n 10 then String.◌∷◌ (digit n) acc else rest

-- `str(n)`
unfoldable pub show_ℕ : ℕ → String
unfolding show_from
show_ℕ n = show_from (suc n) n String.[]

-- `len(s)`, in characters
abbrev pub str_len : String → ℕ
str_len String.[] = 0
str_len (String.◌∷◌ c s) = suc (str_len s)

-- `s.startswith(p)`, and `p in s`
unfoldable pub starts_with : String → String → Bool
starts_with s String.[] = true
starts_with String.[] (String.◌∷◌ d p) = false
starts_with (String.◌∷◌ c s) (String.◌∷◌ d p) = code c == code d && starts_with s p

unfoldable pub has_text : String → String → Bool
unfolding starts_with
has_text String.[] p = starts_with String.[] p
has_text (String.◌∷◌ c s) p = starts_with (String.◌∷◌ c s) p || has_text s p

-- `s.strip(c)` for one character
pub lstrip_char : ℕ → String → String
lstrip_char n String.[] = String.[]
lstrip_char n (String.◌∷◌ c s) =
    let rest = lstrip_char n s in if code c == n then rest else String.◌∷◌ c s

abbrev cons_unless : ℕ → Char → String → String
cons_unless n c String.[] = if code c == n then String.[] else String.◌∷◌ c String.[]
cons_unless n c (String.◌∷◌ d s) = String.◌∷◌ c (String.◌∷◌ d s)

pub rstrip_char : ℕ → String → String
rstrip_char n String.[] = String.[]
rstrip_char n (String.◌∷◌ c s) = cons_unless n c (rstrip_char n s)

unfoldable pub strip_char : ℕ → String → String
unfolding lstrip_char rstrip_char
strip_char n s = rstrip_char n (lstrip_char n s)

-- `int(s)` of a text of decimal digits
unfoldable pub read_from : ℕ → String → ℕ
read_from n String.[] = n
read_from n (String.◌∷◌ c s) = read_from (n * 10 + (code c - 48)) s

abbrev pub read_ℕ : String → ℕ
read_ℕ s = read_from 0 s

-- `sep.join(parts)`
unfoldable pub join : String → List String → String
join sep [] = ""
join sep (p ∷ []) = p
join sep (p ∷ q ∷ ps) = p ++ (sep ++ join sep (q ∷ ps))

abbrev prepend : String → Result String → Result String
prepend p (ok s) = ok (p ++ s)
prepend p (raise e) = raise e

abbrev substitute : Option String → String → Result String → Result String
substitute none name rest = raise (key_error name)
substitute (some v) name rest = prepend v rest

-- `template.format(**values)` for replacement fields that are a bare name. `name` holds the name
-- that is being read, and `closing` says that the last character was a `}` outside a field.
unfoldable pub format_loop : Dict String → Option String → (closing : Bool) → String → Result String
format_loop vs none false String.[] = ok String.[]
format_loop vs none true String.[] = raise value_error
format_loop vs (some name) closing String.[] = raise value_error
format_loop vs none true (String.◌∷◌ c s) =
    let rest = format_loop vs none false s in
    if code c == b'}' then prepend (String.◌∷◌ c String.[]) rest else raise value_error
format_loop vs none false (String.◌∷◌ c s) =
    let open_field = format_loop vs (some String.[]) false s in
    let close = format_loop vs none true s in
    let rest = format_loop vs none false s in
    if code c == b'{'
    then open_field
    else if code c == b'}'
    then close
    else prepend (String.◌∷◌ c String.[]) rest
format_loop vs (some String.[]) closing (String.◌∷◌ c s) =
    let escaped = format_loop vs none false s in
    let longer = format_loop vs (some (String.◌∷◌ c String.[])) false s in
    if code c == b'{'
    then prepend (String.◌∷◌ c String.[]) escaped
    else if code c == b'}'
    then raise value_error
    else longer
format_loop vs (some (String.◌∷◌ d name)) closing (String.◌∷◌ c s) =
    let rest = format_loop vs none false s in
    let longer = format_loop vs (some (String.◌∷◌ d name ++ String.◌∷◌ c String.[])) false s in
    if code c == b'}'
    then substitute (lookup (String.◌∷◌ d name) vs) (String.◌∷◌ d name) rest
    else longer

unfoldable pub format : String → Dict String → Result String
unfolding format_loop lookup
format template vs = format_loop vs none false template

format_test :
    format "opencode run \"/plan {id}\" {{x}}" (("id", "WL-1") ∷ [])
    ≡ ok "opencode run \"/plan WL-1\" {x}"
unfolding format
format_test = refl

lstrip_le : (s : String) → str_len (lstrip s) ≤ str_len s
unfolding lstrip
lstrip_le String.[] = omega arith
lstrip_le (String.◌∷◌ c s) = ground (arith, lstrip_le s)

blank_or_one : (b : Bool) (c : Char) → str_len (if b then String.[] else String.◌∷◌ c String.[]) ≤ 1
blank_or_one true c = omega arith
blank_or_one false c = omega arith

cons_unless_blank_le : (c : Char) (s : String) → str_len (cons_unless_blank c s) ≤ suc (str_len s)
cons_unless_blank_le c String.[] = blank_or_one (is_space c) c
cons_unless_blank_le c (String.◌∷◌ d s) = omega arith

rstrip_le : (s : String) → str_len (rstrip s) ≤ str_len s
unfolding rstrip
rstrip_le String.[] = omega arith
rstrip_le (String.◌∷◌ c s) = omega (arith, rstrip_le s, cons_unless_blank_le c (rstrip s))

-- Stripping makes no text longer.
pub str_len-strip_le : (s : String) → str_len (strip s) ≤ str_len s
unfolding strip
str_len-strip_le s = omega (arith, rstrip_le (lstrip s), lstrip_le s)

strip_test : strip "  a b \n" ≡ "a b"
unfolding strip
strip_test = refl

lower_test : lower "Do-Not_DELEGATE" ≡ "do-not_delegate"
unfolding lower
lower_test = refl

split_test : split (char_at "," 0) "a, b,,c" ≡ "a" ∷ " b" ∷ "" ∷ "c" ∷ []
unfolding split
split_test = refl

show_test : show_ℕ 1203 ≡ "1203"
unfolding show_ℕ
show_test = refl
