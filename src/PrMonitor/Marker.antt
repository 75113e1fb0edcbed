-- ===== src/PrMonitor/Marker.antt =====
-- The object that `_parse_marker_json` of src/ampa/pr_monitor.py reads behind a marker.
use Prim.Native.Char.{Char, code}
use Prim.Native.String.{◌++◌, char_at}
use Prim.Native.String.append
use ampa.Prelude.{
  ℕ, suc, ◌+◌, ◌-◌, String, Bool, true, false, ◌||◌, ◌==◌, Option, none, some, ◌≡◌, refl, ◌∙◌, sym,
  ap, arith, nonempty, Bool-cases, inl, inr,
}
use text.Mathlib.TextLemmas.{append_assoc}
use ampa.Text.{starts_with, is_space, strip, lstrip, rstrip, cons_unless_blank}
use ampa.Text.Find.{split_at, str_drop}
use ampa.Audit.Report.Markers.{Free, split_at-append}
use ampa.PrMonitor.Comments.{to_closing, put, marked_json}

abbrev is_brace : Char → Bool
is_brace c = code c == 123 || code c == 125

abbrev opening : Char
opening = char_at "{" 0

abbrev closing : Char
closing = char_at "}" 0

-- The inside of an object: characters that are no braces, and objects inside it.
pub data Body : Type 0 where
  no_more : Body
  char : (c : Char) → is_brace c ≡ false → Body → Body
  object : (inside after : Body) → Body

unfoldable pub text_of : Body → String
text_of no_more = ""
text_of (char c h b) = String.◌∷◌ c (text_of b)
text_of (object inside after) =
    String.◌∷◌ opening (text_of inside ++ String.◌∷◌ closing (text_of after))

append_one : (c : Char) (s : String) → String.◌∷◌ c String.[] ++ s ≡ String.◌∷◌ c s
append_one c s = append.cons c String.[] s ∙ ap (String.◌∷◌ c) (append.nil s)

kept : (r : String) → cons_unless_blank closing r ≡ String.◌∷◌ closing r
kept String.[] = refl
kept (String.◌∷◌ c r) = refl

not_last :
    (c : Char) (s r : String)
    → cons_unless_blank c (s ++ String.◌∷◌ closing r) ≡ String.◌∷◌ c (s ++ String.◌∷◌ closing r)
not_last c String.[] r = rw (append.nil (String.◌∷◌ closing r)) refl
not_last c (String.◌∷◌ d s) r = rw (append.cons d s (String.◌∷◌ closing r)) refl

-- The closing brace keeps what stands before it from being stripped.
rstrip-closing :
    (s tail : String)
    → rstrip (s ++ String.◌∷◌ closing tail) ≡ s ++ String.◌∷◌ closing (rstrip tail)
unfolding rstrip
rstrip-closing String.[] tail =
    rw (append.nil (String.◌∷◌ closing tail), append.nil (String.◌∷◌ closing (rstrip tail)))
      (kept (rstrip tail))
rstrip-closing (String.◌∷◌ c s) tail =
    rw
      (
        append.cons c s (String.◌∷◌ closing tail),
        append.cons c s (String.◌∷◌ closing (rstrip tail)),
      )
      (ap (cons_unless_blank c) (rstrip-closing s tail) ∙ not_last c s (rstrip tail))

abbrev put_all : String → Option String → Option String
put_all s none = none
put_all s (some rest) = some (s ++ rest)

put_all_nothing : (o : Option String) → o ≡ put_all "" o
put_all_nothing none = refl
put_all_nothing (some r) = ap some (sym (append.nil r))

put_all-char :
    (c : Char) (s : String) (o : Option String) → put c (put_all s o) ≡ put_all (String.◌∷◌ c s) o
put_all-char c s none = refl
put_all-char c s (some r) = ap some (sym (append.cons c s r))

put_all-object :
    (s u : String) (o : Option String)
    → put opening (put_all s (put closing (put_all u o)))
      ≡ put_all (String.◌∷◌ opening (s ++ String.◌∷◌ closing u)) o
put_all-object s u none = refl
put_all-object s u (some r) = ap some (
    ap (String.◌∷◌ opening)
      (ap (s ++◌) (sym (append.cons closing u r)) ∙ sym (append_assoc s (String.◌∷◌ closing u) r))
    ∙ sym (append.cons opening (s ++ String.◌∷◌ closing u) r))

-- What a character does.
char_step :
    (c : Char) (d : ℕ) (s : String)
    → is_brace c ≡ false
    → to_closing d (String.◌∷◌ c s) ≡ put c (to_closing d s)
unfolding to_closing
char_step c d s h = ground (arith, h)

opening_step :
    (d : ℕ) (s : String) → to_closing d (String.◌∷◌ opening s) ≡ put opening (to_closing (suc d) s)
unfolding to_closing
opening_step d s =
    let more : d + 1 ≡ suc d = omega arith in ap (λ n. put opening (to_closing n s)) more

closing_step :
    (d : ℕ) (s : String)
    → to_closing (suc (suc d)) (String.◌∷◌ closing s) ≡ put closing (to_closing (suc d) s)
unfolding to_closing
closing_step d s =
    let two : (suc (suc d) == 1) ≡ false = ground arith in
    let down : suc (suc d) - 1 ≡ suc d = omega arith in rw (two, down) refl

-- The braces inside are closed before the one outside.
to_closing-text_of :
    (b : Body) (d : ℕ) (rest : String)
    → to_closing (suc d) (text_of b ++ rest) ≡ put_all (text_of b) (to_closing (suc d) rest)
unfolding text_of
to_closing-text_of no_more d rest =
    ap (to_closing (suc d)) (append.nil rest) ∙ put_all_nothing (to_closing (suc d) rest)
to_closing-text_of (char c h b) d rest =
    ap (to_closing (suc d)) (append.cons c (text_of b) rest)
    ∙ char_step c (suc d) (text_of b ++ rest) h
    ∙ ap (put c) (to_closing-text_of b d rest)
    ∙ put_all-char c (text_of b) (to_closing (suc d) rest)
to_closing-text_of (object inside after) d rest =
    let s = text_of inside in
    let u = text_of after in
    ap (to_closing (suc d)) (
      append.cons opening (s ++ String.◌∷◌ closing u) rest
      ∙ ap (String.◌∷◌ opening)
          (append_assoc s (String.◌∷◌ closing u) rest ∙ ap (s ++◌) (append.cons closing u rest)))
    ∙ opening_step (suc d) (s ++ String.◌∷◌ closing (u ++ rest))
    ∙ ap (put opening) (
        to_closing-text_of inside (suc d) (String.◌∷◌ closing (u ++ rest))
        ∙ ap (put_all s)
            (closing_step d (u ++ rest) ∙ ap (put closing) (to_closing-text_of after d rest)))
    ∙ put_all-object s u (to_closing (suc d) rest)

object_read :
    (inner : Body) (tail : String)
    → to_closing 0 ("{" ++ (text_of inner ++ String.◌∷◌ closing tail))
      ≡ some ("{" ++ (text_of inner ++ "}"))
unfolding to_closing
object_read inner tail = rw (append_one opening (text_of inner ++ String.◌∷◌ closing tail)) (
    ap (put opening) (to_closing-text_of inner 0 (String.◌∷◌ closing tail))
    ∙ ap some (sym (append_one opening (text_of inner ++ "}"))))

-- A text without opening braces.
abbrev pub Unopened : String → Type 0
Unopened String.[] = Unit {0}
Unopened (String.◌∷◌ c s) = ((code c == 123) ≡ false) × Unopened s

starts_other :
    (c : Char) (s : String) → (code c == 123) ≡ false → starts_with (String.◌∷◌ c s) "{" ≡ false
unfolding starts_with
starts_other c s h = rw h refl

split_at-Unopened :
    (s rest : String) → Unopened s → split_at "{" (s ++ String.◌∷◌ opening rest) ≡ some (s, rest)
unfolding split_at starts_with str_drop
split_at-Unopened String.[] rest none_ = rw (append.nil (String.◌∷◌ opening rest)) refl
split_at-Unopened (String.◌∷◌ c s) rest (here, later) =
    rw (append.cons c s (String.◌∷◌ opening rest)) (
      rw (starts_other c (s ++ String.◌∷◌ opening rest) here)
        (rw (split_at-Unopened s rest later) refl))

lstrip-Unopened : (s : String) → Unopened s → Unopened (lstrip s)
unfolding lstrip
lstrip-Unopened String.[] u = tt
lstrip-Unopened (String.◌∷◌ c s) (here, later) = elim (Bool-cases (is_space c)) [
  | inl blank ↦ rw blank (lstrip-Unopened s later)
  | inr other ↦ rw other (here, later)
]

-- The opening brace keeps what stands behind it from being stripped.
lstrip-opening :
    (s rest : String) → lstrip (s ++ String.◌∷◌ opening rest) ≡ lstrip s ++ String.◌∷◌ opening rest
unfolding lstrip
lstrip-opening String.[] rest = rw (append.nil (String.◌∷◌ opening rest)) refl
lstrip-opening (String.◌∷◌ c s) rest =
    rw (append.cons c s (String.◌∷◌ opening rest)) (elim (Bool-cases (is_space c)) [
      | inl blank ↦ rw blank (lstrip-opening s rest)
      | inr other ↦ rw other (sym (append.cons c s (String.◌∷◌ opening rest)))
    ])

stripped :
    (gap inner tail : String)
    → strip (gap ++ String.◌∷◌ opening (inner ++ String.◌∷◌ closing tail))
      ≡ lstrip gap ++ String.◌∷◌ opening (inner ++ String.◌∷◌ closing (rstrip tail))
unfolding strip
stripped gap inner tail =
    let g = lstrip gap in
    let grouped = λ (u : String).
      append_assoc g (String.◌∷◌ opening inner) (String.◌∷◌ closing u)
      ∙ ap (g ++◌) (append.cons opening inner (String.◌∷◌ closing u)) in
    ap rstrip (lstrip-opening gap (inner ++ String.◌∷◌ closing tail) ∙ sym (grouped tail))
    ∙ rstrip-closing (g ++ String.◌∷◌ opening inner) tail
    ∙ grouped (rstrip tail)

-- What is read behind the first place of a marker starts with the next opening brace and ends with
-- the brace that closes it, where every brace between them counts, inside a quoted string too: a
-- closing brace there cuts the object short.
pub marked_json_cut :
    (marker before gap : String) (inner : Body) (tail : String)
    → nonempty marker ≡ true
    → Free marker before (marker ++ (gap ++ ("{" ++ (text_of inner ++ ("}" ++ tail)))))
    → Unopened gap
    → marked_json (before ++ (marker ++ (gap ++ ("{" ++ (text_of inner ++ ("}" ++ tail)))))) marker
      ≡ some ("{" ++ (text_of inner ++ "}"))
unfolding marked_json
marked_json_cut marker before gap body tail real first unopened =
    let inner = text_of body in
    let rest = inner ++ String.◌∷◌ closing tail in
    rw (split_at-append marker before (gap ++ ("{" ++ (inner ++ ("}" ++ tail)))) real first) (
      rw (append_one closing tail, append_one opening rest, stripped gap inner tail)
        (rw
          (split_at-Unopened (lstrip gap) (inner ++ String.◌∷◌ closing (rstrip tail))
            (lstrip-Unopened gap unopened))
          (object_read body (rstrip tail))))
