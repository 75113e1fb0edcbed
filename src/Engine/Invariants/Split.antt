-- ===== src/Engine/Invariants/Split.antt =====
-- The parts of a compound expression.
use Prim.Native.Char.{Char}
use Prim.Native.String.{◌++◌}
use Prim.Native.String.append
use text.Mathlib.Text.{starts_with}
use text.Mathlib.TextEquality.{starts_with_iff}
use text.Mathlib.TextLemmas as T
use ampa.Prelude.{
  ℕ, zero, suc, ◌+◌, ◌≤◌, String, Bool, true, false, ◌&&◌, List, [], ◌∷◌, Option, ◌≡◌, refl, ◌∙◌,
  sym, ap, arith, ℤ, pos, eq_ℤ, if◌then◌else◌,
}
use ampa.Text.{str_len, join}
use ampa.Engine.Expressions.{is_backslash}
use ampa.Engine.Invariants.{
  split_loop, split_and_expression, is_none, splits_here, next_quote, next_depth,
}

-- The room that the parts take: a part counts one more than its characters.
abbrev pub total : List String → ℕ
total [] = 0
total (p ∷ ps) = suc (str_len p) + total ps

str_len-append : (s t : String) → str_len (s ++ t) ≡ str_len s + str_len t
str_len-append String.[] t = ap str_len (append.nil t) ∙ omega arith
str_len-append (String.◌∷◌ c s) t =
    ap str_len (append.cons c s t) ∙ omega (arith, str_len-append s t)

str_len-snoc : (s : String) (c : Char) → str_len (s ++ String.◌∷◌ c String.[]) ≡ suc (str_len s)
str_len-snoc s c = str_len-append s (String.◌∷◌ c String.[]) ∙ omega arith

total_if :
    (b : Bool) (xs ys : List String) (n : ℕ)
    → total xs ≤ n
    → total ys ≤ n
    → total (if b then xs else ys) ≤ n
total_if true xs ys n h k = h
total_if false xs ys n h k = k

total-split_loop-le :
    (s : String) (skip : ℕ) (escaped : Bool) (depth : ℤ) (q : Option ℕ) (current : String)
    → total (split_loop s skip escaped depth q current) ≤ suc (str_len current + str_len s)
unfolding split_loop
total-split_loop-le String.[] skip escaped depth q current = omega arith
total-split_loop-le (String.◌∷◌ c s) (suc skip) escaped depth q current =
    omega (arith, total-split_loop-le s skip false depth q current)
total-split_loop-le (String.◌∷◌ c s) zero escaped depth q current =
    let q' = next_quote escaped c q in
    let depth' = next_depth c q' depth in
    let longer = current ++ String.◌∷◌ c String.[] in
    total_if (splits_here c s depth' q') (current ∷ split_loop s 4 false depth' q' String.[])
      (split_loop s 0 (is_backslash c) depth' q' longer) (suc (str_len current + suc (str_len s)))
      (omega (arith, total-split_loop-le s 4 false depth' q' String.[]))
      (omega
        (arith, total-split_loop-le s 0 (is_backslash c) depth' q' longer, str_len-snoc current c))

-- The parts take no more room than the expression.
pub total-split-le : (logic : String) → total (split_and_expression logic) ≤ suc (str_len logic)
unfolding split_and_expression
total-split-le logic = omega (arith, total-split_loop-le logic 0 false _ _ String.[])

-- The rest of a text behind its first characters.
abbrev drop_chars : ℕ → String → String
drop_chars zero s = s
drop_chars (suc n) String.[] = String.[]
drop_chars (suc n) (String.◌∷◌ c s) = drop_chars n s

-- A list of parts that is not empty joins with a part in front of it.
abbrev IsNonempty : List String → Type 0
IsNonempty [] = ⊥
IsNonempty (p ∷ ps) = Unit {0}

join-cons :
    (sep p : String) (ps : List String)
    → IsNonempty ps
    → join sep (p ∷ ps) ≡ p ++ (sep ++ join sep ps)
unfolding join
join-cons sep p [] h = absurd h
join-cons sep p (q ∷ ps) h = refl

if-IsNonempty :
    (b : Bool) (xs ys : List String)
    → IsNonempty xs
    → IsNonempty ys
    → IsNonempty (if b then xs else ys)
if-IsNonempty true xs ys h k = h
if-IsNonempty false xs ys h k = k

split_loop-IsNonempty :
    (s : String) (skip : ℕ) (escaped : Bool) (depth : ℤ) (q : Option ℕ) (current : String)
    → IsNonempty (split_loop s skip escaped depth q current)
unfolding split_loop
split_loop-IsNonempty String.[] skip escaped depth q current = tt
split_loop-IsNonempty (String.◌∷◌ c s) (suc skip) escaped depth q current =
    split_loop-IsNonempty s skip false depth q current
split_loop-IsNonempty (String.◌∷◌ c s) zero escaped depth q current =
    let q' = next_quote escaped c q in
    let depth' = next_depth c q' depth in
    let longer = current ++ String.◌∷◌ c String.[] in
    if-IsNonempty (splits_here c s depth' q') (current ∷ split_loop s 4 false depth' q' String.[])
      (split_loop s 0 (is_backslash c) depth' q' longer) tt
      (split_loop-IsNonempty s 0 (is_backslash c) depth' q' longer)

drop_chars_prefix : (p u : String) → drop_chars (str_len p) (p ++ u) ≡ u
drop_chars_prefix String.[] u = append.nil u
drop_chars_prefix (String.◌∷◌ c p) u =
    ap (drop_chars (suc (str_len p))) (append.cons c p u) ∙ drop_chars_prefix p u

-- A text that starts with the connective is the connective and what stands behind it.
connective :
    (c : Char) (s : String)
    → starts_with (String.◌∷◌ c s) " and " ≡ true
    → " and " ++ drop_chars 4 s ≡ String.◌∷◌ c s
connective c s h =
    let (u, e) = (starts_with_iff (String.◌∷◌ c s) " and ").0 h in
    ap (λ w. " and " ++ w) (sym (ap (drop_chars 5) e) ∙ drop_chars_prefix " and " u) ∙ e

and_right : (a b : Bool) → (a && b) ≡ true → b ≡ true
and_right true b h = h
and_right false b h = cc

join-if :
    (sep : String) (b : Bool) (xs ys : List String) (whole : String)
    → (b ≡ true → join sep xs ≡ whole)
    → (b ≡ false → join sep ys ≡ whole)
    → join sep (if b then xs else ys) ≡ whole
join-if sep true xs ys whole h k = h refl
join-if sep false xs ys whole h k = k refl

snoc-append :
    (s : String) (c : Char) (t : String) → (s ++ String.◌∷◌ c String.[]) ++ t ≡ s ++ String.◌∷◌ c t
snoc-append s c t =
    T.append_assoc s (String.◌∷◌ c String.[]) t
    ∙ ap (λ w. s ++ w) (append.cons c String.[] t ∙ ap (λ w. String.◌∷◌ c w) (append.nil t))

join-split_loop :
    (s : String) (skip : ℕ) (escaped : Bool) (depth : ℤ) (q : Option ℕ) (current : String)
    → join " and " (split_loop s skip escaped depth q current) ≡ current ++ drop_chars skip s
unfolding split_loop join
join-split_loop String.[] zero escaped depth q current = sym (T.append-nil current)
join-split_loop String.[] (suc skip) escaped depth q current = sym (T.append-nil current)
join-split_loop (String.◌∷◌ c s) (suc skip) escaped depth q current =
    join-split_loop s skip false depth q current
join-split_loop (String.◌∷◌ c s) zero escaped depth q current =
    let q' = next_quote escaped c q in
    let depth' = next_depth c q' depth in
    let longer = current ++ String.◌∷◌ c String.[] in
    join-if " and " (splits_here c s depth' q') (current ∷ split_loop s 4 false depth' q' String.[])
      (split_loop s 0 (is_backslash c) depth' q' longer) (current ++ String.◌∷◌ c s)
      (λ h.
        join-cons " and " current (split_loop s 4 false depth' q' String.[])
          (split_loop-IsNonempty s 4 false depth' q' String.[])
        ∙ ap (λ w. current ++ (" and " ++ w))
            (join-split_loop s 4 false depth' q' String.[] ∙ append.nil (drop_chars 4 s))
        ∙ ap (λ w. current ++ w)
            (connective c s (and_right (is_none q') _ (and_right (eq_ℤ depth' 0) _ h))))
      (λ _.
        join-split_loop s 0 (is_backslash c) depth' q' (current ++ String.◌∷◌ c String.[])
        ∙ snoc-append current c s)

-- Splitting loses and adds nothing: the parts joined by the connective are the expression.
pub join-split : (logic : String) → join " and " (split_and_expression logic) ≡ logic
unfolding split_and_expression
join-split logic = join-split_loop logic 0 false (pos 0) Option.none String.[] ∙ append.nil logic
