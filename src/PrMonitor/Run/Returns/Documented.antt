-- ===== src/PrMonitor/Run/Returns/Documented.antt =====
-- What `gh` is documented to print, and what the PR monitor reads of it.
use ampa.Prelude.{
  ℕ, ℤ, String, Bool, true, false, ◌&&◌, List, [], ◌∷◌, Option, none, some, Result, ok, raise, ◌≡◌,
  refl, if◌then◌else◌, all, contains, str_eq, and_then,
}
use ampa.Text.{strip}
use ampa.Value.{
  Value, Fields, null, bool, int, number, str, list, dict, get, get_default, items_to_list,
}
use ampa.Shell.{Completed, pr_list, pr_checks}
use ampa.Engine.Expressions.{all_texts}
use ampa.Engine.World.{Trace}
use ampa.PrMonitor.{PrMonitorRunner, prs_in}
use ampa.PrMonitor.Checks.{CheckStatus, no_checks, add_check, with_check, read_checks, checks_of}

abbrev pub is_text : Value → Bool
is_text (str s) = true
is_text _ = false

abbrev pub is_integer : Value → Bool
is_integer null = true
is_integer (int n) = true
is_integer _ = false

-- A pull request as `gh pr list` prints it: an object with a number and the name of a branch.
abbrev pub is_pull : Value → Bool
is_pull (dict pr) = is_integer (get pr "number") && is_text (get_default pr "headRefName" (str ""))
is_pull _ = false

-- A check as `gh pr checks` prints it: an object with a name.
abbrev pub is_check : Value → Bool
is_check (dict check) = is_text (get_default check "name" (str "(unknown)"))
is_check _ = false

abbrev pub elements : (Value → Bool) → Result Value → Bool
elements p (ok (list vs)) = all p (items_to_list vs)
elements p _ = true

module _ (m : PrMonitorRunner) where
  abbrev pub prints : (Value → Bool) → Result Completed → Bool
  prints p (ok proc) = elements p (m.loads (strip proc.stdout))
  prints p (raise e) = true

  -- What is documented of `gh` and of `int`: a list that `gh` prints has elements of its kind.
  pub record IsDocumented : Type 0 where
    pub pulls : (t : Trace) (k : ℤ) → prints is_pull (m.run_shell t (pr_list k)) ≡ true
    pub checks : (t : Trace) (n : ℕ) → prints is_check (m.run_shell t (pr_checks n)) ≡ true
    pub integers : (n : ℕ) → m.to_int (int n) ≡ ok n

abbrev pub named : Option CheckStatus → Bool
named none = true
named (some s) = all is_text s.failing

abbrev pub pulls_only : Option (List Value) → Bool
pulls_only none = true
pulls_only (some prs) = all is_pull prs

pub &&-true : (a b : Bool) → (a && b) ≡ true → (a ≡ true) × (b ≡ true)
&&-true true b h = (refl, h)
&&-true false b h = absurd (cc)

if_named :
    (b : Bool) (x y : CheckStatus)
    → named (some x) ≡ true
    → named (some y) ≡ true
    → named (some (if b then x else y)) ≡ true
if_named true x y hx hy = hx
if_named false x y hx hy = hy

add_check-named :
    (bucket : String) (name : Value) (s : CheckStatus)
    → is_text name ≡ true
    → named (some s) ≡ true
    → named (some (add_check bucket name s)) ≡ true
unfolding add_check
add_check-named bucket name s text h = if_named (contains ("pass" ∷ "skipping" ∷ []) bucket) _ _ h (
    if_named (str_eq bucket "pending") _ _ h
      (if_named (contains ("fail" ∷ "cancel" ∷ []) bucket) _ _ (rw text h) h))

abbrev pub Reads : Result (Option CheckStatus) → Type 0
Reads r = (o : Option CheckStatus) × (r ≡ ok o) × (named o ≡ true)

bucket-Reads :
    (bucket : String) (name : Value) (rest : Result (Option CheckStatus))
    → is_text name ≡ true
    → Reads rest
    → Reads
        (and_then rest (λ o. ok (elim o [ none ↦ none | some s ↦ some (add_check bucket name s) ])))
bucket-Reads bucket name rest text (none, e, h) = (none, rw e refl, refl)
bucket-Reads bucket name rest text (some s, e, h) =
    (some (add_check bucket name s), rw e refl, add_check-named bucket name s text h)

with_check-Reads :
    (check : Fields) (bucket : Value) (rest : Result (Option CheckStatus))
    → is_text (get_default check "name" (str "(unknown)")) ≡ true
    → Reads rest
    → Reads (with_check check bucket rest)
with_check-Reads check null rest text r = (none, refl, refl)
with_check-Reads check (bool x) rest text r = bucket-Reads _ _ rest text r
with_check-Reads check (int x) rest text r = bucket-Reads _ _ rest text r
with_check-Reads check (number x) rest text r = bucket-Reads _ _ rest text r
with_check-Reads check (str x) rest text r = bucket-Reads _ _ rest text r
with_check-Reads check (list x) rest text r = bucket-Reads _ _ rest text r
with_check-Reads check (dict x) rest text r = bucket-Reads _ _ rest text r

read_checks-Reads : (cs : List Value) → all is_check cs ≡ true → Reads (read_checks cs)
unfolding read_checks
read_checks-Reads [] h = (some no_checks, refl, refl)
read_checks-Reads (dict check ∷ cs) h =
    let (text, later) = &&-true _ _ h in
    with_check-Reads check (get check "bucket") (read_checks cs) text (read_checks-Reads cs later)
read_checks-Reads (null ∷ cs) h = absurd (cc)
read_checks-Reads (bool b ∷ cs) h = absurd (cc)
read_checks-Reads (int n ∷ cs) h = absurd (cc)
read_checks-Reads (number x ∷ cs) h = absurd (cc)
read_checks-Reads (str x ∷ cs) h = absurd (cc)
read_checks-Reads (list x ∷ cs) h = absurd (cc)

pub checks_of-Reads :
    (says_none : Bool) (r : Result Value)
    → elements is_check r ≡ true
    → Reads (checks_of says_none r)
checks_of-Reads true (raise e) h = (some no_checks, refl, refl)
checks_of-Reads false (raise e) h = (none, refl, refl)
checks_of-Reads b (ok (list cs)) h = read_checks-Reads (items_to_list cs) h
checks_of-Reads b (ok null) h = (none, refl, refl)
checks_of-Reads b (ok (bool x)) h = (none, refl, refl)
checks_of-Reads b (ok (int x)) h = (none, refl, refl)
checks_of-Reads b (ok (number x)) h = (none, refl, refl)
checks_of-Reads b (ok (str x)) h = (none, refl, refl)
checks_of-Reads b (ok (dict x)) h = (none, refl, refl)

pub prs_in-pulls :
    (r : Result Value)
    → elements is_pull r ≡ true
    → (m : PrMonitorRunner) → pulls_only (prs_in m r) ≡ true
prs_in-pulls (raise e) h m = refl
prs_in-pulls (ok (list vs)) h m = h
prs_in-pulls (ok null) h m = refl
prs_in-pulls (ok (bool x)) h m = refl
prs_in-pulls (ok (int x)) h m = refl
prs_in-pulls (ok (number x)) h m = refl
prs_in-pulls (ok (str x)) h m = refl
prs_in-pulls (ok (dict x)) h m = refl

pub all_texts-returns :
    (vs : List Value) → all is_text vs ≡ true → (ts : List String) × (all_texts vs ≡ ok ts)
unfolding all_texts
all_texts-returns [] h = ([], refl)
all_texts-returns (str s ∷ vs) h = let (ts, e) = all_texts-returns vs h in (s ∷ ts, rw e refl)
all_texts-returns (null ∷ vs) h = absurd (cc)
all_texts-returns (bool x ∷ vs) h = absurd (cc)
all_texts-returns (int x ∷ vs) h = absurd (cc)
all_texts-returns (number x ∷ vs) h = absurd (cc)
all_texts-returns (list x ∷ vs) h = absurd (cc)
all_texts-returns (dict x ∷ vs) h = absurd (cc)
