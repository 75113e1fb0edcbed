-- ===== src/Audit/Report/Markers.antt =====
-- The report between its markers.
use Prim.Native.String.{◌++◌}
use Prim.Native.String.append
use ampa.Prelude.{String, true, false, some, ◌≡◌, refl, sym, ap, arith, nonempty}
use ampa.Text.{starts_with, str_len, strip}
use ampa.Text.Find.{split_at, str_drop}
use ampa.Audit.Report.{audit_report_start, audit_report_end, extract_report}

-- The mark stands nowhere in a text that is followed by `tail`, also not across its end.
abbrev pub Free : (mark s tail : String) → Type 0
Free mark String.[] tail = Unit
Free mark (String.◌∷◌ c s) tail =
    (starts_with (String.◌∷◌ c (s ++ tail)) mark ≡ false) × Free mark s tail

starts_with-append : (mark rest : String) → starts_with (mark ++ rest) mark ≡ true
unfolding starts_with
starts_with-append String.[] rest = refl
starts_with-append (String.◌∷◌ c s) rest =
    rw (append.cons c s rest) (ground (arith, starts_with-append s rest))

drop-append : (mark rest : String) → str_drop (str_len mark) (mark ++ rest) ≡ rest
unfolding str_drop
drop-append String.[] rest = append.nil rest
drop-append (String.◌∷◌ c s) rest = rw (append.cons c s rest) (drop-append s rest)

split_at_once :
    (mark rest : String)
    → nonempty mark ≡ true
    → split_at mark (mark ++ rest) ≡ some (String.[], rest)
unfolding split_at
split_at_once String.[] rest real = absurd (cc)
split_at_once (String.◌∷◌ c m) rest real = rw (append.cons c m rest) (
    rw (sym (append.cons c m rest), starts_with-append (String.◌∷◌ c m) rest)
      (ap (λ x. some (String.[], x)) (drop-append (String.◌∷◌ c m) rest)))

-- The first place of a mark that stands nowhere before.
pub split_at-append :
    (mark before rest : String)
    → nonempty mark ≡ true
    → Free mark before (mark ++ rest)
    → split_at mark (before ++ (mark ++ rest)) ≡ some (before, rest)
unfolding split_at
split_at-append mark String.[] rest real free =
    rw (append.nil (mark ++ rest)) (split_at_once mark rest real)
split_at-append mark (String.◌∷◌ c s) rest real (here, later) =
    rw (append.cons c s (mark ++ rest)) (rw here (rw (split_at-append mark s rest real later) refl))

nonempty-append : (s t : String) → nonempty s ≡ true → nonempty (s ++ t) ≡ true
nonempty-append String.[] t h = absurd (cc)
nonempty-append (String.◌∷◌ c s) t h = rw (append.cons c s t) refl

nonempty-after : (s t : String) → nonempty t ≡ true → nonempty (s ++ t) ≡ true
nonempty-after String.[] t h = rw (append.nil t) h
nonempty-after (String.◌∷◌ c s) t h = rw (append.cons c s t) refl

-- A report that stands between its markers is read back without its surrounding blanks, whatever
-- stands before and after, if it is not blank, no start marker comes before, and no end marker
-- stands in it.
pub extract_report-between :
    (before inner rest : String)
    → Free audit_report_start before (audit_report_start ++ (inner ++ (audit_report_end ++ rest)))
    → Free audit_report_end inner (audit_report_end ++ rest)
    → nonempty (strip inner) ≡ true
    → extract_report (before ++ (audit_report_start ++ (inner ++ (audit_report_end ++ rest))))
      ≡ strip inner
unfolding extract_report
extract_report-between before inner rest no_start no_end real =
    let tail = inner ++ (audit_report_end ++ rest) in
    rw
      (nonempty-after before (audit_report_start ++ tail)
        (nonempty-append audit_report_start tail refl))
      (rw (split_at-append audit_report_start before tail refl no_start)
        (rw (split_at-append audit_report_end inner rest refl no_end) (rw real refl)))
