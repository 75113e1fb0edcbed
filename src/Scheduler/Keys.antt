-- ===== src/Scheduler/Keys.antt =====
-- The order of the sort keys of the scheduler.
use ampa.Prelude.{Bool, true, false, not, ◌&&◌, if◌then◌else◌, ◌≡◌, refl, sym, arith, ◌⊎◌, ◌∙◌}
use ampa.Scheduler.Numbers.{Floats, Laws, text_lt, text_lt_asym, text_lt_cotrans}
use ampa.Scheduler.Selection.{Scored, key_lt}

-- One level of the comparison of tuples.
abbrev pub lex : (ab ba rest : Bool) → Bool
lex ab ba rest = if not ab && not ba then rest else ab

lex_asym :
    (ab ba rest tser : Bool)
    → (ab ≡ true → ba ≡ false)
    → (rest ≡ true → tser ≡ false)
    → lex ab ba rest ≡ true
    → lex ba ab tser ≡ false
lex_asym ab ba rest tser h r e = ground arith

lex_cotrans :
    (ab ba bc cb ac ca rab rbc rac : Bool)
    → (ac ≡ true → (ab ≡ true) ⊎ (bc ≡ true))
    → (ba ≡ true → (bc ≡ true) ⊎ (ca ≡ true))
    → (cb ≡ true → (ca ≡ true) ⊎ (ab ≡ true))
    → (rac ≡ true → (rab ≡ true) ⊎ (rbc ≡ true))
    → lex ac ca rac ≡ true
    → (lex ab ba rab ≡ true) ⊎ (lex bc cb rbc ≡ true)
lex_cotrans ab ba bc cb ac ca rab rbc rac h1 h2 h3 r e = ground arith

module _ {num : Floats} (laws : Laws num) where
  pub key_lt_lem :
      (a b : Scored num)
      → key_lt num a b
        ≡ lex (num.lt a.score b.score) (num.lt b.score a.score) (
            lex
              (num.lt a.normalized b.normalized)
              (num.lt b.normalized a.normalized)
              (text_lt a.spec.command_id b.spec.command_id))
  unfolding key_lt
  key_lt_lem a b = rw (laws.eq_lem a.score b.score, laws.eq_lem a.normalized b.normalized) refl

  pub key_lt_asym : (a b : Scored num) → key_lt num a b ≡ true → key_lt num b a ≡ false
  key_lt_asym a b h =
      key_lt_lem b a
      ∙ lex_asym _ _ _ _ (laws.asym a.score b.score)
          (lex_asym _ _ _ _ (laws.asym a.normalized b.normalized)
            (text_lt_asym a.spec.command_id b.spec.command_id))
          (sym (key_lt_lem a b) ∙ h)

  pub key_lt_cotrans :
      (a b c : Scored num)
      → key_lt num a c ≡ true
      → (key_lt num a b ≡ true) ⊎ (key_lt num b c ≡ true)
  key_lt_cotrans a b c h =
      rw (key_lt_lem a b, key_lt_lem b c)
        (lex_cotrans _ _ _ _ _ _ _ _ _ (laws.cotrans a.score b.score c.score)
          (laws.cotrans b.score c.score a.score) (laws.cotrans c.score a.score b.score)
          (lex_cotrans _ _ _ _ _ _ _ _ _ (laws.cotrans a.normalized b.normalized c.normalized)
            (laws.cotrans b.normalized c.normalized a.normalized)
            (laws.cotrans c.normalized a.normalized b.normalized)
            (text_lt_cotrans a.spec.command_id b.spec.command_id c.spec.command_id))
          (sym (key_lt_lem a c) ∙ h))

  pub key_lt_irrefl : (a : Scored num) → key_lt num a a ≡ false
  key_lt_irrefl a = ground (arith, key_lt_asym a a)
