-- ===== src/Engine/World/Gives.antt =====
-- Actions that always return, one rule for each way to build an action.
use ampa.Prelude.{Bool, true, false, Result, ok, raise, ◌≡◌, refl, ◌∙◌, ap, if◌then◌else◌}
use ampa.Engine.World.{Trace, Io, continue, ◌>>=◌, pure, lift, recover, try_except}

-- The action returns a value that passes the test.
pub record Gives {A : Type 0} (p : A → Bool) (m : Io A) : Type 0 where
  pub at : (t : Trace) → (a : A) × ((m t).0 ≡ ok a) × (p a ≡ true)

-- The action returns.
abbrev pub Total : {A : Type 0} → Io A → Type 0
Total m = Gives (λ _. true) m

module _ {A : Type 0} where
  pub Gives-pure : (p : A → Bool) (a : A) → p a ≡ true → Gives p (pure a)
  Gives-pure p a h = record { at = λ t. (a, refl, h) }

  pub Total-pure : (a : A) → Total (pure a)
  Total-pure a = Gives-pure (λ _. true) a refl

  pub Gives-lift : (p : A → Bool) (r : Result A) (a : A) → r ≡ ok a → p a ≡ true → Gives p (lift r)
  Gives-lift p r a e h = record { at = λ t. (a, e, h) }

  pub Gives-if :
      (p : A → Bool) (b : Bool) (m n : Io A) → Gives p m → Gives p n → Gives p (if b then m else n)
  Gives-if p true m n gm gn = gm
  Gives-if p false m n gm gn = gn

  recover-Gives : (r : Result A) (n : Io A) → Total n → Total (recover r n)
  recover-Gives (ok a) n total = record { at = λ t. (a, refl, refl) }
  recover-Gives (raise e) n total = total

  -- What is tried returns if its handler does.
  pub Total-try : (m n : Io A) → Total n → Total (try_except m n)
  Total-try m n total = record { at = λ t. let (r, t') = m t in (recover-Gives r n total).at t' }

  pub Total-recover : (m : Io A) (d : A) → Total (try_except m (pure d))
  Total-recover m d = Total-try m (pure d) (Total-pure d)

module _ {A B : Type 0} where
  pub Gives-bind :
      (p : A → Bool) (q : B → Bool) (m : Io A) (f : A → Io B)
      → Gives p m
      → ((a : A) → p a ≡ true → Gives q (f a))
      → Gives q (m >>= f)
  Gives-bind p q m f gm gf = record {
    at = λ t.
        let (a, e, h) = gm.at t in
        let (b, e', h') = (gf a h).at (m t).1 in (b, ap (λ o. (continue o f (m t).1).0) e ∙ e', h');
  }

  pub Total-bind : (m : Io A) (f : A → Io B) → Total m → ((a : A) → Total (f a)) → Total (m >>= f)
  Total-bind m f gm gf = Gives-bind (λ _. true) (λ _. true) m f gm (λ a h. gf a)
