-- ===== src/Engine/World/Silent.antt =====
-- Actions that make no call of a kind, one rule for each way to build an action.
use ampa.Prelude.{
  Bool, true, false, [], ◌∷◌, ◌++◌, Result, ok, raise, Option, none, some, ◌≡◌, refl, ◌∙◌, arith,
  count, count-append, if◌then◌else◌,
}
use ampa.Engine.Records.{Event}
use ampa.Engine.World.{Trace, Io, continue, ◌>>=◌, pure, lift, recover, try_except}

-- The action makes no call that passes the test, whether it returns or raises.
pub record Silent {ℓ} {A : Type ℓ} (p : Event → Bool) (m : Io A) : Type ℓ where
  pub at : (t : Trace) → count p (m t).1 ≡ count p t

module _ {ℓ} {A : Type ℓ} {p : Event → Bool} where
  pub Silent-pure : (a : A) → Silent p (pure a)
  Silent-pure a = record { at = λ t. refl }

  pub Silent-lift : (r : Result A) → Silent p (lift r)
  Silent-lift r = record { at = λ t. refl }

  pub Silent-if : (b : Bool) (m n : Io A) → Silent p m → Silent p n → Silent p (if b then m else n)
  Silent-if true m n sm sn = sm
  Silent-if false m n sm sn = sn

  pub Silent-recover : (r : Result A) (n : Io A) → Silent p n → Silent p (recover r n)
  Silent-recover (ok a) n sn = record { at = λ t. refl }
  Silent-recover (raise e) n sn = sn

  pub Silent-try : (m n : Io A) → Silent p m → Silent p n → Silent p (try_except m n)
  Silent-try m n sm sn = record {
    at = λ t. let (r, t') = m t in (Silent-recover r n sn).at t' ∙ sm.at t;
  }

  -- One call of a service.
  pub Silent-call :
      (r : Trace → Result A) (e : Trace → Event)
      → ((t : Trace) → p (e t) ≡ false)
      → Silent {A = A} p (λ t. (r t, t ++ e t ∷ []))
  Silent-call r e h = record { at = λ t. count-append p t (e t ∷ []) ∙ ground (arith, h t) }

module _ {ℓ κ} {A : Type ℓ} {B : Type κ} {p : Event → Bool} where
  pub Silent-option :
      (o : Option B) (m : Io A) (f : B → Io A)
      → Silent p m
      → ((b : B) → Silent p (f b))
      → Silent p (elim o [ none ↦ m | some b ↦ f b ])
  Silent-option none m f sm sf = sm
  Silent-option (some b) m f sm sf = sf b

  pub Silent-continue :
      (r : Result A) (f : A → Io B) → ((a : A) → Silent p (f a)) → Silent p (continue r f)
  Silent-continue (ok a) f sf = sf a
  Silent-continue (raise e) f sf = record { at = λ t. refl }

  pub Silent-bind :
      (m : Io A) (f : A → Io B) → Silent p m → ((a : A) → Silent p (f a)) → Silent p (m >>= f)
  Silent-bind m f sm sf = record {
    at = λ t. let (r, t') = m t in (Silent-continue r f sf).at t' ∙ sm.at t;
  }

pub ruleset silent_rules =
    (Silent-pure, Silent-lift, Silent-if, Silent-recover, Silent-try, Silent-option, Silent-bind)
