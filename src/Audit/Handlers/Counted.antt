-- ===== src/Audit/Handlers/Counted.antt =====
-- Methods that count their updates, one rule for each way to build one.
use ampa.Prelude.{
  ℕ, ◌+◌, Bool, true, false, not, ◌&&◌, Result, ok, raise, ◌≡◌, refl, ◌∙◌, ap, arith, count,
  if◌then◌else◌, str_eq,
}
use ampa.Engine.Records.{
  Event, counted, candidates_fetched, item_fetched, updated, commented, notified, dispatched,
  recorded, ran, review_asked,
}
use ampa.Engine.World.{Trace, Io, continue, ◌>>=◌, pure, lift}
use ampa.Engine.World.Silent.{Silent, Silent-pure, Silent-bind}
use ampa.Audit.Commands.{HandlerResult}

-- An update that the updater reported as applied.
abbrev pub is_applied : Event → Bool
is_applied (updated id status stage assignee (ok applied)) = applied
is_applied _ = false

-- Tests that look at nothing but updates.
abbrev pub is_update : Event → Bool
is_update (updated id status stage assignee answer) = true
is_update _ = false

abbrev pub OnUpdates : (Event → Bool) → Type 0
OnUpdates p = (e : Event) → is_update e ≡ false → p e ≡ false

pub is_applied-OnUpdates : OnUpdates is_applied
is_applied-OnUpdates (updated id status stage assignee answer) h = absurd (cc)
is_applied-OnUpdates counted h = refl
is_applied-OnUpdates candidates_fetched h = refl
is_applied-OnUpdates (item_fetched id) h = refl
is_applied-OnUpdates (commented id m) h = refl
is_applied-OnUpdates (notified m t l) h = refl
is_applied-OnUpdates (dispatched c id) h = refl
is_applied-OnUpdates (recorded r) h = refl
is_applied-OnUpdates (ran c a) h = refl
is_applied-OnUpdates (review_asked n id) h = refl

-- A result that says that the command has changed the state.
abbrev pub transitioned : HandlerResult → Bool
transitioned r = r.success && not (str_eq r.reason "audit_recommends_no_closure")

abbrev pub once_if : Bool → ℕ
once_if b = if b then 1 else 0

-- A method that makes one call that passes the test where its result says that it has changed the
-- state, and none where it does not.
pub record Counted (p : Event → Bool) (says : HandlerResult → Bool) (m : Io HandlerResult)
    : Type 0 where
  pub at :
      (t : Trace) (r : HandlerResult)
      → (m t).0 ≡ ok r
      → count p (m t).1 ≡ once_if (says r) + count p t

pub Counted-pure :
    (p : Event → Bool) (says : HandlerResult → Bool) (r : HandlerResult)
    → says r ≡ false
    → Counted p says (pure r)
Counted-pure p says r h = record { at = λ t s e. ground (arith, h) }

pub Counted-if :
    (p : Event → Bool) (says : HandlerResult → Bool) (b : Bool) (m n : Io HandlerResult)
    → Counted p says m
    → Counted p says n
    → Counted p says (if b then m else n)
Counted-if p says true m n cm cn = cm
Counted-if p says false m n cm cn = cn

module _ {A : Type 0} (p : Event → Bool) (says : HandlerResult → Bool) where
  pub Counted-lift :
      (r : Result A) (f : A → Io HandlerResult)
      → ((a : A) → r ≡ ok a → Counted p says (f a))
      → Counted p says (lift r >>= f)
  Counted-lift (ok a) f cf = cf a refl
  Counted-lift (raise e) f cf = record { at = λ t r h. absurd (cc) }

  pub Counted-continue :
      (r : Result A) (f : A → Io HandlerResult)
      → ((a : A) → Counted p says (f a))
      → Counted p says (continue r f)
  Counted-continue (ok a) f cf = cf a
  Counted-continue (raise e) f cf = record { at = λ t r h. absurd (cc) }

  pub Counted-bind :
      (m : Io A) (f : A → Io HandlerResult)
      → Silent p m
      → ((a : A) → Counted p says (f a))
      → Counted p says (m >>= f)
  Counted-bind m f silent cf = record {
    at = λ t r h.
        let (o, t') = m t in
        (Counted-continue o f cf).at t' r h ∙ ap (λ n. once_if (says r) + n) (silent.at t);
  }

-- What follows a transition: it makes no such call, and its result says that there was one.
pub record Ends (p : Event → Bool) (says : HandlerResult → Bool) (m : Io HandlerResult)
    : Type 0 where
  pub silent : Silent p m
  pub reports : (t : Trace) (r : HandlerResult) → (m t).0 ≡ ok r → says r ≡ true

pub Ends-pure :
    (p : Event → Bool) (says : HandlerResult → Bool) (r : HandlerResult)
    → says r ≡ true
    → Ends p says (pure r)
Ends-pure p says r h = record { silent = Silent-pure r; reports = λ t s e. ground (arith, h) }

pub Ends-bind :
    {A : Type 0} (p : Event → Bool) (says : HandlerResult → Bool) (m : Io A)
    (f : A → Io HandlerResult)
    → Silent p m
    → ((a : A) → Ends p says (f a))
    → Ends p says (m >>= f)
Ends-bind {A} p says m f sm ef = record {
  silent = Silent-bind m f sm (λ a. (ef a).silent);
  reports = λ t r h. let (o, t') = m t in go o t' r h;
}
  where
    go : (o : Result A) (t : Trace) (r : HandlerResult) → (continue o f t).0 ≡ ok r → says r ≡ true
    go (ok a) t r h = (ef a).reports t r h
    go (raise e) t r h = absurd (cc)
