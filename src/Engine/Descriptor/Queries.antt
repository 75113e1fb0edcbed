-- ===== src/Engine/Descriptor/Queries.antt =====
-- What the queries of the workflow descriptor answer.
use mathlib.Core.List.{Memᴰ}
use mathlib.Core.Path.{fun_ext}
use ampa.Prelude.{
  String, Bool, true, false, List, [], ◌∷◌, Option, none, some, Result, ok, raise, ◌≡◌, refl, arith,
  str_eq, eq_iff, lookup, insert, values, keep, any, inl, inr, if◌then◌else◌, lookup-insert,
  traverse, Bool-cases, sym, ◌∙◌, ap, eq_refl,
}
use ampa.Engine.Descriptor.{
  StateTuple, StateRef, alias, inline, Command, WorkflowDescriptor, Invariant, state_eq,
  resolve_alias, resolve_state_ref, leaves_from, commands_from, commands_for_state, first_alias,
  resolve_from_state_alias, index_from, get_invariants, or_key_error,
}

-- Two states are equal when the test says so.
pub eq_of_state_eq : (a b : StateTuple) → state_eq a b ≡ true → a ≡ b
eq_of_state_eq a b h = ground (arith, eq_iff a.status b.status, eq_iff a.stage b.stage)

pub state_eq_refl : (a : StateTuple) → state_eq a a ≡ true
state_eq_refl a = rw (eq_refl a.status, eq_refl a.stage)

-- Every reference of a list resolves.
abbrev pub Resolve : WorkflowDescriptor → List StateRef → Type 0
Resolve d [] = Unit
Resolve d (ref ∷ refs) = (s : StateTuple) × (resolve_state_ref d ref ≡ ok s) × Resolve d refs

abbrev pub AllResolve : WorkflowDescriptor → List Command → Type 0
AllResolve d [] = Unit
AllResolve d (c ∷ cs) = Resolve d c.from_states × AllResolve d cs

-- What a reference stands for, when it resolves.
abbrev pub refers_to : WorkflowDescriptor → StateTuple → StateRef → Bool
refers_to d s ref = elim (resolve_state_ref d ref) [ ok t ↦ state_eq t s | raise _ ↦ false ]

leaves_from_lem :
    (d : WorkflowDescriptor) (s : StateTuple) (refs : List StateRef)
    → Resolve d refs
    → leaves_from d s refs ≡ ok (any (refers_to d s) refs)
unfolding leaves_from
leaves_from_lem d s [] h = refl
leaves_from_lem d s (ref ∷ refs) (t, e, h) = ground (arith, leaves_from_lem d s refs h)

commands_from-eq-keep :
    (d : WorkflowDescriptor) (s : StateTuple) (cmds : List Command)
    → AllResolve d cmds
    → commands_from d s cmds ≡ ok (keep (λ c. any (refers_to d s) c.from_states) cmds)
unfolding commands_from
commands_from-eq-keep d s [] h = refl
commands_from-eq-keep d s (c ∷ cs) (r, h) =
    rw (leaves_from_lem d s c.from_states r) (rw (commands_from-eq-keep d s cs h) (ground arith))

-- In a descriptor whose from-references all resolve, `commands_for_state` raises nothing and
-- returns exactly the commands that have a from-reference standing for the state, in the order
-- of the command table.
pub commands_for_state-eq-keep :
    (d : WorkflowDescriptor) (status stage : String)
    → AllResolve d (values d.commands)
    → commands_for_state d status stage
      ≡ ok (
          keep
            (λ c. any (refers_to d (record { status = status; stage = stage })) c.from_states)
            (values d.commands))
unfolding commands_for_state
commands_for_state-eq-keep d status stage h = commands_from-eq-keep d _ (values d.commands) h

-- The alias that `resolve_from_state_alias` returns is a from-reference of the command, and
-- stands for the state.
pub record IsAliasFor (d : WorkflowDescriptor) (refs : List StateRef) (s : StateTuple) (a : String)
    : Type 0 where
  pub listed : Memᴰ (alias a) refs
  pub resolves : resolve_alias d a ≡ ok s

IsAliasFor-cons :
    {d : WorkflowDescriptor} {refs : List StateRef} {s : StateTuple} {a : String} (ref : StateRef)
    → IsAliasFor d refs s a
    → IsAliasFor d (ref ∷ refs) s a
IsAliasFor-cons ref h = record { listed = Memᴰ.tail h.listed; resolves = h.resolves }

first_alias-IsAliasFor :
    (d : WorkflowDescriptor) (s : StateTuple) (refs : List StateRef) (a : String)
    → first_alias d s refs ≡ some a
    → IsAliasFor d refs s a
unfolding first_alias
first_alias-IsAliasFor d s [] a h = cc
first_alias-IsAliasFor d s (inline t ∷ refs) a h =
    IsAliasFor-cons (inline t) (first_alias-IsAliasFor d s refs a h)
first_alias-IsAliasFor d s (alias b ∷ refs) a h =
    go (resolve_alias d b) refl h (first_alias-IsAliasFor d s refs a)
  where
    go :
        (r : Result StateTuple)
        → resolve_alias d b ≡ r
        → (elim r [
          | raise _ ↦ first_alias d s refs
          | ok t ↦ if state_eq t s then some b else first_alias d s refs
        ])
          ≡ some a
        → (first_alias d s refs ≡ some a → IsAliasFor d refs s a)
        → IsAliasFor d (alias b ∷ refs) s a
    go (raise e) p q ih = IsAliasFor-cons (alias b) (ih q)
    go (ok t) p q ih = elim (Bool-cases (state_eq t s)) [
      | inl same ↦
          let b-eq-a : b ≡ a = ground arith in
          record {
            listed = Memᴰ.head (ap alias (sym b-eq-a));
            resolves = cc (eq_of_state_eq t s same);
          }
      | inr other ↦ IsAliasFor-cons (alias b) (ih (ground arith))
    ]

-- Where no alias of the command is returned, no from-reference is an alias of the state.
abbrev pub names_state : WorkflowDescriptor → StateTuple → StateRef → Bool
names_state d s (inline _) = false
names_state d s (alias a) = refers_to d s (alias a)

abbrev pub is_some {ℓ} : {A : Type ℓ} → Option A → Bool
is_some none = false
is_some (some a) = true

first_alias-any :
    (d : WorkflowDescriptor) (s : StateTuple) (refs : List StateRef)
    → is_some (first_alias d s refs) ≡ any (names_state d s) refs
unfolding first_alias resolve_state_ref
first_alias-any d s [] = refl
first_alias-any d s (inline t ∷ refs) = first_alias-any d s refs
first_alias-any d s (alias b ∷ refs) = ground (arith, first_alias-any d s refs)

module _ (d : WorkflowDescriptor) (c : Command) (s : StateTuple) where
  -- An alias that `resolve_from_state_alias` returns is a from-reference of the command, and the
  -- descriptor resolves it to the state.
  pub resolve_from_state_alias-IsAliasFor :
      (a : String) → resolve_from_state_alias d c s ≡ some a → IsAliasFor d c.from_states s a
  unfolding resolve_from_state_alias
  resolve_from_state_alias-IsAliasFor a h = first_alias-IsAliasFor d s c.from_states a h

  -- `resolve_from_state_alias` returns an alias exactly when some from-reference of the command is
  -- an alias that stands for the state.
  pub resolve_from_state_alias_found :
      is_some (resolve_from_state_alias d c s) ≡ any (names_state d s) c.from_states
  unfolding resolve_from_state_alias
  resolve_from_state_alias_found = first_alias-any d s c.from_states

-- The last definition of a name, which is the one that the index holds.
abbrev pub last_named : String → Option Invariant → List Invariant → Option Invariant
last_named n found [] = found
last_named n found (i ∷ is) = last_named n (if str_eq i.name n then some i else found) is

lookup-index_from :
    (n : String) (is : List Invariant) (m : List (String × Invariant))
    → lookup n (index_from m is) ≡ last_named n (lookup n m) is
unfolding index_from
lookup-index_from n [] m = refl
lookup-index_from n (i ∷ is) m =
    lookup-index_from n is (insert i.name i m)
    ∙ ap (λ o. last_named n o is) (lookup-insert i.name n i m)

-- `get_invariants` gives each name its last definition, and raises for the first name that has
-- none.
pub get_invariants-eq-last :
    (d : WorkflowDescriptor) (names : List String)
    → get_invariants d names ≡ traverse (λ n. or_key_error n (last_named n none d.invariants)) names
unfolding get_invariants lookup
get_invariants-eq-last d names =
    ap (λ (f : String → Result Invariant). traverse f names)
      (fun_ext (λ n. ap (or_key_error n) (lookup-index_from n d.invariants [])))
