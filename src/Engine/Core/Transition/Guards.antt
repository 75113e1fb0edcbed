-- ===== src/Engine/Core/Transition/Guards.antt =====
-- When a transition is applied.
use ampa.Prelude.{
  and_then-eq-ok, String, true, List, [], ◌∷◌, some, ok, ◌≡◌, sym, arith, traverse, values, str_eq,
  eq_iff, Bool-cases, inl, inr, subst,
}
use mathlib.Core.List.{Memᴰ}
use ampa.Engine.Descriptor.{StateTuple, Command, WorkflowDescriptor, state_in, resolve_state_ref}
use ampa.Engine.Core.Transition.{find_transition, find_transition_command}

-- A command that leads from a state to a stage.
pub record Leads (d : WorkflowDescriptor) (current : StateTuple) (stage : String) (cmd : Command)
    : Type 0 where
  pub from_states : List StateTuple
  pub resolved : traverse (resolve_state_ref d) cmd.from_states ≡ ok from_states
  pub inside : state_in current from_states ≡ true
  pub to : StateTuple
  pub target : resolve_state_ref d cmd.to ≡ ok to
  pub same_stage : to.stage ≡ stage

find_transition-Leads :
    (d : WorkflowDescriptor) (current : StateTuple) (stage : String) (cmds : List Command)
    (cmd : Command)
    → find_transition d current stage cmds ≡ ok (some cmd)
    → Memᴰ cmd cmds × Leads d current stage cmd
unfolding find_transition
find_transition-Leads d current stage [] cmd h = absurd (ground arith)
find_transition-Leads d current stage (c ∷ cs) cmd h =
    let (states, k, e) = and_then-eq-ok _ (traverse (resolve_state_ref d) c.from_states) h in
    elim (Bool-cases (state_in current states)) [
      | inr out ↦
          let (m, l) = find_transition-Leads d current stage cs cmd (rw out at k) in
          (Memᴰ.tail m, l)
      | inl inside ↦
          let (to, l, f) = and_then-eq-ok _ (resolve_state_ref d c.to) (rw inside at k) in
          elim (Bool-cases (str_eq to.stage stage)) [
            | inl same ↦
                let found : c ≡ cmd = ground (arith, l) in
                (
                  Memᴰ.head (sym found),
                  subst (Leads d current stage) found (record {
                    from_states = states;
                    resolved = e;
                    inside = inside;
                    to = to;
                    target = f;
                    same_stage = (eq_iff to.stage stage).0 same;
                  }),
                )
            | inr other ↦
                let (m, n) = find_transition-Leads d current stage cs cmd (rw other at l) in
                (Memᴰ.tail m, n)
          ]
    ]

-- `_find_transition_command` only returns a command of the descriptor that has the current state
-- among its from-states and whose target state is in the requested stage.
pub find_transition_command-Leads :
    (d : WorkflowDescriptor) (current : StateTuple) (stage : String) (cmd : Command)
    → find_transition_command d current stage ≡ ok (some cmd)
    → Memᴰ cmd (values d.commands) × Leads d current stage cmd
unfolding find_transition_command
find_transition_command-Leads d current stage cmd h =
    find_transition-Leads d current stage (values d.commands) cmd h
