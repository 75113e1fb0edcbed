-- ===== src/Engine/Descriptor.antt =====
-- src/ampa/engine/descriptor.py: the workflow model and its queries. The proofs are below.
pub mod Queries
use ampa.Prelude.{
  ℕ, String, Bool, true, false, ◌&&◌, List, [], ◌∷◌, Option, none, some, Result, ok, raise, Exn,
  key_error, and_then, if◌then◌else◌, str_eq, option_eq, Dict, lookup, insert, values, traverse,
  any, find,
}
use ampa.Value.{Value}

pub record Role : Type 0 where
  pub name : String
  pub description : String
  pub type : String

pub record StateTuple : Type 0 where
  pub status : String
  pub stage : String

pub record InputField : Type 0 where
  pub type : String
  pub required : Bool
  pub description : String
  pub enum : List Value
  pub default : Value

pub record Notification : Type 0 where
  pub channel : String
  pub message : String

pub record AuditEffects : Type 0 where
  pub record_prompt_hash : Bool
  pub record_model : Bool
  pub record_response_ids : Bool
  pub record_agent_id : Bool

pub record Effects : Type 0 where
  pub add_tags : List String
  pub remove_tags : List String
  pub set_assignee : Option String
  pub set_needs_producer_review : Option Bool
  pub notifications : List Notification
  pub audit : Option AuditEffects

pub record Invariant : Type 0 where
  pub name : String
  pub description : String
  pub phases : List String  -- `when`
  pub logic : String

-- `StateRef` is an alias or an inline state.
pub data StateRef : Type 0 where
  alias : String → StateRef
  inline : StateTuple → StateRef

pub record Command : Type 0 where
  pub name : String
  pub description : String
  pub from_states : List StateRef
  pub to : StateRef
  pub actor : String
  pub pre : List String
  pub post : List String
  pub inputs : Dict InputField
  pub prompt_ref : String
  pub effects : Option Effects
  pub dispatch_map : Dict String

pub record Metadata : Type 0 where
  pub name : String
  pub description : String
  pub owner : String
  pub roles : List Role
  pub links : Dict String

pub record WorkflowDescriptor : Type 0 where
  pub version : String
  pub metadata : Metadata
  pub statuses : List String
  pub stages : List String
  pub states : Dict StateTuple
  pub terminal_states : List String
  pub invariants : List Invariant
  pub commands : Dict Command

-- `==` of the frozen dataclass
abbrev pub state_eq : StateTuple → StateTuple → Bool
state_eq a b = str_eq a.status b.status && str_eq a.stage b.stage

-- `state in states`
abbrev pub state_in : StateTuple → List StateTuple → Bool
state_in s states = any (λ t. state_eq t s) states

-- `d[name]`
abbrev pub or_key_error {ℓ} : {A : Type ℓ} → String → Option A → Result A
or_key_error k none = raise (key_error k)
or_key_error k (some a) = ok a

unfoldable pub resolve_alias : WorkflowDescriptor → String → Result StateTuple
resolve_alias d name = or_key_error name (lookup name d.states)

unfoldable pub resolve_state_ref : WorkflowDescriptor → StateRef → Result StateTuple
resolve_state_ref d (alias name) = resolve_alias d name
resolve_state_ref d (inline s) = ok s

-- The inner loop of `commands_for_state`: it stops at the first reference that matches.
unfoldable pub leaves_from : WorkflowDescriptor → StateTuple → List StateRef → Result Bool
leaves_from d target [] = ok false
leaves_from d target (ref ∷ refs) =
    let rest = leaves_from d target refs in
    and_then (resolve_state_ref d ref) (λ s. if state_eq s target then ok true else rest)

unfoldable pub commands_from :
    WorkflowDescriptor → StateTuple → List Command → Result (List Command)
commands_from d target [] = ok []
commands_from d target (cmd ∷ cmds) =
    let rest = commands_from d target cmds in
    and_then (leaves_from d target cmd.from_states)
      (λ b. and_then rest (λ found. ok (if b then cmd ∷ found else found)))

unfoldable pub commands_for_state : WorkflowDescriptor → String → String → Result (List Command)
commands_for_state d status stage =
    commands_from d (record { status = status; stage = stage }) (values d.commands)

-- The loop of `resolve_from_state_alias`: inline states and unknown aliases are passed over.
unfoldable pub first_alias : WorkflowDescriptor → StateTuple → List StateRef → Option String
first_alias d state [] = none
first_alias d state (inline _ ∷ refs) = first_alias d state refs
first_alias d state (alias name ∷ refs) = elim (resolve_alias d name) [
  | raise _ ↦ first_alias d state refs
  | ok s ↦ if state_eq s state then some name else first_alias d state refs
]

unfoldable pub resolve_from_state_alias : WorkflowDescriptor → Command → StateTuple → Option String
unfolding first_alias
resolve_from_state_alias d command state = first_alias d state command.from_states

unfoldable pub get_command : WorkflowDescriptor → String → Result Command
get_command d name = or_key_error name (lookup name d.commands)

-- `{inv.name: inv for inv in invariants}`: a later definition of a name replaces an earlier one.
unfoldable pub index_from : Dict Invariant → List Invariant → Dict Invariant
index_from index [] = index
index_from index (inv ∷ invs) = index_from (insert inv.name inv index) invs

unfoldable pub get_invariants : WorkflowDescriptor → List String → Result (List Invariant)
get_invariants d names =
    let index = index_from [] d.invariants in traverse (λ n. or_key_error n (lookup n index)) names

unfoldable pub get_role : WorkflowDescriptor → String → Result Role
get_role d name = or_key_error name (find (λ r. str_eq r.name name) d.metadata.roles)
