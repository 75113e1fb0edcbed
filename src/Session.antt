-- ===== src/Session.antt =====
-- Sessions that wait for input: src/ampa/conversation_manager.py and src/ampa/session_block.py. A
-- directory of tool output is the files in it that these modules read and write; a file holds what
-- `json.load` gives of it, or nothing where that fails. A moment is a number of microseconds. Which names a pattern of `glob.glob` finds is a parameter, for any pattern and name.
pub mod Resume
pub mod Block
pub mod Writes
pub mod Resumes
mod Examples
use Prim.Native.String.{◌++◌ as append}
use ampa.Prelude.{
  ℕ, zero, suc, ◌+◌, ◌*◌, String, Bool, true, false, not, ◌&&◌, ◌||◌, List, [], ◌∷◌, ◌++◌, Option,
  none, some, if◌then◌else◌, Dict, lookup, insert, ltb, keep, str_eq, ℤ, pos, negsuc, eq_ℤ, gt_ℤ,
  contains, nonempty,
}
use ampa.Text.{starts_with, str_len}
use ampa.Value.{Value, Fields, Items, nil, null, str, list, dict, end, field, get, truthy, ◌or◌}

pub record PromptFile : Type 0 where
  pub name : String
  pub mtime : ℕ
  pub content : Option Value

-- An event of `events.jsonl`, without its time.
pub data Event : Type 0 where
  resumed_with_input : (session response prompt_file : String) → Event
  waiting_for_input : (session prompt_file : String) → Event

-- The state files are `session_<id>.json`, by id.
pub record Dir : Type 0 where
  pub prompts : List PromptFile
  pub sessions : Dict (Option Value)
  pub events : List Event

abbrev pub no_dir : Dir
no_dir = record { prompts = []; sessions = []; events = [] }

abbrev pub or_no_dir : Option Dir → Dir
or_no_dir none = no_dir
or_no_dir (some dir) = dir

-- The directories, and the one that `_tool_output_dir` names.
pub record World : Type 0 where
  pub dirs : Dict Dir
  pub default_dir : String

abbrev pub dir_at : String → World → Dir
dir_at path world = or_no_dir (lookup path world.dirs)

abbrev pub write_dir : String → Dir → World → World
write_dir path dir world = record world { dirs = insert path dir world.dirs }

abbrev pub state_file : (session_id state : String) → Value
state_file session_id state =
    dict (field "session" (str session_id) (field "state" (str state) end))

-- `set_session_state`, without the time in the file. `writes` says whether the file can be written.
unfoldable pub set_session_state : (writes : Bool) (session_id state : String) → World → World
unfolding lookup insert
set_session_state writes session_id state world =
    let dir = dir_at world.default_dir world in
    if writes
    then write_dir world.default_dir
        (record dir {
          sessions = insert session_id (some (state_file session_id state)) dir.sessions;
        })
        world
    else world

-- `emit_internal_event`
unfoldable pub emit_internal_event : (writes : Bool) → Event → World → World
unfolding lookup insert
emit_internal_event writes event world =
    let dir = dir_at world.default_dir world in
    if writes
    then write_dir world.default_dir (record dir { events = dir.events ++ event ∷ [] }) world
    else world

-- The pattern that finds the prompts of a session.
abbrev prompt_pattern : String → String
prompt_pattern session_id = append "pending_prompt_" (append session_id "_*.json")

-- Whether `glob.glob` finds a file: `glob` says whether a name has a pattern.
abbrev pub is_prompt_of : (glob : String → String → Bool) → (session_id name : String) → Bool
is_prompt_of glob session_id name = glob (prompt_pattern session_id) name

-- The latest by `mtime`, the first of those that are equal.
abbrev pub later_of : PromptFile → Option PromptFile → PromptFile
later_of p none = p
later_of p (some q) = if ltb p.mtime q.mtime then q else p

unfoldable pub latest : List PromptFile → Option PromptFile
latest [] = none
latest (p ∷ ps) = some (later_of p (latest ps))

unfoldable pub find_pending_prompt_file :
    (glob : String → String → Bool) → String → Dir → Option PromptFile
unfolding latest
find_pending_prompt_file glob session_id dir =
    latest (keep (λ p. is_prompt_of glob session_id p.name) dir.prompts)
