-- ===== src/Session/Block.antt =====
-- `detect_and_surface_blocking_prompt` of src/ampa/session_block.py. The notification is not
-- modelled. `resolve_mode` is that of Fallback, which raises nothing.
use Prim.Native.String.{◌++◌ as append}
use ampa.Prelude.{
  true, false, ℕ, zero, suc, String, Bool, not, ◌&&◌, ◌||◌, List, [], ◌∷◌, ◌++◌, Option, none, some,
  if◌then◌else◌, keep, str_eq, leb, ℤ, insert, lookup,
}
use ampa.Text.{is_space, join, rstrip, str_len}
use ampa.Value.{Value, Fields, nil, null, str, list, dict, end, field}
use ampa.Fallback.{resolve_mode}
use ampa.Session.{
  PromptFile, waiting_for_input, World, dir_at, write_dir, set_session_state, emit_internal_event,
}
use ampa.Session.Resume.{Call, Sdk, Checked, pass, fail, Resumption, resume_session}

abbrev pub flush : String → List String → List String
flush String.[] words = words
flush (String.◌∷◌ c s) words = String.◌∷◌ c s ∷ words

-- `s.split()`: the word that is being read, and the rest.
unfoldable pub words_from : String → String → List String
words_from word String.[] = flush word []
words_from word (String.◌∷◌ c s) =
    let next = words_from String.[] s in
    let longer = words_from (append word (String.◌∷◌ c String.[])) s in
    if is_space c then flush word next else longer

unfoldable pub first_chars : ℕ → String → String
first_chars zero s = String.[]
first_chars (suc n) String.[] = String.[]
first_chars (suc n) (String.◌∷◌ c s) = String.◌∷◌ c (first_chars n s)

unfoldable pub cut : ℕ → String → String
unfolding first_chars rstrip
cut limit one =
    if leb (str_len one) limit then one else append (rstrip (first_chars limit one)) "..."

unfoldable pub excerpt_text : ℕ → String → String
unfolding words_from join cut
excerpt_text limit text = cut limit (join " " (words_from String.[] text))

-- What is asked, and what the environment gives: the time as a text and as a number, the stamp, the
-- fallback mode, whether it is applied, and whether the files can be written; `glob` is
-- that of Session. The client and the
-- timeout of the resumption are those of a call without them.
pub record Prompt : Type 0 where
  pub work_item_id : Option String
  pub prompt_text : String
  pub choices : Option Value
  pub context : Option Value

pub record Surroundings : Type 0 where
  pub ts : String
  pub now : ℕ
  pub stamp : String
  pub fallback_mode : Option String
  pub config_file : Option Value
  pub auto_apply : Bool
  pub env_timeout : ℤ
  pub parse_time : String → Option ℕ
  pub glob : (pattern name : String) → Bool
  pub prompt_written : Bool
  pub state_written : Bool
  pub event_written : Bool

abbrev or_null : Option String → Value
or_null none = null
or_null (some s) = str s

abbrev or_empty_list : Option Value → Value
or_empty_list none = list nil
or_empty_list (some v) = v

abbrev pub prompt_name : (session_id stamp : String) → String
prompt_name session_id stamp =
    append (append "pending_prompt_" (append session_id "_")) (append stamp ".json")

unfoldable pub prompt_fields : Surroundings → (session_id : String) → Prompt → Fields
unfolding excerpt_text
prompt_fields env session_id prompt = field "session" (str session_id) (
    field "session_id" (str session_id) (
      field "work_item" (or_null prompt.work_item_id) (
        field "summary" (str (excerpt_text 500 prompt.prompt_text)) (
          field "prompt_text" (str prompt.prompt_text) (
            field "choices" (or_empty_list prompt.choices) (
              field "context" (or_empty_list prompt.context) (
                field "state" (str "waiting_for_input")
                  (field "created_at" (str env.ts) (field "stamp" (str env.stamp) end)))))))))

abbrev pub prompt_file : Surroundings → (session_id : String) → Prompt → PromptFile
prompt_file env session_id prompt = record {
  name = prompt_name session_id env.stamp;
  mtime = env.now;
  content = some (dict (prompt_fields env session_id prompt));
}

-- A file of the same name is written over.
unfoldable pub write_prompt : Bool → PromptFile → World → World
unfolding lookup insert
write_prompt writes file world =
    let dir = dir_at world.default_dir world in
    if writes
    then write_dir world.default_dir
        (record dir {
          prompts = keep (λ p. not (str_eq p.name file.name)) dir.prompts ++ file ∷ [];
        })
        world
    else world

-- The fallback mode of the prompt: `resolve_mode` for its work item.
unfoldable pub mode_for_prompt : Surroundings → Prompt → String
unfolding resolve_mode
mode_for_prompt env prompt =
    resolve_mode true false env.fallback_mode true env.config_file prompt.work_item_id none none

abbrev pub answer_of : String → String
answer_of mode = if str_eq mode "auto-accept" then "accept" else "decline"

abbrev pub automatic : String → Bool
automatic mode = str_eq mode "auto-accept" || str_eq mode "auto-decline"

-- What happened to the prompt.
pub data Surfaced : Type 0 where
  held : Surfaced
  answered : Resumption → Surfaced

abbrev pub hold : Surroundings → (session_id : String) → World → World
hold env session_id world =
    emit_internal_event env.event_written
      (waiting_for_input session_id (prompt_name session_id env.stamp))
      (set_session_state env.state_written session_id "waiting_for_input" world)

abbrev pub hold_unless :
    Surroundings → (session_id : String) → World × Checked Resumption → World × Surfaced
hold_unless env session_id (world, pass r) = (world, answered r)
hold_unless env session_id (world, fail e) = (hold env session_id world, held)

abbrev pub auto_call : Surroundings → World → Call
auto_call env world = record {
  tool_output_dir = some world.default_dir;
  timeout_seconds = none;
  env_timeout = env.env_timeout;
  parse_time = env.parse_time;
  now = env.now;
  sdk = Sdk.no_client;
  event_written = env.event_written;
  state_written = env.state_written;
}

unfoldable pub surface : Surroundings → (session_id : String) → Prompt → World → World × Surfaced
unfolding mode_for_prompt write_prompt prompt_fields set_session_state emit_internal_event
    resume_session
surface env session_id prompt world =
    let asked = write_prompt env.prompt_written (prompt_file env session_id prompt) world in
    if env.auto_apply && automatic (mode_for_prompt env prompt)
    then hold_unless env session_id (
        resume_session env.glob (auto_call env asked) session_id
          (answer_of (mode_for_prompt env prompt))
          (set_session_state env.state_written session_id "waiting_for_input" asked))
    else (hold env session_id asked, held)
