-- ===== src/Session/Resume.antt =====
-- `resume_session` of src/ampa/conversation_manager.py.
use ampa.Prelude.{
  ℕ, suc, ◌+◌, ◌*◌, String, Bool, true, false, Option, none, some, if◌then◌else◌, lookup, ltb,
  str_eq, ℤ, pos, negsuc, eq_ℤ, nonempty,
}
use ampa.Value.{Value, Fields, nil, null, str, list, dict, get, ◌or◌}
use ampa.Session.{
  PromptFile, resumed_with_input, Dir, World, dir_at, set_session_state, emit_internal_event,
  find_pending_prompt_file,
}

pub data ResumeError : Type 0 where
  not_found timed_out sdk_error no_attribute : ResumeError
  invalid_state : (state : Value) → ResumeError

-- The optional client: none, one without the method, and one whose method raises or returns.
pub data Sdk : Type 0 where
  no_client no_method method_raises method_returns : Sdk

pub record Resumption : Type 0 where
  pub prompt_file : String
  pub prompt_text : Value
  pub choices : Value
  pub context : Value
  pub response : String

-- What a call of `resume_session` takes besides the session and the response: the directory of its
-- metadata, the timeout and what the environment has for it, `fromisoformat` of a text without its
-- `Z`, the time, the client, and whether the two files can be written.
pub record Call : Type 0 where
  pub tool_output_dir : Option String
  pub timeout_seconds : Option ℤ
  pub env_timeout : ℤ
  pub parse_time : String → Option ℕ
  pub now : ℕ
  pub sdk : Sdk
  pub event_written : Bool
  pub state_written : Bool

abbrev pub dir_of : Option String → World → String
dir_of none world = world.default_dir
dir_of (some path) world = if nonempty path then path else world.default_dir

-- The checks, which give an error or go on.
pub data Checked {ℓ} (A : Type ℓ) : Type ℓ where
  fail : ResumeError → Checked A
  pass : A → Checked A

abbrev pub checked_then {ℓ κ} : {A : Type ℓ} {B : Type κ} → Checked A → (A → Checked B) → Checked B
checked_then (fail e) rest = fail e
checked_then (pass a) rest = rest a

abbrev pub read_prompt : Option PromptFile → Checked (String × Fields)
read_prompt none = fail not_found
read_prompt (some p) = elim p.content [
  | none ↦ fail not_found
  | some v ↦ elim v [ dict fs ↦ pass (p.name, fs) | _ ↦ fail no_attribute ]
]

abbrev is_waiting : Value → Bool
is_waiting (str s) = str_eq s "waiting_for_input"
is_waiting _ = false

abbrev pub check_waiting : Option (Option Value) → Checked Bool
check_waiting none = fail not_found
check_waiting (some none) = fail not_found
check_waiting (some (some (dict fs))) =
    if is_waiting (get fs "state") then pass true else fail (invalid_state (get fs "state"))
check_waiting (some (some _)) = fail no_attribute

abbrev created_of : (String → Option ℕ) → Value → Option ℕ
created_of parse_time (str s) = if nonempty s then parse_time s else none
created_of parse_time _ = none

abbrev timeout_or : Option ℤ → ℤ → ℤ
timeout_or none env = env
timeout_or (some n) env = if eq_ℤ n 0 then env else n

abbrev pub older_than : ℤ → (now created : ℕ) → Bool
older_than (pos s) now created = ltb (created + s * 1000000) now
older_than (negsuc s) now created = ltb created (now + suc s * 1000000)

abbrev is_expired : Call → Option ℕ → Bool
is_expired call none = false
is_expired call (some created) =
    older_than (timeout_or call.timeout_seconds call.env_timeout) call.now created

abbrev pub check_time : Call → Fields → Checked Bool
check_time call prompt =
    if is_expired call (created_of call.parse_time (get prompt "created_at"))
    then fail timed_out
    else pass true

abbrev pub check_sdk : Sdk → Checked Bool
check_sdk no_client = pass true
check_sdk no_method = fail sdk_error
check_sdk method_raises = fail sdk_error
check_sdk method_returns = pass true

abbrev pub list_if_null : Value → Value
list_if_null null = list nil
list_if_null v = v

abbrev pub resumption : String → String → Fields → Resumption
resumption response name prompt = record {
  prompt_file = name;
  prompt_text = get prompt "prompt_text" or get prompt "summary" or str "";
  choices = list_if_null (get prompt "choices");
  context = list_if_null (get prompt "context");
  response = response;
}

-- Everything that `resume_session` asks of the directory before it changes anything.
unfoldable pub check_resume :
    (glob : String → String → Bool)
    → Call
    → (session_id response : String) → Dir
    → Checked Resumption
unfolding lookup find_pending_prompt_file
check_resume glob call session_id response dir =
    checked_then (read_prompt (find_pending_prompt_file glob session_id dir)) (λ found.
      checked_then (check_waiting (lookup session_id dir.sessions)) (λ waiting.
        checked_then (check_time call found.1) (λ in_time.
          checked_then (check_sdk call.sdk) (λ told. pass (resumption response found.0 found.1)))))

abbrev pub apply_resume :
    Call → (session_id response : String) → World → Checked Resumption → World × Checked Resumption
apply_resume call session_id response world (fail e) = (world, fail e)
apply_resume call session_id response world (pass r) = (
  set_session_state call.state_written session_id "running" (
      emit_internal_event call.event_written (resumed_with_input session_id response r.prompt_file)
        world),
  pass r,
)

-- `resume_session`
unfoldable pub resume_session :
    (glob : String → String → Bool)
    → Call
    → (session_id response : String) → World
    → World × Checked Resumption
unfolding check_resume set_session_state emit_internal_event
resume_session glob call session_id response world =
    apply_resume call session_id response world (
      check_resume glob call session_id response (dir_at (dir_of call.tool_output_dir world) world))
