-- ===== src/Session/Examples.antt =====
-- Tests of the sessions, and their theorems at concrete inputs.
use ampa.Prelude.{
  String, Bool, ◌&&◌, str_eq, true, [], ◌∷◌, Option, none, some, ◌≡◌, refl, pos, lookup, insert,
}
use ampa.Text.{starts_with}
use ampa.Value.{Value, Fields, str, dict, end, field, get_default}
use ampa.Session.{
  PromptFile, Dir, World, dir_at, latest, find_pending_prompt_file, set_session_state,
  emit_internal_event,
}
use ampa.Session.Resume.{
  Call, Sdk, Checked, pass, fail, invalid_state, Resumption, check_resume, resume_session,
}
use ampa.Session.Block.{excerpt_text, words_from, cut}
use ampa.Session.Resumes.{after, resume_once}

-- The names that have the pattern of the session `s1`.
abbrev matches : String → String → Bool
matches pattern name =
    str_eq pattern "pending_prompt_s1_*.json" && starts_with name "pending_prompt_s1_"

abbrev waiting : Option Value
waiting = some (dict (field "state" (str "waiting_for_input") end))

abbrev a_prompt : PromptFile
a_prompt = record {
  name = "pending_prompt_s1_17.json";
  mtime = 17;
  content = some (dict (field "prompt_text" (str "Go on?") (field "created_at" (str "1970") end)));
}

abbrev full : Dir
full = record { prompts = a_prompt ∷ []; sessions = ("s1", waiting) ∷ []; events = [] }

abbrev world : World
world = record { dirs = ("/out", full) ∷ ("/tmp", full) ∷ []; default_dir = "/out" }

abbrev in_default : Call
in_default = record {
  tool_output_dir = none;
  timeout_seconds = none;
  env_timeout = pos 86400;
  parse_time = λ s. some 0;
  now = 1000000;
  sdk = Sdk.no_client;
  event_written = true;
  state_written = true;
}

abbrev resumed : Resumption
resumed = record {
  prompt_file = "pending_prompt_s1_17.json";
  prompt_text = str "Go on?";
  choices = Value.list ampa.Value.Items.nil;
  context = Value.list ampa.Value.Items.nil;
  response = "yes";
}

expired_test :
    (resume_session matches
      (record in_default { timeout_seconds = some (pos 0); env_timeout = pos 0 })
      "s1"
      "yes"
      world).1
    ≡ fail ampa.Session.Resume.ResumeError.timed_out
unfolding resume_session check_resume find_pending_prompt_file starts_with latest get_default lookup
expired_test = refl

excerpt_test : excerpt_text 5 " a  bc\n d " ≡ "a bc..."
unfolding excerpt_text cut words_from
excerpt_test = refl

resume_once_example :
    (resume_session matches in_default "s1" "no" (after matches in_default "s1" "yes" world)).1
    ≡ fail (invalid_state (str "running"))
unfolding resume_session check_resume find_pending_prompt_file starts_with latest get_default lookup
    set_session_state emit_internal_event insert
resume_once_example =
    resume_once matches in_default "s1" "yes" world resumed refl refl refl in_default "no" refl
