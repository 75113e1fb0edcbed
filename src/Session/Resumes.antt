-- ===== src/Session/Resumes.antt =====
-- A session that was resumed is not resumed again.
use ampa.Prelude.{String, Bool, true, List, some, lookup, ◌≡◌, refl, ap, ◌∙◌, keep, subst}
use ampa.Value.{Fields, str, get_default}
use ampa.Session.{
  PromptFile, Dir, World, dir_at, state_file, is_prompt_of, latest, find_pending_prompt_file,
}
use ampa.Session.Resume.{
  invalid_state, Call, dir_of, Checked, pass, fail, checked_then, read_prompt, Resumption,
  check_resume, apply_resume, resume_session,
}
use ampa.Session.Writes.{written, running_after, prompts_after}

checked_then-pass :
    {A B : Type 0} (c : Checked A) (rest : A → Checked B) (b : B)
    → checked_then c rest ≡ pass b
    → (a : A) × (c ≡ pass a)
checked_then-pass (fail e) rest b h = absurd (cc)
checked_then-pass (pass a) rest b h = (a, refl)

apply_resume-pass :
    (call : Call) (id response : String) (world : World) (c : Checked Resumption) (r : Resumption)
    → (apply_resume call id response world c).1 ≡ pass r
    → c ≡ pass r
apply_resume-pass call id response world (fail e) r h = h
apply_resume-pass call id response world (pass a) r h = h

-- A session that runs is not resumed.
refused :
    (glob : String → String → Bool) (call : Call) (id response : String) (dir : Dir)
    (prompt : String × Fields)
    → read_prompt (find_pending_prompt_file glob id dir) ≡ pass prompt
    → lookup id dir.sessions ≡ some (some (state_file id "running"))
    → check_resume glob call id response dir ≡ fail (invalid_state (str "running"))
unfolding check_resume get_default
refused glob call id response dir prompt found running = rw (found, running) refl

prompt_passed :
    (glob : String → String → Bool) (call : Call) (id response : String) (dir : Dir)
    (r : Resumption)
    → check_resume glob call id response dir ≡ pass r
    → (prompt : String × Fields) × (read_prompt (find_pending_prompt_file glob id dir)
        ≡ pass prompt)
unfolding check_resume
prompt_passed glob call id response dir r h =
    checked_then-pass (read_prompt (find_pending_prompt_file glob id dir)) _ r h

find_same :
    (glob : String → String → Bool) (id : String) (d e : Dir)
    → d.prompts ≡ e.prompts
    → read_prompt (find_pending_prompt_file glob id d)
      ≡ read_prompt (find_pending_prompt_file glob id e)
unfolding find_pending_prompt_file
find_same glob id d e h =
    ap (λ (ps : List PromptFile). read_prompt (latest (keep (λ p. is_prompt_of glob id p.name) ps)))
      h

module _ (glob : String → String → Bool) (call : Call) (id response : String) (world : World) where
  abbrev pub after : World
  after = (resume_session glob call id response world).0

  -- Where a session is resumed in the default directory, and the state can be written, no later
  -- call resumes it again: any call that reads the default directory is refused, because the session
  -- is running.
  pub resume_once :
      (r : Resumption)
      → (resume_session glob call id response world).1 ≡ pass r
      → call.state_written ≡ true
      → dir_of call.tool_output_dir world ≡ world.default_dir
      → (again : Call) (response_again : String)
      → dir_of again.tool_output_dir after ≡ world.default_dir
      → (resume_session glob again id response_again after).1 ≡ fail (invalid_state (str "running"))
  unfolding resume_session
  resume_once r h ok here again response_again there =
      go (check_resume glob call id response (dir_at (dir_of call.tool_output_dir world) world))
        refl h
        (subst
          (λ d.
            (prompt : String × Fields) × (read_prompt
                (find_pending_prompt_file glob id (dir_at d world))
              ≡ pass prompt))
          here (passed (apply_resume-pass call id response world _ r h)))
        there
    where
      passed :
          check_resume glob call id response (dir_at (dir_of call.tool_output_dir world) world)
            ≡ pass r
          → (prompt : String × Fields) × (read_prompt (
                find_pending_prompt_file glob id (dir_at (dir_of call.tool_output_dir world) world))
              ≡ pass prompt)
      passed e =
          prompt_passed glob call id response (dir_at (dir_of call.tool_output_dir world) world) r e

      go :
          (c : Checked Resumption)
          → check_resume glob call id response (dir_at (dir_of call.tool_output_dir world) world)
            ≡ c
          → (apply_resume call id response world c).1 ≡ pass r
          → ((prompt : String × Fields) × (read_prompt
                  (find_pending_prompt_file glob id (dir_at world.default_dir world))
                ≡ pass prompt))
          → dir_of again.tool_output_dir (apply_resume call id response world c).0
            ≡ world.default_dir
          → (resume_session glob again id response_again
              (apply_resume call id response world c).0).1
            ≡ fail (invalid_state (str "running"))
      go (fail e) q k prompt there' = absurd (cc)
      go (pass s) q k (prompt, found) there' =
          let w = written call id response s world in
          ap (λ (c : Checked Resumption). (apply_resume again id response_again w c).1)
            (ap (λ d. check_resume glob again id response_again (dir_at d w)) there'
              ∙ refused glob again id response_again (dir_at world.default_dir w) prompt
                  (find_same glob id (dir_at world.default_dir w) (dir_at world.default_dir world)
                      (prompts_after call id response s world)
                    ∙ found)
                  (running_after call id response s world ok))
