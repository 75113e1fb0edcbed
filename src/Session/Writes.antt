-- ===== src/Session/Writes.antt =====
-- What the writes of a resumption leave in the directories.
use ampa.Prelude.{
  String, Bool, true, false, some, lookup, lookup-insert, ◌≡◌, refl, ap, ◌∙◌, eq_refl, subst,
}
use ampa.Session.{
  Event, resumed_with_input, Dir, World, dir_at, write_dir, state_file, set_session_state,
  emit_internal_event,
}
use ampa.Session.Resume.{Call, pass, Resumption, apply_resume}

-- What a directory that was written holds.
module _ (path : String) (dir : Dir) (world : World) where
  dir_at-same : dir_at path (write_dir path dir world) ≡ dir
  dir_at-same = rw (lookup-insert path path dir world.dirs, eq_refl path) refl

emit_default_dir :
    (writes : Bool) (event : Event) (world : World)
    → (emit_internal_event writes event world).default_dir ≡ world.default_dir
unfolding emit_internal_event
emit_default_dir true event world = refl
emit_default_dir false event world = refl

emit_prompts :
    (writes : Bool) (event : Event) (world : World)
    → (dir_at world.default_dir (emit_internal_event writes event world)).prompts
      ≡ (dir_at world.default_dir world).prompts
unfolding emit_internal_event
emit_prompts true event world = ap (λ (d : Dir). d.prompts) (dir_at-same world.default_dir _ world)
emit_prompts false event world = refl

-- The state file of a session after a write that succeeds.
state_file_written :
    (id state : String) (world : World)
    → lookup id (dir_at world.default_dir (set_session_state true id state world)).sessions
      ≡ some (some (state_file id state))
unfolding set_session_state
state_file_written id state world =
    ap (λ (d : Dir). lookup id d.sessions) (dir_at-same world.default_dir _ world)
    ∙ rw (lookup-insert, eq_refl id) refl

state_prompts :
    (writes : Bool) (id state : String) (world : World)
    → (dir_at world.default_dir (set_session_state writes id state world)).prompts
      ≡ (dir_at world.default_dir world).prompts
unfolding set_session_state
state_prompts true id state world =
    ap (λ (d : Dir). d.prompts) (dir_at-same world.default_dir _ world)
state_prompts false id state world = refl

-- The writes of a resumption.
abbrev pub written : Call → (id response : String) → Resumption → World → World
written call id response r world = (apply_resume call id response world (pass r)).0

-- The default directory after a resumption.
pub running_after :
    (call : Call) (id response : String) (r : Resumption) (world : World)
    → call.state_written ≡ true
    → lookup id (dir_at world.default_dir (written call id response r world)).sessions
      ≡ some (some (state_file id "running"))
running_after call id response r world ok =
    let event = resumed_with_input id response r.prompt_file in
    let emitted = emit_internal_event call.event_written event world in
    rw ok (
      subst
        (λ (d : String).
          lookup id (dir_at d (set_session_state true id "running" emitted)).sessions
          ≡ some (some (state_file id "running")))
        (emit_default_dir call.event_written event world) (state_file_written id "running" emitted))

pub prompts_after :
    (call : Call) (id response : String) (r : Resumption) (world : World)
    → (dir_at world.default_dir (written call id response r world)).prompts
      ≡ (dir_at world.default_dir world).prompts
prompts_after call id response r world =
    let event = resumed_with_input id response r.prompt_file in
    let emitted = emit_internal_event call.event_written event world in
    subst
      (λ (d : String).
        (dir_at d (set_session_state call.state_written id "running" emitted)).prompts
        ≡ (dir_at d emitted).prompts)
      (emit_default_dir call.event_written event world)
      (state_prompts call.state_written id "running" emitted)
    ∙ emit_prompts call.event_written event world
