-- ===== src/Engine/Sample.antt =====
-- Test data: a workflow with one delegation, one item, and services that all answer.
use ampa.Prelude.{String, true, false, [], ◌∷◌, none, some, ok, ℤ, length}
use ampa.Value.{Fields, str, end, field}
use ampa.Engine.Descriptor.{StateTuple, alias, inline, Command, WorkflowDescriptor, Invariant}
use ampa.Engine.Records.{DispatchResult}
use ampa.Engine.World.{Re, Services}
use ampa.Engine.Evaluator.{InvariantEvaluator, null_querier}
use ampa.Engine.Core.{Engine}

abbrev pub idea : StateTuple
idea = record { status = "open"; stage = "idea" }

abbrev pub intake : StateTuple
intake = record { status = "in-progress"; stage = "intake" }

abbrev pub delegate : Command
delegate = record {
  name = "delegate";
  description = "Give the item to an agent";
  from_states = inline intake ∷ alias "idea" ∷ [];
  to = alias "intake";
  actor = "PM";
  pre = [];
  post = [];
  inputs = [];
  prompt_ref = "";
  effects = some (record {
    add_tags = [];
    remove_tags = [];
    set_assignee = some "Casey";
    set_needs_producer_review = none;
    notifications = [];
    audit = none;
  });
  dispatch_map = ("idea", "run /intake {id}") ∷ [];
}

abbrev has_title : String → Invariant
has_title text = record { name = "has_title"; description = text; phases = "pre" ∷ []; logic = "" }

abbrev pub workflow : WorkflowDescriptor
workflow = record {
  version = "1.0.0";
  metadata = record { name = "w"; description = ""; owner = ""; roles = []; links = [] };
  statuses = "open" ∷ "in-progress" ∷ [];
  stages = "idea" ∷ "intake" ∷ [];
  states = ("idea", idea) ∷ ("intake", intake) ∷ [];
  terminal_states = [];
  invariants = has_title "first" ∷ has_title "second" ∷ [];
  commands = ("delegate", delegate) ∷ [];
}

abbrev pub item : Fields
item =
    field "id" (str "WI-1")
      (field "status" (str "open") (field "stage" (str "idea") (field "title" (str "Door") end)))

abbrev pub held_item : Fields
held_item = field "id" (str "WI-0") (field "tags" (str "ui, do-not-delegate") item)

abbrev pub answer : String → String → DispatchResult
answer command id = record {
  success = true;
  command = command;
  work_item_id = id;
  timestamp = 3;
  pid = some 4711;
  error = none;
  container_id = none;
}

abbrev pub services : ℤ → Services
services in_progress = record {
  count_in_progress = λ t. ok in_progress;
  fetch_candidates = λ t. ok (held_item ∷ item ∷ []);
  fetch = λ t id. ok (some item);
  update = λ t id status stage assignee. ok true;
  write_comment = λ t id text. ok true;
  dispatch = λ t command id. ok (answer command id);
  record_dispatch = λ t r. ok (some "d-1");
  send = λ t text. ok true;
  clock = λ t. length t;
}

abbrev pub no_re : Re
no_re = record { groups = λ pattern text. none; search = λ pattern text. ok false }

abbrev pub evaluator : InvariantEvaluator
evaluator = record {
  index = ("has_title", has_title "second") ∷ [];
  re = no_re;
  querier = null_querier;
}

abbrev pub engine : Engine
engine = record {
  descriptor = workflow;
  selector = record { valid_states = intake ∷ idea ∷ [] };
  evaluator = evaluator;
  config = record {
    descriptor_path = "w.yaml";
    max_concurrency = 1;
    fallback_mode = none;
    audit_only = false;
  };
  services = services (ℤ.pos 0);
}
