-- ===== src/Tests.antt =====
-- Small runs of src/scripthut on which the theorems are applied.
mod Polls
mod Disks
mod Documents
mod Graphs
mod Hubs
mod Heat
use scripthut.Common.{
  ◌⊎◌, ℕ, ◌≤◌, String, ◌<>◌, ◌≡◌, refl, true, false, ◌==◌, Option, none, some, List, [], ◌∷◌, arith,
  Pointwise, if◌then◌else◌,
}
use scripthut.Common.Dict.{Dict, get}
use scripthut.Model.{
  EnvRule, TaskDefinition, RunItem, RunItemStatus, Run, one, commit, new_item, running_count,
  pending_count, find_item,
}
use scripthut.Model.Status.{status}
use scripthut.Model.Uncascade.{uncascade}
use scripthut.Model.Uncascade.Restored.{Restored, uncascade-Restored}
use scripthut.Env.{LabeledRule, is_protected, resolve_detailed}
use scripthut.Env.Resolve.{resolve_detailed-Protects, value_of}
use scripthut.Env.Layers.{EnvConfig, Flat, flatten, resolve_for_task}
use scripthut.Env.Flatten.{IsAnswer, flatten-IsAnswer}
use scripthut.Env.Task.{FromSeed, resolve_for_task-FromSeed}
use scripthut.Manager.World.{World, ok}
use scripthut.Manager.Cascade.{cascade}
use scripthut.Manager.Cascade.Fixpoint.{Settled, cascade-Settled}
use scripthut.Manager.Submit.{submit_task}
use scripthut.Manager.Submit.Outcome.{Submitted, submit_task-Submitted}
use scripthut.Manager.Slots.{is_active, backend_running_count}
use scripthut.Manager.Process.{submit_pass, process_run}
use scripthut.Manager.Process.Frame.{RunExtends}
use scripthut.Manager.Process.Effects.{PassOk, submit_pass-PassOk, process_run-RunExtends}
use scripthut.Manager.Process.Caps.{process_run-WithinCap, process_run-BackendWithin}
use scripthut.Manager.Process.Returns.{process_run-returns}
use scripthut.Manager.Observe.{JobState}
use scripthut.Manager.Control.{
  CancelCall, cancel_run, reset_run, rerun_in_place, delete_run, get_active_runs,
}
use scripthut.Manager.Control.Cancelling.{Cancelled, cancel_run-Cancelled}
use scripthut.Manager.Control.Ending.{cancel_run-ends}
use scripthut.Manager.Control.Outcomes.{
  IsFresh, rerun_in_place-RunExtends, get_active_runs-delete_run,
}

abbrev a_task : String → List String → TaskDefinition
a_task id deps = record {
  id = id;
  name = id;
  command = "make " <> id;
  working_dir = "/work";
  partition = "normal";
  cpus = 1;
  memory = "4G";
  time_limit = "1:00:00";
  dependencies = deps;
  generates_source = none;
  output_file = none;
  error_file = none;
  env = [];
  gres = none;
  container_image = none;
  inputs = [];
  outputs = [];
  cache = true;
  cache_scope = commit;
}

-- The task "data" has outputs, and the store knows them.
abbrev data_item : RunItem
data_item = new_item (record (a_task "data" []) { outputs = "data.csv" ∷ [] })

abbrev fit_item : RunItem
fit_item = new_item (a_task "fit" ("data" ∷ []))

abbrev plot_item : RunItem
plot_item = new_item (a_task "plot" ("lost" ∷ []))

abbrev lost_item : RunItem
lost_item = record (new_item (a_task "lost" [])) { status = RunItemStatus.failed }

abbrev some_items : List RunItem
some_items = data_item ∷ fit_item ∷ plot_item ∷ lost_item ∷ []

abbrev a_run : List RunItem → Run
a_run items = record {
  id = "r1";
  workflow_name = "demo";
  backend_name = "hpc";
  created_at = 1;
  items = items;
  max_concurrent = some 2;
  log_dir = "~/logs";
  account = none;
  login_shell = false;
  commit_hash = some "abc";
  git_repo = none;
  git_branch = none;
  source_name = none;
  doc_env = [];
  doc_env_groups = [];
  doc_stacks = [];
  agent_session = false;
  agent_mode = none;
  agent_session_name = none;
}

-- A backend with a shell that takes every job, and a store with one entry.
abbrev a_world : World
a_world = record {
  now = 100;
  has_job_backend = λ name. name == "hpc";
  has_ssh = λ name. name == "hpc";
  home_dir = "/home/u";
  backend_cap = λ name. some 3;
  environment = λ run task. ok (("A", "1") ∷ [], "");
  generate_script = λ task dir env init. ok ("#!/bin/bash " <> task.command);
  submit_job = λ task script env. ok (record { job_id = "j-" <> task.id; submit_output = "" });
  cache_enabled = true;
  hash_inputs = λ dir paths. some [];
  compute_key = λ parts. parts.command;
  cache_lookup = λ key.
      if key == "make data"
      then some (record {
        exit_code = some 0;
        content_hash = none;
        output_files = "data.csv" ∷ [];
        output_hashes = some [];
      })
      else none;
  cache_restore = λ dir m. true;
  read_source = λ path. none;
  fnmatch = λ id pattern. id == pattern;
  list_outputs = λ run item. none;
}

abbrev start_run : Run
start_run = a_run some_items

-- What a pass over the run gives: "data" comes from the cache, which lets "fit" go.
abbrev passed : Run
passed = elim (process_run a_world 4 [] [] true start_run) [ none ↦ start_run | some run ↦ run ]

passed_found : process_run a_world 4 [] [] true start_run ≡ some passed
unfolding process_run find_item
passed_found = refl

abbrev statuses : List RunItem → List RunItemStatus
statuses [] = []
statuses (i ∷ items) = i.status ∷ statuses items

passed_statuses :
    statuses passed.items
    ≡ RunItemStatus.completed ∷ RunItemStatus.submitted ∷ RunItemStatus.dep_failed
      ∷ RunItemStatus.failed ∷ []
unfolding process_run find_item
passed_statuses = refl

cascade-Settled_example :
    (final : List RunItem) × (cascade 100 some_items ≡ some final) × Settled 100 some_items final
cascade-Settled_example = cascade-Settled 100 some_items

submit_pass-PassOk_example :
    (sent : Run) × (hits : List ℕ) × (submit_pass a_world [] [] true start_run ≡ some (sent, hits))
    × PassOk a_world start_run sent hits
submit_pass-PassOk_example = submit_pass-PassOk a_world [] [] true start_run

process_run-returns_example :
    (run' : Run) × (process_run a_world 4 [] [] true start_run ≡ some run')
    × RunExtends start_run run'
unfolding pending_count new_item
process_run-returns_example =
    process_run-returns a_world 4 [] [] true start_run (refl, (refl, (refl, (refl, tt))))
      (omega arith)

process_run-WithinCap_example : running_count passed.items ≤ 2
unfolding running_count new_item
process_run-WithinCap_example =
    process_run-WithinCap a_world 4 [] [] true start_run passed 2 passed_found refl (omega arith)

process_run-BackendWithin_example : backend_running_count (passed ∷ []) "hpc" ≤ 3
unfolding backend_running_count new_item
process_run-BackendWithin_example =
    process_run-BackendWithin a_world 4 [] [] true start_run passed passed_found (omega arith)

process_run-RunExtends_example : RunExtends start_run passed
process_run-RunExtends_example =
    process_run-RunExtends a_world 4 [] [] true start_run passed passed_found

submit_task-Submitted_example : Submitted data_item (submit_task a_world start_run data_item)
submit_task-Submitted_example = submit_task-Submitted a_world start_run data_item

-- The queue runs the job of "data" and does not know that of "fit".
abbrev at_status : RunItemStatus → String → RunItem → RunItem
at_status s job_id i = record i { status = s; job_id = some job_id; submitted_at = some 50 }

abbrev watched : List RunItem
watched =
    at_status RunItemStatus.submitted "1" data_item
    ∷ at_status RunItemStatus.running "2" fit_item
    ∷ plot_item
    ∷ lost_item
    ∷ []

abbrev queue : Dict JobState
queue = ("1", JobState.running) ∷ []

abbrev no_refusal : CancelCall → Option String
no_refusal call = none

cancel_run-Cancelled_example :
    Pointwise (Cancelled 100) watched (cancel_run a_world no_refusal (a_run watched)).0.items
    × ((cancel_run a_world no_refusal (a_run watched)).1
        ≡ CancelCall.cancel_job "1" ∷ CancelCall.cancel_job "2" ∷ [])
unfolding cancel_run new_item
cancel_run-Cancelled_example = cancel_run-Cancelled a_world no_refusal (a_run watched) refl

cancel_run-ends_example :
    is_active (status (cancel_run a_world no_refusal (a_run watched)).0) ≡ false
unfolding cancel_run new_item
cancel_run-ends_example =
    cancel_run-ends a_world no_refusal (a_run watched) refl (refl, (refl, (refl, (refl, tt))))

abbrev ended_run : Run
ended_run = a_run (lost_item ∷ [])

rerun_in_place-RunExtends_example :
    (fresh run' : Run) × IsFresh 100 ended_run fresh
    × (process_run a_world 2 [] [] true fresh ≡ some run')
    × (rerun_in_place a_world 2 [] [] ended_run ≡ ok (some run'))
    × RunExtends fresh run'
unfolding status new_item
rerun_in_place-RunExtends_example =
    rerun_in_place-RunExtends a_world 2 [] [] ended_run refl (refl, tt) (omega arith)

get_active_runs-delete_run_example :
    get_active_runs (delete_run (start_run ∷ ended_run ∷ []) "r1").0
    ≡ get_active_runs (start_run ∷ ended_run ∷ [])
get_active_runs-delete_run_example = get_active_runs-delete_run (start_run ∷ ended_run ∷ []) "r1"

-- A rule that tries to set a protected variable, and sets another by its value.
abbrev a_rule : LabeledRule
a_rule = record {
  rule = record {
    if_ = some (("SCRIPTHUT_BACKEND", one "hpc") ∷ []);
    include = [];
    stacks = [];
    set = ("SCRIPTHUT_BACKEND", "other") ∷ ("OUT", "/out/${SCRIPTHUT_BACKEND}/$x") ∷ [];
    append = ("OUT", "/more") ∷ [];
    init = "";
  };
  source = "task";
  extra_guards = [];
}

abbrev a_seed : Dict String
a_seed = ("SCRIPTHUT_BACKEND", "hpc") ∷ []

resolved_out : get (resolve_detailed (a_rule ∷ []) a_seed).0 "OUT" ≡ some "/out/hpc/$x:/more"
unfolding resolve_detailed
resolved_out = refl

resolve_detailed-Protects_example :
    ((is_protected "SCRIPTHUT_BACKEND" ≡ false)
      ⊎ (get (resolve_detailed (a_rule ∷ []) a_seed).0 "SCRIPTHUT_BACKEND"
          ≡ get a_seed "SCRIPTHUT_BACKEND"))
    × (value_of (get (resolve_detailed (a_rule ∷ []) a_seed).2 "SCRIPTHUT_BACKEND")
        ≡ get (resolve_detailed (a_rule ∷ []) a_seed).0 "SCRIPTHUT_BACKEND")
resolve_detailed-Protects_example =
    resolve_detailed-Protects (a_rule ∷ []) a_seed "SCRIPTHUT_BACKEND"

-- Two groups that include each other.
abbrev including : String → EnvRule
including name = record {
  if_ = none;
  include = name ∷ [];
  stacks = [];
  set = [];
  append = [];
  init = "";
}

abbrev a_cycle : Dict (List EnvRule)
a_cycle = ("a", including "b" ∷ []) ∷ ("b", including "a" ∷ []) ∷ []

abbrev include_a : List LabeledRule
include_a = record { rule = including "a"; source = "task"; extra_guards = [] } ∷ []

cycle_found : flatten a_cycle [] 3 [] include_a ≡ Flat.cycle ("b" ∷ "a" ∷ []) "a"
unfolding flatten
cycle_found = refl

flatten-IsAnswer_example : IsAnswer (flatten a_cycle [] 3 [] include_a)
flatten-IsAnswer_example = flatten-IsAnswer a_cycle [] include_a

abbrev a_config : EnvConfig
a_config = record {
  backends = ("hpc", (a_rule.rule ∷ [], [])) ∷ [];
  env = [];
  env_groups = a_cycle;
  stacks = [];
}

resolve_for_task-FromSeed_example :
    FromSeed a_seed "SCRIPTHUT_BACKEND"
      (resolve_for_task a_config "hpc" fit_item.task a_seed [] [] [])
unfolding is_protected
resolve_for_task-FromSeed_example =
    resolve_for_task-FromSeed a_config "hpc" fit_item.task a_seed [] [] [] "SCRIPTHUT_BACKEND" refl

-- "fit" failed behind "data", which is pending again.
abbrev stuck_items : List RunItem
stuck_items = data_item ∷ record fit_item { status = RunItemStatus.dep_failed } ∷ []

uncascade-Restored_example :
    (final : List RunItem) × (uncascade stuck_items ≡ some final) × Restored stuck_items final
uncascade-Restored_example = uncascade-Restored stuck_items
