-- ===== src/Model/Item.antt =====
-- The data of src/scripthut/runs/models.py up to `RunItem`, and `EnvRule` of config_schema.py.
-- A timestamp is a number of seconds. CPU efficiency, a float that is only stored and shown, is a
-- number of hundredths of a percent.
use scripthut.Common.{ℕ, String, Bool, true, false, Option, none, List, []}
use scripthut.Common.Dict.{Dict}

-- What a guard expects of a variable: one text, or one of several.
pub data Expected : Type 0 where
  one : String → Expected
  one_of : List String → Expected

abbrev pub Guard : Type 0
Guard = Dict Expected

-- `if_` is an `if:` block, and `set`, `append`, `init` are what the rule contributes.
pub record EnvRule : Type 0 where
  pub if_ : Option Guard
  pub include : List String
  pub stacks : List String
  pub set : Dict String
  pub append : Dict String
  pub init : String

pub data CacheScope : Type 0 where
  commit inputs_only : CacheScope

pub data OutputKind : Type 0 where
  markdown image other : OutputKind

pub record TaskOutput : Type 0 where
  pub path : String
  pub size : ℕ
  pub kind : OutputKind

pub record TaskDefinition : Type 0 where
  pub id : String
  pub name : String
  pub command : String
  pub working_dir : String
  pub partition : String
  pub cpus : ℕ
  pub memory : String
  pub time_limit : String
  pub dependencies : List String
  pub generates_source : Option String
  pub output_file : Option String
  pub error_file : Option String
  pub env : List EnvRule
  pub gres : Option String
  pub container_image : Option String
  pub inputs : List String
  pub outputs : List String
  pub cache : Bool
  pub cache_scope : CacheScope

pub data RunItemStatus : Type 0 where
  pending submitted queued running settling completed failed dep_failed : RunItemStatus

pub record RunItem : Type 0 where
  pub task : TaskDefinition
  pub status : RunItemStatus
  pub job_id : Option String
  pub user : Option String
  pub submitted_at : Option ℕ
  pub started_at : Option ℕ
  pub finished_at : Option ℕ
  pub error : Option String
  pub submit_script : Option String
  pub submit_output : Option String
  pub cpu_efficiency : Option ℕ
  pub max_rss : Option String
  pub scheduler_state : Option String
  pub exit_code : Option ℕ
  pub outputs : List TaskOutput
  pub has_run_summary : Bool
  pub pending_reason : Option String
  pub cache_key : Option String
  pub cache_hit : Bool
  pub input_hashes : Option (Dict String)
  pub output_hashes : Option (Dict String)

-- `RunItem(task=t)`
unfoldable pub new_item : TaskDefinition → RunItem
new_item t = record {
  task = t;
  status = pending;
  job_id = none;
  user = none;
  submitted_at = none;
  started_at = none;
  finished_at = none;
  error = none;
  submit_script = none;
  submit_output = none;
  cpu_efficiency = none;
  max_rss = none;
  scheduler_state = none;
  exit_code = none;
  outputs = [];
  has_run_summary = false;
  pending_reason = none;
  cache_key = none;
  cache_hit = false;
  input_hashes = none;
  output_hashes = none;
}

-- `status == PENDING`
abbrev pub is_pending : RunItemStatus → Bool
is_pending pending = true
is_pending _ = false

-- `status == COMPLETED`
abbrev pub is_completed : RunItemStatus → Bool
is_completed completed = true
is_completed _ = false

-- `status in (FAILED, DEP_FAILED)`
abbrev pub is_failure : RunItemStatus → Bool
is_failure failed = true
is_failure dep_failed = true
is_failure _ = false

-- `status in (COMPLETED, FAILED, DEP_FAILED)`
abbrev pub is_finished : RunItemStatus → Bool
is_finished completed = true
is_finished failed = true
is_finished dep_failed = true
is_finished _ = false

-- `status in (RUNNING, QUEUED, SUBMITTED, SETTLING)`
abbrev pub holds_slot : RunItemStatus → Bool
holds_slot running = true
holds_slot queued = true
holds_slot submitted = true
holds_slot settling = true
holds_slot _ = false
