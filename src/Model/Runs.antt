-- ===== src/Model/Runs.antt =====
-- `Run` and `RunStatus` of src/scripthut/runs/models.py, and `Stack` of config_schema.py.
use scripthut.Common.{ℕ, String, Bool, Option, List}
use scripthut.Common.Dict.{Dict}
use scripthut.Model.Item.{EnvRule, RunItem}

pub record Stack : Type 0 where
  pub name : String
  pub backends : List String
  pub cache_dir : String
  pub inputs : Dict String
  pub input_files : List String
  pub prep : String
  pub init : String
  pub cpus : ℕ
  pub memory : String
  pub time_limit : String
  pub partition : Option String

pub data RunStatus : Type 0 where
  pending running completed failed cancelled : RunStatus

pub record Run : Type 0 where
  pub id : String
  pub workflow_name : String
  pub backend_name : String
  pub created_at : ℕ
  pub items : List RunItem
  pub max_concurrent : Option ℕ
  pub log_dir : String
  pub account : Option String
  pub login_shell : Bool
  pub commit_hash : Option String
  pub git_repo : Option String
  pub git_branch : Option String
  pub source_name : Option String
  pub doc_env : List EnvRule
  pub doc_env_groups : Dict (List EnvRule)
  pub doc_stacks : Dict Stack
  pub agent_session : Bool
  pub agent_mode : Option String
  pub agent_session_name : Option String
