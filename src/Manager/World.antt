-- ===== src/Manager/World.antt =====
-- What `RunManager` calls and does not implement: the clock, the job backends (an abstract class in
-- src/scripthut/backends/base.py), the shell on the backend, and the object store behind
-- src/scripthut/runs/cache.py. One value of `World` answers the calls of one operation.
use scripthut.Common.{ℕ, String, Bool, Option, List}
use scripthut.Common.Dict.{Dict}
use scripthut.Model.{TaskDefinition, EnvRule, Run, TaskOutput, RunItem}

-- A call that raises carries the text of its exception.
pub data Result (A : Type 0) : Type 0 where
  ok : A → Result A
  raised : String → Result A

-- `SubmitResult` of backends/base.py.
pub record SubmitResult : Type 0 where
  pub job_id : String
  pub submit_output : String

-- The JSON document at `ac/<key>.json` of the store, as far as it is read.
pub record CacheManifest : Type 0 where
  pub exit_code : Option ℕ
  pub content_hash : Option String
  pub output_files : List String
  pub output_hashes : Option (Dict String)

-- The arguments of `CacheManager.compute_key`.
pub record KeyParts : Type 0 where
  pub command : String
  pub env : Dict String
  pub commit_hash : Option String
  pub input_hashes : Dict String

-- What `TaskDefinition.parse_document` returns.
pub record Document : Type 0 where
  pub tasks : List TaskDefinition
  pub doc_env : List EnvRule
  pub doc_groups : Dict (List EnvRule)

pub record World : Type 0 where
  pub now : ℕ
  -- `get_job_backend(name) is not None`, `get_ssh_client(name) is not None`
  pub has_job_backend : String → Bool
  pub has_ssh : String → Bool
  -- `echo $HOME`, stripped
  pub home_dir : String
  -- `config.get_backend(name).max_concurrent`, if there is such a backend
  pub backend_cap : String → Option ℕ
  -- `_resolve_environment`
  pub environment : Run → TaskDefinition → Result (Dict String × String)
  -- `JobBackend.generate_script` and `JobBackend.submit_task`
  pub generate_script : TaskDefinition → String → Dict String → String → Result String
  pub submit_job : TaskDefinition → String → Dict String → Result SubmitResult
  -- `CacheManager`
  pub cache_enabled : Bool
  pub hash_inputs : String → List String → Option (Dict String)
  pub compute_key : KeyParts → String
  pub cache_lookup : String → Option CacheManifest
  pub cache_restore : String → CacheManifest → Bool
  -- `cat path`, `json.loads` and `parse_document`, when none of them fails
  pub read_source : String → Option Document
  -- `fnmatch(task_id, pattern)`
  pub fnmatch : String → String → Bool
  -- the listing of `_handle_task_outputs`, when the shell can be reached
  pub list_outputs : Run → RunItem → Option (List TaskOutput × Bool)
