-- ===== src/Storage/Tasks.antt =====
-- `TaskDefinition.to_dict` and `from_dict`, and `TaskOutput` (src/scripthut/runs/models.py). The dump and
-- the validation of an environment rule are pydantic's: parameters of the model.
use scripthut.Common.{
  ℕ, String, ◌≡◌, refl, Bool, true, false, ◌||◌, Option, none, some, List, [], if◌then◌else◌, ◌==◌,
  is_some, or_else,
}
use scripthut.Model.{
  EnvRule, Stack, TaskDefinition, TaskOutput, OutputKind, CacheScope, commit, inputs_only, markdown,
  image, other,
}
use scripthut.Storage.Json.{
  Json, Fields, bool, num, str, array, object, no_fields, field, ◌>>=◌, lookup, to_object, to_text,
  to_num, truth, to_items, required, default, optional, each, write_option, write_list,
  each-write_list, each-texts, nullable-text,
}

abbrev kind_value : OutputKind → String
kind_value markdown = "markdown"
kind_value image = "image"
kind_value other = "other"

abbrev kind_of : String → Option OutputKind
kind_of s =
    if s == "markdown"
    then some markdown
    else if s == "image"
    then some image
    else if s == "other"
    then some other
    else none

-- `TaskOutput.to_dict`
unfoldable pub output_to_dict : TaskOutput → Json
output_to_dict o = object (
    field "path" (str o.path)
      (field "size" (num o.size) (field "kind" (str (kind_value o.kind)) no_fields)))

-- `TaskOutput.from_dict`
unfoldable pub output_from_dict : Json → Option TaskOutput
unfolding ◌>>=◌
output_from_dict v = do
  d ← to_object v
  path ← required to_text d "path"
  size ← default to_num 0 (lookup d "size")
  kind ← default (λ j. to_text j >>= kind_of) other (lookup d "kind")
  some (record { path = path; size = size; kind = kind })

pub output_from_dict-to_dict : (o : TaskOutput) → output_from_dict (output_to_dict o) ≡ some o
unfolding output_from_dict output_to_dict ◌>>=◌
output_from_dict-to_dict o = kinds o.kind
  where
    kinds :
        (k : OutputKind)
        → output_from_dict (output_to_dict (record o { kind = k })) ≡ some (record o { kind = k })
    kinds markdown = refl
    kinds image = refl
    kinds other = refl

abbrev scope_value : CacheScope → String
scope_value commit = "commit"
scope_value inputs_only = "inputs"

abbrev scope_of : String → Option CacheScope
scope_of s = if s == "commit" then some commit else if s == "inputs" then some inputs_only else none

-- What pydantic does for `EnvRule` and `Stack`, and the datetime module for timestamps.
pub record Codec : Type 0 where
  pub dump_rule : EnvRule → Json
  pub validate_rule : Json → Option EnvRule
  pub dump_stack : Stack → Json
  pub validate_stack : Json → Option Stack
  pub isoformat : ℕ → String
  pub fromisoformat : String → Option ℕ

abbrev pub read_texts : Json → Option (List String)
read_texts v = to_items v >>= each to_text

abbrev pub write_texts : List String → Json
write_texts xs = array (write_list str xs)

module _ (codec : Codec) where
  -- `TaskDefinition.to_dict`
  unfoldable pub task_to_dict : TaskDefinition → Json
  task_to_dict t = object (
      field "id" (str t.id) (
        field "name" (str t.name) (
          field "command" (str t.command) (
            field "working_dir" (str t.working_dir) (
              field "partition" (str t.partition) (
                field "cpus" (num t.cpus) (
                  field "memory" (str t.memory) (
                    field "time_limit" (str t.time_limit) (
                      field "dependencies" (write_texts t.dependencies) (
                        field "generates_source" (write_option str t.generates_source) (
                          field "output_file" (write_option str t.output_file) (
                            field "error_file" (write_option str t.error_file) (
                              field "env" (array (write_list codec.dump_rule t.env)) (
                                field "gres" (write_option str t.gres) (
                                  field "image" (write_option str t.container_image) (
                                    field "inputs" (write_texts t.inputs) (
                                      field "outputs" (write_texts t.outputs) (
                                        field "cache" (bool t.cache) (
                                          field "cache_scope" (str (scope_value t.cache_scope))
                                            no_fields)))))))))))))))))))

  -- `data.get("deps", data.get("dependencies", []))`
  abbrev read_deps : Fields → Option (List String)
  read_deps d = default read_texts [] (or_else (lookup d "deps") (lookup d "dependencies"))

  abbrev is_legacy : Fields → Bool
  is_legacy d = is_some (lookup d "environment") || is_some (lookup d "env_vars")

  -- `TaskDefinition.from_dict`, past the test on the fields of old documents.
  unfoldable pub task_from_fields : Fields → Option TaskDefinition
  unfolding ◌>>=◌
  task_from_fields d = do
    env ← default (λ j. to_items j >>= each codec.validate_rule) [] (lookup d "env")
    cache_scope ← default (λ j. to_text j >>= scope_of) commit (lookup d "cache_scope")
    id ← required to_text d "id"
    name ← required to_text d "name"
    command ← required to_text d "command"
    working_dir ← default to_text "~" (lookup d "working_dir")
    partition ← default to_text "normal" (lookup d "partition")
    cpus ← default to_num 1 (lookup d "cpus")
    memory ← default to_text "4G" (lookup d "memory")
    time_limit ← default to_text "1:00:00" (lookup d "time_limit")
    dependencies ← read_deps d
    generates_source ← optional to_text (lookup d "generates_source")
    output_file ← optional to_text (lookup d "output_file")
    error_file ← optional to_text (lookup d "error_file")
    gres ← optional to_text (lookup d "gres")
    container_image ← optional to_text (lookup d "image")
    inputs ← default read_texts [] (lookup d "inputs")
    outputs ← default read_texts [] (lookup d "outputs")
    cache ← default (λ j. some (truth j)) true (lookup d "cache")
    some (record {
      id = id;
      name = name;
      command = command;
      working_dir = working_dir;
      partition = partition;
      cpus = cpus;
      memory = memory;
      time_limit = time_limit;
      dependencies = dependencies;
      generates_source = generates_source;
      output_file = output_file;
      error_file = error_file;
      env = env;
      gres = gres;
      container_image = container_image;
      inputs = inputs;
      outputs = outputs;
      cache = cache;
      cache_scope = cache_scope;
    })

  unfoldable pub task_from_dict : Json → Option TaskDefinition
  unfolding task_from_fields ◌>>=◌
  task_from_dict v = to_object v >>= λ d. if is_legacy d then none else task_from_fields d

scopes-back : (c : CacheScope) → (to_text (str (scope_value c)) >>= scope_of) ≡ some c
unfolding ◌>>=◌
scopes-back commit = refl
scopes-back inputs_only = refl

-- What the code relies on: pydantic reads back what it dumps, and a timestamp is read back from its
-- ISO format, which is never empty.
pub record ReadsBack (codec : Codec) : Type 0 where
  pub rule_back : (r : EnvRule) → codec.validate_rule (codec.dump_rule r) ≡ some r
  pub stack_back : (s : Stack) → codec.validate_stack (codec.dump_stack s) ≡ some s
  pub time_back : (n : ℕ) → codec.fromisoformat (codec.isoformat n) ≡ some n
  pub time_shown : (n : ℕ) → (codec.isoformat n == "") ≡ false

module _ (codec : Codec) (back : ReadsBack codec) where
  -- `TaskDefinition.from_dict` reads back what `TaskDefinition.to_dict` writes.
  pub task_from_dict-to_dict :
      (t : TaskDefinition) → task_from_dict codec (task_to_dict codec t) ≡ some t
  unfolding task_from_dict task_from_fields task_to_dict ◌>>=◌
  task_from_dict-to_dict t =
      rw
        (
          each-write_list codec.validate_rule codec.dump_rule back.rule_back t.env,
          scopes-back t.cache_scope,
          each-texts t.dependencies,
          nullable-text t.generates_source,
          nullable-text t.output_file,
          nullable-text t.error_file,
          nullable-text t.gres,
          nullable-text t.container_image,
          each-texts t.inputs,
          each-texts t.outputs,
        )
        refl
