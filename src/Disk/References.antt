-- ===== src/Disk/References.antt =====
-- `build_run_references` of src/scripthut/disk/classify.py. A Python `set` of texts is a list without
-- repetition, in the order of insertion: what is shown of one is sorted first.
use scripthut.Common.{
  String, ◌<>◌, ◌||◌, Option, none, some, List, [], ◌∷◌, ◌++◌, map, if◌then◌else◌, ◌==◌, elem,
  truthy,
}
use scripthut.Common.Dict.{Dict, get, put}
use scripthut.Common.Text.{starts_with, split, take_text}
use scripthut.Model.{RunItem, Run}
use scripthut.Model.Status.{status}
use scripthut.Manager.Slots.{is_active}
use scripthut.Disk.Paths.{normalize_remote_path, first_component_under, is_clone_hash, is_agent_dir}

abbrev pub Ids : Type 0
Ids = List String

-- `ids.add(id)`
unfoldable pub add : Ids → String → Ids
add ids id = if elem id ids then ids else ids ++ id ∷ []

abbrev pub ids_of : Option Ids → Ids
ids_of none = []
ids_of (some ids) = ids

-- `d.setdefault(key, set()).add(id)`
unfoldable pub note : Dict Ids → String → String → Dict Ids
unfolding get put add
note d key id = put d key (add (ids_of (get d key)) id)

pub record RunReferences : Type 0 where
  pub clone_hashes : Dict Ids
  pub agent_dirs : Dict Ids
  pub log_dirs : Dict Ids
  pub active_run_ids : Ids
  pub clone_sources : Dict Ids
  pub agent_sources : Dict Ids

abbrev second_of_three : List String → Option String
second_of_three (a ∷ b ∷ c ∷ rest) = some b
second_of_three _ = none

abbrev first_of_two : List String → Option String
first_of_two (a ∷ b ∷ rest) = some a
first_of_two _ = none

-- `run_source_label`
unfoldable pub run_source_label : String → Option String
unfolding starts_with split
run_source_label workflow =
    if starts_with workflow "_stack/"
    then second_of_three (split b'/' workflow)
    else if starts_with workflow "_"
    then none
    else first_of_two (split b'/' workflow)

-- `if source: d.setdefault(key, set()).add(source)`
abbrev note_source : Dict Ids → String → Option String → Dict Ids
note_source d key none = d
note_source d key (some source) = note d key source

-- What a path below a clone directory refers to, by its first component.
unfoldable pub note_child : String → String → String → Option String → RunReferences → RunReferences
unfolding is_clone_hash is_agent_dir note
note_child clone_dir first run_id source refs =
    if is_clone_hash first
    then record refs {
      clone_hashes = note refs.clone_hashes first run_id;
      clone_sources = note_source refs.clone_sources first source;
    }
    else if is_agent_dir first
    then record refs {
      agent_dirs = note refs.agent_dirs (clone_dir <> ("/" <> first)) run_id;
      agent_sources = note_source refs.agent_sources (clone_dir <> ("/" <> first)) source;
    }
    else refs

-- `note_clone_child`: the first clone directory that the path is below.
unfoldable pub note_clone_child :
    List String → String → String → Option String → RunReferences → RunReferences
unfolding first_component_under note_child
note_clone_child [] path run_id source refs = refs
note_clone_child (clone_dir ∷ dirs) path run_id source refs =
    let later = note_clone_child dirs path run_id source refs in
    elim (first_component_under path clone_dir) [
      | none ↦ later
      | some first ↦ note_child clone_dir first run_id source refs
    ]

module _ (dirs : List String) (home : Option String) where
  unfoldable pub note_items : List RunItem → String → Option String → RunReferences → RunReferences
  unfolding note_clone_child normalize_remote_path
  note_items [] run_id source refs = refs
  note_items (item ∷ items) run_id source refs =
      note_items items run_id source (
        note_clone_child dirs (normalize_remote_path item.task.working_dir home) run_id source refs)

  abbrev pub note_active : Run → RunReferences → RunReferences
  note_active run refs =
      if is_active (status run)
      then record refs { active_run_ids = add refs.active_run_ids run.id }
      else refs

  abbrev pub note_commit : Option String → String → Option String → RunReferences → RunReferences
  note_commit none run_id source refs = refs
  note_commit (some commit) run_id source refs = record refs {
    clone_hashes = note refs.clone_hashes (take_text 12 commit) run_id;
    clone_sources = note_source refs.clone_sources (take_text 12 commit) source;
  }

  abbrev pub note_log : String → String → Option String → RunReferences → RunReferences
  note_log log_dir run_id source refs =
      let dir = normalize_remote_path log_dir home in
      if (log_dir == "") || starts_with log_dir "backend://"
      then refs
      else note_clone_child dirs dir run_id source
          (record refs { log_dirs = note refs.log_dirs dir run_id })

  -- The body of the loop over the runs.
  unfoldable pub note_run : Run → RunReferences → RunReferences
  unfolding status add note take_text note_items starts_with note_clone_child run_source_label
  note_run run refs =
      let source = truthy (run_source_label run.workflow_name) in
      note_log run.log_dir run.id source (
        note_items run.items run.id source
          (note_commit (truthy run.commit_hash) run.id source (note_active run refs)))

  unfoldable pub note_runs : String → List Run → RunReferences → RunReferences
  unfolding note_run
  note_runs backend_name [] refs = refs
  note_runs backend_name (run ∷ runs) refs =
      note_runs backend_name runs
        (if run.backend_name == backend_name then note_run run refs else refs)

abbrev pub no_references : RunReferences
no_references = record {
  clone_hashes = [];
  agent_dirs = [];
  log_dirs = [];
  active_run_ids = [];
  clone_sources = [];
  agent_sources = [];
}

-- `build_run_references`
unfoldable pub build_run_references :
    List Run → String → List String → Option String → RunReferences
unfolding note_runs normalize_remote_path
build_run_references runs backend_name clone_dirs home =
    note_runs (map (λ d. normalize_remote_path d home) clone_dirs) home backend_name runs
      no_references
