-- ===== src/Manager/Generate.antt =====
-- `_after_item_completed` and `_handle_generates_source` of runs/manager.py: what follows when an
-- item reaches COMPLETED. The pass over the run that ends a generation is the argument `drive`.
use Prim.Native.Char.{code}
use mathlib.Core.Option
use scripthut.Common.{
  ℕ, String, ◌<>◌, Bool, false, not, ◌&&◌, ◌||◌, Option, none, some, List, [], ◌∷◌, ◌++◌, map,
  if◌then◌else◌, ◌==◌, eqb, all, keep, elem, get_elem?, set, is_some,
}
use scripthut.Common.Dict.{update}
use scripthut.Model.{RunItem, TaskDefinition, Run, new_item, is_completed}
use scripthut.Model.Status.{is_empty}
use scripthut.Manager.World.{World, Document}

-- `any(c in dep for c in ("*", "?", "["))`
unfoldable pub is_wildcard : String → Bool
is_wildcard String.[] = false
is_wildcard (String.◌∷◌ c s) =
    eqb (code c) b'*' || (eqb (code c) b'?' || (eqb (code c) b'[' || is_wildcard s))

-- `s.startswith(("/", "~"))`
abbrev is_rooted : String → Bool
is_rooted String.[] = false
is_rooted (String.◌∷◌ c s) = eqb (code c) b'/' || eqb (code c) b'~'

-- `_resolve_working_dirs`, on one task
unfoldable pub resolve_working_dir : String → TaskDefinition → TaskDefinition
resolve_working_dir clone_dir task =
    if task.working_dir == "~"
    then record task { working_dir = clone_dir }
    else if is_rooted task.working_dir
    then task
    else record task { working_dir = clone_dir <> ("/" <> task.working_dir) }

module _ (fnmatch : String → String → Bool) where
  -- The ids that a wildcard names, but the task's own.
  abbrev pub wildcard_matches : List String → String → String → List String
  wildcard_matches task_ids own_id dep =
      keep (λ tid. fnmatch tid dep && not (tid == own_id)) task_ids

  -- The loop over a task's dependencies: `none` where a wildcard matches no task.
  unfoldable pub expand_deps : List String → String → List String → Option (List String)
  unfolding is_wildcard
  expand_deps task_ids own_id [] = some []
  expand_deps task_ids own_id (dep ∷ deps) =
      let found = wildcard_matches task_ids own_id dep in
      elim (expand_deps task_ids own_id deps) [
        | none ↦ none
        | some rest ↦
            if is_wildcard dep
            then (if is_empty found then none else some (found ++ rest))
            else some (dep ∷ rest)
      ]

  -- The loop over the tasks.
  unfoldable pub expand_tasks : List String → List TaskDefinition → Option (List TaskDefinition)
  unfolding expand_deps
  expand_tasks task_ids [] = some []
  expand_tasks task_ids (task ∷ tasks) = elim (expand_deps task_ids task.id task.dependencies) [
    | none ↦ none
    | some deps ↦ elim (expand_tasks task_ids tasks) [
      | none ↦ none
      | some rest ↦ some (record task { dependencies = deps } ∷ rest)
    ]
  ]

module _ (w : World) where
  -- `_handle_task_outputs`, on the item itself
  unfoldable pub handle_task_outputs : Run → RunItem → RunItem
  handle_task_outputs run item =
      if w.has_ssh run.backend_name
      then (elim (w.list_outputs run item) [
        | none ↦ item
        | some (outputs, has_summary) ↦ record item {
          outputs = outputs;
          has_run_summary = has_summary;
        }
      ])
      else item

  -- The output hashes, for an item that has none yet.
  unfoldable pub hash_outputs : Run → RunItem → RunItem
  hash_outputs run item =
      if not (is_empty item.task.outputs)
        && (not (is_some item.output_hashes)
            && (is_completed item.status && w.has_ssh run.backend_name))
      then record item { output_hashes = w.hash_inputs item.task.working_dir item.task.outputs }
      else item

  -- What happens to the item itself, after any generation.
  abbrev pub collect : ℕ → Run → Run
  collect k run = elim (get_elem? run.items k) [
    | none ↦ run
    | some item ↦ record run {
      items = set run.items k (hash_outputs run (handle_task_outputs run item));
    }
  ]

abbrev pub run_ids : Run → List String
run_ids run = map (λ i. i.task.id) run.items

-- The environment rules and groups of a generated document join those of the run.
unfoldable pub take_over : Run → Document → Run
unfolding update
take_over run doc = record run {
  doc_env = run.doc_env ++ doc.doc_env;
  doc_env_groups = update run.doc_env_groups doc.doc_groups;
}

module _ (w : World) (drive : Run → Option Run) where
  -- The tasks of a generated document join the run, if every dependency is known.
  abbrev pub append_tasks : Run → List String → Option (List TaskDefinition) → Option Run
  append_tasks run all_task_ids none = some run
  append_tasks run all_task_ids (some tasks) =
      let extended = drive (record run { items = run.items ++ map new_item tasks }) in
      if all (λ t. all (λ d. elem d all_task_ids) t.dependencies) tasks then extended else some run

  -- From the parsed document on. The rules and groups of the document are taken over first.
  unfoldable pub merge_document : Run → String → Document → Option Run
  unfolding take_over resolve_working_dir expand_tasks new_item
  merge_document run parent_dir doc =
      let tasks = map (resolve_working_dir parent_dir) doc.tasks in
      let all_task_ids = run_ids run ++ map (λ t. t.id) tasks in
      append_tasks (take_over run doc) all_task_ids (expand_tasks w.fnmatch all_task_ids tasks)

  abbrev pub source_path : TaskDefinition → String → String
  source_path task path = if is_rooted path then path else task.working_dir <> ("/" <> path)

  -- `_handle_generates_source`
  unfoldable pub handle_generates_source : Run → RunItem → String → Option Run
  unfolding merge_document
  handle_generates_source run item path =
      if w.has_ssh run.backend_name
      then (elim (w.read_source (source_path item.task path)) [
        | none ↦ some run
        | some doc ↦ merge_document run item.task.working_dir doc
      ])
      else some run

  abbrev pub generate : Run → RunItem → Option String → Option Run
  generate run item none = some run
  generate run item (some path) =
      if path == "" then some run else handle_generates_source run item path

  -- `_after_item_completed`, for the item at place `k` of the run. The artifacts that it puts into
  -- the store change nothing of the run.
  unfoldable pub after_item_completed : Run → ℕ → Option Run
  unfolding handle_generates_source handle_task_outputs hash_outputs
  after_item_completed run k = elim (get_elem? run.items k) [
    | none ↦ some run
    | some item ↦ Option.map (collect w k) (generate run item item.task.generates_source)
  ]
