-- ===== src/Manager/Process/Invariant.antt =====
-- A proof rule for `process_run`: what each of its steps keeps, the whole keeps.
use mathlib.Core.Option
use scripthut.Common.{
  ℕ, zero, suc, String, inl, inr, Bool, true, Option, none, some, List, [], ◌∷◌, ◌++◌, map,
  get_elem?, Bool-cases, Option-cases, all, elem, Delivers, ◌==◌,
}
use scripthut.Model.{RunItem, TaskDefinition, new_item, Run}
use scripthut.Manager.World.{World, Document}
use scripthut.Manager.Cascade.Fixpoint.{Settled, cascade-Settled}
use scripthut.Manager.Generate.{
  after_item_completed, collect, generate, handle_generates_source, merge_document, append_tasks,
  source_path, take_over, run_ids, resolve_working_dir, expand_tasks,
}
use scripthut.Manager.Process.{after_all, submit_ready, submit_pass, finish, process_run}

-- The steps of `process_run`, each of which has to keep `I`.
pub record Steps (w : World) (before after : List Run) (I : Run → Type 0) : Type 0 where
  pub settle :
      (run : Run) (items : List RunItem)
      → Settled w.now run.items items
      → I run
      → I (record run { items = items })
  pub submit :
      (run : Run) (fair_share : Bool) → I run → I (submit_ready w before after fair_share run).0
  pub extend_env : (run : Run) (doc : Document) → I run → I (take_over run doc)
  pub append :
      (run : Run) (tasks : List TaskDefinition)
      → I run
      → I (record run { items = run.items ++ map new_item tasks })
  pub hooks : (run : Run) (k : ℕ) → I run → I (collect w k run)

module _ {w : World} {before after : List Run} {I : Run → Type 0} (s : Steps w before after I)
    (drive : Run → Option Run) (driven : (r : Run) → I r → Delivers I (drive r)) where
  append_tasks-keeps :
      (run : Run) (ids : List String) (tasks : Option (List TaskDefinition))
      → I run
      → Delivers I (append_tasks w drive run ids tasks)
  append_tasks-keeps run ids none h = h
  append_tasks-keeps run ids (some tasks) h =
      elim (Bool-cases (all (λ t. all (λ d. elem d ids) t.dependencies) tasks)) [
        | inl known ↦ rw (known, append_tasks) (driven _ (s.append run tasks h))
        | inr unknown ↦ rw (unknown, append_tasks) h
      ]

  merge_document-keeps :
      (run : Run) (dir : String) (doc : Document)
      → I run
      → Delivers I (merge_document w drive run dir doc)
  unfolding merge_document
  merge_document-keeps run dir doc h =
      let tasks = map (resolve_working_dir dir) doc.tasks in
      let ids = run_ids run ++ map (λ (t : TaskDefinition). t.id) tasks in
      append_tasks-keeps (take_over run doc) ids (expand_tasks w.fnmatch ids tasks)
        (s.extend_env run doc h)

  read-keeps :
      (run : Run) (dir : String) (o : Option Document)
      → I run
      → Delivers I (elim o [ none ↦ some run | some doc ↦ merge_document w drive run dir doc ])
  read-keeps run dir none h = h
  read-keeps run dir (some doc) h = merge_document-keeps run dir doc h

  generate-keeps :
      (run : Run) (item : RunItem) (path : Option String)
      → I run
      → Delivers I (generate w drive run item path)
  unfolding handle_generates_source
  generate-keeps run item none h = h
  generate-keeps run item (some path) h = elim (Bool-cases (path == "")) [
    | inl e ↦ rw (e, generate) h
    | inr e ↦ elim (Bool-cases (w.has_ssh run.backend_name)) [
      | inr api ↦ rw (e, api, generate, handle_generates_source) h
      | inl ssh ↦
          rw (e, ssh, generate, handle_generates_source)
            (read-keeps run item.task.working_dir
              (w.read_source (source_path w drive item.task path)) h)
    ]
  ]

  pub after_item_completed-keeps :
      (run : Run) (k : ℕ) → I run → Delivers I (after_item_completed w drive run k)
  unfolding after_item_completed
  after_item_completed-keeps run k h = elim (Option-cases (get_elem? run.items k)) [
    | inl e ↦ rw (e, after_item_completed) h
    | inr (item, e) ↦
        rw (e, after_item_completed)
          (collected (generate w drive run item item.task.generates_source)
            (generate-keeps run item item.task.generates_source h))
  ]
    where
      collected : (o : Option Run) → Delivers I o → Delivers I (Option.map (collect w k) o)
      collected none g = tt
      collected (some r) g = s.hooks r k g

  after_all-keeps : (run : Run) (ks : List ℕ) → I run → Delivers I (after_all w drive run ks)
  unfolding after_all
  after_all-keeps run [] h = h
  after_all-keeps run (k ∷ ks) h =
      next (after_item_completed w drive run k) (after_item_completed-keeps run k h)
        (λ r. after_all-keeps r ks)
    where
      next :
          (o : Option Run)
          → Delivers I o
          → ((r : Run) → I r → Delivers I (after_all w drive r ks))
          → Delivers I (elim o [ none ↦ none | some run' ↦ after_all w drive run' ks ])
      next none g rest = tt
      next (some r) g rest = rest r g

  finish-keeps :
      (again : Run → Option Run)
      → ((r : Run) → I r → Delivers I (again r))
      → (run : Run) (hits : List ℕ) → I run
      → Delivers I (finish w again drive run hits)
  finish-keeps again on run [] h = h
  finish-keeps again on run (k ∷ ks) h =
      next (after_all w drive run (k ∷ ks)) (after_all-keeps run (k ∷ ks) h)
    where
      next :
          (o : Option Run)
          → Delivers I o
          → Delivers I (elim o [ none ↦ none | some hooked ↦ again hooked ])
      next none g = tt
      next (some r) g = on r g

module _ {w : World} {before after : List Run} {I : Run → Type 0} (s : Steps w before after I) where
  -- The invariant holds of whatever `process_run` returns.
  pub process_run-keeps :
      (fuel : ℕ) (fair_share : Bool) (run : Run)
      → I run
      → Delivers I (process_run w fuel before after fair_share run)
  unfolding process_run submit_pass
  process_run-keeps zero fair_share run h = tt
  process_run-keeps (suc fuel) fair_share run h =
      let (items, found, settled) = cascade-Settled w.now run.items in
      let sent = submit_ready w before after fair_share (record run { items = items }) in
      rw (found, process_run, submit_pass)
        (finish-keeps s (process_run w fuel before after true) (process_run-keeps fuel true)
          (process_run w fuel before after fair_share) (process_run-keeps fuel fair_share) sent.0
          sent.1 (s.submit _ fair_share (s.settle run items settled h)))
