-- ===== src/Manager/Process/Hooks.antt =====
-- What the hooks of a completed item change.
use mathlib.Core.Option
use scripthut.Common.{
  ℕ, String, ◌≡◌, inl, inr, true, Option, none, some, List, [], ◌∷◌, ◌++◌, map, arith, All,
  get_elem?, Bool-cases, Option-cases, all, elem, Delivers, ◌==◌,
}
use scripthut.Model.{RunItem, TaskDefinition, new_item, Run, is_pending}
use scripthut.Manager.World.{World, Document}
use scripthut.Manager.Generate.{
  after_item_completed, collect, generate, handle_generates_source, merge_document, append_tasks,
  handle_task_outputs, hash_outputs, source_path, take_over, run_ids, resolve_working_dir,
  expand_tasks,
}
use scripthut.Manager.Process.{after_all}
use scripthut.Manager.Process.Frame.{
  Kept, Extends, Extends-append, Extends-set, Extends-trans, RunExtends, RunExtends-refl,
}
use scripthut.Manager.Process.Places.{ReadyAt, AtPlace-map}

outputs-Kept :
    (w : World) (run : Run) (a b : RunItem)
    → Kept (λ _. true) a b
    → is_pending a.status ≡ true
    → Kept (λ _. true) a (hash_outputs w run (handle_task_outputs w run b))
unfolding hash_outputs handle_task_outputs
outputs-Kept w run a b h p = ground arith

collect-Extends :
    (w : World) (xs : List RunItem) (k : ℕ) (run : Run)
    → ReadyAt (λ _. true) xs k
    → Extends (λ _. true) xs run.items
    → Extends (λ _. true) xs (collect w k run).items
collect-Extends w xs k run p h = elim (Option-cases (get_elem? run.items k)) [
  | inl e ↦ rw (e, collect) h
  | inr (b, e) ↦
      rw (e, collect)
        (Extends-set (λ _. true) xs run.items k b _ e
          (AtPlace-map _ _ xs k (λ a q t. outputs-Kept w run a b t q.0) p) h)
]

module _ (w : World) (drive : Run → Option Run)
    (driven : (run : Run) → Delivers (RunExtends run) (drive run)) where
  append_tasks-Extends :
      (run : Run) (ids : List String) (tasks : Option (List TaskDefinition))
      → Delivers (RunExtends run) (append_tasks w drive run ids tasks)
  append_tasks-Extends run ids none = RunExtends-refl run
  append_tasks-Extends run ids (some tasks) =
      elim (Bool-cases (all (λ t. all (λ d. elem d ids) t.dependencies) tasks)) [
        | inl known ↦
            rw (known, append_tasks)
              (appended (drive (record run { items = run.items ++ map new_item tasks }))
                (driven (record run { items = run.items ++ map new_item tasks })))
        | inr unknown ↦ rw (unknown, append_tasks) (RunExtends-refl run)
      ]
    where
      appended :
          (o : Option Run)
          → Delivers (RunExtends (record run { items = run.items ++ map new_item tasks })) o
          → Delivers (RunExtends run) o
      appended none h = tt
      appended (some r) h =
          Extends-trans (λ _. true) run.items _ r.items
            (Extends-append (λ _. true) run.items run.items (map new_item tasks)
              (RunExtends-refl run))
            h

  merge_document-Extends :
      (run : Run) (dir : String) (doc : Document)
      → Delivers (RunExtends run) (merge_document w drive run dir doc)
  unfolding merge_document
  merge_document-Extends run dir doc =
      let tasks = map (resolve_working_dir dir) doc.tasks in
      let ids = run_ids run ++ map (λ (t : TaskDefinition). t.id) tasks in
      append_tasks-Extends (take_over run doc) ids (expand_tasks w.fnmatch ids tasks)

  handle_generates_source-Extends :
      (run : Run) (item : RunItem) (path : String)
      → Delivers (RunExtends run) (handle_generates_source w drive run item path)
  unfolding handle_generates_source
  handle_generates_source-Extends run item path = elim (Bool-cases (w.has_ssh run.backend_name)) [
    | inr api ↦ rw api (RunExtends-refl run)
    | inl ssh ↦ rw ssh (read (w.read_source (source_path w drive item.task path)))
  ]
    where
      read :
          (o : Option Document)
          → Delivers (RunExtends run) (elim o [
            | none ↦ some run
            | some doc ↦ merge_document w drive run item.task.working_dir doc
          ])
      read none = RunExtends-refl run
      read (some doc) = merge_document-Extends run item.task.working_dir doc

  generate-Extends :
      (run : Run) (item : RunItem) (path : Option String)
      → Delivers (RunExtends run) (generate w drive run item path)
  generate-Extends run item none = RunExtends-refl run
  generate-Extends run item (some path) = elim (Bool-cases (path == "")) [
    | inl e ↦ rw (e, generate) (RunExtends-refl run)
    | inr e ↦ rw (e, generate) (handle_generates_source-Extends run item path)
  ]

  -- The hooks of an item that was pending in `xs` keep the items of `xs`.
  after_item_completed-Extends :
      (xs : List RunItem) (run : Run) (k : ℕ)
      → ReadyAt (λ _. true) xs k
      → Extends (λ _. true) xs run.items
      → Delivers (λ r. Extends (λ _. true) xs r.items) (after_item_completed w drive run k)
  unfolding after_item_completed
  after_item_completed-Extends xs run k p h = elim (Option-cases (get_elem? run.items k)) [
    | inl e ↦ rw (e, after_item_completed) h
    | inr (item, e) ↦
        rw (e, after_item_completed)
          (collected (generate w drive run item item.task.generates_source)
            (generate-Extends run item item.task.generates_source))
  ]
    where
      collected :
          (o : Option Run)
          → Delivers (RunExtends run) o
          → Delivers (λ r. Extends (λ _. true) xs r.items) (Option.map (collect w k) o)
      collected none g = tt
      collected (some r) g =
          collect-Extends w xs k r p (Extends-trans (λ _. true) xs run.items r.items h g)

  pub after_all-Extends :
      (xs : List RunItem) (run : Run) (ks : List ℕ)
      → All (ReadyAt (λ _. true) xs) ks
      → Extends (λ _. true) xs run.items
      → Delivers (λ r. Extends (λ _. true) xs r.items) (after_all w drive run ks)
  unfolding after_all
  after_all-Extends xs run [] p h = h
  after_all-Extends xs run (k ∷ ks) p h =
      hooked (after_item_completed w drive run k) (after_item_completed-Extends xs run k p.0 h)
        (λ r. after_all-Extends xs r ks p.1)
    where
      hooked :
          (o : Option Run)
          → Delivers (λ r. Extends (λ _. true) xs r.items) o
          → ((r : Run)
              → Extends (λ _. true) xs r.items
              → Delivers (λ r'. Extends (λ _. true) xs r'.items) (after_all w drive r ks))
          → Delivers
              (λ r. Extends (λ _. true) xs r.items)
              (elim o [ none ↦ none | some run' ↦ after_all w drive run' ks ])
      hooked none g rest = tt
      hooked (some r) g rest = rest r g
