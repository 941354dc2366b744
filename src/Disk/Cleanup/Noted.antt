-- ===== src/Disk/Cleanup/Noted.antt =====
-- The clones that `build_run_references` notes for an active run (src/scripthut/disk/classify.py).
use scripthut.Common.{
  String, ◌≡◌, refl, inl, inr, true, ◌||◌, Option, none, some, List, [], ◌∷◌, ◌++◌, ◌==◌, elem,
  arith, Bool-cases, Option-cases, truthy, eq_iff, eq_refl,
}
use scripthut.Common.Text.{take_text, starts_with}
use scripthut.Common.Dict.{Dict, get, get-put}
use scripthut.Model.{RunItem, Run}
use scripthut.Model.Status.{status}
use scripthut.Manager.Slots.{is_active}
use scripthut.Disk.Paths.{normalize_remote_path, first_component_under, is_clone_hash, is_agent_dir}
use scripthut.Disk.References.{
  RunReferences, Ids, add, ids_of, note, note_child, note_clone_child, note_items, note_active,
  note_commit, note_log, note_run, note_runs, run_source_label,
}

elem-append : (x : String) (xs ys : List String) → elem x (xs ++ ys) ≡ (elem x xs || elem x ys)
elem-append x [] ys = refl
elem-append x (y ∷ xs) ys = ground (arith, elem-append x xs ys)

add-keeps : (x id : String) (ids : Ids) → elem x ids ≡ true → elem x (add ids id) ≡ true
unfolding add
add-keeps x id ids h = ground (arith, elem-append x ids (id ∷ []))

add-has : (id : String) (ids : Ids) → elem id (add ids id) ≡ true
unfolding add
add-has id ids = ground (arith, elem-append id ids (id ∷ []), eq_refl id)

-- The run is noted under the key.
abbrev Noted : String → String → Dict Ids → Type 0
Noted id key d = elem id (ids_of (get d key)) ≡ true

note-keeps :
    (id key : String) (d : Dict Ids) (k i : String) → Noted id key d → Noted id key (note d k i)
unfolding note
note-keeps id key d k i h = elim (Bool-cases (k == key)) [
  | inl same ↦
      let key_same : k ≡ key = (eq_iff k key).0 same in
      rw (get-put d k key (add (ids_of (get d k)) i), same)
        (add-keeps id i (ids_of (get d k)) (rw key_same h))
  | inr differ ↦ rw (get-put d k key (add (ids_of (get d k)) i), differ) h
]

note-has : (id key : String) (d : Dict Ids) → Noted id key (note d key id)
unfolding note
note-has id key d =
    rw (get-put d key key (add (ids_of (get d key)) id), eq_refl key)
      (add-has id (ids_of (get d key)))

-- The run is noted under the clone `key`, and as active.
abbrev pub Holds : String → String → RunReferences → Type 0
Holds id key refs = Noted id key refs.clone_hashes × (elem id refs.active_run_ids ≡ true)

module _ (id key : String) where
  note_child-Holds :
      (dir first run_id : String) (source : Option String) (refs : RunReferences)
      → Holds id key refs
      → Holds id key (note_child dir first run_id source refs)
  unfolding note_child
  note_child-Holds dir first run_id source refs h = elim (Bool-cases (is_clone_hash first)) [
    | inl c ↦ rw (c, note_child) (note-keeps id key refs.clone_hashes first run_id h.0, h.1)
    | inr n ↦ elim (Bool-cases (is_agent_dir first)) [
      | inl a ↦ rw (n, a, note_child) h
      | inr b ↦ rw (n, b, note_child) h
    ]
  ]

  note_clone_child-Holds :
      (dirs : List String) (path run_id : String) (source : Option String) (refs : RunReferences)
      → Holds id key refs
      → Holds id key (note_clone_child dirs path run_id source refs)
  unfolding note_clone_child
  note_clone_child-Holds [] path run_id source refs h = h
  note_clone_child-Holds (dir ∷ dirs) path run_id source refs h =
      elim (Option-cases (first_component_under path dir)) [
        | inl e ↦ rw (e, note_clone_child) (note_clone_child-Holds dirs path run_id source refs h)
        | inr (first, e) ↦
            rw (e, note_clone_child) (note_child-Holds dir first run_id source refs h)
      ]

  module _ (dirs : List String) (home : Option String) where
    note_items-Holds :
        (items : List RunItem) (run_id : String) (source : Option String) (refs : RunReferences)
        → Holds id key refs
        → Holds id key (note_items dirs home items run_id source refs)
    unfolding note_items
    note_items-Holds [] run_id source refs h = h
    note_items-Holds (item ∷ items) run_id source refs h = note_items-Holds items run_id source _ (
        note_clone_child-Holds dirs (normalize_remote_path item.task.working_dir home) run_id source
          refs h)

    note_active-Holds :
        (run : Run) (refs : RunReferences)
        → Holds id key refs
        → Holds id key (note_active dirs home run refs)
    note_active-Holds run refs h = elim (Bool-cases (is_active (status run))) [
      | inl a ↦ rw (a, note_active) (h.0, add-keeps id run.id refs.active_run_ids h.1)
      | inr a ↦ rw (a, note_active) h
    ]

    note_commit-Holds :
        (commit : Option String) (run_id : String) (source : Option String) (refs : RunReferences)
        → Holds id key refs
        → Holds id key (note_commit dirs home commit run_id source refs)
    note_commit-Holds none run_id source refs h = h
    note_commit-Holds (some commit) run_id source refs h =
        (note-keeps id key refs.clone_hashes (take_text 12 commit) run_id h.0, h.1)

    note_log-Holds :
        (log_dir run_id : String) (source : Option String) (refs : RunReferences)
        → Holds id key refs
        → Holds id key (note_log dirs home log_dir run_id source refs)
    note_log-Holds log_dir run_id source refs h =
        elim (Bool-cases ((log_dir == "") || starts_with log_dir "backend://")) [
          | inl skips ↦ rw (skips, note_log) h
          | inr goes ↦
              rw (goes, note_log)
                (note_clone_child-Holds dirs (normalize_remote_path log_dir home) run_id source _ h)
        ]

    note_run-Holds :
        (run : Run) (refs : RunReferences)
        → Holds id key refs
        → Holds id key (note_run dirs home run refs)
    unfolding note_run
    note_run-Holds run refs h = note_log-Holds run.log_dir run.id _ _ (
        note_items-Holds run.items run.id _ _
          (note_commit-Holds (truthy run.commit_hash) run.id _ _ (note_active-Holds run refs h)))

    note_runs-Holds :
        (name : String) (runs : List Run) (refs : RunReferences)
        → Holds id key refs
        → Holds id key (note_runs dirs home name runs refs)
    unfolding note_runs
    note_runs-Holds name [] refs h = h
    note_runs-Holds name (run ∷ runs) refs h = elim (Bool-cases (run.backend_name == name)) [
      | inl e ↦ rw (e, note_runs) (note_runs-Holds name runs _ (note_run-Holds run refs h))
      | inr e ↦ rw (e, note_runs) (note_runs-Holds name runs refs h)
    ]

module _ (dirs : List String) (home : Option String) (run : Run) (commit : String)
    (busy : is_active (status run) ≡ true) (at_commit : truthy run.commit_hash ≡ some commit) where
  note_run-establishes :
      (refs : RunReferences) → Holds run.id (take_text 12 commit) (note_run dirs home run refs)
  unfolding note_run
  note_run-establishes refs =
      note_log-Holds run.id (take_text 12 commit) dirs home run.log_dir run.id _ _
        (note_items-Holds run.id (take_text 12 commit) dirs home run.items run.id _ _ noted)
    where
      noted : Holds run.id (take_text 12 commit) (
          note_commit dirs home
            (truthy run.commit_hash)
            run.id
            (truthy (run_source_label run.workflow_name))
            (note_active dirs home run refs))
      noted =
          rw (at_commit, busy, note_active)
            (
              note-has run.id (take_text 12 commit) refs.clone_hashes,
              add-has run.id refs.active_run_ids,
            )

  pub note_runs-establishes :
      (name : String) (front back : List Run) (refs : RunReferences)
      → (run.backend_name == name) ≡ true
      → Holds run.id (take_text 12 commit) (note_runs dirs home name (front ++ run ∷ back) refs)
  unfolding note_runs
  note_runs-establishes name [] back refs here =
      rw (here, note_runs)
        (note_runs-Holds run.id (take_text 12 commit) dirs home name back _
          (note_run-establishes refs))
  note_runs-establishes name (other_run ∷ front) back refs here =
      note_runs-establishes name front back _ here
