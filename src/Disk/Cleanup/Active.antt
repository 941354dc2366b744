-- ===== src/Disk/Cleanup/Active.antt =====
-- Clones of active runs in a cleanup plan (src/scripthut/disk/cleanup.py).
use scripthut.Common.{
  ℕ, String, ◌≡◌, refl, ◌∙◌, ◌⊎◌, inl, inr, Bool, true, false, ◌&&◌, Option, none, some, List, [],
  ◌∷◌, ◌++◌, map, ◌==◌, elem, any, keep, arith, All, Bool-cases, Option-cases, truthy, eq_iff,
  subst,
}
use scripthut.Common.Text.{take_text}
use scripthut.Common.Dict.{Dict, get}
use scripthut.Model.{Run}
use scripthut.Model.Status.{status, is_empty}
use scripthut.Manager.Slots.{is_active}
use scripthut.Disk.Entries.{
  DiskEntry, DiskEntryKind, DiskScanResult, ScanSpec, clone, agent, stack, log, other, active,
}
use scripthut.Disk.Paths.{normalize_remote_path}
use scripthut.Disk.References.{RunReferences, Ids, ids_of, build_run_references, no_references}
use scripthut.Disk.Classify.{base_name, apply_refs, classify_kind, classify_entries, classify_stack}
use scripthut.Disk.Cleanup.{
  is_skip, plan_entry, plan_cleanup, candidates, find_candidates, entry_at, fresh_copies,
  fresh_copy,
}
use scripthut.Disk.Cleanup.Noted.{Holds, note_runs-establishes}

abbrev is_clone : DiskEntryKind → Bool
is_clone clone = true
is_clone _ = false

-- The clone of the hash.
abbrev pub is_clone_of : String → DiskEntry → Bool
is_clone_of key e = is_clone e.kind && (base_name e.path == key)

any_active :
    (id : String) (ids busy : List String)
    → elem id ids ≡ true
    → elem id busy ≡ true
    → any (λ x. elem x busy) ids ≡ true
any_active id [] busy h b = cc h
any_active id (x ∷ ids) busy h b = elim (Bool-cases (id == x)) [
  | inl same ↦
      let same_id : id ≡ x = (eq_iff id x).0 same in
      let x_busy : elem x busy ≡ true = subst (λ y. elem y busy ≡ true) same_id b in rw x_busy refl
  | inr differ ↦ ground (arith, any_active id ids busy (rw differ at h) b)
]

apply_refs-active :
    (refs : RunReferences) (id : String) (ids : Ids) (e : DiskEntry)
    → elem id ids ≡ true
    → elem id refs.active_run_ids ≡ true
    → (apply_refs refs ids e).classification ≡ active
unfolding apply_refs
apply_refs-active refs id [] e h b = cc h
apply_refs-active refs id (x ∷ ids) e h b =
    rw (any_active id (x ∷ ids) refs.active_run_ids h b) refl

-- The clone of the hash is classified as active.
abbrev pub Guarded : String → DiskEntry → Type 0
Guarded key e = (is_clone_of key e ≡ false) ⊎ (e.classification ≡ active)

module _ (refs : RunReferences) (current : Option (Dict Ids)) (id key : String)
    (held : Holds id key refs) where
  classify_kind-Guarded :
      (k : DiskEntryKind) (e : DiskEntry)
      → e.kind ≡ k
      → Guarded key (classify_kind refs current k e)
  unfolding classify_kind apply_refs classify_stack
  classify_kind-Guarded clone e p = elim (Bool-cases (base_name e.path == key)) [
    | inr differ ↦ inl (ground (arith, differ))
    | inl same ↦
        let name : base_name e.path ≡ key = (eq_iff (base_name e.path) key).0 same in
        inr (
          apply_refs-active refs id (ids_of (get refs.clone_hashes (base_name e.path))) e
            (rw name held.0) held.1)
  ]
  classify_kind-Guarded agent e p = inl (ground (arith, p))
  classify_kind-Guarded stack e p = inl (ground (arith, p))
  classify_kind-Guarded log e p = inl (ground (arith, p))
  classify_kind-Guarded other e p = inl (ground (arith, p))

  fresh_copies-Guarded :
      (entries : List DiskEntry) → All (Guarded key) (fresh_copies entries refs current)
  unfolding fresh_copies classify_entries fresh_copy
  fresh_copies-Guarded [] = tt
  fresh_copies-Guarded (e ∷ entries) =
      (classify_kind-Guarded e.kind (fresh_copy e) refl, fresh_copies-Guarded entries)

module _ (P : DiskEntry → Type 0) where
  keep-All_entries :
      (test : DiskEntry → Bool) (xs : List DiskEntry) → All P xs → All P (keep test xs)
  keep-All_entries test [] h = tt
  keep-All_entries test (x ∷ xs) h = elim (Bool-cases (test x)) [
    | inl t ↦ rw t (h.0, keep-All_entries test xs h.1)
    | inr t ↦ rw t (keep-All_entries test xs h.1)
  ]

  entry_at-All :
      (xs : List DiskEntry) (path : String) (e : DiskEntry)
      → entry_at xs path ≡ some e
      → All P xs
      → P e
  unfolding entry_at
  entry_at-All [] path e f h = cc f
  entry_at-All (x ∷ xs) path e f h = elim (Option-cases (entry_at xs path)) [
    | inr (y, found) ↦ entry_at-All xs path e (found ∙ rw (found, entry_at) at f) h.1
    | inl missing ↦ elim (Bool-cases (x.path == path)) [
      | inr other_path ↦ cc (rw (missing, other_path, entry_at) at f)
      | inl here ↦
          let same : some x ≡ some e = rw (missing, here, entry_at) at f in
          subst (λ o. elim o [ none ↦ P x | some y ↦ P y ]) same h.0
    ]
  ]

  candidates-All :
      (copies : List DiskEntry) (home : Option String) (paths : Option (List String))
      → All P copies
      → All P (candidates copies home paths).0
  unfolding candidates find_candidates
  candidates-All copies home none h = keep-All_entries _ copies h
  candidates-All copies home (some []) h = tt
  candidates-All copies home (some (p ∷ paths)) h =
      elim (Option-cases (entry_at copies (normalize_remote_path p home))) [
        | inl missing ↦ rw (missing, find_candidates) (candidates-All copies home (some paths) h)
        | inr (e, found) ↦
            rw (found, find_candidates)
              (
                entry_at-All copies (normalize_remote_path p home) e found h,
                candidates-All copies home (some paths) h,
              )
      ]

plan_entry-spares :
    (refs : RunReferences) (spec : ScanSpec) (home : Option String) (allow : List String)
    (key : String) (e : DiskEntry)
    → Guarded key e
    → (is_clone_of key (plan_entry refs spec home allow e).entry ≡ false)
      ⊎ (is_skip (plan_entry refs spec home allow e).action ≡ true)
unfolding plan_entry
plan_entry-spares refs spec home allow key e g = ground (arith, g)

-- Where the references are built from runs among which an active run of the backend has a commit, no
-- plan deletes a clone named after the first twelve characters of that commit, whatever the scan, the
-- paths asked for and the paths allowed.
pub plan_cleanup-spares_active :
    (front back : List Run) (run : Run) (commit name : String) (dirs : List String)
    (result : DiskScanResult) (spec : ScanSpec) (current : Option (Dict Ids)) (planned_at : ℕ)
    (paths : Option (List String)) (allow_referenced : List String)
    → (run.backend_name == name) ≡ true
    → is_active (status run) ≡ true
    → truthy run.commit_hash ≡ some commit
    → All
        (λ d. (is_clone_of (take_text 12 commit) d.entry ≡ false) ⊎ (is_skip d.action ≡ true))
        (plan_cleanup result
          (build_run_references (front ++ run ∷ back) name dirs result.home_dir)
          spec
          current
          planned_at
          paths
          allow_referenced).entries
unfolding plan_cleanup build_run_references
plan_cleanup-spares_active front back run commit name dirs result spec current planned_at paths
      allow_referenced here busy at_commit =
    let refs = build_run_references (front ++ run ∷ back) name dirs result.home_dir in
    let key = take_text 12 commit in
    let held =
      note_runs-establishes (map (λ d. normalize_remote_path d result.home_dir) dirs)
        result.home_dir run commit busy at_commit name front back no_references here in
    let copies = fresh_copies result.entries refs current in
    let guarded =
      candidates-All (Guarded key) copies result.home_dir paths
        (fresh_copies-Guarded refs current run.id key held result.entries) in
    elim (Bool-cases (is_empty (candidates copies result.home_dir paths).1)) [
      | inr failed ↦ rw (failed, plan_cleanup) tt
      | inl good ↦
          rw (good, plan_cleanup)
            (spared refs key (candidates copies result.home_dir paths).0 guarded)
    ]
  where
    spared :
        (refs : RunReferences) (key : String) (found : List DiskEntry)
        → All (Guarded key) found
        → All
            (λ d. (is_clone_of key d.entry ≡ false) ⊎ (is_skip d.action ≡ true))
            (map
              (plan_entry refs spec result.home_dir
                (map (λ p. normalize_remote_path p result.home_dir) allow_referenced))
              found)
    spared refs key [] h = tt
    spared refs key (e ∷ found) h = (
      plan_entry-spares refs spec result.home_dir
          (map (λ p. normalize_remote_path p result.home_dir) allow_referenced) key e h.0,
      spared refs key found h.1,
    )
