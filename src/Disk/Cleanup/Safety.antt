-- ===== src/Disk/Cleanup/Safety.antt =====
-- The guards of a cleanup plan (src/scripthut/disk/cleanup.py).
use scripthut.Common.{
  ℕ, String, ◌≡◌, refl, ap, ◌∙◌, ◌⊎◌, inl, inr, Bool, true, Option, none, some, List, [], ◌∷◌, map,
  ◌==◌, elem, any, keep, arith, All, Bool-cases, Option-cases, eq_refl,
}
use scripthut.Common.Dict.{Dict}
use scripthut.Model.Status.{is_empty}
use scripthut.Disk.Entries.{
  DiskEntry, DiskEntryKind, DiskEntryClass, DiskScanResult, ScanSpec, clone, agent, stack, log,
  other, active, referenced, orphaned, unknown,
}
use scripthut.Disk.Paths.{normalize_remote_path}
use scripthut.Disk.References.{RunReferences, Ids}
use scripthut.Disk.Classify.{classify_kind, classify_entries, apply_refs, classify_stack}
use scripthut.Disk.Guards.{is_clean, is_deep}
use scripthut.Disk.Guards.Placing.{Placed, safety_reason-IsSafe}
use scripthut.Disk.Cleanup.{
  CleanupPlanEntry, is_skip, is_deletable, class_reason, skip_reason, plan_entry, planned,
  plan_cleanup, candidates, find_candidates, entry_at, fresh_copies, fresh_copy,
}

-- Everything that has to hold of an entry that may be deleted.
pub record Vetted (spec : ScanSpec) (home : Option String) (allow : List String) (e : DiskEntry)
    : Type 0 where
  pub kind_ok : is_deletable e.kind ≡ true
  pub class_ok :
      (e.classification ≡ orphaned) ⊎ ((e.classification ≡ referenced) × (elem e.path allow ≡ true))
  pub clean : is_clean e.path ≡ true
  pub deep : is_deep e.path ≡ true
  pub placed : Placed spec home e

class_reason-Vetted :
    (spec : ScanSpec) (home : Option String) (allow : List String) (c : DiskEntryClass)
    (e : DiskEntry)
    → e.classification ≡ c
    → is_deletable e.kind ≡ true
    → class_reason spec home allow c e ≡ none
    → Vetted spec home allow e
class_reason-Vetted spec home allow active e c k h = cc h
class_reason-Vetted spec home allow unknown e c k h = cc h
class_reason-Vetted spec home allow orphaned e c k h =
    let s = safety_reason-IsSafe spec home e h in
    record {
      kind_ok = k;
      class_ok = inl c;
      clean = s.is_safe_clean;
      deep = s.is_safe_deep;
      placed = s.is_safe_placed;
    }
class_reason-Vetted spec home allow referenced e c k h = elim (Bool-cases (elem e.path allow)) [
  | inr unasked ↦ cc (rw (unasked, class_reason) at h)
  | inl asked ↦
      let s = safety_reason-IsSafe spec home e (rw (asked, class_reason) at h) in
      record {
        kind_ok = k;
        class_ok = inr (c, asked);
        clean = s.is_safe_clean;
        deep = s.is_safe_deep;
        placed = s.is_safe_placed;
      }
]

skip_reason-Vetted :
    (spec : ScanSpec) (home : Option String) (allow : List String) (e : DiskEntry)
    → skip_reason spec home allow e ≡ none
    → Vetted spec home allow e
skip_reason-Vetted spec home allow e h = elim (Bool-cases (is_deletable e.kind)) [
  | inr odd ↦ cc (rw (odd, skip_reason) at h)
  | inl k ↦ class_reason-Vetted spec home allow e.classification e refl k (rw (k, skip_reason) at h)
]

-- What a plan says of an entry: it is skipped, or it is vetted.
abbrev pub Decided : ScanSpec → Option String → List String → CleanupPlanEntry → Type 0
Decided spec home allow d = (is_skip d.action ≡ true) ⊎ Vetted spec home allow d.entry

plan_entry-Decided :
    (refs : RunReferences) (spec : ScanSpec) (home : Option String) (allow : List String)
    (e : DiskEntry)
    → Decided spec home allow (plan_entry refs spec home allow e)
      × ((plan_entry refs spec home allow e).entry ≡ e)
unfolding plan_entry
plan_entry-Decided refs spec home allow e = decide (skip_reason spec home allow e) refl
  where
    decide :
        (o : Option String)
        → skip_reason spec home allow e ≡ o
        → Decided spec home allow (planned refs e o) × ((planned refs e o).entry ≡ e)
    decide (some reason) h = (inl refl, refl)
    decide none h = (inr (skip_reason-Vetted spec home allow e h), refl)

-- The paths of the scan.
abbrev pub InScan : List DiskEntry → String → Type 0
InScan entries path = any (λ (s : DiskEntry). s.path == path) entries ≡ true

classify_kind-path :
    (refs : RunReferences) (current : Option (Dict Ids)) (k : DiskEntryKind) (e : DiskEntry)
    → (classify_kind refs current k e).path ≡ e.path
unfolding classify_kind apply_refs classify_stack
classify_kind-path refs current clone e = ground arith
classify_kind-path refs current agent e = ground arith
classify_kind-path refs current log e = ground arith
classify_kind-path refs current stack e = ground arith
classify_kind-path refs current other e = refl

fresh_copies-InScan :
    (entries : List DiskEntry) (refs : RunReferences) (current : Option (Dict Ids)) (path : String)
    → InScan (fresh_copies entries refs current) path
    → InScan entries path
unfolding fresh_copies classify_entries fresh_copy
fresh_copies-InScan [] refs current path h = h
fresh_copies-InScan (e ∷ entries) refs current path h =
    let same = classify_kind-path refs current (fresh_copy e).kind (fresh_copy e) in
    elim (Bool-cases (e.path == path)) [
      | inl here ↦ rw here refl
      | inr other_path ↦
          rw other_path (fresh_copies-InScan entries refs current path (rw (same, other_path) at h))
    ]

keep-InScan :
    (test : DiskEntry → Bool) (all_entries entries : List DiskEntry)
    → All (λ e. InScan all_entries e.path) entries
    → All (λ e. InScan all_entries e.path) (keep test entries)
keep-InScan test all_entries [] h = tt
keep-InScan test all_entries (e ∷ entries) h =
    ground (arith, keep-InScan test all_entries entries h.1)

InScan-cons :
    (e : DiskEntry) (entries : List DiskEntry) (path : String)
    → InScan entries path
    → InScan (e ∷ entries) path
InScan-cons e entries path h = ground (arith, h)

All-InScan : (entries : List DiskEntry) → All (λ e. InScan entries e.path) entries
All-InScan [] = tt
All-InScan (e ∷ entries) = (rw (eq_refl e.path) refl, widen entries (All-InScan entries))
  where
    widen :
        (rest : List DiskEntry)
        → All (λ x. InScan entries x.path) rest
        → All (λ x. InScan (e ∷ entries) x.path) rest
    widen [] h = tt
    widen (x ∷ rest) h = (InScan-cons e entries x.path h.0, widen rest h.1)

entry_at-InScan :
    (entries : List DiskEntry) (path : String) (e : DiskEntry)
    → entry_at entries path ≡ some e
    → InScan entries e.path
unfolding entry_at
entry_at-InScan [] path e h = cc h
entry_at-InScan (x ∷ entries) path e h = elim (Option-cases (entry_at entries path)) [
  | inr (y, found) ↦
      let same : some y ≡ some e = rw (found, entry_at) at h in
      InScan-cons x entries e.path (entry_at-InScan entries path e (found ∙ same))
  | inl missing ↦ elim (Bool-cases (x.path == path)) [
    | inr other_path ↦ cc (rw (missing, other_path, entry_at) at h)
    | inl here ↦
        let same : some x ≡ some e = rw (missing, here, entry_at) at h in
        ground (arith, same, eq_refl x.path)
  ]
]

find_candidates-InScan :
    (copies : List DiskEntry) (home : Option String) (paths : List String)
    → All (λ e. InScan copies e.path) (find_candidates copies home paths).0
unfolding find_candidates
find_candidates-InScan copies home [] = tt
find_candidates-InScan copies home (p ∷ paths) =
    elim (Option-cases (entry_at copies (normalize_remote_path p home))) [
      | inl missing ↦ rw (missing, find_candidates) (find_candidates-InScan copies home paths)
      | inr (e, found) ↦
          rw (found, find_candidates)
            (
              entry_at-InScan copies (normalize_remote_path p home) e found,
              find_candidates-InScan copies home paths,
            )
    ]

candidates-InScan :
    (copies : List DiskEntry) (home : Option String) (paths : Option (List String))
    → All (λ e. InScan copies e.path) (candidates copies home paths).0
unfolding candidates
candidates-InScan copies home none = keep-InScan _ copies copies (All-InScan copies)
candidates-InScan copies home (some paths) = find_candidates-InScan copies home paths

-- What holds of an entry of a plan: it is decided, and its path is one of the scan.
abbrev pub PlanEntryOk :
    List DiskEntry → ScanSpec → Option String → List String → CleanupPlanEntry → Type 0
PlanEntryOk entries spec home allow d = Decided spec home allow d × InScan entries d.entry.path

-- Every entry of a cleanup plan has a path of the last scan, and is skipped unless: it is a clone, an
-- agent workspace, a stack or a log; no known run refers to it, or a finished one does and the caller
-- allows its path; its path is absolute, has no empty, `.` or `..` part and at least three parts, is
-- not the home directory, and stands below a scanned root of its kind, at the depth and with the name
-- of its kind.
pub plan_cleanup-Safe :
    (result : DiskScanResult) (refs : RunReferences) (spec : ScanSpec) (current : Option (Dict Ids))
    (planned_at : ℕ) (paths : Option (List String)) (allow_referenced : List String)
    → All
        (PlanEntryOk result.entries spec result.home_dir
          (map (λ p. normalize_remote_path p result.home_dir) allow_referenced))
        (plan_cleanup result refs spec current planned_at paths allow_referenced).entries
unfolding plan_cleanup
plan_cleanup-Safe result refs spec current planned_at paths allow_referenced =
    let copies = fresh_copies result.entries refs current in
    let allow = map (λ p. normalize_remote_path p result.home_dir) allow_referenced in
    elim (Bool-cases (is_empty (candidates copies result.home_dir paths).1)) [
      | inr failed ↦ rw (failed, plan_cleanup) tt
      | inl good ↦
          rw (good, plan_cleanup)
            (decided (candidates copies result.home_dir paths).0
              (candidates-InScan copies result.home_dir paths))
    ]
  where
    decided :
        (found : List DiskEntry)
        → All (λ e. InScan (fresh_copies result.entries refs current) e.path) found
        → All
            (PlanEntryOk result.entries spec result.home_dir
              (map (λ p. normalize_remote_path p result.home_dir) allow_referenced))
            (map
              (plan_entry refs spec result.home_dir
                (map (λ p. normalize_remote_path p result.home_dir) allow_referenced))
              found)
    decided [] h = tt
    decided (e ∷ found) h =
        let (d, same) =
          plan_entry-Decided refs spec result.home_dir
            (map (λ p. normalize_remote_path p result.home_dir) allow_referenced) e in
        (
          (
            d,
            ap (λ (x : DiskEntry). any (λ (s : DiskEntry). s.path == x.path) result.entries) same
                ∙ fresh_copies-InScan result.entries refs current e.path h.0,
          ),
          decided found h.1,
        )
