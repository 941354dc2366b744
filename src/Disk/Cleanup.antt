-- ===== src/Disk/Cleanup.antt =====
-- `plan_cleanup` of src/scripthut/disk/cleanup.py: what a cleanup deletes, entry by entry.
pub mod Safety
pub mod Noted
pub mod Active
use scripthut.Common.{
  ℕ, ◌+◌, String, ◌<>◌, Bool, true, false, not, ◌&&◌, ◌||◌, Option, none, some, List, [], ◌∷◌, ◌++◌,
  map, if◌then◌else◌, ◌==◌, elem, any, keep, eqb, ltb, length, truthy,
}
use scripthut.Common.Dict.{Dict}
use scripthut.Common.Text.{starts_with, drop_prefix, split, join, sort_texts, last_text}
use scripthut.Model.Status.{is_empty}
use scripthut.Disk.Entries.{
  DiskEntry, DiskEntryKind, DiskEntryClass, DiskScanResult, ScanSpec, clone, agent, stack, log,
  other, active, referenced, orphaned, unknown, size_of,
}
use scripthut.Disk.Paths.{normalize_remote_path, trim_slashes, is_clone_hash, is_agent_dir}
use scripthut.Disk.References.{RunReferences, Ids}
use scripthut.Disk.Classify.{classify_entries, add_all}
use scripthut.Disk.Guards.{safety_reason}

-- `action`: "delete", "check_then_delete" or "skip"
pub data Action : Type 0 where
  delete check_then_delete skip : Action

pub record CleanupPlanEntry : Type 0 where
  pub entry : DiskEntry
  pub action : Action
  pub reason : Option String
  pub warnings : List String

pub record CleanupPlan : Type 0 where
  pub backend : String
  pub planned_at : ℕ
  pub entries : List CleanupPlanEntry
  pub errors : List String

abbrev pub is_skip : Action → Bool
is_skip skip = true
is_skip _ = false

-- `CleanupPlan.to_delete` and `delete_bytes`
unfoldable pub to_delete : List CleanupPlanEntry → List CleanupPlanEntry
to_delete = keep (λ e. not (is_skip e.action))

unfoldable pub sum_sizes : List CleanupPlanEntry → ℕ
sum_sizes [] = 0
sum_sizes (e ∷ entries) = size_of e.entry + sum_sizes entries

unfoldable pub delete_bytes : CleanupPlan → ℕ
unfolding sum_sizes to_delete
delete_bytes plan = sum_sizes (to_delete plan.entries)

-- `kind in DELETABLE_KINDS`
abbrev pub is_deletable : DiskEntryKind → Bool
is_deletable other = false
is_deletable _ = true

abbrev last_two : List String → List String
last_two (a ∷ b ∷ c ∷ parts) = last_two (b ∷ c ∷ parts)
last_two parts = parts

abbrev half_built : Option Bool → String → String
half_built (some false) detail = detail <> " (half-built)"
half_built _ detail = detail

-- `_base_detail`
unfoldable pub base_detail : DiskEntryKind → Option Bool → String → Option String
unfolding split
base_detail stack ready path = some (half_built ready (join "/" (last_two (split b'/' path))))
base_detail log ready path = some (last_text (split b'/' path))
base_detail _ ready path = none

unfoldable pub fresh_copy : DiskEntry → DiskEntry
unfolding base_detail
fresh_copy e = record e {
  run_ids = [];
  classification = unknown;
  detail = base_detail e.kind e.ready e.path;
}

-- `_fresh_copies`
unfoldable pub fresh_copies : List DiskEntry → RunReferences → Option (Dict Ids) → List DiskEntry
unfolding fresh_copy classify_entries
fresh_copies entries refs current = classify_entries refs current (map fresh_copy entries)

unfoldable pub log_runs : String → Dict Ids → Ids → Ids
unfolding add_all starts_with
log_runs path [] ids = ids
log_runs path ((dir, more) ∷ dirs) ids =
    log_runs path dirs
      (if (dir == path) || starts_with dir (path <> "/") then add_all ids more else ids)

abbrev clone_warning : Ids → String
clone_warning ids =
    if is_empty ids
    then "may contain logs of forgotten runs (not archived)"
    else "contains logs of run(s) " <> (join ", " (sort_texts ids) <> " — logs are not archived")

-- `_log_warnings`
unfoldable pub log_warnings : RunReferences → DiskEntryKind → String → List String
unfolding log_runs sort_texts
log_warnings refs clone path = clone_warning (log_runs path refs.log_dirs []) ∷ []
log_warnings refs agent path =
    "will be skipped at execution if the workspace has uncommitted or unpushed work" ∷ []
log_warnings refs _ path = []

abbrev pub is_allowed : List String → DiskEntry → Bool
is_allowed allow e = elem e.path allow

-- The reason to skip a candidate whose kind may be deleted, by its classification.
abbrev pub class_reason :
    ScanSpec → Option String → List String → DiskEntryClass → DiskEntry → Option String
class_reason spec home allow active e = some ("referenced by active run(s) " <> join ", " e.run_ids)
class_reason spec home allow unknown e = some "classification unknown — not deletable"
class_reason spec home allow referenced e =
    if is_allowed allow e
    then safety_reason e spec home
    else some
        ("referenced by run(s) " <> (join ", " e.run_ids <> "; delete individually to confirm"))
class_reason spec home allow orphaned e = safety_reason e spec home

abbrev pub skip_reason : ScanSpec → Option String → List String → DiskEntry → Option String
skip_reason spec home allow e =
    if is_deletable e.kind
    then class_reason spec home allow e.classification e
    else some "unrecognized entries are never deletable"

abbrev action_of : DiskEntryKind → Action
action_of agent = check_then_delete
action_of _ = delete

abbrev pub planned : RunReferences → DiskEntry → Option String → CleanupPlanEntry
planned refs e (some reason) = record {
  entry = e;
  action = skip;
  reason = some reason;
  warnings = [];
}
planned refs e none = record {
  entry = e;
  action = action_of e.kind;
  reason = none;
  warnings = log_warnings refs e.kind e.path;
}

-- The body of the loop over the candidates.
unfoldable pub plan_entry :
    RunReferences → ScanSpec → Option String → List String → DiskEntry → CleanupPlanEntry
unfolding safety_reason log_warnings
plan_entry refs spec home allow e = planned refs e (skip_reason spec home allow e)

-- `by_path.get(path)`: the dictionary keeps the last entry of a path.
unfoldable pub entry_at : List DiskEntry → String → Option DiskEntry
entry_at [] path = none
entry_at (e ∷ entries) path = elim (entry_at entries path) [
  | some later ↦ some later
  | none ↦ if e.path == path then some e else none
]

-- The candidates for the given paths, and an error for each path that the scan does not have.
unfoldable pub find_candidates :
    List DiskEntry → Option String → List String → List DiskEntry × List String
unfolding entry_at normalize_remote_path
find_candidates copies home [] = ([], [])
find_candidates copies home (p ∷ paths) =
    let (found, errors) = find_candidates copies home paths in
    elim (entry_at copies (normalize_remote_path p home)) [
      | none ↦ (found, ("path not in the last scan for this backend: " <> p) ∷ errors)
      | some e ↦ (e ∷ found, errors)
    ]

abbrev pub is_orphan : DiskEntryClass → Bool
is_orphan orphaned = true
is_orphan _ = false

-- The candidates of bulk mode are the orphaned entries of the kinds that may be deleted.
unfoldable pub candidates :
    List DiskEntry → Option String → Option (List String) → List DiskEntry × List String
unfolding find_candidates
candidates copies home none =
    (keep (λ e. is_orphan e.classification && is_deletable e.kind) copies, [])
candidates copies home (some paths) = find_candidates copies home paths

unfoldable pub plan_cleanup :
    DiskScanResult
    → RunReferences
    → ScanSpec
    → Option (Dict Ids)
    → ℕ
    → Option (List String)
    → List String
    → CleanupPlan
unfolding fresh_copies candidates plan_entry normalize_remote_path
plan_cleanup result refs spec current planned_at paths allow_referenced =
    let home = result.home_dir in
    let (found, errors) = candidates (fresh_copies result.entries refs current) home paths in
    let allow = map (λ p. normalize_remote_path p home) allow_referenced in
    record {
      backend = result.backend;
      planned_at = planned_at;
      entries = if is_empty errors then map (plan_entry refs spec home allow) found else [];
      errors = errors;
    }
