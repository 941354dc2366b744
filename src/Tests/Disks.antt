-- ===== src/Tests/Disks.antt =====
-- A small scan (src/scripthut/disk) on which the theorems are applied.
use scripthut.Common.{
  ◌⊎◌, String, ◌<>◌, ◌≡◌, refl, true, false, Option, none, some, List, [], ◌∷◌, All, map,
}
use scripthut.Common.Text.{take_text}
use scripthut.Model.{RunItemStatus, Run, new_item}
use scripthut.Model.Status.{status}
use scripthut.Disk.Entries.{DiskEntry, DiskScanResult, ScanSpec, clone, unknown}
use scripthut.Disk.References.{build_run_references}
use scripthut.Disk.Cleanup.{is_skip, plan_cleanup, delete_bytes, sum_sizes, to_delete}
use scripthut.Disk.Cleanup.Safety.{PlanEntryOk, plan_cleanup-Safe}
use scripthut.Disk.Cleanup.Active.{is_clone_of, plan_cleanup-spares_active}
use scripthut.Tests.{a_run, at_status, data_item, lost_item}

abbrev a_clone : String → DiskEntry
a_clone name = record {
  path = "/home/u/clones/" <> name;
  kind = clone;
  size_bytes = some 100;
  mtime = some 1;
  classification = unknown;
  run_ids = [];
  detail = none;
  ready = none;
  source = none;
}

abbrev scanned : DiskScanResult
scanned = record {
  backend = "hpc";
  scanned_at = 900;
  duration_ms = 10;
  home_dir = some "/home/u";
  disk_total_bytes = none;
  disk_avail_bytes = none;
  entries = a_clone "aaaaaaaaaaaa" ∷ a_clone "bbbbbbbbbbbb" ∷ a_clone "notes" ∷ [];
  errors = [];
}

abbrev a_spec : ScanSpec
a_spec = record {
  backend = "hpc";
  clone_dirs = "~/clones" ∷ [];
  stack_dirs = [];
  log_roots = [];
  cache_roots = [];
  du_entry_timeout = 60;
  parallelism = 4;
}

-- A run that is under way at the commit of the first clone.
abbrev busy_run : Run
busy_run = record (a_run (at_status RunItemStatus.running "1" data_item ∷ [])) {
  commit_hash = some "aaaaaaaaaaaabbbb";
}

abbrev ended : Run
ended = record (a_run (lost_item ∷ [])) { id = "r0"; commit_hash = none }

abbrev all_clones : Option (List String)
all_clones = some ("~/clones/aaaaaaaaaaaa" ∷ "~/clones/bbbbbbbbbbbb" ∷ "~/clones/notes" ∷ [])

plan_cleanup-Safe_example :
    All
      (PlanEntryOk scanned.entries a_spec (some "/home/u") [])
      (plan_cleanup scanned
        (build_run_references (ended ∷ busy_run ∷ []) "hpc" ("~/clones" ∷ []) (some "/home/u"))
        a_spec
        none
        1000
        all_clones
        []).entries
plan_cleanup-Safe_example =
    plan_cleanup-Safe scanned
      (build_run_references (ended ∷ busy_run ∷ []) "hpc" ("~/clones" ∷ []) (some "/home/u")) a_spec
      none 1000 all_clones []

-- The plan deletes the second clone only.
skipped :
    map
      (λ d. is_skip d.action)
      (plan_cleanup scanned
        (build_run_references (ended ∷ busy_run ∷ []) "hpc" ("~/clones" ∷ []) (some "/home/u"))
        a_spec
        none
        1000
        all_clones
        []).entries
    ≡ true ∷ false ∷ true ∷ []
unfolding plan_cleanup build_run_references status new_item
skipped = refl

plan_cleanup-spares_active_example :
    All
      (λ d.
        (is_clone_of (take_text 12 "aaaaaaaaaaaabbbb") d.entry ≡ false) ⊎ (is_skip d.action ≡ true))
      (plan_cleanup scanned
        (build_run_references (ended ∷ busy_run ∷ []) "hpc" ("~/clones" ∷ []) (some "/home/u"))
        a_spec
        none
        1000
        all_clones
        []).entries
unfolding status new_item
plan_cleanup-spares_active_example =
    plan_cleanup-spares_active (ended ∷ []) [] busy_run "aaaaaaaaaaaabbbb" "hpc" ("~/clones" ∷ [])
      scanned a_spec none 1000 all_clones [] refl refl refl

-- In bulk, the plan deletes the orphaned clone, and leaves what has no clone's name alone.
bulk_bytes :
    delete_bytes (
      plan_cleanup scanned
        (build_run_references (ended ∷ busy_run ∷ []) "hpc" ("~/clones" ∷ []) (some "/home/u"))
        a_spec
        none
        1000
        none
        [])
    ≡ 100
unfolding delete_bytes sum_sizes to_delete plan_cleanup build_run_references status new_item
bulk_bytes = refl
