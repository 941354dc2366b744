-- ===== src/Disk/Entries.antt =====
-- The data of src/scripthut/disk/models.py.
use scripthut.Common.{ℕ, String, Bool, Option, none, some, List, [], ◌∷◌, ◌+◌}

pub data DiskEntryKind : Type 0 where
  clone agent stack log other : DiskEntryKind

pub data DiskEntryClass : Type 0 where
  active referenced orphaned unknown : DiskEntryClass

pub record DiskEntry : Type 0 where
  pub path : String
  pub kind : DiskEntryKind
  pub size_bytes : Option ℕ
  pub mtime : Option ℕ
  pub classification : DiskEntryClass
  pub run_ids : List String
  pub detail : Option String
  pub ready : Option Bool
  pub source : Option String

pub record DiskScanResult : Type 0 where
  pub backend : String
  pub scanned_at : ℕ
  pub duration_ms : ℕ
  pub home_dir : Option String
  pub disk_total_bytes : Option ℕ
  pub disk_avail_bytes : Option ℕ
  pub entries : List DiskEntry
  pub errors : List String

pub record ScanSpec : Type 0 where
  pub backend : String
  pub clone_dirs : List String
  pub stack_dirs : List String
  pub log_roots : List String
  pub cache_roots : List String
  pub du_entry_timeout : ℕ
  pub parallelism : ℕ

abbrev pub size_of : DiskEntry → ℕ
size_of e = elim e.size_bytes [ none ↦ 0 | some n ↦ n ]

-- `DiskScanResult.total_bytes`
unfoldable pub total_bytes : List DiskEntry → ℕ
total_bytes [] = 0
total_bytes (e ∷ entries) = size_of e + total_bytes entries
