-- ===== src/Disk/Guards.antt =====
-- `_safety_reason` of src/scripthut/disk/cleanup.py: the guards of a path that is to be deleted.
pub mod Placing
use scripthut.Common.{
  ℕ, ◌+◌, String, ◌<>◌, Bool, true, false, not, ◌&&◌, ◌||◌, Option, none, some, List, [], ◌∷◌, ◌++◌,
  map, if◌then◌else◌, ◌==◌, elem, any, keep, eqb, ltb, length, truthy,
}
use scripthut.Common.Dict.{Dict}
use scripthut.Common.Text.{starts_with, drop_prefix, split, join, sort_texts, last_text}
use scripthut.Model.Status.{is_empty}
use scripthut.Disk.Entries.{
  DiskEntry, DiskEntryKind, DiskEntryClass, DiskScanResult, ScanSpec, clone, agent, stack, log,
  other, active, referenced, orphaned, unknown, size_of,
}
use scripthut.Disk.Paths.{normalize_remote_path, trim_slashes, is_clone_hash, is_agent_dir}
use scripthut.Disk.References.{RunReferences, Ids}
use scripthut.Disk.Classify.{classify_entries, add_all}

-- `seg in ("", ".", "..")`
abbrev pub is_dotted : String → Bool
is_dotted seg = (seg == "") || ((seg == ".") || (seg == ".."))

abbrev pub rest_of : List String → List String
rest_of [] = []
rest_of (a ∷ parts) = parts

-- The roots that an entry of the kind may stand under, and how deep.
abbrev pub roots_of : ScanSpec → DiskEntryKind → List String × ℕ
roots_of spec clone = (spec.clone_dirs, 1)
roots_of spec agent = (spec.clone_dirs, 1)
roots_of spec stack = (spec.stack_dirs, 2)
roots_of spec _ = (spec.log_roots, 1)

-- The first root that the path is under, with what is below it.
unfoldable pub find_root : List String → Option String → String → Option (String × String)
unfolding normalize_remote_path starts_with drop_prefix
find_root [] home p = none
find_root (root ∷ roots) home p =
    let norm = normalize_remote_path root home in
    let later = find_root roots home p in
    if starts_with norm "/"
    then (elim (drop_prefix (norm <> "/") p) [ none ↦ later | some below ↦ some (norm, below) ])
    else later

abbrev pub is_home : Option String → String → Bool
is_home none p = false
is_home (some home) p = p == trim_slashes home

abbrev head_of : List String → String
head_of [] = ""
head_of (a ∷ parts) = a

-- The naming pattern of the kind, on the first component below the root.
abbrev pub name_fits : DiskEntryKind → List String → Bool
name_fits clone below = is_clone_hash (head_of below)
name_fits agent below = is_agent_dir (head_of below)
name_fits _ below = true

abbrev name_reason : DiskEntryKind → String
name_reason clone = "clone name no longer matches the commit-hash pattern"
name_reason _ = "agent workspace name no longer matches the expected pattern"

abbrev pub is_clean : String → Bool
is_clean p = starts_with p "/" && not (any is_dotted (rest_of (split b'/' p)))

abbrev pub is_deep : String → Bool
is_deep p = not (ltb (length (keep (λ seg. not (seg == "")) (split b'/' p))) 3)

abbrev pub below_reason : DiskEntry → ℕ → Option String → Option (String × String) → Option String
below_reason e depth home none = some "not under any scanned root (or remote home unknown)"
below_reason e depth home (some (root, below)) =
    let parts = split b'/' below in
    if is_home (truthy home) e.path
    then some "path equals the remote home directory"
    else if not (eqb (length parts) depth)
    then some ("unexpected depth under " <> root)
    else if name_fits e.kind parts
    then none
    else some (name_reason e.kind)

-- `_safety_reason`
unfoldable pub safety_reason : DiskEntry → ScanSpec → Option String → Option String
unfolding starts_with split find_root trim_slashes is_clone_hash is_agent_dir
safety_reason e spec home =
    let (roots, depth) = roots_of spec e.kind in
    if not (is_clean e.path)
    then some "not a clean absolute path"
    else if not (is_deep e.path)
    then some "path too shallow to delete safely"
    else below_reason e depth home (find_root roots home e.path)
