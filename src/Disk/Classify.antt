-- ===== src/Disk/Classify.antt =====
-- `classify_entries` of src/scripthut/disk/classify.py.
use scripthut.Common.{
  String, ◌<>◌, Bool, true, false, ◌||◌, Option, none, some, List, [], ◌∷◌, map, if◌then◌else◌,
  ◌==◌, elem, any,
}
use scripthut.Common.Dict.{Dict, get}
use scripthut.Common.Text.{starts_with, split, join, sort_texts, last_text}
use scripthut.Model.Status.{is_empty}
use scripthut.Disk.Entries.{
  DiskEntry, DiskEntryKind, clone, agent, stack, log, other, active, referenced, orphaned, unknown,
}
use scripthut.Disk.References.{RunReferences, Ids, ids_of, add}

-- `_join_sources`
abbrev join_sources : Ids → Option String
join_sources ids = if is_empty ids then none else some (join ", " (sort_texts ids))

-- `_apply_refs`
unfoldable pub apply_refs : RunReferences → Ids → DiskEntry → DiskEntry
unfolding sort_texts
apply_refs refs ids e = if is_empty ids then record e { classification = orphaned } else record e {
  run_ids = sort_texts ids;
  classification = if any (λ id. elem id refs.active_run_ids) ids then active else referenced;
}

-- `ids |= more`
unfoldable pub add_all : Ids → Ids → Ids
unfolding add
add_all ids [] = ids
add_all ids (id ∷ more) = add_all (add ids id) more

-- The runs with logs at the path or below.
unfoldable pub log_ids : String → Dict Ids → Ids → Ids
unfolding add_all starts_with
log_ids path [] ids = ids
log_ids path ((dir, more) ∷ dirs) ids =
    log_ids path dirs
      (if (dir == path) || starts_with dir (path <> "/") then add_all ids more else ids)

abbrev last_two : List String → String × String
last_two [] = ("", "")
last_two (a ∷ []) = ("", "")
last_two (a ∷ b ∷ []) = (a, b)
last_two (a ∷ b ∷ c ∷ parts) = last_two (b ∷ c ∷ parts)

abbrev annotated : Option String → String → Option String
annotated none text = some text
annotated (some detail) text = some (detail <> text)

abbrev stack_declared : String → Option Ids → DiskEntry → DiskEntry
stack_declared hash none e = record e {
  classification = orphaned;
  detail = annotated e.detail " (unconfigured)";
}
stack_declared hash (some hashes) e =
    if elem hash hashes
    then record e { classification = referenced }
    else record e { classification = referenced; detail = annotated e.detail " (superseded)" }

abbrev is_half_built : Option Bool → Bool
is_half_built (some false) = true
is_half_built _ = false

-- `_classify_stack`
unfoldable pub classify_stack : Option (Dict Ids) → DiskEntry → DiskEntry
unfolding split get
classify_stack current e =
    let (name, hash) = last_two (split b'/' e.path) in
    if is_half_built e.ready then record e { classification = orphaned } else (elim current [
      | none ↦ record e { classification = referenced }
      | some hashes ↦ stack_declared hash (get hashes name) e
    ])

abbrev pub base_name : String → String
base_name path = last_text (split b'/' path)

-- The body of the loop of `classify_entries`, by the kind of the entry.
unfoldable pub classify_kind :
    RunReferences → Option (Dict Ids) → DiskEntryKind → DiskEntry → DiskEntry
unfolding apply_refs log_ids classify_stack get split sort_texts
classify_kind refs current clone e =
    record (apply_refs refs (ids_of (get refs.clone_hashes (base_name e.path))) e) {
      source = join_sources (ids_of (get refs.clone_sources (base_name e.path)));
    }
classify_kind refs current agent e =
    record (apply_refs refs (ids_of (get refs.agent_dirs e.path)) e) {
      source = join_sources (ids_of (get refs.agent_sources e.path));
    }
classify_kind refs current log e = apply_refs refs (log_ids e.path refs.log_dirs []) e
classify_kind refs current stack e = classify_stack current e
classify_kind refs current other e = record e { classification = unknown }

unfoldable pub classify_entries :
    RunReferences → Option (Dict Ids) → List DiskEntry → List DiskEntry
unfolding classify_kind
classify_entries refs current entries = map (λ e. classify_kind refs current e.kind e) entries
