-- ===== src/Manager/Cascade.antt =====
-- The first loop of `RunManager.process_run` in src/scripthut/runs/manager.py, which marks the
-- pending items behind a failure. Its `while changed` loop runs on fuel, and `none` means that it ran
-- out.
pub mod Pass
pub mod Fixpoint
use scripthut.Common.{
  ℕ, zero, suc, String, ◌<>◌, Bool, true, false, Option, none, some, List, [], ◌∷◌, ◌++◌, ◌||◌,
  if◌then◌else◌,
}
use scripthut.Model.{
  RunItem, RunItemStatus, is_pending, dep_failed, pending, failed_deps, pending_count,
  dep_failed_count,
}

-- The assignments to an item whose dependency failed.
unfoldable pub fail_dep : ℕ → String → RunItem → RunItem
fail_dep now dep_id item = record item {
  status = dep_failed;
  error = some ("Dependency '" <> (dep_id <> "' failed"));
  finished_at = some now;
}

-- What `if failed_deps:` does: the item, and whether it changed.
unfoldable pub mark_failed : ℕ → RunItem → List String → RunItem × Bool
unfolding fail_dep
mark_failed now item [] = (item, false)
mark_failed now item (dep_id ∷ _) = (fail_dep now dep_id item, true)

-- The body of the `for` loop, on an item of the current list.
unfoldable pub cascade_item : ℕ → List RunItem → RunItem → RunItem × Bool
unfolding mark_failed failed_deps
cascade_item now items item =
    if is_pending item.status then mark_failed now item (failed_deps items item) else (item, false)

-- The `for` loop: `seen` holds the items behind it, and `changed` the flag.
unfoldable pub cascade_pass : ℕ → Bool → List RunItem → List RunItem → List RunItem × Bool
unfolding cascade_item
cascade_pass now changed seen [] = (seen, changed)
cascade_pass now changed seen (item ∷ rest) =
    let (item', hit) = cascade_item now (seen ++ item ∷ rest) item in
    cascade_pass now (changed || hit) (seen ++ item' ∷ []) rest

-- The `while changed` loop.
unfoldable pub cascade_loop : ℕ → ℕ → List RunItem → Option (List RunItem)
unfolding cascade_pass
cascade_loop zero now items = none
cascade_loop (suc fuel) now items =
    let (items', changed) = cascade_pass now false [] items in
    elim changed [ true ↦ cascade_loop fuel now items' | false ↦ some items' ]

-- A pass that changes an item leaves fewer pending ones.
unfoldable pub cascade : ℕ → List RunItem → Option (List RunItem)
unfolding cascade_loop pending_count
cascade now items = cascade_loop (suc (pending_count items)) now items
