-- ===== src/Model/Uncascade.antt =====
-- `Run.uncascade_dep_failures` of src/scripthut/runs/models.py, on the list `run.items`. Its `while
-- changed` loop runs on fuel, and `none` means that it ran out. The list of reset items that it
-- returns for the log is left out.
pub mod Restored
use scripthut.Common.{
  ℕ, zero, suc, Bool, true, false, ◌||◌, Option, none, some, List, [], ◌∷◌, ◌++◌, if◌then◌else◌,
  String,
}
use scripthut.Model.Item.{RunItem, RunItemStatus, pending}
use scripthut.Model.Deps.{is_dep_failed, failed_deps, dep_failed_count}

-- The assignments to an item that is reset.
unfoldable pub undo_failure : RunItem → RunItem
undo_failure item = record item { status = pending; error = none; finished_at = none }

-- The test on the failed dependencies: the item, and whether it changed.
unfoldable pub undo_unblocked : RunItem → List String → RunItem × Bool
unfolding undo_failure
undo_unblocked item [] = (undo_failure item, true)
undo_unblocked item (dep_id ∷ _) = (item, false)

-- The body of the `for` loop.
unfoldable pub uncascade_item : List RunItem → RunItem → RunItem × Bool
unfolding undo_unblocked failed_deps
uncascade_item items item =
    if is_dep_failed item.status
    then undo_unblocked item (failed_deps items item)
    else (item, false)

-- The `for` loop: `seen` holds the items behind it, and `changed` the flag.
unfoldable pub uncascade_pass : Bool → List RunItem → List RunItem → List RunItem × Bool
unfolding uncascade_item
uncascade_pass changed seen [] = (seen, changed)
uncascade_pass changed seen (item ∷ rest) =
    let (item', hit) = uncascade_item (seen ++ item ∷ rest) item in
    uncascade_pass (changed || hit) (seen ++ item' ∷ []) rest

-- The `while changed` loop.
unfoldable pub uncascade_loop : ℕ → List RunItem → Option (List RunItem)
unfolding uncascade_pass
uncascade_loop zero items = none
uncascade_loop (suc fuel) items =
    let (items', changed) = uncascade_pass false [] items in
    elim changed [ true ↦ uncascade_loop fuel items' | false ↦ some items' ]

-- A pass that changes an item leaves fewer of them.
unfoldable pub uncascade : List RunItem → Option (List RunItem)
unfolding uncascade_loop dep_failed_count
uncascade items = uncascade_loop (suc (dep_failed_count items)) items
