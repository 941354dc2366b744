-- ===== src/Model/Status/Verdict.antt =====
-- What the status of a run says of its items.
use scripthut.Common.{Bool, not, ◌&&◌, ◌||◌, ◌≡◌, refl, List, [], ◌∷◌, if◌then◌else◌, all, any, ltb}
use scripthut.Model.Item.{RunItem, is_pending, is_failure, is_finished, is_completed}
use scripthut.Model.Item
use scripthut.Model.Runs.{RunStatus, pending, running, completed, failed}
use scripthut.Model.Deps.{failed_deps, running_count}
use scripthut.Model.Status.{is_empty, status}

-- An item that will not run any more: finished, or waiting on a dependency that failed.
abbrev pub is_over : List RunItem → RunItem → Bool
is_over items i =
    is_finished i.status || (is_pending i.status && not (is_empty (failed_deps items i)))

-- The verdict in the order of what the items do.
unfoldable pub verdict : List RunItem → RunStatus
unfolding running_count
verdict items =
    if ltb 0 (running_count items)
    then running
    else if all (λ i. is_completed i.status) items
    then completed
    else if any (λ i. is_failure i.status) items && all (is_over items) items
    then failed
    else pending

not_empty_split :
    (g : RunItem → Bool) (items : List RunItem)
    → (is_empty items || (not (is_empty items) && all g items)) ≡ (is_empty items || all g items)
not_empty_split g [] = refl
not_empty_split g (i ∷ items) = refl
