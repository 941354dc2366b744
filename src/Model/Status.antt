-- ===== src/Model/Status.antt =====
-- `Run.status` of src/scripthut/runs/models.py, and what it amounts to.
pub mod Verdict
use scripthut.Common.{
  Bool, true, false, not, ◌&&◌, ◌||◌, List, [], ◌∷◌, if◌then◌else◌, all, any, keep,
}
use scripthut.Model.Item.{RunItem, is_pending, is_failure, is_finished, holds_slot, is_completed}
use scripthut.Model.Runs.{Run, RunStatus, pending, running, completed, failed}
use scripthut.Model.Deps.{failed_deps}

abbrev pub is_empty {ℓ} : {A : Type ℓ} → List A → Bool
is_empty [] = true
is_empty (x ∷ xs) = false

-- Whether the first block of `status`, on failures, returns FAILED.
abbrev pub reports_failed : List RunItem → Bool
reports_failed items =
    let pending_items = keep (λ i. is_pending i.status) items in
    any (λ i. is_failure i.status) items
    && (all (λ i. is_finished i.status) items
        || (all (λ i. is_finished i.status || is_pending i.status) items
            && (not (is_empty pending_items)
                && all (λ i. not (is_empty (failed_deps items i))) pending_items)))

unfoldable pub status_of : List RunItem → RunStatus
status_of items =
    if is_empty items
    then completed
    else if reports_failed items
    then failed
    else if all (λ i. is_completed i.status) items
    then completed
    else if any (λ i. holds_slot i.status) items
    then running
    else pending

unfoldable pub status : Run → RunStatus
unfolding status_of
status run = status_of run.items
