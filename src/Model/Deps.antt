-- ===== src/Model/Deps.antt =====
-- The counters and lookups of `Run` in src/scripthut/runs/models.py, over the list `run.items`.
use scripthut.Common.{
  ℕ, String, Bool, true, false, Option, none, some, List, [], ◌∷◌, ◌==◌, if◌then◌else◌, count, keep,
  all,
}
use scripthut.Model.Item.{
  RunItem, is_pending, is_completed, is_failure, holds_slot, RunItemStatus, failed, dep_failed,
}

-- `get_item_by_task_id`: the first item with the id.
unfoldable pub find_item : List RunItem → String → Option RunItem
find_item [] task_id = none
find_item (item ∷ items) task_id =
    if item.task.id == task_id then some item else find_item items task_id

-- `get_item_by_job_id`
unfoldable pub find_job : List RunItem → String → Option RunItem
find_job [] job_id = none
find_job (item ∷ items) job_id =
    let rest = find_job items job_id in
    elim item.job_id [ none ↦ rest | some j ↦ if j == job_id then some item else rest ]

-- The test of one dependency in `are_deps_satisfied`.
abbrev pub dep_completed : List RunItem → String → Bool
dep_completed items dep_id = elim (find_item items dep_id) [
  | none ↦ false
  | some dep ↦ is_completed dep.status
]

-- `are_deps_satisfied`
unfoldable pub deps_satisfied : List RunItem → RunItem → Bool
deps_satisfied items item = all (dep_completed items) item.task.dependencies

-- The test of one dependency in `get_failed_deps`: one that is not in the run has not failed.
abbrev pub dep_has_failed : List RunItem → String → Bool
dep_has_failed items dep_id = elim (find_item items dep_id) [
  | none ↦ false
  | some dep ↦ is_failure dep.status
]

-- `get_failed_deps`
unfoldable pub failed_deps : List RunItem → RunItem → List String
failed_deps items item = keep (dep_has_failed items) item.task.dependencies

unfoldable pub running_count : List RunItem → ℕ
running_count = count (λ i. holds_slot i.status)

unfoldable pub pending_count : List RunItem → ℕ
pending_count = count (λ i. is_pending i.status)

unfoldable pub completed_count : List RunItem → ℕ
completed_count = count (λ i. is_completed i.status)

abbrev is_failed : RunItemStatus → Bool
is_failed failed = true
is_failed _ = false

abbrev pub is_dep_failed : RunItemStatus → Bool
is_dep_failed dep_failed = true
is_dep_failed _ = false

unfoldable pub failed_count : List RunItem → ℕ
failed_count = count (λ i. is_failed i.status)

unfoldable pub dep_failed_count : List RunItem → ℕ
dep_failed_count = count (λ i. is_dep_failed i.status)

unfoldable pub cache_hit_count : List RunItem → ℕ
cache_hit_count = count (λ i. i.cache_hit)
