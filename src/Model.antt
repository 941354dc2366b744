-- ===== src/Model.antt =====
-- src/scripthut/runs/models.py: tasks, run items and runs, with the methods of `Run`.
mod Item
mod Runs
mod Deps
pub mod Status
pub mod Uncascade
pub use Item.{
  Expected, one, one_of, Guard, EnvRule, CacheScope, commit, inputs_only, TaskOutput, OutputKind,
  markdown, image, other, TaskDefinition, RunItemStatus, pending, submitted, queued, running,
  settling, completed, failed, dep_failed, RunItem, is_pending, is_failure, is_finished, holds_slot,
  is_completed,
}
unfoldable pub use Item.{new_item}
pub use Runs.{Stack, Run, RunStatus}
unfoldable pub use Deps.{
  find_item, deps_satisfied, failed_deps, running_count, pending_count, completed_count,
  failed_count, dep_failed_count, cache_hit_count, find_job,
}
pub use Deps.{dep_completed, dep_has_failed}
