-- ===== src/Manager/Observe.antt =====
-- `update_run_status` of runs/manager.py: what the scheduler's queue says of the items. `JobState` is
-- that of src/scripthut/models.py.
pub mod Lifecycle
use scripthut.Common.{
  ℕ, String, ◌<>◌, Bool, true, false, not, ◌||◌, Option, none, some, List, [], ◌∷◌, ◌++◌,
  if◌then◌else◌, or_else, is_some, ◌==◌, any,
}
use scripthut.Common.Dict.{Dict, get}
use scripthut.Model.{RunItem, RunItemStatus, Run, is_finished}
use scripthut.Manager.World.{World}
use scripthut.Manager.Process.{process_run}

pub data JobState : Type 0 where
  pending running suspended completing completed cancelled failed timeout node_fail : JobState
  preempted boot_fail deadline out_of_memory unknown : JobState

-- `job_state.value`
unfoldable pub value : JobState → String
value JobState.pending = "PENDING"
value JobState.running = "RUNNING"
value JobState.suspended = "SUSPENDED"
value JobState.completing = "COMPLETING"
value JobState.completed = "COMPLETED"
value JobState.cancelled = "CANCELLED"
value JobState.failed = "FAILED"
value JobState.timeout = "TIMEOUT"
value JobState.node_fail = "NODE_FAIL"
value JobState.preempted = "PREEMPTED"
value JobState.boot_fail = "BOOT_FAIL"
value JobState.deadline = "DEADLINE"
value JobState.out_of_memory = "OUT_OF_ME+"
value JobState.unknown = "UNKNOWN"

abbrev pub in_queue : RunItemStatus → Bool
in_queue RunItemStatus.queued = true
in_queue RunItemStatus.running = true
in_queue _ = false

abbrev pub is_running : RunItemStatus → Bool
is_running RunItemStatus.running = true
is_running _ = false

abbrev same_reason : Option String → Option String → Bool
same_reason none none = true
same_reason (some a) (some b) = a == b
same_reason _ _ = false

-- The job is in no queue. Only one that was seen there has left it.
unfoldable pub observe_missing : ℕ → RunItem → RunItem × Bool
observe_missing now item =
    if in_queue item.status
    then (
      record item {
        started_at = or_else item.started_at item.submitted_at;
        status = RunItemStatus.settling;
        pending_reason = none;
        finished_at = some now;
      },
      true,
    )
    else (item, false)

unfoldable pub observe_running : ℕ → RunItem → RunItem × Bool
observe_running now item =
    let cleared = record item { pending_reason = none } in
    if is_running item.status then (cleared, is_some item.pending_reason) else (
      record cleared {
        status = RunItemStatus.running;
        started_at = or_else item.started_at (some now);
      },
      true,
    )

unfoldable pub observe_pending : Option String → RunItem → RunItem × Bool
observe_pending reason item =
    let noted = record item { pending_reason = reason } in
    if in_queue item.status
    then (noted, not (same_reason item.pending_reason reason))
    else (record noted { status = RunItemStatus.queued }, true)

unfoldable pub observe_completed : RunItem → RunItem × Bool
observe_completed item = (
  record item {
    started_at = or_else item.started_at item.submitted_at;
    status = RunItemStatus.settling;
    pending_reason = none;
  },
  true,
)

unfoldable pub observe_failed : ℕ → JobState → RunItem → RunItem × Bool
unfolding value
observe_failed now state item = (
  record item {
    started_at = or_else item.started_at item.submitted_at;
    status = RunItemStatus.failed;
    pending_reason = none;
    error = some ("Slurm job " <> value state);
    finished_at = some now;
  },
  true,
)

-- The chain of `if job_state ...`.
unfoldable pub observe_state : ℕ → Option String → Option JobState → RunItem → RunItem × Bool
unfolding observe_missing observe_running observe_pending observe_completed observe_failed
observe_state now reason none item = observe_missing now item
observe_state now reason (some JobState.running) item = observe_running now item
observe_state now reason (some JobState.completing) item = observe_running now item
observe_state now reason (some JobState.pending) item = observe_pending reason item
observe_state now reason (some JobState.completed) item = observe_completed item
observe_state now reason (some JobState.suspended) item = (item, false)
observe_state now reason (some JobState.unknown) item = (item, false)
observe_state now reason (some state) item = observe_failed now state item

-- What the report says of an item with the job id given.
unfoldable pub observe_job :
    ℕ → Dict JobState → Dict String → Option String → RunItem → RunItem × Bool
unfolding observe_state get
observe_job now jobs reasons none item = (item, false)
observe_job now jobs reasons (some job_id) item =
    if is_finished item.status
    then (item, false)
    else observe_state now (get reasons job_id) (get jobs job_id) item

-- The body of the loop: the item, and whether it changed.
unfoldable pub observe_item : ℕ → Dict JobState → Dict String → RunItem → RunItem × Bool
unfolding observe_job
observe_item now jobs reasons item = observe_job now jobs reasons item.job_id item

-- The loop over the items, with the flag `changed`.
unfoldable pub observe_items : ℕ → Dict JobState → Dict String → List RunItem → List RunItem × Bool
unfolding observe_item
observe_items now jobs reasons [] = ([], false)
observe_items now jobs reasons (item ∷ items) =
    let (item', hit) = observe_item now jobs reasons item in
    let (items', changed) = observe_items now jobs reasons items in (item' ∷ items', hit || changed)

-- `update_run_status`, on the fuel of `process_run`. The run is passed over if an item changed.
unfoldable pub update_run_status :
    World → ℕ → List Run → List Run → Dict JobState → Dict String → Run → Option Run
unfolding observe_items process_run
update_run_status w fuel before after jobs reasons run =
    let (items, changed) = observe_items w.now jobs reasons run.items in
    let observed = record run { items = items } in
    if changed then process_run w fuel before after true observed else some observed
