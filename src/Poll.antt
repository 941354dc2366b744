-- ===== src/Poll.antt =====
-- `poll_backend` of src/scripthut/main.py, from the accounting of the jobs on: what the records of the
-- scheduler's accounting make of the items that it is asked about.
pub mod Runs
pub mod Rulings
pub mod Caps
pub mod Patience
pub mod GivenUp
use scripthut.Common.{
  ℕ, ◌-◌, String, ◌<>◌, Bool, true, false, not, ◌&&◌, ◌||◌, Option, none, some, List, [], ◌∷◌, ◌++◌,
  if◌then◌else◌, or_else, is_some, truthy, ltb, elem, ◌==◌,
}
use scripthut.Common.Dict.{Dict, get}
use scripthut.Model.{RunItem, RunItemStatus, is_completed}

-- `JobStats` of src/scripthut/backends/base.py.
pub record JobStats : Type 0 where
  pub cpu_efficiency : ℕ
  pub max_rss : String
  pub total_cpu : String
  pub start_time : Option ℕ
  pub end_time : Option ℕ
  pub state : Option String
  pub exit_code : Option ℕ

-- What a poll knows: the time, the jobs in the queue, the records of the accounting, and how the
-- backend reads a final state. `failure_states` gives the reason for a state that is a failure.
pub record Poll : Type 0 where
  pub now : ℕ
  pub live_job_ids : List String
  pub job_stats : Dict JobStats
  pub terminal_states : List String
  pub failure_states : Dict String

-- `SUBMIT_TO_FAIL_GRACE_SECONDS` and the other limits and markers of runs/manager.py
abbrev pub submit_to_fail_grace_seconds : ℕ
submit_to_fail_grace_seconds = 60

abbrev pub submitted_no_record_timeout_seconds : ℕ
submitted_no_record_timeout_seconds = 300

abbrev pub settling_no_record_timeout_seconds : ℕ
settling_no_record_timeout_seconds = 600

abbrev pub disappeared_before_running_marker : String
disappeared_before_running_marker = "Job vanished before being observed running"

abbrev pub is_failed : RunItemStatus → Bool
is_failed RunItemStatus.failed = true
is_failed _ = false

abbrev pub is_submitted : RunItemStatus → Bool
is_submitted RunItemStatus.submitted = true
is_submitted _ = false

abbrev pub is_settling : RunItemStatus → Bool
is_settling RunItemStatus.settling = true
is_settling _ = false

-- `(now - at).total_seconds() > limit`, for a time that is there. A time in the future has a negative
-- age, which is not above the limit.
abbrev pub older_than : ℕ → ℕ → Option ℕ → Bool
older_than limit now none = false
older_than limit now (some at) = ltb limit (now - at)

-- Whether the accounting is asked about the item: the phases A, B and C.
unfoldable pub needs_accounting : ℕ → List String → RunItem → Option String → Bool
needs_accounting now live item none = false
needs_accounting now live item (some job_id) =
    if (is_completed item.status || is_failed item.status) && not (is_some item.scheduler_state)
    then true
    else if is_submitted item.status && (not (elem job_id live) && is_some item.submitted_at)
    then older_than submit_to_fail_grace_seconds now item.submitted_at
    else is_settling item.status

abbrev confirmed : Poll → JobStats → Option String → Option String
confirmed p s state = elim (truthy s.state) [
  | none ↦ state
  | some final ↦ if elem final p.terminal_states then some final else state
]

-- The statistics that every record leaves on its item.
unfoldable pub note_stats : Poll → JobStats → RunItem → RunItem
note_stats p s item = record item {
  cpu_efficiency = some s.cpu_efficiency;
  max_rss = some s.max_rss;
  started_at = or_else s.start_time item.started_at;
  finished_at = or_else s.end_time item.finished_at;
  scheduler_state = confirmed p s item.scheduler_state;
  exit_code = or_else s.exit_code item.exit_code;
}

-- What the run has to do after an item was resolved.
pub data Followup : Type 0 where
  nothing : Followup
  run_hooks : Followup
  reprocess : Followup
  uncascade_failures : Followup

unfoldable pub correct_failure : String → RunItem → RunItem
correct_failure reason item = record item {
  status = RunItemStatus.failed;
  error = some ("Scheduler: " <> reason);
}

unfoldable pub resolve_completed : Poll → JobStats → RunItem → RunItem
resolve_completed p s item = record item {
  started_at = or_else item.started_at item.submitted_at;
  status = RunItemStatus.completed;
  finished_at = or_else s.end_time (some p.now);
}

unfoldable pub resolve_failed : Poll → JobStats → String → RunItem → RunItem
resolve_failed p s reason item = record item {
  started_at = or_else item.started_at item.submitted_at;
  status = RunItemStatus.failed;
  error = some ("Scheduler: " <> reason);
  finished_at = or_else s.end_time (some p.now);
}

-- The branches for SETTLING and for SUBMITTED, given a state: they are the same.
unfoldable pub resolve_waiting : Poll → JobStats → String → RunItem → RunItem × Followup
unfolding resolve_completed resolve_failed get
resolve_waiting p s final item =
    if final == "COMPLETED"
    then (resolve_completed p s item, run_hooks)
    else (elim (get p.failure_states final) [
      | some reason ↦ (resolve_failed p s reason item, reprocess)
      | none ↦ (item, nothing)
    ])

abbrev pub is_marker : Option String → Bool
is_marker none = false
is_marker (some e) = e == disappeared_before_running_marker

-- The branch for COMPLETED: a failure that the accounting knows of.
abbrev pub resolve_finished : Poll → String → RunItem → RunItem × Followup
resolve_finished p final item = elim (get p.failure_states final) [
  | some reason ↦ (correct_failure reason item, nothing)
  | none ↦ (item, nothing)
]

-- The last branch: the correction of runs from before the accounting was asked.
abbrev pub resolve_legacy : String → RunItem → RunItem × Followup
resolve_legacy final item =
    if (final == "COMPLETED") && is_marker item.error
    then (record item { status = RunItemStatus.completed; error = none }, uncascade_failures)
    else (item, nothing)

-- The chain of branches, for a state that is there, by the status of the item.
unfoldable pub resolve_state :
    Poll → JobStats → String → RunItemStatus → RunItem → RunItem × Followup
unfolding correct_failure resolve_waiting get
resolve_state p s final RunItemStatus.completed item = resolve_finished p final item
resolve_state p s final RunItemStatus.settling item = resolve_waiting p s final item
resolve_state p s final RunItemStatus.submitted item = resolve_waiting p s final item
resolve_state p s final RunItemStatus.failed item = resolve_legacy final item
resolve_state p s final status item = (item, nothing)

abbrev pub resolve_stated : Poll → JobStats → Option String → RunItem → RunItem × Followup
resolve_stated p s none item = (item, nothing)
resolve_stated p s (some final) item = resolve_state p s final item.status item

-- The body of the loop for an item with a record.
unfoldable pub resolve_item : Poll → JobStats → RunItem → RunItem × Followup
unfolding note_stats resolve_state
resolve_item p s item = resolve_stated p s (truthy s.state) (note_stats p s item)

-- The record of the item's job, if its id is a text and the accounting has one.
abbrev pub stats_of : Poll → Option String → Option JobStats
stats_of p none = none
stats_of p (some job_id) = get p.job_stats job_id
