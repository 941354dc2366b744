-- ===== src/Manager/Control.antt =====
-- What a user asks of the runs: `cancel_run`, `rerun_in_place`, `delete_run` and `get_active_runs` of
-- src/scripthut/runs/manager.py.
pub mod Cancelling
pub mod Ending
pub mod Outcomes
use scripthut.Common.{
  ℕ, String, Bool, true, false, Option, none, some, List, [], ◌∷◌, if◌then◌else◌, or_else, truthy,
  ◌==◌, keep, map,
}
use scripthut.Model.{RunItem, RunItemStatus, Run, is_pending}
use scripthut.Model.Status.{status}
use scripthut.Manager.World.{World, Result, ok, raised}
use scripthut.Manager.Slots.{is_active}
use scripthut.Manager.Process.{process_run}

-- How a job is taken from its scheduler: by the backend's own command, or by `scancel` on the shell.
pub data CancelCall : Type 0 where
  cancel_job : String → CancelCall
  scancel : String → CancelCall

-- `status in (SUBMITTED, QUEUED, RUNNING)`
abbrev pub is_cancellable : RunItemStatus → Bool
is_cancellable RunItemStatus.submitted = true
is_cancellable RunItemStatus.queued = true
is_cancellable RunItemStatus.running = true
is_cancellable _ = false

-- The assignments to a pending item, and to one that has a job.
unfoldable pub cancel_pending : ℕ → RunItem → RunItem
cancel_pending now item = record item {
  status = RunItemStatus.failed;
  error = some "Cancelled";
  finished_at = some now;
}

unfoldable pub cancel_started : ℕ → RunItem → RunItem
cancel_started now item = record item {
  started_at = or_else item.started_at item.submitted_at;
  status = RunItemStatus.failed;
  error = some "Cancelled";
  finished_at = some now;
}

-- `answer` says what a call raises, if it does.
module _ (w : World) (answer : CancelCall → Option String) where
  -- The call for a job id, if one is made.
  abbrev pub call_for : String → Option String → Option CancelCall
  call_for backend_name none = none
  call_for backend_name (some job_id) =
      if w.has_job_backend backend_name
      then some (cancel_job job_id)
      else if w.has_ssh backend_name
      then some (scancel job_id)
      else none

  abbrev pub refusal : Option CancelCall → Option String
  refusal none = none
  refusal (some call) = answer call

  abbrev pub add_call : Option CancelCall → List CancelCall → List CancelCall
  add_call none calls = calls
  add_call (some call) calls = call ∷ calls

  -- The loop over the items: the items, the calls in order, and what ended the loop, if a call
  -- raised. Then the item of that call and those behind it are untouched.
  unfoldable pub cancel_items :
      String → List RunItem → List RunItem × List CancelCall × Option String
  unfolding cancel_pending cancel_started
  cancel_items backend_name [] = ([], [], none)
  cancel_items backend_name (item ∷ items) =
      let (later, calls, stop) = cancel_items backend_name items in
      let call = call_for backend_name (truthy item.job_id) in
      if is_pending item.status
      then (cancel_pending w.now item ∷ later, calls, stop)
      else if is_cancellable item.status
      then (elim (refusal call) [
        | some message ↦ (item ∷ items, add_call call [], some message)
        | none ↦ (cancel_started w.now item ∷ later, add_call call calls, stop)
      ])
      else (item ∷ later, calls, stop)

  -- `cancel_run`, for a run of the manager: the run as it is left, and the calls.
  unfoldable pub cancel_run : Run → Run × List CancelCall × Option String
  unfolding cancel_items
  cancel_run run =
      let (items, calls, stop) = cancel_items run.backend_name run.items in
      (record run { items = items }, calls, stop)

-- The reset of an item in `rerun_in_place`.
unfoldable pub reset_item : RunItem → RunItem
reset_item item = record item {
  status = RunItemStatus.pending;
  job_id = none;
  submitted_at = none;
  started_at = none;
  finished_at = none;
  error = none;
  submit_script = none;
  submit_output = none;
  cpu_efficiency = none;
  max_rss = none;
  scheduler_state = none;
}

unfoldable pub reset_run : ℕ → Run → Run
unfolding reset_item
reset_run now run = record run { items = map reset_item run.items; created_at = now }

-- `rerun_in_place`, for a run of the manager, on the fuel of `process_run`.
unfoldable pub rerun_in_place : World → ℕ → List Run → List Run → Run → Result (Option Run)
unfolding status reset_run process_run
rerun_in_place w fuel before after run =
    if is_active (status run)
    then raised "Cannot rerun a run that is still active"
    else ok (process_run w fuel before after true (reset_run w.now run))

-- `get_active_runs`
unfoldable pub get_active_runs : List Run → List Run
unfolding status
get_active_runs runs = keep (λ r. is_active (status r)) runs

-- `self.runs.get(run_id)`
unfoldable pub get_run : List Run → String → Option Run
get_run [] run_id = none
get_run (r ∷ runs) run_id = if r.id == run_id then some r else get_run runs run_id

-- `del self.runs[run_id]`
unfoldable pub del_run : List Run → String → List Run
del_run [] run_id = []
del_run (r ∷ runs) run_id =
    let rest = del_run runs run_id in if r.id == run_id then runs else r ∷ rest

-- What `delete_run` does with the run that it finds.
abbrev pub delete_found : List Run → String → Option Run → List Run × Bool
delete_found runs run_id none = (runs, false)
delete_found runs run_id (some run) =
    if is_active (status run) then (runs, false) else (del_run runs run_id, true)

-- `delete_run`
unfoldable pub delete_run : List Run → String → List Run × Bool
unfolding get_run del_run status
delete_run runs run_id = delete_found runs run_id (get_run runs run_id)
