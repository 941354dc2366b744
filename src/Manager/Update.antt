-- ===== src/Manager/Update.antt =====
-- `update_all_runs` of src/scripthut/runs/manager.py: a poll's report to the run manager. The runs are
-- the values of the manager's dictionary. `fuel` is that of `process_run`; `none` means that it ran out.
pub mod Within
use scripthut.Common.{
  ℕ, String, Bool, true, false, Option, none, some, List, [], ◌∷◌, ◌++◌, map, if◌then◌else◌, ◌==◌,
  elem, truthy,
}
use scripthut.Common.Dict.{Dict, get, put}
use scripthut.Common.Text.{sort_texts}
use scripthut.Model.{Run}
use scripthut.Model.Status.{status}
use scripthut.Manager.World.{World}
use scripthut.Manager.Slots.{is_active, contending_runs}
use scripthut.Manager.Process.{process_run}
use scripthut.Manager.Observe.{JobState, update_run_status}

-- One entry of the report: a job, its state and the scheduler's reason, if there is one.
pub record JobReport : Type 0 where
  pub job_id : String
  pub state : JobState
  pub reason : Option String

-- `job_states` and `pending_reasons`
unfoldable pub states_of : List JobReport → Dict JobState → Dict JobState
unfolding put
states_of [] states = states
states_of (e ∷ jobs) states = states_of jobs (put states e.job_id e.state)

abbrev pub note_reason : Dict String → String → Option String → Dict String
note_reason reasons job_id none = reasons
note_reason reasons job_id (some reason) = put reasons job_id reason

unfoldable pub reasons_of : List JobReport → Dict String → Dict String
unfolding put
reasons_of [] reasons = reasons
reasons_of (e ∷ jobs) reasons = reasons_of jobs (note_reason reasons e.job_id (truthy e.reason))

abbrev pub jobs_on : Dict (List JobReport) → String → List JobReport
jobs_on backend_jobs name = elim (get backend_jobs name) [ none ↦ [] | some jobs ↦ jobs ]

abbrev pub contending_ids : List Run → String → List String
contending_ids runs name = map (λ r. r.id) (contending_runs runs name)

-- `{run.backend_name for run in self.runs.values()}`
unfoldable pub backend_names : List Run → List String
backend_names [] = []
backend_names (run ∷ runs) =
    let names = backend_names runs in
    if elem run.backend_name names then names else run.backend_name ∷ names

module _ (w : World) (fuel : ℕ) where
  -- The body of the first loop, for an active run.
  unfoldable pub update_run : Dict (List JobReport) → List Run → List Run → Run → Option Run
  unfolding update_run_status states_of reasons_of get
  update_run backend_jobs before after run =
      let jobs = jobs_on backend_jobs run.backend_name in
      if is_active (status run)
      then update_run_status w fuel before after (states_of jobs []) (reasons_of jobs []) run
      else some run

  unfoldable pub update_each : Dict (List JobReport) → List Run → List Run → Option (List Run)
  unfolding update_run
  update_each backend_jobs seen [] = some seen
  update_each backend_jobs seen (run ∷ runs) = elim (update_run backend_jobs seen runs run) [
    | none ↦ none
    | some run' ↦ update_each backend_jobs (seen ++ run' ∷ []) runs
  ]

  -- `process_run` on the run with the id, which is in its place among the others.
  unfoldable pub drive_at : Bool → String → List Run → List Run → Option (List Run)
  unfolding process_run
  drive_at fair_share id seen [] = some seen
  drive_at fair_share id seen (run ∷ runs) =
      if run.id == id
      then (elim (process_run w fuel seen runs fair_share run) [
        | none ↦ none
        | some run' ↦ some (seen ++ run' ∷ runs)
      ])
      else drive_at fair_share id (seen ++ run ∷ []) runs

  -- A loop over the contending runs, whose list is made once before it.
  unfoldable pub drive_ids : Bool → List String → List Run → Option (List Run)
  unfolding drive_at
  drive_ids fair_share [] runs = some runs
  drive_ids fair_share (id ∷ ids) runs = elim (drive_at fair_share id [] runs) [
    | none ↦ none
    | some runs' ↦ drive_ids fair_share ids runs'
  ]

  -- The fair pass and the greedy pass for one backend.
  unfoldable pub drive_backend : String → List Run → Option (List Run)
  unfolding drive_ids contending_runs
  drive_backend name runs = elim (drive_ids true (contending_ids runs name) runs) [
    | none ↦ none
    | some fair ↦ drive_ids false (contending_ids fair name) fair
  ]

  unfoldable pub drive_backends : List String → List Run → Option (List Run)
  unfolding drive_backend
  drive_backends [] runs = some runs
  drive_backends (name ∷ names) runs = elim (drive_backend name runs) [
    | none ↦ none
    | some runs' ↦ drive_backends names runs'
  ]

  unfoldable pub update_all_runs : Dict (List JobReport) → List Run → Option (List Run)
  unfolding update_each drive_backends backend_names sort_texts
  update_all_runs backend_jobs runs = elim (update_each backend_jobs [] runs) [
    | none ↦ none
    | some updated ↦ drive_backends (sort_texts (backend_names updated)) updated
  ]
