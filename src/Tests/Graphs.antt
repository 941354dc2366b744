-- ===== src/Tests/Graphs.antt =====
-- Small graphs of tasks, and a poll's report, on which the theorems on
-- src/scripthut/runs/manager.py are applied.
use scripthut.Common.{
  ◌⊎◌, inl, inr, ◌≡◌, ◌↔◌, refl, true, false, none, some, List, [], ◌∷◌, All, any, arith,
}
use scripthut.Common.Dict.{Dict}
use scripthut.Model.{TaskDefinition, RunItem, Run, is_pending, new_item, pending_count, find_item}
use scripthut.Manager.Cascade.{cascade}
use scripthut.Manager.Slots.{is_ready, backend_running_count}
use scripthut.Manager.Observe.{JobState}
use scripthut.Manager.Validate.{circular, validate_dependencies}
use scripthut.Manager.Validate.Outcome.{
  Judged, IsDag, validate_dependencies-Judged, validate_dependencies-IsDag,
}
use scripthut.Manager.Progress.{cascade-moves}
use scripthut.Manager.Update.{JobReport, update_all_runs}
use scripthut.Manager.Update.Within.{Orderly, update_all_runs-Orderly}
use scripthut.Tests.{a_task, a_run, a_world, data_item, fit_item, watched}

abbrev a_cycle : List TaskDefinition
a_cycle =
    a_task "top" ("a" ∷ [])
    ∷ a_task "a" ("b" ∷ [])
    ∷ a_task "b" ("c" ∷ [])
    ∷ a_task "c" ("a" ∷ [])
    ∷ []

cycle_named : validate_dependencies a_cycle ≡ some (circular ("a" ∷ "b" ∷ "c" ∷ "a" ∷ []))
unfolding validate_dependencies
cycle_named = refl

validate_dependencies-Judged_example : Judged a_cycle (validate_dependencies a_cycle)
validate_dependencies-Judged_example = validate_dependencies-Judged a_cycle

-- Two tasks behind one, in the other order.
abbrev a_dag : List TaskDefinition
a_dag = a_task "plot" ("fit" ∷ "data" ∷ []) ∷ a_task "fit" ("data" ∷ []) ∷ a_task "data" [] ∷ []

dag_accepted : validate_dependencies a_dag ≡ none
unfolding validate_dependencies
dag_accepted = refl

validate_dependencies-IsDag_example : (validate_dependencies a_dag ≡ none) ↔ IsDag a_dag
validate_dependencies-IsDag_example = validate_dependencies-IsDag a_dag

abbrev fresh_items : List RunItem
fresh_items = fit_item ∷ data_item ∷ []

cascade-moves_example :
    All (λ i. is_pending i.status ≡ false) fresh_items
    ⊎ (any (is_ready fresh_items) fresh_items ≡ true)
unfolding validate_dependencies cascade find_item new_item
cascade-moves_example =
    cascade-moves 100 fresh_items fresh_items refl (refl, (refl, tt)) (refl, (refl, tt)) refl

-- The first job runs, the second has left the queue, and a second run waits for slots.
abbrev a_report : Dict (List JobReport)
a_report = ("hpc", record { job_id = "1"; state = JobState.running; reason = none } ∷ []) ∷ []

abbrev two_runs : List Run
two_runs = a_run watched ∷ record (a_run fresh_items) { id = "r2" } ∷ []

update_all_runs-Orderly_example :
    (runs' : List Run) × (update_all_runs a_world 4 a_report two_runs ≡ some runs')
    × Orderly a_world 3 runs'
unfolding pending_count backend_running_count new_item
update_all_runs-Orderly_example =
    update_all_runs-Orderly a_world 3 4 a_report two_runs (omega arith)
      (
        (
          ((refl, (refl, (refl, (refl, tt)))), omega arith),
          (((refl, (refl, tt)), omega arith), tt),
        ),
        λ name. ground arith,
      )
      ((inl refl, (inl refl, (inr refl, (inl refl, tt)))), ((inr refl, (inr refl, tt)), tt))
