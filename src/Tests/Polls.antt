-- ===== src/Tests/Polls.antt =====
-- Small records of the accounting (src/scripthut/main.py) on which the theorems are applied.
use scripthut.Common.{◌≤◌, String, ◌≡◌, refl, Bool, true, false, none, some, [], ◌∷◌, arith, All}
use scripthut.Common.Dict.{get}
use scripthut.Model.{RunItem, RunItemStatus, Run, running_count, new_item}
use scripthut.Manager.Observe.{observe_completed, observe_missing}
use scripthut.Manager.Process.{process_run}
use scripthut.Poll.{Poll, JobStats, resolve_item}
use scripthut.Poll.Runs.{resolve_run, is_overdue, give_up_loop, drop_item}
use scripthut.Poll.Rulings.{Ruling, resolve_item-Ruling}
use scripthut.Poll.Patience.{resolve_run-returns}
use scripthut.Poll.GivenUp.{give_up_loop-Patient, observe_completed_waits}
use scripthut.Tests.{a_run, a_world, at_status, data_item, fit_item}

abbrev some_stats : JobStats
some_stats = record {
  cpu_efficiency = 9000;
  max_rss = "1.2G";
  total_cpu = "00:10:00";
  start_time = some 60;
  end_time = some 90;
  state = some "COMPLETED";
  exit_code = some 0;
}

abbrev a_poll : Poll
a_poll = record {
  now = 1000;
  live_job_ids = [];
  job_stats = ("1", some_stats) ∷ [];
  terminal_states = "COMPLETED" ∷ "OUT_OF_MEMORY" ∷ [];
  failure_states = ("OUT_OF_MEMORY", "out of memory") ∷ [];
}

abbrev settling_item : String → RunItem → RunItem
settling_item job_id i = record (at_status RunItemStatus.settling job_id i) {
  finished_at = some 100;
}

-- The accounting knows the first job, and not the second.
abbrev settling_run : Run
settling_run = a_run (settling_item "1" data_item ∷ settling_item "2" fit_item ∷ [])

resolved_status :
    (resolve_item a_poll some_stats (settling_item "1" data_item)).0.status
    ≡ RunItemStatus.completed
unfolding resolve_item get
resolved_status = refl

resolve_item-Ruling_example :
    Ruling a_poll some_stats RunItemStatus.settling
      (resolve_item a_poll some_stats (settling_item "1" data_item)).0.status
    × ((resolve_item a_poll some_stats (settling_item "1" data_item)).0.task ≡ data_item.task)
    × ((resolve_item a_poll some_stats (settling_item "1" data_item)).0.job_id ≡ some "1")
    × ((resolve_item a_poll some_stats (settling_item "1" data_item)).0.exit_code ≡ some 0)
resolve_item-Ruling_example = resolve_item-Ruling a_poll some_stats (settling_item "1" data_item)

resolve_run-returns_example :
    (run' : Run) × (resolve_run a_world a_poll (process_run a_world 3 [] [] true) 3 settling_run
      ≡ some run')
    × (running_count run'.items ≤ 2)
unfolding running_count new_item
resolve_run-returns_example =
    resolve_run-returns a_world a_poll 3 3 [] [] settling_run 2 (refl, (refl, tt)) (omega arith)
      (omega arith) refl (omega arith)

give_up_loop-Patient_example :
    (r : Run × Bool) × (give_up_loop a_world a_poll
        (process_run a_world 3 [] [] true)
        3
        0
        settling_run
        false
      ≡ some r)
    × All (λ i. is_overdue a_poll i ≡ false) r.0.items
unfolding new_item
give_up_loop-Patient_example =
    give_up_loop-Patient a_world a_poll (process_run a_world 3 [] [] true) 3 settling_run
      (refl, (refl, tt)) (omega arith)

abbrev running_item : RunItem
running_item = at_status RunItemStatus.running "2" fit_item

observe_completed_waits_example :
    ((observe_completed running_item).0.status ≡ RunItemStatus.settling)
    × ((observe_completed running_item).0.finished_at ≡ none)
    × (observe_missing 5000 (observe_completed running_item).0
        ≡ ((observe_completed running_item).0, false))
    × (is_overdue a_poll (observe_completed running_item).0 ≡ false)
    × (drop_item a_poll (observe_completed running_item).0 ≡ (observe_completed running_item).0)
unfolding new_item
observe_completed_waits_example = observe_completed_waits running_item 5000 a_poll refl
