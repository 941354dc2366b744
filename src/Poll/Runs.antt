-- ===== src/Poll/Runs.antt =====
-- The loops of `poll_backend` (src/scripthut/main.py) over the runs of a backend and their items. The
-- loop over `run.items` goes by place, since a hook may append items. `rounds` is the fuel of that
-- loop and `fuel` that of `process_run`; `none` means that one ran out.
use mathlib.Core.Option
use scripthut.Common.{
  ℕ, zero, suc, String, Bool, true, false, not, ◌&&◌, ◌||◌, Option, none, some, List, [], ◌∷◌, ◌++◌,
  map, if◌then◌else◌, is_some, truthy, elem, get_elem?, set, ◌==◌,
}
use scripthut.Common.Dict.{get}
use scripthut.Model.{RunItem, RunItemStatus, Run}
use scripthut.Model.Uncascade.{uncascade, uncascade_pass}
use scripthut.Manager.World.{World}
use scripthut.Manager.Generate.{after_item_completed}
use scripthut.Manager.Process.{process_run}
use scripthut.Poll.{
  Poll, JobStats, Followup, nothing, run_hooks, reprocess, uncascade_failures, is_submitted,
  is_settling, older_than, submitted_no_record_timeout_seconds, settling_no_record_timeout_seconds,
  resolve_item, stats_of, needs_accounting,
}

-- `sacct_ids`, over the items of the backend's runs.
abbrev pub ids_of : Poll → List RunItem → List String
ids_of p [] = []
ids_of p (item ∷ items) =
    let rest = ids_of p items in
    elim (truthy item.job_id) [
      | none ↦ rest
      | some job_id ↦
          if needs_accounting p.now p.live_job_ids item (some job_id) then job_id ∷ rest else rest
    ]

unfoldable pub sacct_ids : Poll → String → List Run → List String
unfolding needs_accounting
sacct_ids p name [] = []
sacct_ids p name (run ∷ runs) =
    let rest = sacct_ids p name runs in
    if run.backend_name == name then ids_of p run.items ++ rest else rest

-- The state of the loop over the items: the run, `run_updated` and `needs_reprocess`.
pub record Progress : Type 0 where
  pub run : Run
  pub updated : Bool
  pub again : Bool

-- The item waits for the accounting beyond the limit, which has no record of it.
abbrev pub is_overdue : Poll → RunItem → Bool
is_overdue p item =
    is_settling item.status
    && (is_some (truthy item.job_id)
        && (not (is_some (stats_of p (truthy item.job_id)))
            && older_than settling_no_record_timeout_seconds p.now item.finished_at))

unfoldable pub give_up_item : RunItem → RunItem
give_up_item item = record item {
  status = RunItemStatus.completed;
  error =
      some
        "marked COMPLETED after the scheduler queue clear but accounting never returned a row — exit code unknown";
}

module _ (w : World) (p : Poll) (drive : Run → Option Run) where
  -- What follows the resolution of the item at place `k`: the run, and whether to process it again.
  unfoldable pub follow_up : Run → ℕ → Followup → Option (Run × Bool)
  unfolding after_item_completed uncascade
  follow_up run k nothing = some (run, false)
  follow_up run k reprocess = some (run, true)
  follow_up run k run_hooks = Option.map (λ r. (r, true)) (after_item_completed w drive run k)
  follow_up run k uncascade_failures =
      Option.map (λ items. (record run { items = items }, (uncascade_pass false [] run.items).1))
        (uncascade run.items)

  abbrev pub resolve_with : Progress → ℕ → RunItem → JobStats → Option Progress
  resolve_with at k item s =
      let (item', next) = resolve_item p s item in
      Option.map (λ after. record { run = after.0; updated = true; again = at.again || after.1 })
        (follow_up (record at.run { items = set at.run.items k item' }) k next)

  abbrev pub resolve_known : Progress → ℕ → RunItem → Option JobStats → Option Progress
  resolve_known at k item none = some at
  resolve_known at k item (some s) = resolve_with at k item s

  -- The body of the loop, on the item at place `k`.
  unfoldable pub resolve_place : Progress → ℕ → RunItem → Option Progress
  unfolding resolve_item follow_up get
  resolve_place at k item = resolve_known at k item (stats_of p (truthy item.job_id))

  unfoldable pub resolve_loop : ℕ → ℕ → Progress → Option Progress
  unfolding resolve_place
  resolve_loop zero k at = none
  resolve_loop (suc rounds) k at = elim (get_elem? at.run.items k) [
    | none ↦ some at
    | some item ↦ elim (resolve_place at k item) [
      | none ↦ none
      | some at' ↦ resolve_loop rounds (suc k) at'
    ]
  ]

  -- After the loop: `process_run`, where a correction asks for it.
  abbrev pub resolved : Progress → Option Run
  resolved at = if at.updated && at.again then drive at.run else some at.run

  unfoldable pub resolve_run : ℕ → Run → Option Run
  unfolding resolve_loop
  resolve_run rounds run =
      elim (resolve_loop rounds 0 (record { run = run; updated = false; again = false })) [
        | none ↦ none
        | some at ↦ resolved at
      ]

  -- The loop of the long grace, with the flag `unresolved_any`.
  unfoldable pub give_up_place : Run → Bool → ℕ → RunItem → Option (Run × Bool)
  unfolding give_up_item after_item_completed get
  give_up_place run any k item =
      if is_overdue p item
      then Option.map (λ r. (r, true))
          (after_item_completed w drive (record run { items = set run.items k (give_up_item item) })
            k)
      else some (run, any)

  unfoldable pub give_up_loop : ℕ → ℕ → Run → Bool → Option (Run × Bool)
  unfolding give_up_place
  give_up_loop zero k run any = none
  give_up_loop (suc rounds) k run any = elim (get_elem? run.items k) [
    | none ↦ some (run, any)
    | some item ↦ elim (give_up_place run any k item) [
      | none ↦ none
      | some (run', any') ↦ give_up_loop rounds (suc k) run' any'
    ]
  ]

  unfoldable pub give_up_run : ℕ → Run → Option Run
  unfolding give_up_loop
  give_up_run rounds run = elim (give_up_loop rounds 0 run false) [
    | none ↦ none
    | some (run', any) ↦ if any then drive run' else some run'
  ]

-- The item is in neither the queue nor the accounting, beyond the limit.
abbrev pub is_lost : Poll → RunItem → Bool
is_lost p item = is_submitted item.status && (elim (truthy item.job_id) [
  | none ↦ false
  | some job_id ↦
      not (elem job_id p.live_job_ids)
      && (not (is_some (get p.job_stats job_id))
          && older_than submitted_no_record_timeout_seconds p.now item.submitted_at)
])

-- The body of the loop that marks dropped jobs.
unfoldable pub drop_item : Poll → RunItem → RunItem
unfolding get
drop_item p item =
    if is_lost p item
    then record item {
      started_at = item.submitted_at;
      status = RunItemStatus.failed;
      error = some "sbatch accepted the job but the scheduler has no record of it";
      finished_at = some p.now;
    }
    else item

unfoldable pub drop_run : Poll → Run → Run
unfolding drop_item
drop_run p run = record run { items = map (drop_item p) run.items }

-- A loop over the manager's runs: `step` is given the runs before and behind.
unfoldable pub each_run :
    (List Run → List Run → Run → Option Run) → String → List Run → List Run → Option (List Run)
each_run step name seen [] = some seen
each_run step name seen (run ∷ runs) =
    if run.backend_name == name
    then (elim (step seen runs run) [
      | none ↦ none
      | some run' ↦ each_run step name (seen ++ run' ∷ []) runs
    ])
    else each_run step name (seen ++ run ∷ []) runs

-- The loop that marks dropped jobs, over the runs of the backend.
unfoldable pub drop_runs : Poll → String → List Run → List Run
unfolding drop_run
drop_runs p name runs = map (λ r. if r.backend_name == name then drop_run p r else r) runs

-- The three loops, one after the other.
unfoldable pub settle_accounts : World → Poll → ℕ → ℕ → String → List Run → Option (List Run)
unfolding resolve_run give_up_run each_run drop_runs process_run
settle_accounts w p rounds fuel name runs =
    elim (each_run (λ before after. resolve_run w p (process_run w fuel before after true) rounds)
      name [] runs) [
        | none ↦ none
        | some resolved_runs ↦
            each_run (λ before after. give_up_run w p (process_run w fuel before after true) rounds)
              name [] (drop_runs p name resolved_runs)
      ]
