-- ===== src/Manager/Update/Within.antt =====
-- The caps of the backends, and the fuel, in `update_all_runs` of src/scripthut/runs/manager.py.
use scripthut.Common.{
  ℕ, ◌≤◌, ◌<◌, String, ◌≡◌, refl, sym, ap, ◌∙◌, ◌⊎◌, inl, inr, Bool, true, false, not, Option, none,
  some, List, [], ◌∷◌, ◌++◌, ◌==◌, arith, Bool-cases, All, All-append, All-left, All-right,
  append_assoc, append-nil, is_some, truthy,
}
use scripthut.Common.Dict.{Dict, get}
use scripthut.Common.Text.{sort_texts}
use scripthut.Model.{
  RunItem, RunItemStatus, Run, is_pending, is_finished, holds_slot, running_count, pending_count,
}
use scripthut.Model.Status.{status}
use scripthut.Manager.World.{World}
use scripthut.Manager.Slots.{is_active, backend_running_count}
use scripthut.Manager.Process.{process_run}
use scripthut.Manager.Process.Waiting.{Quiet, AtMost}
use scripthut.Manager.Process.Returns.{process_run-AtMost}
use scripthut.Manager.Process.Caps.{AllWithin, process_run-AllWithin, backend_running_count-middle}
use scripthut.Manager.Observe.{
  JobState, observe_job, observe_item, observe_items, observe_state, observe_missing,
  observe_running, observe_pending, observe_completed, observe_failed, update_run_status,
}
use scripthut.Manager.Observe.Lifecycle.{
  Observed, Move, stay, ack, start, leave, finish, fail, observe_items-Observed,
}
use scripthut.Manager.Update.{
  JobReport, states_of, reasons_of, jobs_on, update_run, update_each, drive_at, drive_ids,
  contending_ids, drive_backend, drive_backends, backend_names, update_all_runs,
}

-- A pending item has no job.
abbrev pub NoJobYet : RunItem → Type 0
NoJobYet i = (is_pending i.status ≡ false) ⊎ (is_some i.job_id ≡ false)

-- What holds of the runs throughout: no task generates others, no run has more than `n` pending items,
-- and every backend is within its cap.
abbrev pub Orderly : World → ℕ → List Run → Type 0
Orderly w n runs = All (λ r. AtMost n r.items) runs × AllWithin w runs

under_way : (s : RunItemStatus) → is_finished s ≡ false → is_pending s ≡ false → holds_slot s ≡ true
under_way RunItemStatus.pending f p = cc p
under_way RunItemStatus.completed f p = cc f
under_way RunItemStatus.failed f p = cc f
under_way RunItemStatus.dep_failed f p = cc f
under_way s f p = refl

Move-pending :
    {o : Option JobState} {s t : RunItemStatus}
    → Move o s t
    → is_pending t ≡ true
    → is_pending s ≡ true
Move-pending stay h = h
Move-pending (ack e f) h = cc h
Move-pending (start e) h = cc h
Move-pending (leave e f) h = cc h
Move-pending (finish e) h = cc h
Move-pending (fail e f) h = cc h

-- A report gives no item a slot, and makes none pending.
Observed-slot :
    (jobs : Dict JobState) (a b : RunItem)
    → Observed jobs a b
    → NoJobYet a
    → holds_slot b.status ≡ true
    → holds_slot a.status ≡ true
Observed-slot jobs a b (inr same, k, m) n h = rw same at h
Observed-slot jobs a b (inl going, inr same, m) n h = rw same at h
Observed-slot jobs a b (inl going, inl has_job, m) (inl not_pending) h =
    under_way a.status going not_pending
Observed-slot jobs a b (inl going, inl has_job, m) (inr no_job) h = cc (sym has_job ∙ no_job)

observe_state-task :
    (now : ℕ) (reason : Option String) (o : Option JobState) (i : RunItem)
    → (observe_state now reason o i).0.task ≡ i.task
unfolding observe_state observe_missing observe_running observe_pending observe_completed
    observe_failed
observe_state-task now reason none i = ground arith
observe_state-task now reason (some JobState.running) i = ground arith
observe_state-task now reason (some JobState.completing) i = ground arith
observe_state-task now reason (some JobState.pending) i = ground arith
observe_state-task now reason (some JobState.completed) i = refl
observe_state-task now reason (some JobState.suspended) i = refl
observe_state-task now reason (some JobState.unknown) i = refl
observe_state-task now reason (some state) i = refl

observe_job-task :
    (now : ℕ) (jobs : Dict JobState) (reasons : Dict String) (o : Option String) (i : RunItem)
    → (observe_job now jobs reasons o i).0.task ≡ i.task
unfolding observe_job
observe_job-task now jobs reasons none i = refl
observe_job-task now jobs reasons (some job_id) i = elim (Bool-cases (is_finished i.status)) [
  | inl over ↦ rw (over, observe_job) refl
  | inr going ↦
      rw (going, observe_job) (observe_state-task now (get reasons job_id) (get jobs job_id) i)
]

observe_items-Orderly :
    (now : ℕ) (jobs : Dict JobState) (reasons : Dict String) (items : List RunItem)
    → All NoJobYet items
    → Quiet items
    → Quiet (observe_items now jobs reasons items).0
      × (pending_count (observe_items now jobs reasons items).0 ≤ pending_count items)
      × (running_count (observe_items now jobs reasons items).0 ≤ running_count items)
unfolding observe_items observe_item pending_count running_count
observe_items-Orderly now jobs reasons [] n q = (tt, omega arith, omega arith)
observe_items-Orderly now jobs reasons (i ∷ items) (n, ns) (q, qs) =
    let (quiet, fewer, no_more) = observe_items-Orderly now jobs reasons items ns qs in
    let i' = (observe_job now jobs reasons i.job_id i).0 in
    let seen : Observed jobs i i' = (observe_items-Observed now jobs reasons (i ∷ [])).0 in
    (
      (
        ap (λ t. not (is_some (truthy t.generates_source)))
              (observe_job-task now jobs reasons i.job_id i)
            ∙ q,
        quiet,
      ),
      ground (arith, fewer, Move-pending seen.2),
      ground (arith, no_more, Observed-slot jobs i i' seen n),
    )

module _ (w : World) (n : ℕ) where
  -- A run in the middle is exchanged for one of the same backend that is no worse.
  Orderly-middle :
      (before : List Run) (run run' : Run) (after : List Run)
      → run'.backend_name ≡ run.backend_name
      → AtMost n run'.items
      → running_count run'.items ≤ running_count run.items
      → Orderly w n (before ++ run ∷ after)
      → Orderly w n (before ++ run' ∷ after)
  unfolding backend_running_count
  Orderly-middle before run run' after same at no_more (all_at, within) = (
    All-append _ before (run' ∷ after) (All-left _ before (run ∷ after) all_at)
        (at, (All-right _ before (run ∷ after) all_at).1),
    λ name. ground (
      arith,
      within name,
      no_more,
      backend_running_count-middle before run after name,
      backend_running_count-middle before run' after name,
      ap (λ b. b == name) same,
    ),
  )

  module _ (fuel : ℕ) (enough : n < fuel) where
    process_run-Orderly :
        (before : List Run) (run : Run) (after : List Run) (fair_share : Bool)
        → Orderly w n (before ++ run ∷ after)
        → (run' : Run) × (process_run w fuel before after fair_share run ≡ some run')
          × Orderly w n (before ++ run' ∷ after)
    process_run-Orderly before run after fair_share (all_at, within) =
        let (quiet, few) =
          (All-right (λ (r : Run). AtMost n r.items) before (run ∷ after) all_at).0 in
        let (run', found, at) =
          process_run-AtMost w before after fuel fair_share run quiet
            (omega (arith, few, enough)) in
        (
          run',
          found,
          (
            All-append _ before (run' ∷ after) (All-left _ before (run ∷ after) all_at) (
              (at.0, omega (arith, at.1, few)),
              (All-right (λ (r : Run). AtMost n r.items) before (run ∷ after) all_at).1,
            ),
            process_run-AllWithin w fuel before after fair_share run run' found within,
          ),
        )

    update_run-Orderly :
        (backend_jobs : Dict (List JobReport)) (before : List Run) (run : Run) (after : List Run)
        → Orderly w n (before ++ run ∷ after)
        → All NoJobYet run.items
        → (run' : Run) × (update_run w fuel backend_jobs before after run ≡ some run')
          × Orderly w n (before ++ run' ∷ after)
    unfolding update_run update_run_status
    update_run-Orderly backend_jobs before run after h no_job =
        elim (Bool-cases (is_active (status run))) [
          | inr over ↦ (run, rw (over, update_run) refl, h)
          | inl active ↦
              let jobs = states_of (jobs_on backend_jobs run.backend_name) [] in
              let reasons = reasons_of (jobs_on backend_jobs run.backend_name) [] in
              let at = (All-right (λ (r : Run). AtMost n r.items) before (run ∷ after) h.0).0 in
              let (quiet, fewer, no_more) =
                observe_items-Orderly w.now jobs reasons run.items no_job at.0 in
              let observed = record run {
                items = (observe_items w.now jobs reasons run.items).0;
              } in
              let h' =
                Orderly-middle before run observed after refl (quiet, omega (arith, fewer, at.1))
                  no_more h in
              elim (Bool-cases (observe_items w.now jobs reasons run.items).1) [
                | inr same ↦ (observed, rw (active, same, update_run, update_run_status) refl, h')
                | inl changed ↦
                    let (run', found, h'') = process_run-Orderly before observed after true h' in
                    (run', rw (active, changed, update_run, update_run_status) found, h'')
              ]
        ]

    update_each-Orderly :
        (backend_jobs : Dict (List JobReport)) (seen runs : List Run)
        → Orderly w n (seen ++ runs)
        → All (λ r. All NoJobYet r.items) runs
        → (runs' : List Run) × (update_each w fuel backend_jobs seen runs ≡ some runs')
          × Orderly w n runs'
    unfolding update_each
    update_each-Orderly backend_jobs seen [] h no_job = (seen, refl, rw append-nil at h)
    update_each-Orderly backend_jobs seen (run ∷ runs) h (no_job, no_jobs) =
        let (run', found, h') = update_run-Orderly backend_jobs seen run runs h no_job in
        let (runs', found', h'') =
          update_each-Orderly backend_jobs (seen ++ run' ∷ []) runs (rw append_assoc h') no_jobs in
        (runs', rw (found, update_each) found', h'')

    drive_at-Orderly :
        (fair_share : Bool) (id : String) (seen runs : List Run)
        → Orderly w n (seen ++ runs)
        → (runs' : List Run) × (drive_at w fuel fair_share id seen runs ≡ some runs')
          × Orderly w n runs'
    unfolding drive_at
    drive_at-Orderly fair_share id seen [] h = (seen, refl, rw append-nil at h)
    drive_at-Orderly fair_share id seen (run ∷ runs) h = elim (Bool-cases (run.id == id)) [
      | inl here ↦
          let (run', found, h') = process_run-Orderly seen run runs fair_share h in
          (seen ++ run' ∷ runs, rw (here, found, drive_at) refl, h')
      | inr later ↦
          let (runs', found, h') =
            drive_at-Orderly fair_share id (seen ++ run ∷ []) runs (rw append_assoc h) in
          (runs', rw (later, drive_at) found, h')
    ]

    drive_ids-Orderly :
        (fair_share : Bool) (ids : List String) (runs : List Run)
        → Orderly w n runs
        → (runs' : List Run) × (drive_ids w fuel fair_share ids runs ≡ some runs')
          × Orderly w n runs'
    unfolding drive_ids
    drive_ids-Orderly fair_share [] runs h = (runs, refl, h)
    drive_ids-Orderly fair_share (id ∷ ids) runs h =
        let (mid, found, h') = drive_at-Orderly fair_share id [] runs h in
        let (runs', found', h'') = drive_ids-Orderly fair_share ids mid h' in
        (runs', rw (found, drive_ids) found', h'')

    drive_backends-Orderly :
        (names : List String) (runs : List Run)
        → Orderly w n runs
        → (runs' : List Run) × (drive_backends w fuel names runs ≡ some runs') × Orderly w n runs'
    unfolding drive_backends drive_backend
    drive_backends-Orderly [] runs h = (runs, refl, h)
    drive_backends-Orderly (name ∷ names) runs h =
        let (fair, found, h1) = drive_ids-Orderly true (contending_ids runs name) runs h in
        let (full, found', h2) = drive_ids-Orderly false (contending_ids fair name) fair h1 in
        let (runs', found'', h3) = drive_backends-Orderly names full h2 in
        (runs', rw (found, found', drive_backends, drive_backend) found'', h3)

-- Where no task generates others, each run has at most `n`
-- pending items, none of which has a job, and the runs of every backend are within its cap,
-- `update_all_runs` returns on fuel for `n` and one more, and they still are, in the fair pass and in
-- the greedy one.
pub update_all_runs-Orderly :
    (w : World) (n fuel : ℕ) (backend_jobs : Dict (List JobReport)) (runs : List Run)
    → n < fuel
    → Orderly w n runs
    → All (λ r. All NoJobYet r.items) runs
    → (runs' : List Run) × (update_all_runs w fuel backend_jobs runs ≡ some runs')
      × Orderly w n runs'
unfolding update_all_runs
update_all_runs-Orderly w n fuel backend_jobs runs enough h no_job =
    let (updated, found, h') = update_each-Orderly w n fuel enough backend_jobs [] runs h no_job in
    let (runs', found', h'') =
      drive_backends-Orderly w n fuel enough (sort_texts (backend_names updated)) updated h' in
    (runs', rw (found, update_all_runs) found', h'')
