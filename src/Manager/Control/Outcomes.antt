-- ===== src/Manager/Control/Outcomes.antt =====
-- `rerun_in_place` and `delete_run` of src/scripthut/runs/manager.py.
use scripthut.Common.{
  ℕ, ap, length, ◌<◌, String, ◌≡◌, refl, sym, inl, inr, true, false, Option, none, some, List, [],
  ◌∷◌, map, arith, Pointwise, Bool-cases, ◌==◌,
}
use scripthut.Model.{RunItem, RunItemStatus, Run, pending_count}
use scripthut.Model.Status.{status}
use scripthut.Manager.World.{World, ok}
use scripthut.Manager.Slots.{is_active}
use scripthut.Manager.Process.{process_run}
use scripthut.Manager.Process.Frame.{RunExtends}
use scripthut.Manager.Process.Waiting.{Quiet}
use scripthut.Manager.Process.Returns.{process_run-returns}
use scripthut.Manager.Control.{
  reset_item, reset_run, rerun_in_place, get_run, del_run, delete_run, delete_found,
  get_active_runs,
}

-- The item is pending, with none of what an execution left, and is otherwise as before.
pub record IsReset (a b : RunItem) : Type 0 where
  pub status_is : b.status ≡ RunItemStatus.pending
  pub no_job : b.job_id ≡ none
  pub not_submitted : b.submitted_at ≡ none
  pub not_started : b.started_at ≡ none
  pub not_finished : b.finished_at ≡ none
  pub no_error : b.error ≡ none
  pub no_script : b.submit_script ≡ none
  pub no_output : b.submit_output ≡ none
  pub no_efficiency : b.cpu_efficiency ≡ none
  pub no_memory : b.max_rss ≡ none
  pub no_state : b.scheduler_state ≡ none
  pub kept :
      record b {
        status = a.status;
        job_id = a.job_id;
        submitted_at = a.submitted_at;
        started_at = a.started_at;
        finished_at = a.finished_at;
        error = a.error;
        submit_script = a.submit_script;
        submit_output = a.submit_output;
        cpu_efficiency = a.cpu_efficiency;
        max_rss = a.max_rss;
        scheduler_state = a.scheduler_state;
      }
      ≡ a

-- The run with its items reset, created now, and otherwise as before.
pub record IsFresh (now : ℕ) (run fresh : Run) : Type 0 where
  pub items_are : Pointwise IsReset run.items fresh.items
  pub created_is : fresh.created_at ≡ now
  pub kept : record fresh { items = run.items; created_at = run.created_at } ≡ run

reset_item-IsReset : (items : List RunItem) → Pointwise IsReset items (map reset_item items)
unfolding reset_item
reset_item-IsReset [] = tt
reset_item-IsReset (i ∷ items) = (
  record {
    status_is = refl;
    no_job = refl;
    not_submitted = refl;
    not_started = refl;
    not_finished = refl;
    no_error = refl;
    no_script = refl;
    no_output = refl;
    no_efficiency = refl;
    no_memory = refl;
    no_state = refl;
    kept = refl;
  },
  reset_item-IsReset items,
)

reset_run-IsFresh : (now : ℕ) (run : Run) → IsFresh now run (reset_run now run)
unfolding reset_run
reset_run-IsFresh now run = record {
  items_are = reset_item-IsReset run.items;
  created_is = refl;
  kept = refl;
}

reset_items-counted :
    (items : List RunItem)
    → (pending_count (map reset_item items) ≡ length items)
      × (Quiet items → Quiet (map reset_item items))
unfolding pending_count reset_item
reset_items-counted [] = (refl, λ q. tt)
reset_items-counted (i ∷ items) =
    let (counted, quiet) = reset_items-counted items in
    (omega (arith, counted), λ q. (q.0, quiet q.1))

reset_run-Quiet : (now : ℕ) (run : Run) → Quiet run.items → Quiet (reset_run now run).items
unfolding reset_run
reset_run-Quiet now run q = (reset_items-counted run.items).1 q

reset_run-counted :
    (now : ℕ) (run : Run) (fuel : ℕ)
    → length run.items < fuel
    → pending_count (reset_run now run).items < fuel
unfolding reset_run
reset_run-counted now run fuel h = omega (arith, h, (reset_items-counted run.items).0)

-- A run that is over, and none of whose tasks generates others, is rerun on fuel for each item. The
-- run that `process_run` is called on is created now, with every item pending and without job, times,
-- error, script, output, efficiency, memory and state, and is otherwise the run as it was; the result
-- has each of its items in its place, as it was reset or as a pass lets a pending item move.
pub rerun_in_place-RunExtends :
    (w : World) (fuel : ℕ) (before after : List Run) (run : Run)
    → is_active (status run) ≡ false
    → Quiet run.items
    → length run.items < fuel
    → (fresh run' : Run) × IsFresh w.now run fresh
      × (process_run w fuel before after true fresh ≡ some run')
      × (rerun_in_place w fuel before after run ≡ ok (some run'))
      × RunExtends fresh run'
unfolding rerun_in_place
rerun_in_place-RunExtends w fuel before after run over q h =
    let fresh = reset_run w.now run in
    let (run', found, kept) =
      process_run-returns w fuel before after true fresh (reset_run-Quiet w.now run q)
        (reset_run-counted w.now run fuel h) in
    (fresh, run', reset_run-IsFresh w.now run, found, rw (over, found, rerun_in_place) refl, kept)

get_active_runs-skips :
    (r : Run) (runs : List Run)
    → is_active (status r) ≡ false
    → get_active_runs (r ∷ runs) ≡ get_active_runs runs
unfolding get_active_runs
get_active_runs-skips r runs h = rw h refl

get_active_runs-cons :
    (r : Run) (xs ys : List Run)
    → get_active_runs xs ≡ get_active_runs ys
    → get_active_runs (r ∷ xs) ≡ get_active_runs (r ∷ ys)
unfolding get_active_runs
get_active_runs-cons r xs ys h = elim (Bool-cases (is_active (status r))) [
  | inl active ↦ rw active (ap (λ rest. r ∷ rest) h)
  | inr over ↦ rw over h
]

get_active_runs-del_run :
    (runs : List Run) (run_id : String) (run : Run)
    → get_run runs run_id ≡ some run
    → is_active (status run) ≡ false
    → get_active_runs (del_run runs run_id) ≡ get_active_runs runs
unfolding get_run del_run
get_active_runs-del_run [] run_id run e h = refl
get_active_runs-del_run (r ∷ runs) run_id run e h = elim (Bool-cases (r.id == run_id)) [
  | inl same ↦
      let found : some r ≡ some run = rw same at e in
      let r_over : is_active (status r) ≡ false = cc (found, h) in
      rw same (sym (get_active_runs-skips r runs r_over))
  | inr other ↦
      let later : get_run runs run_id ≡ some run = rw other at e in
      rw other (
        get_active_runs-cons r (del_run runs run_id) runs
          (get_active_runs-del_run runs run_id run later h))
]

-- Deleting a run, whether it is refused or done, changes nothing of the list of active runs.
pub get_active_runs-delete_run :
    (runs : List Run) (run_id : String)
    → get_active_runs (delete_run runs run_id).0 ≡ get_active_runs runs
unfolding delete_run
get_active_runs-delete_run runs run_id = delete_found-keeps (get_run runs run_id) refl
  where
    delete_found-keeps :
        (o : Option Run)
        → get_run runs run_id ≡ o
        → get_active_runs (delete_found runs run_id o).0 ≡ get_active_runs runs
    delete_found-keeps none e = refl
    delete_found-keeps (some run) e = elim (Bool-cases (is_active (status run))) [
      | inl active ↦ rw (active, delete_found) refl
      | inr over ↦ rw (over, delete_found) (get_active_runs-del_run runs run_id run e over)
    ]
