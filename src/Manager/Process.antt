-- ===== src/Manager/Process.antt =====
-- `process_run` of runs/manager.py. It calls itself, directly after a cache hit and through
-- `_after_item_completed`, so it runs on fuel, and `none` means that the fuel ran out.
pub mod Frame
pub mod Places
pub mod Hooks
pub mod Effects
pub mod Invariant
pub mod Running
pub mod Caps
pub mod Waiting
pub mod Returns
use mathlib.Core.Option
use scripthut.Common.{
  ℕ, zero, suc, String, ◌<>◌, Bool, true, false, ◌&&◌, Option, none, some, List, [], ◌∷◌, ◌++◌, map,
  if◌then◌else◌, or_else, get_elem?, set, take,
}
use scripthut.Model.{RunItem, RunItemStatus, Run, is_pending, is_completed, failed}
use scripthut.Manager.World.{World}
use scripthut.Manager.Cascade.{cascade}
use scripthut.Manager.Submit.{submit_task}
use scripthut.Manager.Slots.{is_ready, slots_available}
use scripthut.Manager.Generate.{after_item_completed}

-- The places of the ready items, counted from `k`: `ready_items`.
unfoldable pub ready_places : (RunItem → Bool) → ℕ → List RunItem → List ℕ
ready_places ready k [] = []
ready_places ready k (i ∷ items) =
    let rest = ready_places ready (suc k) items in if ready i then k ∷ rest else rest

-- A failed submission halts the run: no pending item is left.
unfoldable pub halt_item : ℕ → Option String → RunItem → RunItem
halt_item now reason item =
    if is_pending item.status
    then record item {
      status = failed;
      error = some ("Submission halted: " <> (elim reason [ none ↦ "None" | some s ↦ s ]));
      finished_at = some now;
    }
    else item

module _ (w : World) where
  -- The body of the submission loop for the item at place `k`: the run, and whether to go on.
  unfoldable pub submit_at : Run → ℕ → RunItem → Run × Bool
  unfolding submit_task halt_item
  submit_at run k item =
      let (item', success) = submit_task w run item in
      let items' = set run.items k item' in
      if success
      then (record run { items = items' }, true)
      else (record run { items = map (halt_item w.now item'.error) items' }, false)

  -- `item.cache_hit and item.status == COMPLETED`
  abbrev pub hit_at : Run → ℕ → Bool
  hit_at run k = elim (get_elem? run.items k) [
    | none ↦ false
    | some item ↦ item.cache_hit && is_completed item.status
  ]

  abbrev pub submit_place : Run → ℕ → Run × Bool
  submit_place run k = elim (get_elem? run.items k) [
    | none ↦ (run, true)
    | some item ↦ submit_at run k item
  ]

  -- The submission loop over the places `to_submit`. With the run it returns `cache_completed`.
  unfoldable pub submit_loop : Run → List ℕ → Run × List ℕ
  unfolding submit_at
  submit_loop run [] = (run, [])
  submit_loop run (k ∷ ks) =
      let (run', go_on) = submit_place run k in
      let (later, hits) = submit_loop run' ks in
      if go_on then (later, if hit_at run' k then k ∷ hits else hits) else (run', [])

  -- The hooks of the cache hits, one after the other.
  unfoldable pub after_all : (Run → Option Run) → Run → List ℕ → Option Run
  unfolding after_item_completed
  after_all drive run [] = some run
  after_all drive run (k ∷ ks) = elim (after_item_completed w drive run k) [
    | none ↦ none
    | some run' ↦ after_all drive run' ks
  ]

  -- The choice of the items and the submission loop, once the cascade has settled. `before` and
  -- `after` are the manager's other runs, in the order of its dictionary.
  unfoldable pub submit_ready : List Run → List Run → Bool → Run → Run × List ℕ
  unfolding slots_available is_ready ready_places submit_loop
  submit_ready before after fair_share run =
      let slots =
        slots_available (before ++ run ∷ after) run (w.backend_cap run.backend_name) fair_share in
      submit_loop run (take slots (ready_places (is_ready run.items) 0 run.items))

  -- The body of `process_run` up to the end of the submission loop.
  unfoldable pub submit_pass : List Run → List Run → Bool → Run → Option (Run × List ℕ)
  unfolding cascade submit_ready
  submit_pass before after fair_share run =
      Option.map (λ items. submit_ready before after fair_share (record run { items = items }))
        (cascade w.now run.items)

  -- What follows the submission loop, where `again` and `drive` are the two recursive calls.
  abbrev pub finish : (Run → Option Run) → (Run → Option Run) → Run → List ℕ → Option Run
  finish again drive run [] = some run
  finish again drive run (k ∷ ks) = elim (after_all drive run (k ∷ ks)) [
    | none ↦ none
    | some hooked ↦ again hooked
  ]

  unfoldable pub process_run : ℕ → List Run → List Run → Bool → Run → Option Run
  unfolding submit_pass after_all
  process_run zero before after fair_share run = none
  process_run (suc fuel) before after fair_share run =
      elim (submit_pass before after fair_share run) [
        | none ↦ none
        | some (sent, hits) ↦
            finish (process_run fuel before after fair_share) (process_run fuel before after true)
              sent hits
      ]
