-- ===== src/Poll/Caps.antt =====
-- The loops of `poll_backend` (src/scripthut/main.py), and the cap of the run.
use mathlib.Core.Option
use scripthut.Common.{
  ℕ, zero, suc, ◌≤◌, ◌≡◌, inl, inr, Bool, true, false, Option, none, some, List, [], ◌∷◌, arith,
  get_elem?, set, count-set-no_more, Bool-cases, Option-cases, Delivers, if◌then◌else◌, Pointwise,
  truthy, ◌||◌, ◌&&◌,
}
use scripthut.Model.{RunItem, Run, holds_slot, running_count}
use scripthut.Model.Uncascade.{undo_failure}
use scripthut.Model.Uncascade.Restored.{Undone, uncascade-Restored}
use scripthut.Manager.World.{World}
use scripthut.Manager.Generate.{after_item_completed}
use scripthut.Manager.Process.{process_run}
use scripthut.Manager.Process.Invariant.{after_item_completed-keeps, process_run-keeps}
use scripthut.Manager.Process.Caps.{WithinCap, WithinCap-Steps}
use scripthut.Poll.{
  Poll, JobStats, Followup, nothing, run_hooks, reprocess, uncascade_failures, resolve_item,
  stats_of,
}
use scripthut.Poll.Runs.{
  Progress, follow_up, resolve_known, resolve_place, resolve_loop, resolved, resolve_run,
  is_overdue, give_up_item, give_up_place, give_up_loop, give_up_run,
}
use scripthut.Poll.Rulings.{resolve_item-Ruling, Ruling-slot}

Undone-running_count :
    (xs ys : List RunItem) → Pointwise Undone xs ys → running_count ys ≤ running_count xs
unfolding running_count undo_failure
Undone-running_count [] [] h = omega arith
Undone-running_count [] (y ∷ ys) h = elim h [ ]
Undone-running_count (x ∷ xs) [] h = elim h [ ]
Undone-running_count (x ∷ xs) (y ∷ ys) h = ground (arith, h.0, Undone-running_count xs ys h.1)

-- Storing an item that takes no new slot.
WithinCap-set :
    (m : ℕ) (run : Run) (k : ℕ) (b v : RunItem)
    → get_elem? run.items k ≡ some b
    → (holds_slot v.status ≡ true → holds_slot b.status ≡ true)
    → WithinCap m run
    → WithinCap m (record run { items = set run.items k v })
unfolding running_count
WithinCap-set m run k b v e h (c, n) =
    (c, omega (arith, n, count-set-no_more (λ i. holds_slot i.status) run.items k b v e h))

module _ (w : World) (p : Poll) (fuel : ℕ) (before after : List Run) (m : ℕ) where
  driven :
      (r : Run) → WithinCap m r → Delivers (WithinCap m) (process_run w fuel before after true r)
  driven = process_run-keeps (WithinCap-Steps w before after m) fuel true

  hooked :
      (run : Run) (k : ℕ)
      → WithinCap m run
      → Delivers (WithinCap m) (after_item_completed w (process_run w fuel before after true) run k)
  hooked =
      after_item_completed-keeps (WithinCap-Steps w before after m)
        (process_run w fuel before after true) driven

  follow_up-WithinCap :
      (run : Run) (k : ℕ) (next : Followup)
      → WithinCap m run
      → Delivers
          (λ (r : Run × Bool). WithinCap m r.0)
          (follow_up w p (process_run w fuel before after true) run k next)
  unfolding follow_up
  follow_up-WithinCap run k nothing h = h
  follow_up-WithinCap run k reprocess h = h
  follow_up-WithinCap run k run_hooks h =
      tagged (after_item_completed w (process_run w fuel before after true) run k) (hooked run k h)
    where
      tagged :
          (o : Option Run)
          → Delivers (WithinCap m) o
          → Delivers (λ (r : Run × Bool). WithinCap m r.0) (Option.map (λ r. (r, true)) o)
      tagged none g = tt
      tagged (some r) g = g
  follow_up-WithinCap run k uncascade_failures h =
      let (final, found, (marks, _)) = uncascade-Restored run.items in
      rw (found, follow_up) (h.0, omega (arith, h.1, Undone-running_count run.items final marks))

  resolve_place-WithinCap :
      (at : Progress) (k : ℕ) (item : RunItem)
      → get_elem? at.run.items k ≡ some item
      → WithinCap m at.run
      → Delivers
          (λ (a : Progress). WithinCap m a.run)
          (resolve_place w p (process_run w fuel before after true) at k item)
  unfolding resolve_place
  resolve_place-WithinCap at k item e h = known (stats_of p (truthy item.job_id))
    where
      known :
          (o : Option JobStats)
          → Delivers
              (λ (a : Progress). WithinCap m a.run)
              (resolve_known w p (process_run w fuel before after true) at k item o)
      known none = h
      known (some s) =
          let (item', next) = resolve_item p s item in
          let stored = record at.run { items = set at.run.items k item' } in
          let slots = Ruling-slot p s (resolve_item-Ruling p s item).0 in
          let followed = follow_up w p (process_run w fuel before after true) stored k next in
          carried followed
            (follow_up-WithinCap stored k next (WithinCap-set m at.run k item item' e slots h))
        where
          carried :
              (f : Option (Run × Bool))
              → Delivers (λ (r : Run × Bool). WithinCap m r.0) f
              → Delivers
                  (λ (a : Progress). WithinCap m a.run)
                  (Option.map
                    (λ r. record { run = r.0; updated = true; again = at.again || r.1 })
                    f)
          carried none g = tt
          carried (some r) g = g

  resolve_loop-WithinCap :
      (rounds k : ℕ) (at : Progress)
      → WithinCap m at.run
      → Delivers
          (λ (a : Progress). WithinCap m a.run)
          (resolve_loop w p (process_run w fuel before after true) rounds k at)
  unfolding resolve_loop
  resolve_loop-WithinCap zero k at h = tt
  resolve_loop-WithinCap (suc rounds) k at h = elim (Option-cases (get_elem? at.run.items k)) [
    | inl e ↦ rw (e, resolve_loop) h
    | inr (item, e) ↦
        rw (e, resolve_loop)
          (onward (resolve_place w p (process_run w fuel before after true) at k item)
            (resolve_place-WithinCap at k item e h) (resolve_loop-WithinCap rounds (suc k)))
  ]
    where
      onward :
          (o : Option Progress)
          → Delivers (λ (a : Progress). WithinCap m a.run) o
          → ((a : Progress)
              → WithinCap m a.run
              → Delivers
                  (λ (b : Progress). WithinCap m b.run)
                  (resolve_loop w p (process_run w fuel before after true) rounds (suc k) a))
          → Delivers
              (λ (a : Progress). WithinCap m a.run)
              (elim o [
                | none ↦ none
                | some a ↦ resolve_loop w p (process_run w fuel before after true) rounds (suc k) a
              ])
      onward none g rest = tt
      onward (some a) g rest = rest a g

  pub resolve_run-WithinCap-Delivers :
      (rounds : ℕ) (run : Run)
      → WithinCap m run
      → Delivers (WithinCap m) (resolve_run w p (process_run w fuel before after true) rounds run)
  unfolding resolve_run
  resolve_run-WithinCap-Delivers rounds run h =
      let at : Progress = record { run = run; updated = false; again = false } in
      ended (resolve_loop w p (process_run w fuel before after true) rounds 0 at)
        (resolve_loop-WithinCap rounds 0 at h)
    where
      ended :
          (o : Option Progress)
          → Delivers (λ (a : Progress). WithinCap m a.run) o
          → Delivers (WithinCap m) (elim o [
            | none ↦ none
            | some a ↦ resolved w p (process_run w fuel before after true) a
          ])
      ended none g = tt
      ended (some a) g = elim (Bool-cases (a.updated && a.again)) [
        | inl again ↦ rw (again, resolved) (driven a.run g)
        | inr done ↦ rw (done, resolved) g
      ]

  give_up_place-WithinCap :
      (run : Run) (any : Bool) (k : ℕ) (item : RunItem)
      → get_elem? run.items k ≡ some item
      → WithinCap m run
      → Delivers
          (λ (r : Run × Bool). WithinCap m r.0)
          (give_up_place w p (process_run w fuel before after true) run any k item)
  unfolding give_up_place give_up_item
  give_up_place-WithinCap run any k item e h = elim (Bool-cases (is_overdue p item)) [
    | inr waits ↦ rw (waits, give_up_place) h
    | inl overdue ↦
        let stored = record run { items = set run.items k (give_up_item item) } in
        let kept = WithinCap-set m run k item (give_up_item item) e (λ s. cc s) h in
        rw (overdue, give_up_place)
          (tagged (after_item_completed w (process_run w fuel before after true) stored k)
            (hooked stored k kept))
  ]
    where
      tagged :
          (o : Option Run)
          → Delivers (WithinCap m) o
          → Delivers (λ (r : Run × Bool). WithinCap m r.0) (Option.map (λ r. (r, true)) o)
      tagged none g = tt
      tagged (some r) g = g

  give_up_loop-WithinCap :
      (rounds k : ℕ) (run : Run) (any : Bool)
      → WithinCap m run
      → Delivers
          (λ (r : Run × Bool). WithinCap m r.0)
          (give_up_loop w p (process_run w fuel before after true) rounds k run any)
  unfolding give_up_loop
  give_up_loop-WithinCap zero k run any h = tt
  give_up_loop-WithinCap (suc rounds) k run any h = elim (Option-cases (get_elem? run.items k)) [
    | inl e ↦ rw (e, give_up_loop) h
    | inr (item, e) ↦
        rw (e, give_up_loop)
          (onward (give_up_place w p (process_run w fuel before after true) run any k item)
            (give_up_place-WithinCap run any k item e h)
            (λ r any'. give_up_loop-WithinCap rounds (suc k) r any'))
  ]
    where
      onward :
          (o : Option (Run × Bool))
          → Delivers (λ (r : Run × Bool). WithinCap m r.0) o
          → ((r : Run) (any' : Bool)
              → WithinCap m r
              → Delivers
                  (λ (r' : Run × Bool). WithinCap m r'.0)
                  (give_up_loop w p (process_run w fuel before after true) rounds (suc k) r any'))
          → Delivers
              (λ (r : Run × Bool). WithinCap m r.0)
              (elim o [
                | none ↦ none
                | some (r, any') ↦
                    give_up_loop w p (process_run w fuel before after true) rounds (suc k) r any'
              ])
      onward none g rest = tt
      onward (some (r, any')) g rest = rest r any' g

  pub give_up_run-WithinCap-Delivers :
      (rounds : ℕ) (run : Run)
      → WithinCap m run
      → Delivers (WithinCap m) (give_up_run w p (process_run w fuel before after true) rounds run)
  unfolding give_up_run
  give_up_run-WithinCap-Delivers rounds run h =
      ended (give_up_loop w p (process_run w fuel before after true) rounds 0 run false)
        (give_up_loop-WithinCap rounds 0 run false h)
    where
      ended :
          (o : Option (Run × Bool))
          → Delivers (λ (r : Run × Bool). WithinCap m r.0) o
          → Delivers (WithinCap m) (elim o [
            | none ↦ none
            | some (r, any) ↦ if any then process_run w fuel before after true r else some r
          ])
      ended none g = tt
      ended (some (r, true)) g = driven r g
      ended (some (r, false)) g = g
