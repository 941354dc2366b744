-- ===== src/Poll/Patience.antt =====
-- The fuel of the loop over the records of the accounting in `poll_backend` (src/scripthut/main.py).
use mathlib.Core.Option
use scripthut.Common.{
  ℕ, zero, suc, ◌+◌, ◌≤◌, ◌<◌, ◌≡◌, refl, ap, ◌∙◌, inl, inr, Bool, true, false, not, ◌&&◌, ◌||◌,
  Option, none, some, List, [], ◌∷◌, arith, All-set, All-at, Pointwise, length, length-set,
  get_elem?, get_elem?-some_lt, set, subst, Bool-cases, Option-cases, truthy, is_some, Delivers,
}
use scripthut.Model.{RunItem, Run, pending_count, running_count}
use scripthut.Model.Uncascade.{undo_failure, uncascade_pass}
use scripthut.Model.Uncascade.Restored.{Undone, uncascade-Restored}
use scripthut.Manager.World.{World}
use scripthut.Manager.Generate.{collect, handle_task_outputs, hash_outputs}
use scripthut.Manager.Process.{process_run}
use scripthut.Manager.Process.Waiting.{Quiet, is_quiet, after_item_completed-Quiet}
use scripthut.Manager.Process.Returns.{process_run-returns}
use scripthut.Manager.Process.Caps.{WithinCap}
use scripthut.Poll.{
  Poll, JobStats, Followup, nothing, run_hooks, reprocess, uncascade_failures, resolve_item,
  stats_of,
}
use scripthut.Poll.Runs.{
  Progress, follow_up, resolve_place, resolve_known, resolve_loop, resolved, resolve_run,
}
use scripthut.Poll.Rulings.{resolve_item-Ruling}
use scripthut.Poll.Caps.{resolve_run-WithinCap-Delivers}

-- `n` items, none of which generates tasks.
abbrev pub Calm : ℕ → List RunItem → Type 0
Calm n items = Quiet items × (length items ≡ n)

pub Calm-set :
    (n : ℕ) (items : List RunItem) (k : ℕ) (b v : RunItem)
    → get_elem? items k ≡ some b
    → v.task ≡ b.task
    → Calm n items
    → Calm n (set items k v)
Calm-set n items k b v e t (q, h) = (
  All-set _ items k v
      (ap (λ task. not (is_some (truthy task.generates_source))) t ∙ All-at _ items k b e q) q,
  length-set items k v ∙ h,
)

pub Calm-collect :
    (w : World) (n k : ℕ) (run : Run) → Calm n run.items → Calm n (collect w k run).items
unfolding handle_task_outputs hash_outputs
Calm-collect w n k run h = elim (Option-cases (get_elem? run.items k)) [
  | inl e ↦ rw (e, collect) h
  | inr (b, e) ↦
      rw (e, collect)
        (Calm-set n run.items k b (hash_outputs w run (handle_task_outputs w run b)) e
          (ground arith) h)
]

Calm-Undone : (n : ℕ) (xs ys : List RunItem) → Pointwise Undone xs ys → Calm n xs → Calm n ys
unfolding undo_failure
Calm-Undone n [] [] p h = h
Calm-Undone n [] (y ∷ ys) p h = elim p [ ]
Calm-Undone n (x ∷ xs) [] p h = elim p [ ]
Calm-Undone n (x ∷ xs) (y ∷ ys) p ((q, qs), h) =
    let later = Calm-Undone (length xs) xs ys p.1 (qs, refl) in
    ((same_task p.0 ∙ q, later.0), omega (arith, later.1, h))
  where
    same_task : Undone x y → is_quiet y ≡ is_quiet x
    same_task u = ground (arith, u)

pub pending_count-le : (items : List RunItem) → pending_count items ≤ length items
unfolding pending_count
pending_count-le [] = omega arith
pending_count-le (x ∷ items) = ground (arith, pending_count-le items)

module _ (w : World) (p : Poll) (drive : Run → Option Run) (n : ℕ) where
  follow_up-Calm :
      (run : Run) (k : ℕ) (next : Followup)
      → Calm n run.items
      → (r : Run × Bool) × (follow_up w p drive run k next ≡ some r) × Calm n r.0.items
  unfolding follow_up
  follow_up-Calm run k nothing h = ((run, false), refl, h)
  follow_up-Calm run k reprocess h = ((run, true), refl, h)
  follow_up-Calm run k run_hooks h = (
    (collect w k run, true),
    rw (after_item_completed-Quiet w drive run k h.0, follow_up) refl,
    Calm-collect w n k run h,
  )
  follow_up-Calm run k uncascade_failures h =
      let (final, found, (marks, _)) = uncascade-Restored run.items in
      (
        (record run { items = final }, (uncascade_pass false [] run.items).1),
        rw (found, follow_up) refl,
        Calm-Undone n run.items final marks h,
      )

  resolve_known-Calm :
      (at : Progress) (k : ℕ) (item : RunItem) (o : Option JobStats)
      → get_elem? at.run.items k ≡ some item
      → Calm n at.run.items
      → (a : Progress) × (resolve_known w p drive at k item o ≡ some a) × Calm n a.run.items
  resolve_known-Calm at k item none e h = (at, refl, h)
  resolve_known-Calm at k item (some s) e h =
      let (item', next) = resolve_item p s item in
      let stored = record at.run { items = set at.run.items k item' } in
      let (r, found, calm) =
        follow_up-Calm stored k next
          (Calm-set n at.run.items k item item' e (resolve_item-Ruling p s item).1 h) in
      (
        record { run = r.0; updated = true; again = at.again || r.1 },
        ap
            (Option.map (λ (after : Run × Bool). record {
              run = after.0;
              updated = true;
              again = at.again || after.1;
            }))
            found,
        calm,
      )

  resolve_loop-Calm :
      (rounds k : ℕ) (at : Progress)
      → Calm n at.run.items
      → k ≤ n
      → n < rounds + k
      → (a : Progress) × (resolve_loop w p drive rounds k at ≡ some a) × Calm n a.run.items
  unfolding resolve_loop resolve_place
  resolve_loop-Calm zero k at h below enough = absurd (omega (arith, below, enough))
  resolve_loop-Calm (suc rounds) k at h below enough =
      elim (Option-cases (get_elem? at.run.items k)) [
        | inl e ↦ (at, rw (e, resolve_loop) refl, h)
        | inr (item, e) ↦
            let (a, found, calm) =
              resolve_known-Calm at k item (stats_of p (truthy item.job_id)) e h in
            let inside = get_elem?-some_lt at.run.items k item e in
            let (a', found', calm') =
              resolve_loop-Calm rounds (suc k) a calm (omega (arith, inside, h.1))
                (omega (arith, enough)) in
            (a', rw (e, found, resolve_loop, resolve_place) found', calm')
      ]

-- A run none of whose tasks generates others is resolved on fuel for each item and one more, whatever
-- the accounting says, and if it was within its cap it still is.
pub resolve_run-returns :
    (w : World) (p : Poll) (rounds fuel : ℕ) (before after : List Run) (run : Run) (m : ℕ)
    → Quiet run.items
    → length run.items < rounds
    → length run.items < fuel
    → run.max_concurrent ≡ some m
    → running_count run.items ≤ m
    → (run' : Run) × (resolve_run w p (process_run w fuel before after true) rounds run ≡ some run')
      × (running_count run'.items ≤ m)
unfolding resolve_run
resolve_run-returns w p rounds fuel before after run m q enough enough' c h =
    let drive = process_run w fuel before after true in
    let at : Progress = record { run = run; updated = false; again = false } in
    let (a, found, calm) =
      resolve_loop-Calm w p drive (length run.items) rounds 0 at (q, refl) (omega arith)
        (omega arith) in
    let (run', done) = ended a calm in
    let result : resolve_run w p drive rounds run ≡ some run' = rw (found, resolve_run) done in
    (
      run',
      result,
      (subst (Delivers (WithinCap m)) result
          (resolve_run-WithinCap-Delivers w p fuel before after m rounds run (c, h))).1,
    )
  where
    ended :
        (a : Progress)
        → Calm (length run.items) a.run.items
        → (run' : Run) × (resolved w p (process_run w fuel before after true) a ≡ some run')
    ended a calm = elim (Bool-cases (a.updated && a.again)) [
      | inr done ↦ (a.run, rw (done, resolved) refl)
      | inl again ↦
          let (run', found, _) =
            process_run-returns w fuel before after true a.run calm.0
              (omega (arith, pending_count-le a.run.items, calm.1)) in
          (run', rw (again, resolved) found)
    ]
