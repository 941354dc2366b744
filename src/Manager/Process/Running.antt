-- ===== src/Manager/Process/Running.antt =====
-- How each step of `process_run` moves the number of running items, against the slots.
use scripthut.Common.{
  ℕ, ◌+◌, ◌≤◌, String, ◌≡◌, refl, ◌⊎◌, inl, inr, Bool, true, Option, some, List, [], ◌∷◌, ◌++◌, map,
  arith, Pointwise, get_elem?, set, take, length, length-take-le, count-set-le, count-set-same,
  count-map-le, Bool-cases, Option-cases, subst,
}
use scripthut.Common.Int.{sub_ℕ}
use scripthut.Model.{RunItem, TaskDefinition, new_item, Run, holds_slot, running_count}
use scripthut.Manager.World.{World}
use scripthut.Manager.Cascade.{fail_dep}
use scripthut.Manager.Cascade.Pass.{Cascaded}
use scripthut.Manager.Submit.{submit_task}
use scripthut.Manager.Slots.{
  is_ready, slots_available, backend_slots, fair_slots, backend_running_count,
  backend_max_concurrent, clamp-le_first, clamp-le_second, run_slots, clamp,
}
use scripthut.Manager.Generate.{collect, handle_task_outputs, hash_outputs}
use scripthut.Manager.Process.{
  ready_places, halt_item, submit_at, submit_place, submit_loop, submit_ready,
}

halt_item-slot :
    (now : ℕ) (reason : Option String) (x : RunItem)
    → holds_slot (halt_item now reason x).status ≡ true
    → holds_slot x.status ≡ true
unfolding halt_item
halt_item-slot now reason x h = ground arith

module _ (w : World) where
  running_count-submit_at :
      (run : Run) (k : ℕ) (b : RunItem)
      → running_count (submit_at w run k b).0.items ≤ running_count run.items + 1
  unfolding submit_at running_count
  running_count-submit_at run k b =
      let r = submit_task w run b in
      let p = λ (i : RunItem). holds_slot i.status in
      let stored = count-set-le p run.items k r.0 in
      let halted =
        count-map-le p (halt_item w.now r.0.error) (halt_item-slot w.now r.0.error)
          (set run.items k r.0) in
      elim (Bool-cases r.1) [ inl good ↦ rw good stored | inr bad ↦ rw bad (omega arith) ]

  running_count-submit_place :
      (run : Run) (k : ℕ)
      → running_count (submit_place w run k).0.items ≤ running_count run.items + 1
  running_count-submit_place run k = elim (Option-cases (get_elem? run.items k)) [
    | inl e ↦ rw (e, submit_place) (omega arith)
    | inr (b, e) ↦ rw (e, submit_place) (running_count-submit_at run k b)
  ]

  running_count-submit_loop :
      (run : Run) (ks : List ℕ)
      → running_count (submit_loop w run ks).0.items ≤ running_count run.items + length ks
  unfolding submit_loop
  running_count-submit_loop run [] = omega arith
  running_count-submit_loop run (k ∷ ks) =
      let placed = running_count-submit_place run k in
      let later = running_count-submit_loop (submit_place w run k).0 ks in
      elim (Bool-cases (submit_place w run k).1) [
        | inl on ↦ rw on (omega arith)
        | inr off ↦ rw off (omega arith)
      ]

  pub running_count-submit_ready :
      (before after : List Run) (fair_share : Bool) (run : Run)
      → running_count (submit_ready w before after fair_share run).0.items
        ≤ running_count run.items
          + slots_available (before ++ run ∷ after) run (w.backend_cap run.backend_name) fair_share
  unfolding submit_ready
  running_count-submit_ready before after fair_share run =
      let slots =
        slots_available (before ++ run ∷ after) run (w.backend_cap run.backend_name) fair_share in
      let places = ready_places (is_ready run.items) 0 run.items in
      omega (arith, running_count-submit_loop run (take slots places), length-take-le slots places)

-- The slots fit into the run's cap and into what the backend has left.
pub slots_available-le :
    (runs : List Run) (run : Run) (backend_cap : Option ℕ) (fair_share : Bool)
    → (slots_available runs run backend_cap fair_share + backend_running_count runs run.backend_name
        ≤ backend_max_concurrent backend_cap)
      ⊎ (slots_available runs run backend_cap fair_share ≡ 0)
unfolding slots_available backend_slots
slots_available-le runs run backend_cap fair_share =
    clamp-le_second (backend_max_concurrent backend_cap)
      (backend_running_count runs run.backend_name) (run_slots run)
      (fair_slots runs run backend_cap fair_share)

run_slots-some :
    (run : Run) (m : ℕ)
    → run.max_concurrent ≡ some m
    → sub_ℕ m (running_count run.items) ≡ run_slots run
unfolding run_slots
run_slots-some run m e = rw (e, run_slots)

pub slots_available-le_run :
    (runs : List Run) (run : Run) (backend_cap : Option ℕ) (fair_share : Bool) (m : ℕ)
    → run.max_concurrent ≡ some m
    → (slots_available runs run backend_cap fair_share + running_count run.items ≤ m)
      ⊎ (slots_available runs run backend_cap fair_share ≡ 0)
unfolding slots_available
slots_available-le_run runs run backend_cap fair_share m e =
    let b = backend_slots runs run backend_cap in
    let c = fair_slots runs run backend_cap fair_share in
    subst (λ a. (clamp a b c + running_count run.items ≤ m) ⊎ (clamp a b c ≡ 0))
      (run_slots-some run m e) (clamp-le_first m (running_count run.items) b c)

pub same_running :
    (now : ℕ) (xs ys : List RunItem)
    → Pointwise (Cascaded now) xs ys
    → running_count ys ≤ running_count xs
unfolding running_count fail_dep
same_running now [] [] h = omega arith
same_running now [] (y ∷ ys) h = elim h [ ]
same_running now (x ∷ xs) [] h = elim h [ ]
same_running now (x ∷ xs) (y ∷ ys) h = ground (arith, h.0, same_running now xs ys h.1)

pub running_count-append_new :
    (xs : List RunItem) (tasks : List TaskDefinition)
    → running_count (xs ++ map new_item tasks) ≡ running_count xs
unfolding running_count new_item
running_count-append_new [] [] = refl
running_count-append_new [] (t ∷ tasks) = omega (arith, running_count-append_new [] tasks)
running_count-append_new (x ∷ xs) tasks = omega (arith, running_count-append_new xs tasks)

pub running_count-collect :
    (w : World) (k : ℕ) (run : Run)
    → running_count (collect w k run).items ≡ running_count run.items
unfolding running_count handle_task_outputs hash_outputs
running_count-collect w k run = elim (Option-cases (get_elem? run.items k)) [
  | inl e ↦ rw (e, collect)
  | inr (b, e) ↦
      rw (e, collect) (count-set-same (λ i. holds_slot i.status) run.items k b _ e (ground arith))
]

pub collect-same :
    (w : World) (k : ℕ) (run : Run)
    → ((collect w k run).max_concurrent ≡ run.max_concurrent)
      × ((collect w k run).backend_name ≡ run.backend_name)
collect-same w k run = elim (Option-cases (get_elem? run.items k)) [
  | inl e ↦ rw (e, collect) (refl, refl)
  | inr (b, e) ↦ rw (e, collect) (refl, refl)
]
