-- ===== src/Manager/Process/Caps.antt =====
-- The concurrency caps: a pass of `process_run` never takes a run, nor its backend, past its cap.
use scripthut.Common.{
  ℕ, ◌+◌, ◌≤◌, String, ◌≡◌, refl, ap, ◌∙◌, Bool, some, List, [], ◌∷◌, ◌++◌, arith, if◌then◌else◌,
  Delivers, subst, eq_refl, eq_iff, ◌==◌, Bool-cases, inl, inr, false,
}
use scripthut.Model.{Run, running_count}
use scripthut.Manager.World.{World}
use scripthut.Manager.Slots.{backend_running_count, backend_max_concurrent}
use scripthut.Manager.Generate.{take_over}
use scripthut.Manager.Process.{submit_at, submit_place, submit_loop, submit_ready, process_run}
use scripthut.Manager.Process.Invariant.{Steps, process_run-keeps}
use scripthut.Manager.Process.Running.{
  running_count-submit_ready, slots_available-le, slots_available-le_run, same_running,
  running_count-append_new, running_count-collect, collect-same,
}

-- The run has the cap `m` and stays within it.
abbrev pub WithinCap : ℕ → Run → Type 0
WithinCap m run = (run.max_concurrent ≡ some m) × (running_count run.items ≤ m)

module _ (w : World) (before after : List Run) where
  max_concurrent-submit_loop :
      (run : Run) (ks : List ℕ)
      → ((submit_loop w run ks).0.max_concurrent ≡ run.max_concurrent)
        × ((submit_loop w run ks).0.backend_name ≡ run.backend_name)
  unfolding submit_loop submit_at
  max_concurrent-submit_loop run [] = (refl, refl)
  max_concurrent-submit_loop run (k ∷ ks) =
      ground (arith, max_concurrent-submit_loop (submit_place w run k).0 ks)

  submit_ready-same :
      (fair_share : Bool) (run : Run)
      → ((submit_ready w before after fair_share run).0.max_concurrent ≡ run.max_concurrent)
        × ((submit_ready w before after fair_share run).0.backend_name ≡ run.backend_name)
  unfolding submit_ready
  submit_ready-same fair_share run = max_concurrent-submit_loop run _

  pub WithinCap-Steps : (m : ℕ) → Steps w before after (WithinCap m)
  unfolding take_over
  WithinCap-Steps m = record {
    settle = λ run items s h. (h.0, omega (arith, same_running w.now run.items items s.marks));
    submit = λ run fair_share h. (
      (submit_ready-same fair_share run).0 ∙ h.0,
      ground (
        arith,
        running_count-submit_ready w before after fair_share run,
        slots_available-le_run (before ++ run ∷ after) run (w.backend_cap run.backend_name)
            fair_share m h.0,
      ),
    );
    extend_env = λ run doc h. h;
    append = λ run tasks h. (h.0, omega (arith, running_count-append_new run.items tasks));
    hooks = λ run k h. ground (arith, running_count-collect w k run, collect-same w k run);
  }

-- A run with a cap of `m` that has at most `m` items holding a slot has at most `m` after a pass,
-- whatever the pass submits, restores, generates and submits again.
pub process_run-WithinCap :
    (w : World) (fuel : ℕ) (before after : List Run) (fair_share : Bool) (run run' : Run) (m : ℕ)
    → process_run w fuel before after fair_share run ≡ some run'
    → run.max_concurrent ≡ some m
    → running_count run.items ≤ m
    → running_count run'.items ≤ m
process_run-WithinCap w fuel before after fair_share run run' m e c h =
    (subst (Delivers (WithinCap m)) e
      (process_run-keeps (WithinCap-Steps w before after m) fuel fair_share run (c, h))).1

pub backend_running_count-middle :
    (before : List Run) (run : Run) (after : List Run) (name : String)
    → backend_running_count (before ++ run ∷ after) name
      ≡ backend_running_count before name + backend_running_count (run ∷ after) name
unfolding backend_running_count
backend_running_count-middle [] run after name = omega arith
backend_running_count-middle (b ∷ before) run after name =
    omega (arith, backend_running_count-middle before run after name)

-- All runs of the backend `name` together stay within `m`, the cap of that backend.
abbrev BackendWithin : World → List Run → List Run → String → Run → Type 0
BackendWithin w before after name run =
    (run.backend_name ≡ name)
    × (backend_running_count before name
          + (running_count run.items + backend_running_count after name)
        ≤ backend_max_concurrent (w.backend_cap name))

module _ (w : World) (before after : List Run) (name : String) where
  backend_total :
      (run : Run)
      → backend_running_count (before ++ run ∷ after) run.backend_name
        ≡ backend_running_count before run.backend_name
          + (running_count run.items + backend_running_count after run.backend_name)
  unfolding backend_running_count
  backend_total run = omega (
    arith,
    backend_running_count-middle before run after run.backend_name,
    ap (λ b. if b then running_count run.items else 0) (eq_refl run.backend_name),
  )

  submit_ready-BackendWithin :
      (fair_share : Bool) (run : Run)
      → BackendWithin w before after name run
      → BackendWithin w before after name (submit_ready w before after fair_share run).0
  submit_ready-BackendWithin fair_share run h =
      let runs = before ++ run ∷ after in
      let slots = slots_available-le runs run (w.backend_cap run.backend_name) fair_share in
      (
        (submit_ready-same w before after fair_share run).1 ∙ h.0,
        ground (
          arith,
          backend_total run,
          running_count-submit_ready w before after fair_share run,
          ap (backend_running_count before) h.0,
          ap (backend_running_count after) h.0,
          ap (λ n. backend_max_concurrent (w.backend_cap n)) h.0,
        ),
      )

  BackendWithin-Steps : Steps w before after (BackendWithin w before after name)
  unfolding take_over
  BackendWithin-Steps = record {
    settle = λ run items s h. (h.0, omega (arith, h.1, same_running w.now run.items items s.marks));
    submit = λ run fair_share. submit_ready-BackendWithin fair_share run;
    extend_env = λ run doc h. h;
    append = λ run tasks h. (h.0, omega (arith, h.1, running_count-append_new run.items tasks));
    hooks = λ run k h.
        ((collect-same w k run).1 ∙ h.0, omega (arith, h.1, running_count-collect w k run));
  }

-- If the runs of a backend together are within the backend's cap, they still are after a pass over
-- one of them. `before` and `after` are the other runs.
pub process_run-BackendWithin :
    (w : World) (fuel : ℕ) (before after : List Run) (fair_share : Bool) (run run' : Run)
    → process_run w fuel before after fair_share run ≡ some run'
    → backend_running_count (before ++ run ∷ after) run.backend_name
      ≤ backend_max_concurrent (w.backend_cap run.backend_name)
    → backend_running_count (before ++ run' ∷ after) run.backend_name
      ≤ backend_max_concurrent (w.backend_cap run.backend_name)
process_run-BackendWithin w fuel before after fair_share run run' e h =
    let name = run.backend_name in
    let start : BackendWithin w before after name run =
      (refl, omega (arith, h, backend_total w before after name run)) in
    let (same, within) =
      subst (Delivers (BackendWithin w before after name)) e
        (process_run-keeps (BackendWithin-Steps w before after name) fuel fair_share run start) in
    subst
      (λ n.
        backend_running_count (before ++ run' ∷ after) n
        ≤ backend_max_concurrent (w.backend_cap name))
      same
      (ground (
        arith,
        backend_total w before after name run',
        within,
        ap (backend_running_count before) same,
        ap (backend_running_count after) same,
      ))

same_backend-Steps :
    (w : World) (before after : List Run) (name : String)
    → Steps w before after (λ r. r.backend_name ≡ name)
unfolding take_over
same_backend-Steps w before after name = record {
  settle = λ run items s h. h;
  submit = λ run fair_share h. (submit_ready-same w before after fair_share run).1 ∙ h;
  extend_env = λ run doc h. h;
  append = λ run tasks h. h;
  hooks = λ run k h. (collect-same w k run).1 ∙ h;
}

-- The runs of every backend are within its cap.
abbrev pub AllWithin : World → List Run → Type 0
AllWithin w runs =
    (name : String) → backend_running_count runs name ≤ backend_max_concurrent (w.backend_cap name)

pub process_run-AllWithin :
    (w : World) (fuel : ℕ) (before after : List Run) (fair_share : Bool) (run run' : Run)
    → process_run w fuel before after fair_share run ≡ some run'
    → AllWithin w (before ++ run ∷ after)
    → AllWithin w (before ++ run' ∷ after)
unfolding backend_running_count
process_run-AllWithin w fuel before after fair_share run run' e h name =
    elim (Bool-cases (run.backend_name == name)) [
      | inl same ↦
          subst
            (λ n.
              backend_running_count (before ++ run' ∷ after) n
              ≤ backend_max_concurrent (w.backend_cap n))
            ((eq_iff run.backend_name name).0 same)
            (process_run-BackendWithin w fuel before after fair_share run run' e
              (h run.backend_name))
      | inr differs ↦
          let same_name : run'.backend_name ≡ run.backend_name =
            subst (Delivers (λ r. r.backend_name ≡ run.backend_name)) e (
              process_run-keeps (same_backend-Steps w before after run.backend_name) fuel fair_share
                run refl) in
          let differs' : (run'.backend_name == name) ≡ false = rw same_name differs in
          omega (
            arith,
            h name,
            backend_running_count-middle before run after name,
            backend_running_count-middle before run' after name,
            ap (λ b. if b then running_count run.items else 0) differs,
            ap (λ b. if b then running_count run'.items else 0) differs',
          )
    ]
