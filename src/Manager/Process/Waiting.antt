-- ===== src/Manager/Process/Waiting.antt =====
-- How each step of `process_run` moves the number of pending items, where no task generates others.
use scripthut.Common.{
  ℕ, zero, suc, ◌+◌, ◌≤◌, ◌<◌, ◌⊎◌, All-set, All-at, count-set-same, String, ◌≡◌, refl, subst, ◌∙◌,
  inl, inr, Bool, true, false, not, Option, some, List, [], ◌∷◌, map, arith, All, get_elem?, set,
  if◌then◌else◌, Bool-cases, Option-cases, is_some, truthy,
}
use scripthut.Model.{RunItem, Run, is_pending, pending_count}
use scripthut.Manager.World.{World}
use scripthut.Manager.Submit.{submit_task}
use scripthut.Manager.Submit.Outcome.{Submitted, submit_task-Submitted}
use scripthut.Manager.Slots.{is_ready}
use scripthut.Manager.Generate.{
  after_item_completed, collect, generate, handle_task_outputs, hash_outputs,
}
use scripthut.Manager.Process.{
  ready_places, halt_item, submit_at, submit_place, submit_loop, after_all,
}

-- The task generates no others.
abbrev pub is_quiet : RunItem → Bool
is_quiet i = not (is_some (truthy i.task.generates_source))

abbrev pub Quiet : List RunItem → Type 0
Quiet items = All (λ i. is_quiet i ≡ true) items

-- Fewer pending items, or no more, and none that generates.
abbrev pub AtMost : ℕ → List RunItem → Type 0
AtMost n items = Quiet items × (pending_count items ≤ n)

-- Storing an item that is not pending takes one off the count if the old one was.
pending_count-set :
    (xs : List RunItem) (k : ℕ) (b v : RunItem)
    → get_elem? xs k ≡ some b
    → is_pending v.status ≡ false
    → pending_count (set xs k v) + (if is_pending b.status then 1 else 0) ≡ pending_count xs
unfolding pending_count
pending_count-set [] k b v e h = cc e
pending_count-set (x ∷ xs) zero b v e h = ground arith
pending_count-set (x ∷ xs) (suc k) b v e h = ground (arith, pending_count-set xs k b v e h)

halted :
    (now : ℕ) (reason : Option String) (xs : List RunItem)
    → Quiet xs
    → AtMost (pending_count xs) (map (halt_item now reason) xs)
unfolding pending_count halt_item
halted now reason [] h = (tt, omega arith)
halted now reason (x ∷ xs) h = ground (arith, halted now reason xs h.1)

Submitted-not_pending :
    (b : RunItem) (r : RunItem × Bool)
    → Submitted b r
    → (is_pending r.0.status ≡ false) × (is_quiet b ≡ true → is_quiet r.0 ≡ true)
Submitted-not_pending b r s = ground arith

module _ (w : World) where
  submit_at-AtMost :
      (run : Run) (k : ℕ) (b : RunItem)
      → get_elem? run.items k ≡ some b
      → Quiet run.items
      → Quiet (submit_at w run k b).0.items
        × (pending_count (submit_at w run k b).0.items + (if is_pending b.status then 1 else 0)
            ≤ pending_count run.items)
  unfolding submit_at
  submit_at-AtMost run k b e h =
      let r = submit_task w run b in
      let (stopped, quiet) = Submitted-not_pending b r (submit_task-Submitted w run b) in
      let stored = set run.items k r.0 in
      let still = All-set _ run.items k r.0 (quiet (All-at _ run.items k b e h)) h in
      let fewer = pending_count-set run.items k b r.0 e stopped in
      let after_halt = halted w.now r.0.error stored still in
      elim (Bool-cases r.1) [
        | inl good ↦ rw good (still, omega arith)
        | inr bad ↦ rw bad (after_halt.0, omega (arith, after_halt.1))
      ]

  submit_place-AtMost :
      (run : Run) (k : ℕ)
      → Quiet run.items
      → AtMost (pending_count run.items) (submit_place w run k).0.items
  submit_place-AtMost run k h = elim (Option-cases (get_elem? run.items k)) [
    | inl e ↦ rw (e, submit_place) (h, omega arith)
    | inr (b, e) ↦
        let at = submit_at-AtMost run k b e h in rw (e, submit_place) (at.0, omega (arith, at.1))
  ]

  pub submit_loop-AtMost :
      (run : Run) (ks : List ℕ)
      → Quiet run.items
      → AtMost (pending_count run.items) (submit_loop w run ks).0.items
  unfolding submit_loop
  submit_loop-AtMost run [] h = (h, omega arith)
  submit_loop-AtMost run (k ∷ ks) h =
      let placed = submit_place-AtMost run k h in
      let later = submit_loop-AtMost (submit_place w run k).0 ks placed.0 in
      elim (Bool-cases (submit_place w run k).1) [
        | inl on ↦ rw on (later.0, omega (arith, placed.1, later.1))
        | inr off ↦ rw off placed
      ]

-- There is a pending item at the place.
abbrev PendingAt : List RunItem → ℕ → Type 0
PendingAt xs k = (b : RunItem) × (get_elem? xs k ≡ some b) × (is_pending b.status ≡ true)

pub PendingAt-places :
    (ready : RunItem → Bool)
    → ((a : RunItem) → ready a ≡ true → is_pending a.status ≡ true)
    → (front xs : List RunItem) (j : ℕ) → ((k : ℕ) → get_elem? front (j + k) ≡ get_elem? xs k)
    → All (PendingAt front) (ready_places ready j xs)
unfolding ready_places
PendingAt-places ready p front [] j shift = tt
PendingAt-places ready p front (x ∷ xs) j shift =
    let later =
      PendingAt-places ready p front xs (suc j)
        (λ k. subst (λ n. get_elem? front n ≡ get_elem? xs k) (omega arith) (shift (suc k))) in
    elim (Bool-cases (ready x)) [
      | inl r ↦
          rw r ((x, subst (λ n. get_elem? front n ≡ some x) (omega arith) (shift 0), p x r), later)
      | inr n ↦ rw n later
    ]

pub is_ready-is_pending :
    (items : List RunItem) (a : RunItem) → is_ready items a ≡ true → is_pending a.status ≡ true
unfolding is_ready
is_ready-is_pending items a h = ground arith

module _ (w : World) where
  -- A loop over a list of places that starts at a pending item leaves fewer of them.
  pub submit_loop_progress :
      (run : Run) (ks : List ℕ)
      → Quiet run.items
      → All (PendingAt run.items) ks
      → ((submit_loop w run ks).1 ≡ [])
        ⊎ (pending_count (submit_loop w run ks).0.items < pending_count run.items)
  unfolding submit_loop
  submit_loop_progress run [] h p = inl refl
  submit_loop_progress run (k ∷ ks) h p =
      let (b, e, pending_there) = p.0 in
      let at = submit_at-AtMost w run k b e h in
      let later = submit_loop-AtMost w (submit_at w run k b).0 ks at.0 in
      elim (Bool-cases (submit_at w run k b).1) [
        | inl on ↦ rw (e, on, submit_place) (inr (ground (arith, at.1, later.1, pending_there)))
        | inr off ↦ rw (e, off, submit_place) (inl refl)
      ]

  pub collect-AtMost : (n k : ℕ) (run : Run) → AtMost n run.items → AtMost n (collect w k run).items
  unfolding pending_count handle_task_outputs hash_outputs
  collect-AtMost n k run h = elim (Option-cases (get_elem? run.items k)) [
    | inl e ↦ rw (e, collect) h
    | inr (b, e) ↦
        let b' = hash_outputs w run (handle_task_outputs w run b) in
        let same_status : is_pending b'.status ≡ is_pending b.status = ground arith in
        let same_task : is_quiet b' ≡ is_quiet b = ground arith in
        rw (e, collect)
          (
            All-set _ run.items k b' (same_task ∙ All-at _ run.items k b e h.0) h.0,
            omega (
              arith,
              h.1,
              count-set-same (λ i. is_pending i.status) run.items k b b' e same_status,
            ),
          )
  ]

  -- The hooks of an item in a quiet run return, and collect what the item left.
  pub after_item_completed-Quiet :
      (drive : Run → Option Run) (run : Run) (k : ℕ)
      → Quiet run.items
      → after_item_completed w drive run k ≡ some (collect w k run)
  unfolding after_item_completed
  after_item_completed-Quiet drive run k h = elim (Option-cases (get_elem? run.items k)) [
    | inl e ↦ rw (e, after_item_completed, collect) refl
    | inr (b, e) ↦
        rw (e, after_item_completed, still b b.task.generates_source (All-at _ run.items k b e h))
          refl
  ]
    where
      still :
          (b : RunItem) (path : Option String)
          → not (is_some (truthy path)) ≡ true
          → generate w drive run b path ≡ some run
      still b path q = ground arith

  pub after_all-AtMost :
      (drive : Run → Option Run) (n : ℕ) (run : Run) (ks : List ℕ)
      → AtMost n run.items
      → (r : Run) × (after_all w drive run ks ≡ some r) × AtMost n r.items
  unfolding after_all
  after_all-AtMost drive n run [] h = (run, refl, h)
  after_all-AtMost drive n run (k ∷ ks) h =
      let found = after_item_completed-Quiet drive run k h.0 in
      let (r', found', at') =
        after_all-AtMost drive n (collect w k run) ks (collect-AtMost n k run h) in
      (r', rw (found, after_all) found', at')
