-- ===== src/Poll/GivenUp.antt =====
-- The loop of the long grace in `poll_backend` (src/scripthut/main.py), and the items that it passes over.
use scripthut.Common.{
  ℕ, zero, suc, ◌+◌, ◌≤◌, ◌<◌, ◌≡◌, refl, sym, ◌∙◌, inl, inr, ◌⊎◌, Bool, true, false, Option, none,
  some, List, arith, All, length, get_elem?, get_elem?-some_lt, get_elem?-none_ge, All-places,
  get_elem?-set_self, get_elem?-set_before, set, Bool-cases, Option-cases,
}
use scripthut.Model.{RunItem, RunItemStatus, Run}
use scripthut.Manager.World.{World}
use scripthut.Manager.Generate.{collect, handle_task_outputs, hash_outputs}
use scripthut.Manager.Process.Waiting.{Quiet, after_item_completed-Quiet}
use scripthut.Poll.{Poll}
use scripthut.Poll.Runs.{is_overdue, give_up_item, give_up_place, give_up_loop}
use scripthut.Poll.Patience.{Calm, Calm-set, Calm-collect}
use scripthut.Poll.Runs.{drop_item}
use scripthut.Manager.Observe.{observe_completed, observe_missing}

-- No item before the place `k` is overdue.
abbrev ClearTo : Poll → ℕ → List RunItem → Type 0
ClearTo p k items =
    (j : ℕ) (i : RunItem) → j < k → get_elem? items j ≡ some i → is_overdue p i ≡ false

ClearTo-suc :
    (p : Poll) (k : ℕ) (items : List RunItem) (b : RunItem)
    → get_elem? items k ≡ some b
    → is_overdue p b ≡ false
    → ClearTo p k items
    → ClearTo p (suc k) items
ClearTo-suc p k items b e f h j i lt g = elim (below_or_at j k lt) [
  | inl less ↦ h j i less g
  | inr same ↦ ground (arith, same, e, g, f)
]
  where
    below_or_at : (j k : ℕ) → j < suc k → (j < k) ⊎ (j ≡ k)
    below_or_at j k lt = omega arith

ClearTo-set :
    (p : Poll) (k : ℕ) (items : List RunItem) (b v : RunItem)
    → get_elem? items k ≡ some b
    → is_overdue p v ≡ false
    → ClearTo p k items
    → ClearTo p (suc k) (set items k v)
ClearTo-set p k items b v e f h =
    ClearTo-suc p k (set items k v) v (get_elem?-set_self items k b v e) f
      (λ j i lt g. h j i lt (sym (get_elem?-set_before items k j v lt) ∙ g))

-- What the hooks do to an item does not make it overdue, and leaves the other places alone.
collect-ClearTo :
    (w : World) (p : Poll) (k : ℕ) (run : Run)
    → ClearTo p (suc k) run.items
    → ClearTo p (suc k) (collect w k run).items
unfolding handle_task_outputs hash_outputs
collect-ClearTo w p k run h = elim (Option-cases (get_elem? run.items k)) [
  | inl e ↦ rw (e, collect) h
  | inr (b, e) ↦
      let b' = hash_outputs w run (handle_task_outputs w run b) in
      let same : is_overdue p b' ≡ is_overdue p b = ground arith in
      rw (e, collect)
        (ClearTo-set p k run.items b b' e (same ∙ h k b (omega arith) e)
          (λ j i lt g. h j i (omega (arith, lt)) g))
]

module _ (w : World) (p : Poll) (drive : Run → Option Run) (n : ℕ) where
  give_up_place-ClearTo :
      (run : Run) (any : Bool) (k : ℕ) (item : RunItem)
      → get_elem? run.items k ≡ some item
      → Calm n run.items
      → ClearTo p k run.items
      → (r : Run × Bool) × (give_up_place w p drive run any k item ≡ some r)
        × Calm n r.0.items
        × ClearTo p (suc k) r.0.items
  unfolding give_up_place give_up_item
  give_up_place-ClearTo run any k item e h clear = elim (Bool-cases (is_overdue p item)) [
    | inr waits ↦ (
      (run, any),
      rw (waits, give_up_place) refl,
      h,
      ClearTo-suc p k run.items item e waits clear,
    )
    | inl overdue ↦
        let stored = record run { items = set run.items k (give_up_item item) } in
        let calm = Calm-set n run.items k item (give_up_item item) e refl h in
        (
          (collect w k stored, true),
          rw (overdue, after_item_completed-Quiet w drive stored k calm.0, give_up_place) refl,
          Calm-collect w n k stored calm,
          collect-ClearTo w p k stored
              (ClearTo-set p k run.items item (give_up_item item) e refl clear),
        )
  ]

  give_up_loop-ClearTo :
      (rounds k : ℕ) (run : Run) (any : Bool)
      → Calm n run.items
      → k ≤ n
      → n < rounds + k
      → ClearTo p k run.items
      → (r : Run × Bool) × (give_up_loop w p drive rounds k run any ≡ some r)
        × Calm n r.0.items
        × ClearTo p n r.0.items
  unfolding give_up_loop
  give_up_loop-ClearTo zero k run any h below enough clear = absurd (omega (arith, below, enough))
  give_up_loop-ClearTo (suc rounds) k run any h below enough clear =
      elim (Option-cases (get_elem? run.items k)) [
        | inl e ↦ (
          (run, any),
          rw (e, give_up_loop) refl,
          h,
          λ j i lt g. clear j i (omega (arith, lt, h.1, get_elem?-none_ge run.items k e)) g,
        )
        | inr (item, e) ↦
            let (r, found, calm, clear') = give_up_place-ClearTo run any k item e h clear in
            let inside = get_elem?-some_lt run.items k item e in
            let (r', found', calm', clear'') =
              give_up_loop-ClearTo rounds (suc k) r.0 r.1 calm (omega (arith, inside, h.1))
                (omega (arith, enough)) clear' in
            (r', rw (e, found, give_up_loop) found', calm', clear'')
      ]

-- For a run none of whose tasks generates others the loop of the long grace ends, on fuel for each item
-- and one more, and then no item is SETTLING with a finish time beyond the limit and without a record
-- of its job.
pub give_up_loop-Patient :
    (w : World) (p : Poll) (drive : Run → Option Run) (rounds : ℕ) (run : Run)
    → Quiet run.items
    → length run.items < rounds
    → (r : Run × Bool) × (give_up_loop w p drive rounds 0 run false ≡ some r)
      × All (λ i. is_overdue p i ≡ false) r.0.items
give_up_loop-Patient w p drive rounds run q enough =
    let (r, found, calm, clear) =
      give_up_loop-ClearTo w p drive (length run.items) rounds 0 run false (q, refl) (omega arith)
        (omega arith) (λ j i lt g. absurd (omega (arith, lt))) in
    (
      r,
      found,
      All-places (λ i. is_overdue p i ≡ false) r.0.items
          (λ j i g. clear j i (omega (arith, calm.1, get_elem?-some_lt r.0.items j i g)) g),
    )

-- A running item without a finish time that the queue reports as COMPLETED has none after that either,
-- and as a SETTLING item without one it is left as it is by every later report of a queue that does not
-- know its job, and by every later poll without a record of it, however late.
pub observe_completed_waits :
    (item : RunItem) (now : ℕ) (p : Poll)
    → item.finished_at ≡ none
    → ((observe_completed item).0.status ≡ RunItemStatus.settling)
      × ((observe_completed item).0.finished_at ≡ none)
      × (observe_missing now (observe_completed item).0 ≡ ((observe_completed item).0, false))
      × (is_overdue p (observe_completed item).0 ≡ false)
      × (drop_item p (observe_completed item).0 ≡ (observe_completed item).0)
unfolding observe_completed observe_missing drop_item
observe_completed_waits item now p none_yet = (refl, none_yet, refl, ground (arith, none_yet), refl)
