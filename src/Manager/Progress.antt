-- ===== src/Manager/Progress.antt =====
-- A validated run (`_validate_dependencies`) in `process_run` of src/scripthut/runs/manager.py: what is
-- left to submit when nothing is under way.
use scripthut.Common.{
  IsDistinct, ℕ, String, ◌≡◌, refl, sym, subst, ◌∙◌, ◌⊎◌, inl, inr, Bool, true, false, not, ◌&&◌,
  none, some, List, [], ◌∷◌, map, ◌==◌, elem, any, arith, eq_iff, Bool-cases, All, Pointwise,
  All-Pointwise,
}
use scripthut.Model.{
  RunItem, is_pending, holds_slot, find_item, deps_satisfied, dep_completed, dep_has_failed,
  failed_deps,
}
use scripthut.Model.Status.{is_empty}
use scripthut.Manager.Cascade.{cascade, fail_dep}
use scripthut.Manager.Cascade.Pass.{Cascaded, is_doomed}
use scripthut.Manager.Cascade.Fixpoint.{Settled, cascade-Settled}
use scripthut.Manager.Slots.{is_ready}
use scripthut.Manager.Validate.{deps_map, validate_dependencies}
use scripthut.Manager.Validate.Walks.{Grounded, grounded}
use scripthut.Manager.Validate.Start.{ids}
use scripthut.Manager.Validate.Checks.{AllProper}
use scripthut.Manager.Validate.Outcome.{IsDag, validate_dependencies-IsDag}
use scripthut.Manager.Lookups.{
  tasks_of, get-find_item, find_item-elem, find_item-All, unmet, keep-empty, only_pending,
  any_found, first_pending, AllProper-items,
}

module _ (items : List RunItem) (distinct : IsDistinct (ids (tasks_of items)))
    (proper : AllProper (ids (tasks_of items)) (tasks_of items))
    (idle : All (λ i. holds_slot i.status ≡ false) items)
    (undoomed : All (λ i. is_doomed items i ≡ false) items) where
  -- A dependency of a pending item that has not completed is itself pending.
  dep-pending :
      (a : String) (i : RunItem) (d : String)
      → find_item items a ≡ some i
      → is_pending i.status ≡ true
      → elem d i.task.dependencies ≡ true
      → dep_completed items d ≡ false
      → (j : RunItem) × (find_item items d ≡ some j) × (is_pending j.status ≡ true)
  unfolding failed_deps
  dep-pending a i d e waiting m unmet_dep =
      let (j, f) = find_item-elem items d known in
      let no_failure : dep_has_failed items d ≡ false =
        keep-empty (dep_has_failed items) i.task.dependencies d
          (clear (is_pending i.status) (is_empty (failed_deps items i)) waiting
            (find_item-All (λ x. is_doomed items x ≡ false) items a i undoomed e))
          m in
      (
        j,
        f,
        only_pending j.status (rw (dep_completed, f) at unmet_dep)
            (rw (dep_has_failed, f) at no_failure)
            (find_item-All (λ x. holds_slot x.status ≡ false) items d j idle f),
      )
    where
      clear : (p b : Bool) → p ≡ true → (p && not b) ≡ false → b ≡ true
      clear p b h k = ground arith

      in_deps :
          (deps : List String)
          → All (λ x. (elem x (ids (tasks_of items)) ≡ true) × ((x == i.task.id) ≡ false)) deps
          → elem d deps ≡ true
          → elem d (ids (tasks_of items)) ≡ true
      in_deps [] h m = cc m
      in_deps (x ∷ deps) h m = elim (Bool-cases (d == x)) [
        | inl same ↦
            subst (λ y. elem y (ids (tasks_of items)) ≡ true) (sym ((eq_iff d x).0 same)) h.0.0
        | inr differs ↦ in_deps deps h.1 (rw differs at m)
      ]

      known : elem d (ids (tasks_of items)) ≡ true
      known =
          in_deps i.task.dependencies
            (find_item-All
              (λ x.
                All (λ y. (elem y (ids (tasks_of items)) ≡ true) × ((y == x.task.id) ≡ false))
                  x.task.dependencies)
              items a i (AllProper-items (ids (tasks_of items)) items proper) e)
            m

  -- Below each pending item there is one that is ready.
  ready_below :
      (a : String) (i : RunItem)
      → Grounded (deps_map (tasks_of items)) a
      → find_item items a ≡ some i
      → is_pending i.status ≡ true
      → any (is_ready items) items ≡ true
  unfolding is_ready deps_satisfied deps_map
  ready_below a i (grounded below) e waiting = elim (unmet items i.task.dependencies) [
    | inl met ↦
        any_found (is_ready items) items a i e (rw (is_ready, waiting, deps_satisfied, met) refl)
    | inr (d, m, unmet_dep) ↦
        let (j, f, j_waiting) = dep-pending a i d e waiting m unmet_dep in
        ready_below d j (below d (i.task.dependencies, get-find_item items [] a i distinct e, m)) f
          j_waiting
  ]

-- The cascade changes no task and gives no item a slot.
tasks_of-Cascaded :
    (now : ℕ) (xs ys : List RunItem) → Pointwise (Cascaded now) xs ys → tasks_of ys ≡ tasks_of xs
unfolding fail_dep
tasks_of-Cascaded now [] [] p = refl
tasks_of-Cascaded now [] (y ∷ ys) p = elim p [ ]
tasks_of-Cascaded now (x ∷ xs) [] p = elim p [ ]
tasks_of-Cascaded now (x ∷ xs) (y ∷ ys) (inl same, ps) =
    rw (map, same, tasks_of-Cascaded now xs ys ps) refl
tasks_of-Cascaded now (x ∷ xs) (y ∷ ys) (inr (waiting, (dep_id, same)), ps) =
    rw (map, same, tasks_of-Cascaded now xs ys ps) refl

idle-Cascaded :
    (now : ℕ) (a b : RunItem)
    → Cascaded now a b
    → holds_slot a.status ≡ false
    → holds_slot b.status ≡ false
unfolding fail_dep
idle-Cascaded now a b (inl same) h = rw same h
idle-Cascaded now a b (inr (waiting, (dep_id, same))) h = rw same refl

-- A run never gets stuck: where its dependencies have been validated, its ids are distinct and no item
-- holds a slot, after the cascade either no item is pending, or one is ready to be submitted.
pub cascade-moves :
    (now : ℕ) (items final : List RunItem)
    → validate_dependencies (tasks_of items) ≡ none
    → IsDistinct (ids (tasks_of items))
    → All (λ i. holds_slot i.status ≡ false) items
    → cascade now items ≡ some final
    → All (λ i. is_pending i.status ≡ false) final ⊎ (any (is_ready final) final ≡ true)
cascade-moves now items final valid distinct idle e =
    let (final', e', s') = cascade-Settled now items in
    let s : Settled now items final =
      subst (λ o. elim o [ none ↦ Settled now items final | some x ↦ Settled now items x ])
        (sym e' ∙ e) s' in
    let same = tasks_of-Cascaded now items final s.marks in
    let dag : IsDag (tasks_of final) =
      rw same ((validate_dependencies-IsDag (tasks_of items)).0 valid) in
    let distinct' : IsDistinct (ids (tasks_of final)) = rw same distinct in
    elim (first_pending final distinct') [
      | inl over ↦ inl over
      | inr (a, i, f, waiting) ↦ inr (
          ready_below final distinct' dag.0
            (All-Pointwise (Cascaded now) (λ x. holds_slot x.status ≡ false)
              (λ x. holds_slot x.status ≡ false) (idle-Cascaded now) items final s.marks idle)
            s.nothing_doomed a i (dag.1 a) f waiting)
    ]
