-- ===== src/Manager/Cascade/Fixpoint.antt =====
-- The cascade of src/scripthut/runs/manager.py ends, at a fixed point, and blames real failures.
use scripthut.Common.{
  ℕ, zero, suc, ◌<◌, String, ◌≡◌, refl, ap, ◌∙◌, ◌⊎◌, inl, inr, Bool, true, false, some, List, [],
  ◌∷◌, ◌++◌, ◌||◌, arith, All, Pointwise, Pointwise-refl, Pointwise-trans, Pointwise-middle,
  append-nil, append_assoc, Bool-cases, keep-All,
}
use scripthut.Model.{RunItem, is_pending, failed_deps, pending_count, dep_has_failed, find_item}
use scripthut.Manager.Cascade.{
  fail_dep, mark_failed, cascade_item, cascade_pass, cascade_loop, cascade,
}
use scripthut.Manager.Cascade.Pass.{
  Cascaded, Cascaded-refl, Cascaded-trans, is_doomed, cascade_pass-Pointwise,
  cascade_pass_unchanged, pending_count-cascade_pass,
}

module _ (now : ℕ) where
  -- A failure that was there stays there.
  Cascaded-keeps_failures :
      (xs ys : List RunItem) (d : String)
      → Pointwise (Cascaded now) xs ys
      → dep_has_failed xs d ≡ true
      → dep_has_failed ys d ≡ true
  unfolding find_item fail_dep
  Cascaded-keeps_failures [] [] d h f = f
  Cascaded-keeps_failures [] (y ∷ ys) d h f = elim h [ ]
  Cascaded-keeps_failures (x ∷ xs) [] d h f = elim h [ ]
  Cascaded-keeps_failures (x ∷ xs) (y ∷ ys) d h f =
      ground (arith, h.0, Cascaded-keeps_failures xs ys d h.1)

  -- As `Cascaded`, where the dependency blamed is a failure in the list `items`.
  abbrev pub Blamed : List RunItem → RunItem → RunItem → Type 0
  Blamed items a b =
      (b ≡ a)
      ⊎ ((is_pending a.status ≡ true)
          × ((d : String) × (b ≡ fail_dep now d a) × (dep_has_failed items d ≡ true)))

  mark_failed-Blamed :
      (items : List RunItem) (i : RunItem) (deps : List String)
      → is_pending i.status ≡ true
      → All (λ d. dep_has_failed items d ≡ true) deps
      → Blamed items i (mark_failed now i deps).0
  unfolding mark_failed
  mark_failed-Blamed items i [] p h = inl refl
  mark_failed-Blamed items i (d ∷ deps) p h = inr (p, (d, refl, h.0))

  cascade_item-Blamed :
      (items : List RunItem) (i : RunItem) → Blamed items i (cascade_item now items i).0
  unfolding cascade_item
  cascade_item-Blamed items i = elim (Bool-cases (is_pending i.status)) [
    | inl p ↦
        let b =
          mark_failed-Blamed items i (failed_deps items i) p
            (unfold failed_deps in keep-All (dep_has_failed items) i.task.dependencies) in
        rw p (rw p at b)
    | inr p ↦ rw p (inl refl)
  ]

  Blamed-trans :
      (final : List RunItem) (a b c : RunItem)
      → Blamed final a b
      → Blamed final b c
      → Blamed final a c
  unfolding fail_dep
  Blamed-trans final a b c (inl p) q = rw p at q
  Blamed-trans final a b c (inr p) (inl q) = inr (p.0, (p.1.0, q ∙ p.1.1, p.1.2))
  Blamed-trans final a b c (inr p) (inr q) =
      let b_not_pending : is_pending b.status ≡ false =
        ap (λ (x : RunItem). is_pending x.status) p.1.1 in
      cc (b_not_pending, q.0)

  -- A blame in a list stands in every list that the cascade makes of it.
  Blamed-later :
      (items final : List RunItem) (a b : RunItem)
      → Pointwise (Cascaded now) items final
      → Blamed items a b
      → Blamed final a b
  Blamed-later items final a b h (inl p) = inl p
  Blamed-later items final a b h (inr (p, (d, e, f))) =
      inr (p, (d, e, Cascaded-keeps_failures items final d h f))

  cascade_pass-Blamed :
      (final : List RunItem) (changed : Bool) (seen rest : List RunItem)
      → Pointwise (Cascaded now) (cascade_pass now changed seen rest).0 final
      → Pointwise (Blamed final) (seen ++ rest) (cascade_pass now changed seen rest).0
  unfolding cascade_pass
  cascade_pass-Blamed final changed seen [] h =
      rw append-nil (Pointwise-refl (Blamed final) (λ a. inl refl) seen)
  cascade_pass-Blamed final changed seen (i ∷ rest) h =
      let items = seen ++ i ∷ rest in
      let (i', hit) = cascade_item now items i in
      let later = cascade_pass-Blamed final (changed || hit) (seen ++ i' ∷ []) rest h in
      let onward =
        Pointwise-trans (Cascaded now) (Cascaded-trans now) _ _ _
          (cascade_pass-Pointwise now changed seen (i ∷ rest)) h in
      Pointwise-trans (Blamed final) (Blamed-trans final) _ _ _
        (Pointwise-middle (Blamed final) (λ a. inl refl) seen i i' rest
          (Blamed-later items final i i' onward (cascade_item-Blamed items i)))
        (rw append_assoc at later)

  -- What the loop ends with: the marks of the cascade, each with its reason, and nothing left to do.
  pub record Settled (before after : List RunItem) : Type 0 where
    pub marks : Pointwise (Cascaded now) before after
    pub reasons : Pointwise (Blamed after) before after
    pub nothing_doomed : All (λ i. is_doomed after i ≡ false) after

  Settled-step :
      (items final : List RunItem)
      → Settled (cascade_pass now false [] items).0 final
      → Settled items final
  Settled-step items final s = record {
    marks =
        Pointwise-trans (Cascaded now) (Cascaded-trans now) _ _ _
          (cascade_pass-Pointwise now false [] items) s.marks;
    reasons =
        Pointwise-trans (Blamed final) (Blamed-trans final) _ _ _
          (cascade_pass-Blamed final false [] items s.marks) s.reasons;
    nothing_doomed = s.nothing_doomed;
  }

  cascade_loop_again :
      (fuel : ℕ) (items : List RunItem)
      → (cascade_pass now false [] items).1 ≡ true
      → cascade_loop (suc fuel) now items
        ≡ cascade_loop fuel now (cascade_pass now false [] items).0
  unfolding cascade_loop
  cascade_loop_again fuel items h = rw (h, cascade_loop)

  cascade_loop_done :
      (fuel : ℕ) (items : List RunItem)
      → (cascade_pass now false [] items).1 ≡ false
      → cascade_loop (suc fuel) now items ≡ some items
  unfolding cascade_loop
  cascade_loop_done fuel items h =
      rw (h, cascade_loop) (ap some (cascade_pass_unchanged now false [] items h).1)

  fewer_pending :
      (items : List RunItem)
      → (cascade_pass now false [] items).1 ≡ true
      → pending_count (cascade_pass now false [] items).0 < pending_count items
  fewer_pending items h = ground (arith, pending_count-cascade_pass now false [] items)

  cascade_loop-Settled :
      (fuel : ℕ) (items : List RunItem)
      → pending_count items < fuel
      → (final : List RunItem) × (cascade_loop fuel now items ≡ some final) × Settled items final
  cascade_loop-Settled zero items h = elim h [ ]
  cascade_loop-Settled (suc fuel) items h = elim (Bool-cases (cascade_pass now false [] items).1) [
    | inl again ↦
        let (final, e, s) =
          cascade_loop-Settled fuel (cascade_pass now false [] items).0
            (omega (arith, fewer_pending items again)) in
        (final, cascade_loop_again fuel items again ∙ e, Settled-step items final s)
    | inr done ↦ (
      items,
      cascade_loop_done fuel items done,
      record {
        marks = Pointwise-refl (Cascaded now) (Cascaded-refl now) items;
        reasons = Pointwise-refl (Blamed items) (λ a. inl refl) items;
        nothing_doomed = (cascade_pass_unchanged now false [] items done).2;
      },
    )
  ]

-- The cascade ends. It only marks pending items DEP_FAILED, each with the name of a dependency that
-- has failed in the final list, and no pending item of the final list has a failed dependency.
pub cascade-Settled :
    (now : ℕ) (items : List RunItem)
    → (final : List RunItem) × (cascade now items ≡ some final) × Settled now items final
unfolding cascade
cascade-Settled now items = cascade_loop-Settled now (suc (pending_count items)) items (omega arith)
