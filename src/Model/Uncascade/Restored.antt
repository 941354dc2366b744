-- ===== src/Model/Uncascade/Restored.antt =====
-- What `uncascade_dep_failures` of src/scripthut/runs/models.py ends with.
use scripthut.Common.{
  ℕ, zero, suc, ◌+◌, ◌≤◌, ◌<◌, String, ◌≡◌, refl, sym, ap, ◌∙◌, ◌⊎◌, inl, inr, Bool, true, false,
  not, some, List, [], ◌∷◌, ◌++◌, ◌||◌, ◌&&◌, arith, All, Pointwise, Pointwise-refl,
  Pointwise-trans, Pointwise-middle, append-nil, append_assoc, if◌then◌else◌, Bool-cases,
  count-append, ||-false, subst,
}
use scripthut.Model.Item.{RunItem}
use scripthut.Model.Deps.{is_dep_failed, failed_deps, dep_failed_count}
use scripthut.Model.Status.{is_empty}
use scripthut.Model.Uncascade.{
  undo_failure, undo_unblocked, uncascade_item, uncascade_pass, uncascade_loop, uncascade,
}

-- The item is as it was, or was DEP_FAILED and is reset.
abbrev pub Undone : RunItem → RunItem → Type 0
Undone a b = (b ≡ a) ⊎ ((is_dep_failed a.status ≡ true) × (b ≡ undo_failure a))

-- A DEP_FAILED item without a failed dependency: what the pass looks for.
abbrev pub is_unblocked : List RunItem → RunItem → Bool
is_unblocked items i = is_dep_failed i.status && is_empty (failed_deps items i)

Undone-trans : (a b c : RunItem) → Undone a b → Undone b c → Undone a c
unfolding undo_failure
Undone-trans a b c (inl p) q = rw p at q
Undone-trans a b c (inr p) (inl q) = inr (p.0, q ∙ p.1)
Undone-trans a b c (inr p) (inr q) =
    let b_not_failed : is_dep_failed b.status ≡ false =
      ap (λ (x : RunItem). is_dep_failed x.status) p.1 in
    cc (b_not_failed, q.0)

undo_unblocked_cases :
    (i : RunItem) (deps : List String)
    → is_dep_failed i.status ≡ true
    → Undone i (undo_unblocked i deps).0
      × ((undo_unblocked i deps).1 ≡ is_empty deps)
      × ((undo_unblocked i deps).1 ≡ false → (undo_unblocked i deps).0 ≡ i)
      × (is_dep_failed (undo_unblocked i deps).0.status ≡ not (is_empty deps))
unfolding undo_unblocked undo_failure
undo_unblocked_cases i [] p = (inr (p, refl), refl, (λ e. cc), refl)
undo_unblocked_cases i (d ∷ deps) p = (inl refl, refl, (λ _. refl), p)

uncascade_item_cases :
    (items : List RunItem) (i : RunItem)
    → Undone i (uncascade_item items i).0
      × ((uncascade_item items i).1 ≡ is_unblocked items i)
      × ((uncascade_item items i).1 ≡ false → (uncascade_item items i).0 ≡ i)
      × (is_dep_failed (uncascade_item items i).0.status
          ≡ (is_dep_failed i.status && not (is_unblocked items i)))
unfolding uncascade_item
uncascade_item_cases items i = elim (Bool-cases (is_dep_failed i.status)) [
  | inl p ↦
      let (r, e, s, q) = undo_unblocked_cases i (failed_deps items i) p in rw p (rw p at r, e, s, q)
  | inr p ↦ rw p (inl refl, refl, (λ _. refl), p)
]

dep_failed_count-middle :
    (seen : List RunItem) (i : RunItem) (rest : List RunItem)
    → dep_failed_count (seen ++ i ∷ rest)
      ≡ dep_failed_count seen + (if is_dep_failed i.status then 1 else 0) + dep_failed_count rest
unfolding dep_failed_count
dep_failed_count-middle seen i rest =
    omega (arith, count-append (λ (x : RunItem). is_dep_failed x.status) seen (i ∷ rest))

uncascade_pass-Pointwise :
    (changed : Bool) (seen rest : List RunItem)
    → Pointwise Undone (seen ++ rest) (uncascade_pass changed seen rest).0
unfolding uncascade_pass
uncascade_pass-Pointwise changed seen [] =
    rw append-nil (Pointwise-refl Undone (λ a. inl refl) seen)
uncascade_pass-Pointwise changed seen (i ∷ rest) =
    let (i', hit) = uncascade_item (seen ++ i ∷ rest) i in
    let later = uncascade_pass-Pointwise (changed || hit) (seen ++ i' ∷ []) rest in
    Pointwise-trans Undone Undone-trans _ _ _
      (Pointwise-middle Undone (λ a. inl refl) seen i i' rest
        (uncascade_item_cases (seen ++ i ∷ rest) i).0)
      (rw append_assoc at later)

-- A pass that reports no change has left the list alone, and no item of it is to be reset.
uncascade_pass_unchanged :
    (changed : Bool) (seen rest : List RunItem)
    → (uncascade_pass changed seen rest).1 ≡ false
    → (changed ≡ false)
      × ((uncascade_pass changed seen rest).0 ≡ seen ++ rest)
      × All (λ i. is_unblocked (seen ++ rest) i ≡ false) rest
unfolding uncascade_pass
uncascade_pass_unchanged changed seen [] e = (e, sym (append-nil seen), tt)
uncascade_pass_unchanged changed seen (i ∷ rest) e =
    let (i', hit) = uncascade_item (seen ++ i ∷ rest) i in
    let (flag, same, clean) = uncascade_pass_unchanged (changed || hit) (seen ++ i' ∷ []) rest e in
    let (unflagged, unhit) = ||-false changed hit flag in
    let (_, unblocked, unchanged, _) = uncascade_item_cases (seen ++ i ∷ rest) i in
    let whole : (seen ++ i' ∷ []) ++ rest ≡ seen ++ i ∷ rest =
      append_assoc seen (i' ∷ []) rest ∙ ap (λ (x : RunItem). seen ++ x ∷ rest) (unchanged unhit) in
    (
      unflagged,
      same ∙ whole,
      (sym unblocked ∙ unhit, subst (λ l. All (λ x. is_unblocked l x ≡ false) rest) whole clean),
    )

dep_failed_count-uncascade_pass :
    (changed : Bool) (seen rest : List RunItem)
    → dep_failed_count (uncascade_pass changed seen rest).0
        + (if (uncascade_pass changed seen rest).1 then 1 else 0)
      ≤ dep_failed_count (seen ++ rest) + (if changed then 1 else 0)
unfolding uncascade_pass
dep_failed_count-uncascade_pass changed seen [] = rw append-nil (omega arith)
dep_failed_count-uncascade_pass changed seen (i ∷ rest) =
    let (i', hit) = uncascade_item (seen ++ i ∷ rest) i in
    let later = dep_failed_count-uncascade_pass (changed || hit) (seen ++ i' ∷ []) rest in
    let (_, unblocked, _, left) = uncascade_item_cases (seen ++ i ∷ rest) i in
    ground (
      arith,
      rw append_assoc at later,
      unblocked,
      left,
      dep_failed_count-middle seen i rest,
      dep_failed_count-middle seen i' rest,
    )

-- What the loop ends with: resets of DEP_FAILED items, and nothing left to reset.
abbrev pub Restored : List RunItem → List RunItem → Type 0
Restored before after =
    Pointwise Undone before after × All (λ i. is_unblocked after i ≡ false) after

uncascade_loop-Restored :
    (fuel : ℕ) (items : List RunItem)
    → dep_failed_count items < fuel
    → (final : List RunItem) × (uncascade_loop fuel items ≡ some final) × Restored items final
unfolding uncascade_loop
uncascade_loop-Restored zero items h = elim h [ ]
uncascade_loop-Restored (suc fuel) items h = elim (Bool-cases (uncascade_pass false [] items).1) [
  | inl again ↦
      let fewer = dep_failed_count-uncascade_pass false [] items in
      let (final, e, (marks, clean)) =
        uncascade_loop-Restored fuel (uncascade_pass false [] items).0 (ground (arith, fewer)) in
      (
        final,
        rw (again, uncascade_loop) e,
        (
          Pointwise-trans Undone Undone-trans _ _ _ (uncascade_pass-Pointwise false [] items) marks,
          clean,
        ),
      )
  | inr done ↦
      let (_, same, clean) = uncascade_pass_unchanged false [] items done in
      (
        items,
        rw (done, uncascade_loop) (ap some same),
        (Pointwise-refl Undone (λ a. inl refl) items, clean),
      )
]

-- The loop ends. It only sets items that were DEP_FAILED back to PENDING, without error and finish
-- time, and in the final list each item that is still DEP_FAILED has a failed dependency.
pub uncascade-Restored :
    (items : List RunItem)
    → (final : List RunItem) × (uncascade items ≡ some final) × Restored items final
unfolding uncascade
uncascade-Restored items =
    uncascade_loop-Restored (suc (dep_failed_count items)) items (omega arith)
