-- ===== src/Manager/Cascade/Pass.antt =====
-- What one pass of the cascade does to the list.
use scripthut.Common.{
  ℕ, ◌+◌, ◌≤◌, String, ◌≡◌, refl, sym, ap, ◌∙◌, ◌⊎◌, inl, inr, Bool, true, false, not, List, [],
  ◌∷◌, ◌++◌, ◌||◌, ◌&&◌, arith, All, Pointwise, Pointwise-refl, Pointwise-trans, Pointwise-middle,
  append-nil, append_assoc, if◌then◌else◌, count-append, Bool-cases, ||-false, subst,
}
use scripthut.Model.{RunItem, is_pending, failed_deps, pending_count}
use scripthut.Model.Status.{is_empty}
use scripthut.Manager.Cascade.{fail_dep, mark_failed, cascade_item, cascade_pass}

-- The item is as it was, or was pending and is marked with a failed dependency.
abbrev pub Cascaded : ℕ → RunItem → RunItem → Type 0
Cascaded now a b =
    (b ≡ a) ⊎ ((is_pending a.status ≡ true) × ((dep_id : String) × (b ≡ fail_dep now dep_id a)))

-- A pending item with a failed dependency: what the pass looks for.
abbrev pub is_doomed : List RunItem → RunItem → Bool
is_doomed items i = is_pending i.status && not (is_empty (failed_deps items i))

not-not : (b : Bool) → not (not b) ≡ b
not-not true = refl
not-not false = refl

pub pending_count-middle :
    (seen : List RunItem) (i : RunItem) (rest : List RunItem)
    → pending_count (seen ++ i ∷ rest)
      ≡ pending_count seen + (if is_pending i.status then 1 else 0) + pending_count rest
unfolding pending_count
pending_count-middle seen i rest =
    omega (arith, count-append (λ (x : RunItem). is_pending x.status) seen (i ∷ rest))

module _ (now : ℕ) where
  pub Cascaded-refl : (a : RunItem) → Cascaded now a a
  Cascaded-refl a = inl refl

  pub Cascaded-trans : (a b c : RunItem) → Cascaded now a b → Cascaded now b c → Cascaded now a c
  unfolding fail_dep
  Cascaded-trans a b c (inl p) q = rw p at q
  Cascaded-trans a b c (inr p) (inl q) = inr (p.0, (p.1.0, q ∙ p.1.1))
  Cascaded-trans a b c (inr p) (inr q) =
      let b_not_pending : is_pending b.status ≡ false =
        ap (λ (x : RunItem). is_pending x.status) p.1.1 in
      cc (b_not_pending, q.0)

  mark_failed_cases :
      (i : RunItem) (deps : List String)
      → is_pending i.status ≡ true
      → Cascaded now i (mark_failed now i deps).0
        × ((mark_failed now i deps).1 ≡ not (is_empty deps))
        × ((mark_failed now i deps).1 ≡ false → (mark_failed now i deps).0 ≡ i)
        × (is_pending (mark_failed now i deps).0.status ≡ is_empty deps)
  unfolding mark_failed fail_dep
  mark_failed_cases i [] p = (inl refl, refl, (λ _. refl), p)
  mark_failed_cases i (d ∷ deps) p = (inr (p, (d, refl)), refl, (λ e. cc), refl)

  -- The item is changed exactly when it is doomed, and then it is not pending any more.
  pub cascade_item_cases :
      (items : List RunItem) (i : RunItem)
      → Cascaded now i (cascade_item now items i).0
        × ((cascade_item now items i).1 ≡ is_doomed items i)
        × ((cascade_item now items i).1 ≡ false → (cascade_item now items i).0 ≡ i)
        × (is_pending (cascade_item now items i).0.status
            ≡ (is_pending i.status && not (is_doomed items i)))
  unfolding cascade_item
  cascade_item_cases items i = elim (Bool-cases (is_pending i.status)) [
    | inl p ↦
        let (r, e, s, q) = mark_failed_cases i (failed_deps items i) p in
        rw p (rw p at r, e, s, q ∙ sym (not-not _))
    | inr p ↦ rw p (inl refl, refl, (λ _. refl), p)
  ]

  -- The pass changes items at their places, and only as a cascade may.
  pub cascade_pass-Pointwise :
      (changed : Bool) (seen rest : List RunItem)
      → Pointwise (Cascaded now) (seen ++ rest) (cascade_pass now changed seen rest).0
  unfolding cascade_pass
  cascade_pass-Pointwise changed seen [] =
      rw append-nil (Pointwise-refl (Cascaded now) Cascaded-refl seen)
  cascade_pass-Pointwise changed seen (i ∷ rest) =
      let (i', hit) = cascade_item now (seen ++ i ∷ rest) i in
      let later = cascade_pass-Pointwise (changed || hit) (seen ++ i' ∷ []) rest in
      Pointwise-trans (Cascaded now) Cascaded-trans _ _ _
        (Pointwise-middle (Cascaded now) Cascaded-refl seen i i' rest
          (cascade_item_cases (seen ++ i ∷ rest) i).0)
        (rw append_assoc at later)

  -- A pass that reports no change has left the list alone, and no item of it is doomed.
  pub cascade_pass_unchanged :
      (changed : Bool) (seen rest : List RunItem)
      → (cascade_pass now changed seen rest).1 ≡ false
      → (changed ≡ false)
        × ((cascade_pass now changed seen rest).0 ≡ seen ++ rest)
        × All (λ i. is_doomed (seen ++ rest) i ≡ false) rest
  unfolding cascade_pass
  cascade_pass_unchanged changed seen [] e = (e, sym (append-nil seen), tt)
  cascade_pass_unchanged changed seen (i ∷ rest) e =
      let (i', hit) = cascade_item now (seen ++ i ∷ rest) i in
      let (flag, same, clean) = cascade_pass_unchanged (changed || hit) (seen ++ i' ∷ []) rest e in
      let (unflagged, unhit) = ||-false changed hit flag in
      let (_, doomed, unchanged, _) = cascade_item_cases (seen ++ i ∷ rest) i in
      let whole : (seen ++ i' ∷ []) ++ rest ≡ seen ++ i ∷ rest =
        append_assoc seen (i' ∷ []) rest
        ∙ ap (λ (x : RunItem). seen ++ x ∷ rest) (unchanged unhit) in
      (
        unflagged,
        same ∙ whole,
        (sym doomed ∙ unhit, subst (λ l. All (λ x. is_doomed l x ≡ false) rest) whole clean),
      )

  -- A pass that reports a change has left fewer items pending.
  pub pending_count-cascade_pass :
      (changed : Bool) (seen rest : List RunItem)
      → pending_count (cascade_pass now changed seen rest).0
          + (if (cascade_pass now changed seen rest).1 then 1 else 0)
        ≤ pending_count (seen ++ rest) + (if changed then 1 else 0)
  unfolding cascade_pass
  pending_count-cascade_pass changed seen [] = rw append-nil (omega arith)
  pending_count-cascade_pass changed seen (i ∷ rest) =
      let (i', hit) = cascade_item now (seen ++ i ∷ rest) i in
      let later = pending_count-cascade_pass (changed || hit) (seen ++ i' ∷ []) rest in
      let (_, doomed, _, left) = cascade_item_cases (seen ++ i ∷ rest) i in
      ground (
        arith,
        rw append_assoc at later,
        pending_count-middle seen i' rest,
        pending_count-middle seen i rest,
      )
