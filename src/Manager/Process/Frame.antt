-- ===== src/Manager/Process/Frame.antt =====
-- What a pass of `process_run` may change, item by item.
use scripthut.Common.{
  ℕ, zero, suc, ◌≡◌, refl, sym, ap, subst, ◌∙◌, ◌⊎◌, inl, inr, Bool, true, false, none, some, List,
  [], ◌∷◌, ◌++◌, map, get_elem?, set,
}
use scripthut.Model.{RunItem, Run, is_pending, pending, submitted, completed, failed, dep_failed}
use scripthut.Manager.Submit.Outcome.{started}

-- Where a pending item may go: on its way, restored from the cache, failed, or still pending.
abbrev pub outcome : RunItem → Bool
outcome i = elim i.status [
  | pending ↦ true
  | submitted ↦ true
  | completed ↦ i.cache_hit
  | failed ↦ true
  | dep_failed ↦ true
  | _ ↦ false
]

-- An item keeps its task. Unless it was pending it is left alone, and if it is started it was
-- `ready`.
abbrev pub Kept : (RunItem → Bool) → RunItem → RunItem → Type 0
Kept ready a b =
    (b.task ≡ a.task)
    × ((b ≡ a)
        ⊎ ((is_pending a.status ≡ true)
            × (outcome b ≡ true)
            × ((started b ≡ false) ⊎ (ready a ≡ true))))

-- The first list, item by item, stands at the front of the second.
abbrev pub Extends : (RunItem → Bool) → List RunItem → List RunItem → Type 0
Extends ready [] ys = Unit
Extends ready (a ∷ xs) [] = ⊥
Extends ready (a ∷ xs) (b ∷ ys) = Kept ready a b × Extends ready xs ys

abbrev pub AtPlace : (RunItem → Type 0) → List RunItem → ℕ → Type 0
AtPlace P items k = elim (get_elem? items k) [ none ↦ Unit | some i ↦ P i ]

module _ (ready : RunItem → Bool) where
  pub Extends-refl : (xs : List RunItem) → Extends ready xs xs
  Extends-refl [] = tt
  Extends-refl (a ∷ xs) = ((refl, inl refl), Extends-refl xs)

  pub Extends-append :
      (xs ys more : List RunItem) → Extends ready xs ys → Extends ready xs (ys ++ more)
  Extends-append [] ys more h = tt
  Extends-append (a ∷ xs) [] more h = elim h [ ]
  Extends-append (a ∷ xs) (b ∷ ys) more h = (h.0, Extends-append xs ys more h.1)

  pub Extends-set :
      (xs ys : List RunItem) (k : ℕ) (b v : RunItem)
      → get_elem? ys k ≡ some b
      → AtPlace (λ a. Kept ready a b → Kept ready a v) xs k
      → Extends ready xs ys
      → Extends ready xs (set ys k v)
  Extends-set [] ys k b v e f h = tt
  Extends-set (a ∷ xs) [] k b v e f h = elim h [ ]
  Extends-set (a ∷ xs) (c ∷ ys) zero b v e f h =
      (f (subst (λ o. elim o [ none ↦ Unit | some x ↦ Kept ready a x ]) e h.0), h.1)
  Extends-set (a ∷ xs) (c ∷ ys) (suc k) b v e f h = (h.0, Extends-set xs ys k b v e f h.1)

  pub Extends-map :
      (f : RunItem → RunItem)
      → ((a b : RunItem) → Kept ready a b → Kept ready a (f b))
      → (xs ys : List RunItem) → Extends ready xs ys
      → Extends ready xs (map f ys)
  Extends-map f keep [] ys h = tt
  Extends-map f keep (a ∷ xs) [] h = elim h [ ]
  Extends-map f keep (a ∷ xs) (b ∷ ys) h = (keep a b h.0, Extends-map f keep xs ys h.1)

-- Of what is pending now, anything may follow that may follow a pending item.
pub Kept-trans :
    (ready : RunItem → Bool) (a b c : RunItem)
    → Kept ready a b
    → Kept (λ _. true) b c
    → Kept (λ _. true) a c
Kept-trans ready a b c (t, inl e) (u, inl e') = (u ∙ t, inl (e' ∙ e))
Kept-trans ready a b c (t, inl e) (u, inr (p, o, s)) =
    (u ∙ t, inr (ap (λ (x : RunItem). is_pending x.status) (sym e) ∙ p, o, inr refl))
Kept-trans ready a b c (t, inr (p, o, s)) (u, inl e) = (u ∙ t, inr (p, ap outcome e ∙ o, inr refl))
Kept-trans ready a b c (t, inr (p, o, s)) (u, inr (p', o', s')) = (u ∙ t, inr (p, o', inr refl))

pub Extends-trans :
    (ready : RunItem → Bool) (xs ys zs : List RunItem)
    → Extends ready xs ys
    → Extends (λ _. true) ys zs
    → Extends (λ _. true) xs zs
Extends-trans ready [] ys zs h k = tt
Extends-trans ready (a ∷ xs) [] zs h k = elim h [ ]
Extends-trans ready (a ∷ xs) (b ∷ ys) [] h k = elim k [ ]
Extends-trans ready (a ∷ xs) (b ∷ ys) (c ∷ zs) h k =
    (Kept-trans ready a b c h.0 k.0, Extends-trans ready xs ys zs h.1 k.1)

-- Every item of the run is still there, and kept.
abbrev pub RunExtends : Run → Run → Type 0
RunExtends run run' = Extends (λ _. true) run.items run'.items

pub RunExtends-refl : (run : Run) → RunExtends run run
RunExtends-refl run = Extends-refl (λ _. true) run.items
