-- ===== src/Env/Flatten.antt =====
-- The expansion of groups and stacks in src/scripthut/runs/env.py ends.
use scripthut.Common.{
  ℕ, zero, suc, ◌≤◌, ◌<◌, String, ◌≡◌, inl, inr, false, not, some, List, [], ◌∷◌, ◌==◌, map, elem,
  count, length, arith, Bool-cases, Option-cases, count-le-length, eq_iff,
}
use scripthut.Common.Dict.{Dict, get}
use scripthut.Model.{EnvRule, Stack}
use scripthut.Env.{LabeledRule}
use scripthut.Env.Layers.{
  Flat, flat, cycle, unknown_stack, out_of_fuel, followed_by, wrap, stack_rule, include_groups,
  include_stacks, flatten_rules, flatten,
}

-- The groups that have not been entered.
abbrev unseen : List String → Dict (List EnvRule) → ℕ
unseen seen = count (λ g. not (elem g.0 seen))

unseen-le :
    (name : String) (seen : List String) (groups : Dict (List EnvRule))
    → unseen (name ∷ seen) groups ≤ unseen seen groups
unseen-le name seen [] = omega arith
unseen-le name seen (g ∷ groups) = ground (arith, unseen-le name seen groups)

-- Entering a group leaves fewer of them.
unseen_fewer :
    (name : String) (seen : List String) (groups : Dict (List EnvRule)) (rules : List EnvRule)
    → elem name seen ≡ false
    → get groups name ≡ some rules
    → unseen (name ∷ seen) groups < unseen seen groups
unfolding get
unseen_fewer name seen [] rules n e = cc e
unseen_fewer name seen ((key, r) ∷ groups) rules n e = elim (Bool-cases (key == name)) [
  | inl same ↦ ground (arith, eq_iff key name, unseen-le name seen groups)
  | inr other ↦
      let found : get groups name ≡ some rules = rw other at e in
      ground (arith, unseen_fewer name seen groups rules n found)
]

-- An answer: rules, or an error of the program.
abbrev pub IsAnswer : Flat → Type 0
IsAnswer out_of_fuel = ⊥
IsAnswer _ = Unit

followed_by-IsAnswer : (a b : Flat) → IsAnswer a → IsAnswer b → IsAnswer (followed_by a b)
followed_by-IsAnswer (flat xs) (flat ys) h k = tt
followed_by-IsAnswer (flat xs) (cycle s n) h k = tt
followed_by-IsAnswer (flat xs) (unknown_stack n s) h k = tt
followed_by-IsAnswer (flat xs) out_of_fuel h k = k
followed_by-IsAnswer (cycle s n) b h k = tt
followed_by-IsAnswer (unknown_stack n s) b h k = tt
followed_by-IsAnswer out_of_fuel b h k = h

module _ (groups : Dict (List EnvRule)) (stacks : Dict Stack) where
  module _ (deeper : List String → List LabeledRule → Flat) (seen : List String)
      (answers : (name : String) (rules : List EnvRule)
        → elem name seen ≡ false
        → get groups name ≡ some rules
        → (inner : List LabeledRule) → IsAnswer (deeper (name ∷ seen) inner)) where
    include_groups-IsAnswer :
        (l : LabeledRule) (names : List String)
        → IsAnswer (include_groups groups stacks deeper seen l names)
    unfolding include_groups
    include_groups-IsAnswer l [] = tt
    include_groups-IsAnswer l (name ∷ names) = elim (Bool-cases (elem name seen)) [
      | inl again ↦ rw (again, include_groups) tt
      | inr new ↦ elim (Option-cases (get groups name)) [
        | inl e ↦ rw (new, e, include_groups) (include_groups-IsAnswer l names)
        | inr (rules, e) ↦
            rw (new, e, include_groups)
              (followed_by-IsAnswer _ _ (answers name rules new e (map (wrap l name) rules))
                (include_groups-IsAnswer l names))
      ]
    ]

    include_stacks-IsAnswer :
        (l : LabeledRule) (names : List String)
        → IsAnswer (include_stacks groups stacks deeper seen l names)
    unfolding include_stacks
    include_stacks-IsAnswer l [] = tt
    include_stacks-IsAnswer l (name ∷ names) = elim (Option-cases (get stacks name)) [
      | inl e ↦ rw (e, include_stacks) tt
      | inr (stack, e) ↦ elim (Bool-cases (stack.init == "")) [
        | inl bare ↦ rw (e, bare, include_stacks) (include_stacks-IsAnswer l names)
        | inr full ↦
            rw (e, full, include_stacks)
              (followed_by-IsAnswer (flat (stack_rule l name stack ∷ [])) _ tt
                (include_stacks-IsAnswer l names))
      ]
    ]

    flatten_rules-IsAnswer :
        (rules : List LabeledRule) → IsAnswer (flatten_rules groups stacks deeper seen rules)
    unfolding flatten_rules
    flatten_rules-IsAnswer [] = tt
    flatten_rules-IsAnswer (l ∷ rules) =
        followed_by-IsAnswer _ _ (include_groups-IsAnswer l l.rule.include) (
          followed_by-IsAnswer _ _ (include_stacks-IsAnswer l l.rule.stacks)
            (followed_by-IsAnswer (flat _) _ tt (flatten_rules-IsAnswer rules)))

  flatten_on-IsAnswer :
      (fuel : ℕ) (seen : List String) (rules : List LabeledRule)
      → unseen seen groups < fuel
      → IsAnswer (flatten groups stacks fuel seen rules)
  unfolding flatten
  flatten_on-IsAnswer zero seen rules h = elim h [ ]
  flatten_on-IsAnswer (suc fuel) seen rules h =
      flatten_rules-IsAnswer (flatten groups stacks fuel) seen
        (λ name found n e inner.
          flatten_on-IsAnswer fuel (name ∷ seen) inner
            (omega (arith, h, unseen_fewer name seen groups found n e)))
        rules

-- However the groups include each other, the expansion of rules gives rules or raises one of its
-- errors, on one unit of fuel for each group and one more.
pub flatten-IsAnswer :
    (groups : Dict (List EnvRule)) (stacks : Dict Stack) (rules : List LabeledRule)
    → IsAnswer (flatten groups stacks (suc (length groups)) [] rules)
flatten-IsAnswer groups stacks rules =
    flatten_on-IsAnswer groups stacks (suc (length groups)) [] rules
      (omega (arith, count-le-length (λ (g : String × List EnvRule). not (elem g.0 [])) groups))
