-- ===== src/Manager/Validate/Checks.antt =====
-- The tests on single dependencies in `_validate_dependencies` (src/scripthut/runs/manager.py).
use scripthut.Common.{
  String, ◌≡◌, refl, sym, subst, ◌∙◌, inl, inr, Bool, true, false, Option, none, some, List, [],
  ◌∷◌, ◌==◌, ◌&&◌, &&-split, any, elem, arith, eq_iff, eq_refl, Bool-cases, All,
}
use scripthut.Model.{TaskDefinition}
use scripthut.Manager.Validate.{Refusal, missing, itself, check_deps, check_tasks}
use scripthut.Manager.Validate.Start.{AllKnown}

-- A task with the id `id` names `dep` as a dependency.
abbrev pub names : List TaskDefinition → String → String → Bool
names tasks id dep = any (λ t. (t.id == id) && elem dep t.dependencies) tasks

-- Every dependency is the id of a task, and of another one.
abbrev pub AllProper : List String → List TaskDefinition → Type 0
AllProper known tasks =
    All (λ t. All (λ dep. (elem dep known ≡ true) × ((dep == t.id) ≡ false)) t.dependencies) tasks

pub AllProper-AllKnown :
    (known : List String) (tasks : List TaskDefinition)
    → AllProper known tasks
    → AllKnown known tasks
AllProper-AllKnown known [] h = tt
AllProper-AllKnown known (t ∷ tasks) h =
    (each_known t.dependencies h.0, AllProper-AllKnown known tasks h.1)
  where
    each_known :
        (deps : List String)
        → All (λ dep. (elem dep known ≡ true) × ((dep == t.id) ≡ false)) deps
        → All (λ dep. elem dep known ≡ true) deps
    each_known [] k = tt
    each_known (dep ∷ deps) k = (k.0.0, each_known deps k.1)

-- What the two tests say of the tasks.
abbrev pub Checked : List String → List TaskDefinition → Option Refusal → Type 0
Checked known tasks none = AllProper known tasks
Checked known tasks (some (missing id dep)) = (names tasks id dep ≡ true) × (elem dep known ≡ false)
Checked known tasks (some (itself id)) = names tasks id id ≡ true
Checked known tasks (some r) = ⊥

abbrev CheckedDeps : List String → String → List String → Option Refusal → Type 0
CheckedDeps known id deps none = All (λ dep. (elem dep known ≡ true) × ((dep == id) ≡ false)) deps
CheckedDeps known id deps (some (missing i dep)) =
    (i ≡ id) × (elem dep deps ≡ true) × (elem dep known ≡ false)
CheckedDeps known id deps (some (itself i)) = (i ≡ id) × (elem i deps ≡ true)
CheckedDeps known id deps (some r) = ⊥

CheckedDeps-cons :
    (known : List String) (id dep : String) (deps : List String) (o : Option Refusal)
    → (elem dep known ≡ true) × ((dep == id) ≡ false)
    → CheckedDeps known id deps o
    → CheckedDeps known id (dep ∷ deps) o
CheckedDeps-cons known id dep deps none e h = (e, h)
CheckedDeps-cons known id dep deps (some (missing i d)) e (same, m, n) =
    (same, ground (arith, m), n)
CheckedDeps-cons known id dep deps (some (itself i)) e (same, m) = (same, ground (arith, m))
CheckedDeps-cons known id dep deps (some r) e h = absurd h

check_deps-Checked :
    (known : List String) (id : String) (deps : List String)
    → CheckedDeps known id deps (check_deps known id deps)
unfolding check_deps
check_deps-Checked known id [] = tt
check_deps-Checked known id (dep ∷ deps) = elim (Bool-cases (elem dep known)) [
  | inr unknown_dep ↦ rw (unknown_dep, check_deps) (refl, (rw (eq_refl dep) refl), unknown_dep)
  | inl there ↦ elim (Bool-cases (dep == id)) [
    | inl same ↦
        rw (there, same, check_deps) (refl, ground (arith, same, eq_iff dep id, eq_iff id dep))
    | inr differs ↦
        rw (there, differs, check_deps)
          (CheckedDeps-cons known id dep deps (check_deps known id deps) (there, differs)
            (check_deps-Checked known id deps))
  ]
]

Checked-cons :
    (known : List String) (t : TaskDefinition) (tasks : List TaskDefinition) (o : Option Refusal)
    → All (λ dep. (elem dep known ≡ true) × ((dep == t.id) ≡ false)) t.dependencies
    → Checked known tasks o
    → Checked known (t ∷ tasks) o
Checked-cons known t tasks none h k = (h, k)
Checked-cons known t tasks (some (missing i d)) h (n, m) = (ground (arith, n), m)
Checked-cons known t tasks (some (itself i)) h n = ground (arith, n)
Checked-cons known t tasks (some r) h k = absurd k

Checked-here :
    (known : List String) (t : TaskDefinition) (tasks : List TaskDefinition) (r : Refusal)
    → CheckedDeps known t.id t.dependencies (some r)
    → Checked known (t ∷ tasks) (some r)
Checked-here known t tasks (missing i d) (same, m, n) = (ground (arith, m, eq_iff t.id i, same), n)
Checked-here known t tasks (itself i) (same, m) = ground (arith, m, eq_iff t.id i, same)
Checked-here known t tasks r h = absurd h

pub check_tasks-Checked :
    (known : List String) (tasks : List TaskDefinition)
    → Checked known tasks (check_tasks known tasks)
unfolding check_tasks
check_tasks-Checked known [] = tt
check_tasks-Checked known (t ∷ tasks) =
    split_first (check_deps known t.id t.dependencies)
      (check_deps-Checked known t.id t.dependencies) (check_tasks-Checked known tasks)
  where
    split_first :
        (o : Option Refusal)
        → CheckedDeps known t.id t.dependencies o
        → Checked known tasks (check_tasks known tasks)
        → Checked known (t ∷ tasks) (elim o [ some r ↦ some r | none ↦ check_tasks known tasks ])
    split_first none h later = Checked-cons known t tasks (check_tasks known tasks) h later
    split_first (some r) h later = Checked-here known t tasks r h

-- A task that is named has the property of the named.
names-AllProper :
    (known : List String) (tasks : List TaskDefinition) (id dep : String)
    → AllProper known tasks
    → names tasks id dep ≡ true
    → (elem dep known ≡ true) × ((dep == id) ≡ false)
names-AllProper known [] id dep h n = cc n
names-AllProper known (t ∷ tasks) id dep h n =
    elim (Bool-cases ((t.id == id) && elem dep t.dependencies)) [
      | inr later ↦ names-AllProper known tasks id dep h.1 (rw later at n)
      | inl here ↦
          let (same, m) = &&-split (t.id == id) (elem dep t.dependencies) here in
          let (there, differs) = proper t.dependencies h.0 m in
          (there, subst (λ i. (dep == i) ≡ false) ((eq_iff t.id id).0 same) differs)
    ]
  where
    proper :
        (deps : List String)
        → All (λ d. (elem d known ≡ true) × ((d == t.id) ≡ false)) deps
        → elem dep deps ≡ true
        → (elem dep known ≡ true) × ((dep == t.id) ≡ false)
    proper [] k m = cc m
    proper (d ∷ deps) k m = elim (Bool-cases (dep == d)) [
      | inl same ↦
          subst (λ x. (elem x known ≡ true) × ((x == t.id) ≡ false)) (sym ((eq_iff dep d).0 same))
            k.0
      | inr differs ↦ proper deps k.1 (rw differs at m)
    ]

pub missing-AllProper :
    (known : List String) (tasks : List TaskDefinition) (id dep : String)
    → AllProper known tasks
    → names tasks id dep ≡ true
    → ¬ (elem dep known ≡ false)
missing-AllProper known tasks id dep h n strange =
    cc (sym (names-AllProper known tasks id dep h n).0 ∙ strange)

pub itself-AllProper :
    (known : List String) (tasks : List TaskDefinition) (id : String)
    → AllProper known tasks
    → ¬ (names tasks id id ≡ true)
itself-AllProper known tasks id h n =
    cc (sym (eq_refl id) ∙ (names-AllProper known tasks id id h n).1)
