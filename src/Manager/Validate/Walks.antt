-- ===== src/Manager/Validate/Walks.antt =====
-- The graph of dependencies that `_validate_dependencies` (src/scripthut/runs/manager.py) searches.
use scripthut.Common.{
  String, ◌≡◌, ap, subst, inl, inr, true, some, List, [], ◌∷◌, ◌++◌, ◌==◌, elem, arith, eq_iff,
  Bool-cases,
}
use scripthut.Common.Dict.{get}
use scripthut.Manager.Validate.{Graph, from_first}

-- The task `a` names `b` as a dependency.
abbrev pub Depends : Graph → String → String → Type 0
Depends graph a b = (deps : List String) × (get graph a ≡ some deps) × (elem b deps ≡ true)

-- There is a way down from each dependency, so that no chain of dependencies goes on for ever.
pub data Grounded (graph : Graph) : String → Type 0 where
  grounded : {a : String} → ((b : String) → Depends graph a b → Grounded graph b) → Grounded graph a

-- Each task of the list depends on the next.
abbrev pub IsWalk : Graph → List String → Type 0
IsWalk graph [] = Unit
IsWalk graph (a ∷ []) = Unit
IsWalk graph (a ∷ b ∷ path) = Depends graph a b × IsWalk graph (b ∷ path)

-- A walk from a task back to it.
abbrev pub IsCycle : Graph → List String → Type 0
IsCycle graph path =
    (a : String) × (rest : List String) × (path ≡ a ∷ rest ++ a ∷ []) × IsWalk graph path

pub IsWalk-snoc :
    (graph : Graph) (path : List String) (a b : String)
    → IsWalk graph (path ++ a ∷ [])
    → Depends graph a b
    → IsWalk graph ((path ++ a ∷ []) ++ b ∷ [])
IsWalk-snoc graph [] a b w d = (d, tt)
IsWalk-snoc graph (x ∷ []) a b w d = (w.0, (d, tt))
IsWalk-snoc graph (x ∷ y ∷ path) a b w d = (w.0, IsWalk-snoc graph (y ∷ path) a b w.1 d)

IsWalk-tail :
    (graph : Graph) (a : String) (path : List String) → IsWalk graph (a ∷ path) → IsWalk graph path
IsWalk-tail graph a [] w = tt
IsWalk-tail graph a (b ∷ path) w = w.1

from_first-IsWalk :
    (graph : Graph) (dep : String) (path tail : List String)
    → IsWalk graph (path ++ tail)
    → IsWalk graph (from_first dep path ++ tail)
unfolding from_first
from_first-IsWalk graph dep [] tail w = w
from_first-IsWalk graph dep (n ∷ path) tail w = elim (Bool-cases (n == dep)) [
  | inl here ↦ rw (here, from_first) w
  | inr later ↦
      rw (later, from_first)
        (from_first-IsWalk graph dep path tail (IsWalk-tail graph n (path ++ tail) w))
]

from_first-head :
    (dep : String) (path : List String)
    → elem dep path ≡ true
    → (rest : List String) × (from_first dep path ≡ dep ∷ rest)
unfolding from_first
from_first-head dep [] h = cc h
from_first-head dep (n ∷ path) h = elim (Bool-cases (n == dep)) [
  | inl here ↦ (path, rw (here, from_first) (ap (λ x. x ∷ path) ((eq_iff n dep).0 here)))
  | inr differs ↦
      let (rest, e) =
        from_first-head dep path (ground (arith, h, differs, eq_iff n dep, eq_iff dep n)) in
      (rest, rw (differs, from_first) e)
]

-- The error of the search names a cycle: `dep` is on the path, which ends with a task that depends
-- on it.
pub from_first-IsCycle :
    (graph : Graph) (path : List String) (node dep : String)
    → IsWalk graph (path ++ node ∷ [])
    → Depends graph node dep
    → elem dep (path ++ node ∷ []) ≡ true
    → IsCycle graph (from_first dep (path ++ node ∷ []) ++ dep ∷ [])
from_first-IsCycle graph path node dep w d h =
    let (rest, e) = from_first-head dep (path ++ node ∷ []) h in
    (
      dep,
      rest,
      ap (λ front. front ++ dep ∷ []) e,
      from_first-IsWalk graph dep (path ++ node ∷ []) (dep ∷ [])
          (IsWalk-snoc graph path node dep w d),
    )

-- Nothing grounded is on a cycle.
no_way_back :
    (graph : Graph) (a : String)
    → Grounded graph a
    → (rest : List String) → IsWalk graph (a ∷ rest ++ a ∷ [])
    → ⊥
no_way_back graph a (grounded h) [] w = no_way_back graph a (h a w.0) [] w
no_way_back graph a (grounded h) (b ∷ rest) w =
    no_way_back graph b (h b w.0) (rest ++ a ∷ []) (IsWalk-snoc graph (b ∷ rest) a b w.1 w.0)

pub Grounded-IsCycle :
    (graph : Graph) (path : List String) → ((a : String) → Grounded graph a) → ¬ IsCycle graph path
Grounded-IsCycle graph path All-Grounded (a, rest, e, w) =
    no_way_back graph a (All-Grounded a) rest (subst (IsWalk graph) e w)
