-- ===== src/Manager/Validate.antt =====
-- `RunManager._validate_dependencies` of src/scripthut/runs/manager.py. The depth-first search runs on
-- fuel; `path` is a list in Python's order, and the colours are a dictionary that is passed on.
pub mod Walks
pub mod Colors
pub mod Descent
pub mod Start
pub mod Checks
pub mod Outcome
use scripthut.Common.{
  ℕ, zero, suc, String, Bool, true, false, Option, none, some, List, [], ◌∷◌, ◌++◌, map,
  if◌then◌else◌, ◌==◌, elem, length,
}
use scripthut.Common.Dict.{Dict, get, put}
use scripthut.Model.{TaskDefinition}

pub data Color : Type 0 where
  white gray black : Color

-- What is raised: the three errors of the program, a key that a dictionary does not have, and the end
-- of the model's fuel.
pub data Refusal : Type 0 where
  missing : String → String → Refusal
  itself : String → Refusal
  circular : List String → Refusal
  no_key : String → Refusal
  no_fuel : Refusal

-- The two tests on one dependency, for the dependencies of a task.
unfoldable pub check_deps : List String → String → List String → Option Refusal
check_deps ids id [] = none
check_deps ids id (dep ∷ deps) =
    let rest = check_deps ids id deps in
    if elem dep ids then (if dep == id then some (itself id) else rest) else some (missing id dep)

unfoldable pub check_tasks : List String → List TaskDefinition → Option Refusal
unfolding check_deps
check_tasks ids [] = none
check_tasks ids (t ∷ tasks) = elim (check_deps ids t.id t.dependencies) [
  | some r ↦ some r
  | none ↦ check_tasks ids tasks
]

-- A dictionary comprehension over the tasks: a later task with the same id wins.
unfoldable pub by_id {ℓ} :
    {A : Type ℓ} → (TaskDefinition → A) → Dict A → List TaskDefinition → Dict A
unfolding put
by_id f d [] = d
by_id f d (t ∷ tasks) = by_id f (put d t.id (f t)) tasks

abbrev pub Graph : Type 0
Graph = Dict (List String)

unfoldable pub deps_map : List TaskDefinition → Graph
unfolding by_id
deps_map = by_id (λ t. t.dependencies) []

unfoldable pub all_white : List TaskDefinition → Dict Color
unfolding by_id
all_white = by_id (λ t. white) []

-- How a search ends: with the colours, or with an exception.
pub data Search : Type 0 where
  done : Dict Color → Search
  raised : Refusal → Search

-- `path[path.index(dep):]`
unfoldable pub from_first : String → List String → List String
from_first dep [] = []
from_first dep (n ∷ path) = let rest = from_first dep path in if n == dep then n ∷ path else rest

-- The body of the loop over the dependencies, by the color of `dep`; `dfs` searches from a white one.
abbrev pub visit_dep :
    (String → Dict Color → Search) → List String → Dict Color → String → Option Color → Search
visit_dep dfs path colors dep none = raised (no_key dep)
visit_dep dfs path colors dep (some white) = dfs dep colors
visit_dep dfs path colors dep (some gray) = raised (circular (from_first dep path ++ dep ∷ []))
visit_dep dfs path colors dep (some black) = done colors

unfoldable pub visit_deps :
    (String → Dict Color → Search) → List String → List String → Dict Color → Search
unfolding get from_first
visit_deps dfs path [] colors = done colors
visit_deps dfs path (dep ∷ deps) colors = elim (visit_dep dfs path colors dep (get colors dep)) [
  | raised r ↦ raised r
  | done colors' ↦ visit_deps dfs path deps colors'
]

abbrev pub blacken : String → Search → Search
blacken node (raised r) = raised r
blacken node (done colors) = done (put colors node black)

unfoldable pub dfs : Graph → ℕ → List String → String → Dict Color → Search
unfolding visit_deps get put
dfs graph zero path node colors = raised no_fuel
dfs graph (suc fuel) path node colors = elim (get graph node) [
  | none ↦ raised (no_key node)
  | some deps ↦ blacken node (
      visit_deps (λ dep c. dfs graph fuel (path ++ node ∷ []) dep c) (path ++ node ∷ []) deps
        (put colors node gray))
]

-- `if color[task.id] == WHITE: dfs(task.id, [])`
abbrev pub visit_root : Graph → ℕ → Dict Color → String → Option Color → Search
visit_root graph fuel colors id none = raised (no_key id)
visit_root graph fuel colors id (some white) = dfs graph fuel [] id colors
visit_root graph fuel colors id (some color) = done colors

unfoldable pub visit_roots : Graph → ℕ → List TaskDefinition → Dict Color → Option Refusal
unfolding dfs get
visit_roots graph fuel [] colors = none
visit_roots graph fuel (t ∷ tasks) colors =
    elim (visit_root graph fuel colors t.id (get colors t.id)) [
      | raised r ↦ some r
      | done colors' ↦ visit_roots graph fuel tasks colors'
    ]

-- `none` where it returns. A search colours a white task, so there is fuel for each task and one more.
unfoldable pub validate_dependencies : List TaskDefinition → Option Refusal
unfolding check_tasks deps_map all_white visit_roots
validate_dependencies tasks = elim (check_tasks (map (λ t. t.id) tasks) tasks) [
  | some r ↦ some r
  | none ↦ visit_roots (deps_map tasks) (suc (length tasks)) tasks (all_white tasks)
]
