-- ===== src/Manager/Validate/Outcome.antt =====
-- What `_validate_dependencies` (src/scripthut/runs/manager.py) returns or raises.
use scripthut.Common.{
  ℕ, suc, ◌<◌, String, ◌≡◌, refl, sym, ap, subst, ◌∙◌, inl, inr, true, false, Option, none, some,
  List, [], ◌∷◌, ◌==◌, elem, arith, eq_iff, eq_refl, Bool-cases, is_some, length, All, ◌↔◌,
}
use scripthut.Common.Dict.{Dict, get}
use scripthut.Model.{TaskDefinition}
use scripthut.Manager.Validate.{
  Graph, Color, white, gray, black, Refusal, missing, itself, circular, Search, done, raised,
  deps_map, all_white, check_tasks, visit_root, visit_roots, validate_dependencies,
}
use scripthut.Manager.Validate.Walks.{Depends, Grounded, grounded, IsCycle, Grounded-IsCycle}
use scripthut.Manager.Validate.Colors.{white_count, IsSound, Onward-refl, OnPath}
use scripthut.Manager.Validate.Descent.{IsClosed, Ends, dfs-Ends}
use scripthut.Manager.Validate.Start.{
  ids, AllKnown-IsClosed, IsSound-start, OnPath-start, white_count-by_id, by_id-known,
}
use scripthut.Manager.Validate.Checks.{
  names, AllProper, AllProper-AllKnown, missing-AllProper, itself-AllProper, Checked,
  check_tasks-Checked,
}

-- What is true of the tasks by what the validation returns or raises: it never lacks a key or fuel.
abbrev pub Judged : List TaskDefinition → Option Refusal → Type 0
Judged tasks none = AllProper (ids tasks) tasks × ((a : String) → Grounded (deps_map tasks) a)
Judged tasks (some (missing id dep)) = (names tasks id dep ≡ true) × (elem dep (ids tasks) ≡ false)
Judged tasks (some (itself id)) = names tasks id id ≡ true
Judged tasks (some (circular path)) = IsCycle (deps_map tasks) path
Judged tasks (some r) = ⊥

-- What the loop over the roots leaves.
abbrev Rooted : Graph → List TaskDefinition → Option Refusal → Type 0
Rooted graph tasks none = All (λ t. Grounded graph t.id) tasks
Rooted graph tasks (some (circular path)) = IsCycle graph path
Rooted graph tasks (some r) = ⊥

module _ (graph : Graph) (closed : IsClosed graph) (fuel : ℕ) where
  visit_root-Ends :
      (id : String) (d : Dict Color) (o : Option Color)
      → get d id ≡ o
      → is_some (get graph id) ≡ true
      → white_count d < fuel
      → IsSound graph d
      → OnPath [] d
      → Ends graph d (id ∷ []) (visit_root graph fuel d id o)
  visit_root-Ends id d none e there enough s on =
      absurd (no_none (sym (ap is_some e) ∙ (s.known id ∙ there)))
    where
      no_none : ¬ (false ≡ true)
      no_none e = cc e
  visit_root-Ends id d (some white) e there enough s on =
      dfs-Ends graph closed fuel [] id d enough s on tt e
  visit_root-Ends id d (some gray) e there enough s on = absurd (not_in_nil (on id e))
    where
      not_in_nil : ¬ (false ≡ true)
      not_in_nil e = cc e
  visit_root-Ends id d (some black) e there enough s on = (s, Onward-refl d, (e, tt))

  visit_roots-Rooted :
      (tasks : List TaskDefinition) (d : Dict Color)
      → All (λ t. is_some (get graph t.id) ≡ true) tasks
      → white_count d < fuel
      → IsSound graph d
      → OnPath [] d
      → Rooted graph tasks (visit_roots graph fuel tasks d)
  unfolding visit_roots
  visit_roots-Rooted [] d there enough s on = tt
  visit_roots-Rooted (t ∷ tasks) d there enough s on =
      go_on (visit_root graph fuel d t.id (get d t.id))
        (visit_root-Ends t.id d (get d t.id) refl there.0 enough s on)
        (λ e. visit_roots-Rooted tasks e there.1)
    where
      first :
          (o : Option Refusal)
          → Grounded graph t.id
          → Rooted graph tasks o
          → Rooted graph (t ∷ tasks) o
      first none g h = (g, h)
      first (some (circular path)) g h = h
      first (some r) g h = absurd h

      go_on :
          (r : Search)
          → Ends graph d (t.id ∷ []) r
          → ((e : Dict Color)
              → white_count e < fuel
              → IsSound graph e
              → OnPath [] e
              → Rooted graph tasks (visit_roots graph fuel tasks e))
          → Rooted graph
              (t ∷ tasks)
              (elim r [ raised x ↦ some x | done e ↦ visit_roots graph fuel tasks e ])
      go_on (raised (circular path)) h later = h
      go_on (raised r) h later = absurd h
      go_on (done e) (sound, onward, (now_black, _)) later =
          first (visit_roots graph fuel tasks e) (sound.settled t.id now_black) (
            later e (omega (arith, enough, onward.no_whiter)) sound
              (λ a g. on a (onward.gray_stays a g)))

-- Where every task's id is grounded, every text is: one that is no task's has no dependencies.
All-Grounded :
    (tasks : List TaskDefinition)
    → All (λ t. Grounded (deps_map tasks) t.id) tasks
    → (a : String) → Grounded (deps_map tasks) a
unfolding deps_map get
All-Grounded tasks h a = elim (Bool-cases (elem a (ids tasks))) [
  | inl listed ↦ found tasks h listed
  | inr strange ↦
      let no_deps : is_some (get (deps_map tasks) a) ≡ false =
        by_id-known (λ t. t.dependencies) tasks [] a ∙ (rw strange refl) in
      grounded (λ b dep. absurd (no_entry b dep no_deps))
]
  where
    found :
        (rest : List TaskDefinition)
        → All (λ t. Grounded (deps_map tasks) t.id) rest
        → elem a (ids rest) ≡ true
        → Grounded (deps_map tasks) a
    found [] h m = cc m
    found (t ∷ rest) h m = elim (Bool-cases (a == t.id)) [
      | inl same ↦ subst (Grounded (deps_map tasks)) (sym ((eq_iff a t.id).0 same)) h.0
      | inr differs ↦ found rest h.1 (rw differs at m)
    ]

    no_entry :
        (b : String) → Depends (deps_map tasks) a b → ¬ (is_some (get (deps_map tasks) a) ≡ false)
    no_entry b (deps, e, m) n = cc (sym (ap is_some e) ∙ n)

-- Every id is a key of the graph, and there are no more white tasks than tasks.
ids_are_keys :
    (tasks : List TaskDefinition) → All (λ t. is_some (get (deps_map tasks) t.id) ≡ true) tasks
unfolding deps_map get
ids_are_keys tasks = listed tasks (λ a m. m)
  where
    listed :
        (rest : List TaskDefinition)
        → ((a : String) → elem a (ids rest) ≡ true → elem a (ids tasks) ≡ true)
        → All (λ t. is_some (get (deps_map tasks) t.id) ≡ true) rest
    listed [] sub = tt
    listed (t ∷ rest) sub =
        let here = sub t.id (rw (eq_refl t.id) refl) in
        (
          by_id-known (λ t. t.dependencies) tasks [] t.id ∙ (rw here refl),
          listed rest (λ a m. sub a (ground (arith, m))),
        )

few_white : (tasks : List TaskDefinition) → white_count (all_white tasks) < suc (length tasks)
unfolding all_white white_count
few_white tasks = omega (arith, white_count-by_id tasks [])

-- The validation returns exactly on tasks whose dependencies all exist and have no cycle. What it
-- raises is true: a dependency that is no task's id, a task that depends on itself, or a cycle, whose
-- tasks each depend on the next. It ends, with fuel for each task and one more, and finds every key.
pub validate_dependencies-Judged :
    (tasks : List TaskDefinition) → Judged tasks (validate_dependencies tasks)
unfolding validate_dependencies
validate_dependencies-Judged tasks =
    judge (check_tasks (ids tasks) tasks) (check_tasks-Checked (ids tasks) tasks)
  where
    search :
        AllProper (ids tasks) tasks
        → (o : Option Refusal) → Rooted (deps_map tasks) tasks o
        → Judged tasks o
    search known none h = (known, All-Grounded tasks h)
    search known (some (circular path)) h = h
    search known (some r) h = absurd h

    judge :
        (o : Option Refusal)
        → Checked (ids tasks) tasks o
        → Judged tasks (elim o [
          | some r ↦ some r
          | none ↦ visit_roots (deps_map tasks) (suc (length tasks)) tasks (all_white tasks)
        ])
    judge (some (missing id dep)) h = h
    judge (some (itself id)) h = h
    judge (some r) h = absurd h
    judge none known =
        search known (visit_roots (deps_map tasks) (suc (length tasks)) tasks (all_white tasks)) (
          visit_roots-Rooted (deps_map tasks)
            (AllKnown-IsClosed tasks (AllProper-AllKnown (ids tasks) tasks known))
            (suc (length tasks)) tasks (all_white tasks) (ids_are_keys tasks) (few_white tasks)
            (IsSound-start tasks) (OnPath-start tasks))

-- What the tasks of a run have to be: every dependency is the id of another task, and no chain of
-- dependencies goes on for ever.
abbrev pub IsDag : List TaskDefinition → Type 0
IsDag tasks = AllProper (ids tasks) tasks × ((a : String) → Grounded (deps_map tasks) a)

-- The validation raises nothing exactly where the tasks are such a graph.
pub validate_dependencies-IsDag :
    (tasks : List TaskDefinition) → (validate_dependencies tasks ≡ none) ↔ IsDag tasks
validate_dependencies-IsDag tasks = (
  λ e. subst (Judged tasks) e (validate_dependencies-Judged tasks),
  λ dag. accept dag (validate_dependencies tasks) (validate_dependencies-Judged tasks),
)
  where
    accept : IsDag tasks → (o : Option Refusal) → Judged tasks o → o ≡ none
    accept dag none h = refl
    accept dag (some (missing id dep)) (n, m) =
        absurd (missing-AllProper (ids tasks) tasks id dep dag.0 n m)
    accept dag (some (itself id)) n = absurd (itself-AllProper (ids tasks) tasks id dag.0 n)
    accept dag (some (circular path)) h = absurd (Grounded-IsCycle (deps_map tasks) path dag.1 h)
    accept dag (some r) h = absurd h
