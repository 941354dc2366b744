-- ===== src/Manager/Validate/Start.antt =====
-- The graph and the colours at the start of `_validate_dependencies` (src/scripthut/runs/manager.py).
use scripthut.Common.{
  ◌+◌, ◌≤◌, String, ◌≡◌, refl, sym, subst, ◌∙◌, inl, inr, true, ◌||◌, none, some, List, [], ◌∷◌,
  map, ◌==◌, elem, arith, eq_iff, Bool-cases, is_some, length, All,
}
use scripthut.Common.Dict.{Dict, get, put, get-put}
use scripthut.Model.{TaskDefinition}
use scripthut.Manager.Validate.{Color, white, gray, black, by_id, deps_map, all_white}
use scripthut.Manager.Validate.Colors.{white_count, IsSound, OnPath}
use scripthut.Manager.Validate.Descent.{IsClosed}

abbrev pub ids : List TaskDefinition → List String
ids tasks = map (λ t. t.id) tasks

module _ {A : Type 0} (f : TaskDefinition → A) where
  pub by_id-known :
      (tasks : List TaskDefinition) (d : Dict A) (a : String)
      → is_some (get (by_id f d tasks) a) ≡ (elem a (ids tasks) || is_some (get d a))
  unfolding by_id
  by_id-known [] d a = refl
  by_id-known (t ∷ tasks) d a = ground (
    arith,
    by_id-known tasks (put d t.id (f t)) a,
    get-put d t.id a (f t),
    eq_iff t.id a,
    eq_iff a t.id,
  )

  by_id-All :
      (P : A → Type 0) (tasks : List TaskDefinition) (d : Dict A)
      → All (λ t. P (f t)) tasks
      → ((a : String) (v : A) → get d a ≡ some v → P v)
      → (a : String) (v : A) → get (by_id f d tasks) a ≡ some v
      → P v
  unfolding by_id
  by_id-All P [] d h k a v e = k a v e
  by_id-All P (t ∷ tasks) d (p, h) k a v e = by_id-All P tasks (put d t.id (f t)) h put_kept a v e
    where
      put_kept : (a : String) (v : A) → get (put d t.id (f t)) a ≡ some v → P v
      put_kept a v e = elim (Bool-cases (t.id == a)) [
        | inl same ↦
            let read : some (f t) ≡ some v = rw (get-put d t.id a (f t), same) at e in
            subst (λ o. elim o [ none ↦ P v | some w ↦ P w ]) read p
        | inr differs ↦ k a v (rw (get-put d t.id a (f t), differs) at e)
      ]

-- At the start every task is white, and there are no more of them than tasks.
white_count-put : (d : Dict Color) (k : String) → white_count (put d k white) ≤ white_count d + 1
unfolding white_count put
white_count-put [] k = omega arith
white_count-put ((j, c) ∷ d) k = ground (arith, white_count-put d k)

pub white_count-by_id :
    (tasks : List TaskDefinition) (d : Dict Color)
    → white_count (by_id (λ t. white) d tasks) ≤ white_count d + length tasks
unfolding by_id
white_count-by_id [] d = omega arith
white_count-by_id (t ∷ tasks) d =
    omega (arith, white_count-by_id tasks (put d t.id white), white_count-put d t.id)

white_at_start :
    (tasks : List TaskDefinition) (a : String) (c : Color)
    → get (all_white tasks) a ≡ some c
    → c ≡ white
unfolding all_white get
white_at_start tasks =
    by_id-All (λ t. white) (λ c. c ≡ white) tasks [] (every tasks) (λ a v e. cc e)
  where
    every : (tasks : List TaskDefinition) → All (λ t. white ≡ white) tasks
    every [] = tt
    every (t ∷ tasks) = (refl, every tasks)

pub IsSound-start : (tasks : List TaskDefinition) → IsSound (deps_map tasks) (all_white tasks)
unfolding all_white deps_map get
IsSound-start tasks = record {
  settled = λ a e. absurd (black_white (white_at_start tasks a black e));
  known =
      λ a. by_id-known (λ t. white) tasks [] a ∙ sym (by_id-known (λ t. t.dependencies) tasks [] a);
}
  where
    black_white : ¬ (black ≡ white)
    black_white e = cc e

pub OnPath-start : (tasks : List TaskDefinition) → OnPath [] (all_white tasks)
OnPath-start tasks a e = absurd (gray_white (white_at_start tasks a gray e))
  where
    gray_white : ¬ (gray ≡ white)
    gray_white e = cc e

-- Every dependency is the id of a task.
abbrev pub AllKnown : List String → List TaskDefinition → Type 0
AllKnown names tasks = All (λ t. All (λ dep. elem dep names ≡ true) t.dependencies) tasks

elem-All : (P : String → Type 0) (xs : List String) (b : String) → All P xs → elem b xs ≡ true → P b
elem-All P [] b h m = cc m
elem-All P (a ∷ xs) b h m = elim (Bool-cases (b == a)) [
  | inl same ↦ subst P (sym ((eq_iff b a).0 same)) h.0
  | inr differs ↦ elem-All P xs b h.1 (rw differs at m)
]

pub AllKnown-IsClosed :
    (tasks : List TaskDefinition) → AllKnown (ids tasks) tasks → IsClosed (deps_map tasks)
unfolding deps_map get
AllKnown-IsClosed tasks h a b (deps, e, m) =
    let listed =
      elem-All (λ dep. elem dep (ids tasks) ≡ true) deps b
        (by_id-All (λ t. t.dependencies) (All (λ dep. elem dep (ids tasks) ≡ true)) tasks [] h
          (λ a v e. cc e) a deps e)
        m in
    rw (by_id-known (λ t. t.dependencies) tasks [] b, listed) refl
