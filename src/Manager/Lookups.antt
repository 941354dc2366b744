-- ===== src/Manager/Lookups.antt =====
-- `get_item_by_task_id` of src/scripthut/runs/models.py on the items of a validated run.
use scripthut.Common.{
  IsDistinct, String, ◌≡◌, refl, sym, ap, subst, ◌∙◌, ◌⊎◌, inl, inr, Bool, true, false, none, some,
  List, [], ◌∷◌, map, ◌==◌, elem, any, all, keep, arith, eq_iff, eq_refl, Bool-cases, All, ||-false,
}
use scripthut.Common.Dict.{get, put, get-put}
use scripthut.Model.{
  TaskDefinition, RunItem, RunItemStatus, is_pending, is_failure, is_completed, holds_slot,
  find_item, dep_completed, pending, submitted, queued, running, settling, completed, failed,
  dep_failed,
}
use scripthut.Model.Status.{is_empty}
use scripthut.Manager.Validate.{Graph, by_id}
use scripthut.Manager.Validate.Start.{ids}
use scripthut.Manager.Validate.Checks.{AllProper}

abbrev pub tasks_of : List RunItem → List TaskDefinition
tasks_of items = map (λ i. i.task) items

pub by_id-absent :
    (tasks : List TaskDefinition) (d : Graph) (a : String)
    → elem a (ids tasks) ≡ false
    → get (by_id (λ t. t.dependencies) d tasks) a ≡ get d a
unfolding by_id
by_id-absent [] d a h = refl
by_id-absent (t ∷ tasks) d a h =
    let (differs, later) = ||-false (a == t.id) (elem a (ids tasks)) h in
    by_id-absent tasks (put d t.id t.dependencies) a later
    ∙ ground (arith, get-put d t.id a t.dependencies, differs, eq_iff a t.id, eq_iff t.id a)

-- Where the ids are distinct, the graph has the dependencies of the item that is found.
pub get-find_item :
    (items : List RunItem) (d : Graph) (a : String) (i : RunItem)
    → IsDistinct (ids (tasks_of items))
    → find_item items a ≡ some i
    → get (by_id (λ t. t.dependencies) d (tasks_of items)) a ≡ some i.task.dependencies
unfolding by_id find_item
get-find_item [] d a i h e = cc e
get-find_item (x ∷ items) d a i (new, h) e = elim (Bool-cases (x.task.id == a)) [
  | inr later ↦
      get-find_item items (put d x.task.id x.task.dependencies) a i h (rw (later, find_item) at e)
  | inl here ↦
      let found : some x ≡ some i = rw (here, find_item) at e in
      let same : x.task.id ≡ a = (eq_iff x.task.id a).0 here in
      by_id-absent (tasks_of items) (put d x.task.id x.task.dependencies) a
        (subst (λ y. elem y (ids (tasks_of items)) ≡ false) same new)
      ∙ rw (get-put d x.task.id a x.task.dependencies, here)
          (ap (λ o. elim o [ none ↦ none | some y ↦ some y.task.dependencies ]) found)
]

pub find_item-elem :
    (items : List RunItem) (a : String)
    → elem a (ids (tasks_of items)) ≡ true
    → (i : RunItem) × (find_item items a ≡ some i)
unfolding find_item
find_item-elem [] a h = cc h
find_item-elem (x ∷ items) a h = elim (Bool-cases (x.task.id == a)) [
  | inl here ↦ (x, rw (here, find_item) refl)
  | inr differs ↦
      let (i, e) =
        find_item-elem items a
          (ground (arith, h, differs, eq_iff x.task.id a, eq_iff a x.task.id)) in
      (i, rw (differs, find_item) e)
]

-- What holds of each item holds of the one that is found.
pub find_item-All :
    (P : RunItem → Type 0) (items : List RunItem) (a : String) (i : RunItem)
    → All P items
    → find_item items a ≡ some i
    → P i
unfolding find_item
find_item-All P [] a i h e = cc e
find_item-All P (x ∷ items) a i h e = elim (Bool-cases (x.task.id == a)) [
  | inr later ↦ find_item-All P items a i h.1 (rw (later, find_item) at e)
  | inl here ↦
      let found : some x ≡ some i = rw (here, find_item) at e in
      subst (λ o. elim o [ none ↦ P i | some y ↦ P y ]) found h.0
]

-- Either all dependencies have completed, or one of them is named that has not.
pub unmet :
    (items : List RunItem) (deps : List String)
    → (all (dep_completed items) deps ≡ true)
      ⊎ ((d : String) × (elem d deps ≡ true) × (dep_completed items d ≡ false))
unmet items [] = inl refl
unmet items (d ∷ deps) = elim (Bool-cases (dep_completed items d)) [
  | inr waits ↦ inr (d, (rw (eq_refl d) refl), waits)
  | inl met ↦ elim (unmet items deps) [
    | inl rest ↦ inl (rw (met) rest)
    | inr (b, m, waits) ↦ inr (b, ground (arith, m), waits)
  ]
]

pub keep-empty :
    (p : String → Bool) (deps : List String) (d : String)
    → is_empty (keep p deps) ≡ true
    → elem d deps ≡ true
    → p d ≡ false
keep-empty p [] d h m = cc m
keep-empty p (x ∷ deps) d h m = elim (Bool-cases (p x)) [
  | inl yes_p ↦ cc (rw (keep, yes_p) at h)
  | inr no_p ↦ elim (Bool-cases (d == x)) [
    | inl same ↦ ap p ((eq_iff d x).0 same) ∙ no_p
    | inr differs ↦ keep-empty p deps d (rw (keep, no_p) at h) (rw differs at m)
  ]
]

-- An item that has neither completed nor failed and holds no slot is pending.
pub only_pending :
    (s : RunItemStatus)
    → is_completed s ≡ false
    → is_failure s ≡ false
    → holds_slot s ≡ false
    → is_pending s ≡ true
only_pending pending a b c = refl
only_pending submitted a b c = cc c
only_pending queued a b c = cc c
only_pending running a b c = cc c
only_pending settling a b c = cc c
only_pending completed a b c = cc a
only_pending failed a b c = cc b
only_pending dep_failed a b c = cc b

pub any_found :
    (p : RunItem → Bool) (items : List RunItem) (a : String) (i : RunItem)
    → find_item items a ≡ some i
    → p i ≡ true
    → any p items ≡ true
unfolding find_item
any_found p [] a i e h = cc e
any_found p (x ∷ items) a i e h = elim (Bool-cases (x.task.id == a)) [
  | inr later ↦ ground (arith, any_found p items a i (rw (later, find_item) at e) h)
  | inl here ↦
      let found : some x ≡ some i = rw (here, find_item) at e in
      let px : p x ≡ true =
        subst (λ o. elim o [ none ↦ p x ≡ true | some y ↦ (p y ≡ true) → (p x ≡ true) ]) found
          (λ q. q) h in
      rw px refl
]

-- Two items with one id are one item, so the one found by the id of a later item is that.
find_item-in :
    (items : List RunItem) (a : String) (i : RunItem)
    → find_item items a ≡ some i
    → elem a (ids (tasks_of items)) ≡ true
unfolding find_item
find_item-in [] a i e = cc e
find_item-in (x ∷ items) a i e = elim (Bool-cases (x.task.id == a)) [
  | inl here ↦ ground (arith, here, eq_iff x.task.id a, eq_iff a x.task.id)
  | inr later ↦ ground (arith, find_item-in items a i (rw (later, find_item) at e))
]

-- Either no item is pending, or one that is can be found by its id.
pub first_pending :
    (items : List RunItem)
    → IsDistinct (ids (tasks_of items))
    → All (λ i. is_pending i.status ≡ false) items
      ⊎ ((a : String) × (i : RunItem) × (find_item items a ≡ some i) × (is_pending i.status ≡ true))
unfolding find_item
first_pending [] h = inl tt
first_pending (x ∷ items) (new, h) = elim (Bool-cases (is_pending x.status)) [
  | inl waiting ↦ inr (x.task.id, x, (rw (eq_refl x.task.id, find_item) refl), waiting)
  | inr over ↦ elim (first_pending items h) [
    | inl none_waits ↦ inl (over, none_waits)
    | inr (a, i, e, waiting) ↦ inr (a, i, behind a i e, waiting)
  ]
]
  where
    behind :
        (a : String) (i : RunItem) → find_item items a ≡ some i → find_item (x ∷ items) a ≡ some i
    behind a i e = elim (Bool-cases (x.task.id == a)) [
      | inr differs ↦ rw (differs, find_item) e
      | inl same ↦ cc (
          sym (find_item-in items a i e)
          ∙ subst (λ y. elem y (ids (tasks_of items)) ≡ false) ((eq_iff x.task.id a).0 same) new)
    ]

-- What the validation says of the tasks, said of the items.
pub AllProper-items :
    (known : List String) (items : List RunItem)
    → AllProper known (tasks_of items)
    → All
        (λ x. All (λ y. (elem y known ≡ true) × ((y == x.task.id) ≡ false)) x.task.dependencies)
        items
AllProper-items known [] h = tt
AllProper-items known (x ∷ items) h = (h.0, AllProper-items known items h.1)
