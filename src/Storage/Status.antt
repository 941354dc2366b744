-- ===== src/Storage/Status.antt =====
-- The status of a stored run (`save_run` and `load_run` of src/scripthut/runs/storage.py).
use scripthut.Common.{
  String, ◌≡◌, refl, sym, ap, ◌∙◌, inl, inr, Bool, not, ◌&&◌, ◌||◌, Option, none, some, List, [],
  ◌∷◌, map, any, all, keep, ◌==◌, Bool-cases,
}
use scripthut.Model.{
  RunItem, RunItemStatus, Run, RunStatus, is_pending, is_failure, is_finished, is_completed,
  holds_slot, dep_has_failed, failed_deps, find_item,
}
use scripthut.Model.Status.{status, status_of, is_empty}
use scripthut.Storage.Items.{stored_item}
use scripthut.Storage.Tasks.{Codec, ReadsBack}
use scripthut.Storage.Runs.{stored_run, run_to_dict, run_from_dict, run_from_dict-to_dict}

any-stored_item :
    (q : RunItemStatus → Bool) (items : List RunItem)
    → any (λ i. q i.status) (map stored_item items) ≡ any (λ i. q i.status) items
unfolding stored_item
any-stored_item q [] = refl
any-stored_item q (i ∷ items) = ap (λ b. q i.status || b) (any-stored_item q items)

all-stored_item :
    (q : RunItemStatus → Bool) (items : List RunItem)
    → all (λ i. q i.status) (map stored_item items) ≡ all (λ i. q i.status) items
unfolding stored_item
all-stored_item q [] = refl
all-stored_item q (i ∷ items) = ap (λ b. q i.status && b) (all-stored_item q items)

dep_has_failed-stored_item :
    (items : List RunItem) (dep_id : String)
    → dep_has_failed (map stored_item items) dep_id ≡ dep_has_failed items dep_id
unfolding stored_item find_item
dep_has_failed-stored_item [] dep_id = refl
dep_has_failed-stored_item (i ∷ items) dep_id = elim (Bool-cases (i.task.id == dep_id)) [
  | inl e ↦ rw (dep_has_failed, find_item, e) refl
  | inr e ↦ rw (dep_has_failed, find_item, e) (dep_has_failed-stored_item items dep_id)
]

keep_deps-stored_item :
    (items : List RunItem) (deps : List String)
    → keep (dep_has_failed (map stored_item items)) deps ≡ keep (dep_has_failed items) deps
keep_deps-stored_item items [] = refl
keep_deps-stored_item items (d ∷ deps) =
    rw (keep, dep_has_failed-stored_item items d, keep_deps-stored_item items deps) refl

is_empty-stored_item :
    (items : List RunItem)
    → is_empty (keep (λ i. is_pending i.status) (map stored_item items))
      ≡ is_empty (keep (λ i. is_pending i.status) items)
unfolding stored_item
is_empty-stored_item [] = refl
is_empty-stored_item (i ∷ items) = elim (Bool-cases (is_pending i.status)) [
  | inl e ↦ rw (keep, e) refl
  | inr e ↦ rw (keep, e) (is_empty-stored_item items)
]

all_blocked-stored_item :
    (items xs : List RunItem)
    → all
        (λ i. not (is_empty (failed_deps (map stored_item items) i)))
        (keep (λ i. is_pending i.status) (map stored_item xs))
      ≡ all (λ i. not (is_empty (failed_deps items i))) (keep (λ i. is_pending i.status) xs)
unfolding stored_item failed_deps
all_blocked-stored_item items [] = refl
all_blocked-stored_item items (i ∷ xs) = elim (Bool-cases (is_pending i.status)) [
  | inl e ↦
      rw
        (
          keep,
          e,
          all,
          keep_deps-stored_item items i.task.dependencies,
          all_blocked-stored_item items xs,
        )
        refl
  | inr e ↦ rw (keep, e) (all_blocked-stored_item items xs)
]

is_empty-map : (items : List RunItem) → is_empty (map stored_item items) ≡ is_empty items
is_empty-map [] = refl
is_empty-map (i ∷ items) = refl

status_of-stored_item : (items : List RunItem) → status_of (map stored_item items) ≡ status_of items
unfolding status_of
status_of-stored_item items =
    rw
      (
        is_empty-map items,
        any-stored_item is_failure items,
        all-stored_item is_finished items,
        all-stored_item (λ s. is_finished s || is_pending s) items,
        is_empty-stored_item items,
        all_blocked-stored_item items items,
        all-stored_item is_completed items,
        any-stored_item holds_slot items,
      )
      refl

status-stored_run : (run : Run) → status (stored_run run) ≡ status run
unfolding stored_run status
status-stored_run run = status_of-stored_item run.items

abbrev status_in : Run → Option Run → RunStatus
status_in other none = status other
status_in other (some run) = status run

-- Where pydantic and datetime read back what they write, a run has the status that it had when it was
-- saved once it is loaded, whatever its items.
pub status-run_from_dict :
    (codec : Codec)
    → ReadsBack codec
    → (run loaded : Run) → run_from_dict codec (run_to_dict codec run) ≡ some loaded
    → status loaded ≡ status run
status-run_from_dict codec back run loaded h =
    ap (status_in run) (sym h ∙ run_from_dict-to_dict codec back run) ∙ status-stored_run run
