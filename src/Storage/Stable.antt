-- ===== src/Storage/Stable.antt =====
-- Saving and loading a run again (src/scripthut/runs/storage.py).
use scripthut.Common.{
  String, ◌≡◌, refl, sym, subst, ◌∙◌, ap, Option, none, some, List, [], ◌∷◌, arith, map, truthy,
  or_else,
}
use scripthut.Model.{RunItem, Run}
use scripthut.Storage.Tasks.{Codec, ReadsBack}
use scripthut.Storage.Items.{stored_item}
use scripthut.Storage.Runs.{
  derive_source_name, stored_run, run_to_dict, run_from_dict, run_from_dict-to_dict,
}

truthy-truthy : (o : Option String) → truthy (truthy o) ≡ truthy o
truthy-truthy none = refl
truthy-truthy (some s) = ground arith

or_else-truthy :
    (o derived : Option String)
    → or_else (truthy (or_else (truthy o) derived)) derived ≡ or_else (truthy o) derived
or_else-truthy none none = refl
or_else-truthy none (some s) = ground arith
or_else-truthy (some s) derived = ground arith

stored_item-stored_item : (i : RunItem) → stored_item (stored_item i) ≡ stored_item i
unfolding stored_item
stored_item-stored_item i =
    rw (truthy-truthy i.job_id, truthy-truthy i.submit_script, truthy-truthy i.scheduler_state) refl

stored_items-stored_items :
    (items : List RunItem) → map stored_item (map stored_item items) ≡ map stored_item items
stored_items-stored_items [] = refl
stored_items-stored_items (i ∷ items) =
    rw (map, stored_item-stored_item i, stored_items-stored_items items) refl

stored_run-stored_run : (run : Run) → stored_run (stored_run run) ≡ stored_run run
unfolding stored_run
stored_run-stored_run run =
    rw
      (
        stored_items-stored_items run.items,
        or_else-truthy run.source_name (derive_source_name run.workflow_name),
      )
      refl

abbrev run_of : Run → Option Run → Run
run_of other none = other
run_of other (some run) = run

-- Where pydantic and datetime read back what they write, a run that has been saved and loaded once is
-- read back exactly when it is saved again.
pub run_from_dict-stored_run :
    (codec : Codec)
    → ReadsBack codec
    → (run loaded : Run) → run_from_dict codec (run_to_dict codec run) ≡ some loaded
    → run_from_dict codec (run_to_dict codec loaded) ≡ some loaded
run_from_dict-stored_run codec back run loaded h =
    run_from_dict-to_dict codec back loaded ∙ same (sym (run_from_dict-to_dict codec back run) ∙ h)
  where
    same : some (stored_run run) ≡ some loaded → some (stored_run loaded) ≡ some loaded
    same e =
        subst (λ r. some (stored_run r) ≡ some r) (ap (run_of run) e)
          (ap some (stored_run-stored_run run))
