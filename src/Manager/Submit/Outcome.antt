-- ===== src/Manager/Submit/Outcome.antt =====
-- What `submit_task` makes of an item.
use scripthut.Common.{if◌then◌else◌, String, ◌≡◌, Bool, true, false, Option, arith}
use scripthut.Common.Dict.{Dict}
use scripthut.Model.{RunItem, Run, submitted, completed, failed}
use scripthut.Manager.World.{World}
use scripthut.Manager.Submit.{
  try_restore_from_cache, mark_restored, fail_submit, mark_submitted, submit_script, submit_task,
}

-- The statuses that a submission may leave: COMPLETED only for an item restored from the cache.
abbrev pub started : RunItem → Bool
started i = elim i.status [ submitted ↦ true | completed ↦ i.cache_hit | _ ↦ false ]

abbrev pub is_failed_now : RunItem → Bool
is_failed_now i = elim i.status [ failed ↦ true | _ ↦ false ]

-- The flag says which: the item is on its way, or has failed. The task stays.
pub record Submitted (item : RunItem) (result : RunItem × Bool) : Type 0 where
  pub same_task : result.0.task ≡ item.task
  pub agrees : (if result.1 then started result.0 else is_failed_now result.0) ≡ true

module _ (w : World) where
  restore_cases :
      (run : Run) (item : RunItem) (env : Dict String) (ssh : Bool) (given : Option (Dict String))
      → ((try_restore_from_cache w run item env ssh given).0.task ≡ item.task)
        × ((try_restore_from_cache w run item env ssh given).1 ≡ true
            → started (try_restore_from_cache w run item env ssh given).0 ≡ true)
  unfolding try_restore_from_cache mark_restored
  restore_cases run item env ssh given = ground arith

  submit_script-Submitted :
      (run : Run) (item : RunItem) (env : Dict String) (script : String)
      → Submitted item (submit_script w run item env script)
  unfolding submit_script fail_submit mark_submitted
  submit_script-Submitted run item env script = ground (arith)

  -- The item keeps its task. Where `submit_task` returns true the item is SUBMITTED, or COMPLETED as
  -- restored from the cache; where it returns false the item is FAILED.
  pub submit_task-Submitted : (run : Run) (item : RunItem) → Submitted item (submit_task w run item)
  unfolding submit_task fail_submit
  submit_task-Submitted run item = ground (arith)
