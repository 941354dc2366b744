-- ===== src/Storage/Items.antt =====
-- `RunItem.to_dict` and `from_dict` (src/scripthut/runs/models.py).
use scripthut.Common.{
  ℕ, String, ◌≡◌, refl, false, Option, none, some, [], if◌then◌else◌, ◌==◌, truthy,
}
use scripthut.Model.{
  RunItem, RunItemStatus, pending, submitted, queued, running, settling, completed, failed,
  dep_failed,
}
use scripthut.Storage.Json.{
  Json, null, bool, num, float, str, array, object, no_fields, field, ◌>>=◌, lookup, to_object,
  to_text, to_num, to_float, to_items, to_text_dict, write_text_dict, required, default, optional,
  each, truth, first_of, first_of-text, write_option, write_list, each-write_list, nullable-text,
  nullable-num, nullable-float, nullable-text_dict,
}
use scripthut.Storage.Tasks.{
  Codec, ReadsBack, task_to_dict, task_from_dict, task_from_dict-to_dict, output_to_dict,
  output_from_dict, output_from_dict-to_dict,
}

-- `RunItemStatus.value`
abbrev pub status_value : RunItemStatus → String
status_value pending = "pending"
status_value submitted = "submitted"
status_value queued = "queued"
status_value running = "running"
status_value settling = "settling"
status_value completed = "completed"
status_value failed = "failed"
status_value dep_failed = "dep_failed"

-- `RunItemStatus(value)`
abbrev pub status_named : String → Option RunItemStatus
status_named s =
    if s == "pending"
    then some pending
    else if s == "submitted"
    then some submitted
    else if s == "queued"
    then some queued
    else if s == "running"
    then some running
    else if s == "settling"
    then some settling
    else if s == "completed"
    then some completed
    else if s == "failed"
    then some failed
    else if s == "dep_failed"
    then some dep_failed
    else none

named-value : (s : RunItemStatus) → status_named (status_value s) ≡ some s
named-value pending = refl
named-value submitted = refl
named-value queued = refl
named-value running = refl
named-value settling = refl
named-value completed = refl
named-value failed = refl
named-value dep_failed = refl

module _ (codec : Codec) where
  abbrev write_time : Option ℕ → Json
  write_time none = null
  write_time (some n) = str (codec.isoformat n)

  -- `parse_dt`
  abbrev parse_dt : Option String → Option (Option ℕ)
  parse_dt none = some none
  parse_dt (some val) =
      if val == ""
      then some none
      else elim (codec.fromisoformat val) [ none ↦ none | some n ↦ some (some n) ]

  abbrev read_time : Option Json → Option (Option ℕ)
  read_time v = elim (optional to_text v) [ none ↦ none | some val ↦ parse_dt val ]

  -- `RunItem.to_dict`
  unfoldable pub item_to_dict : RunItem → Json
  item_to_dict i = object (
      field "task" (task_to_dict codec i.task) (
        field "status" (str (status_value i.status)) (
          field "job_id" (write_option str i.job_id) (
            field "user" (write_option str i.user) (
              field "submitted_at" (write_time i.submitted_at) (
                field "started_at" (write_time i.started_at) (
                  field "finished_at" (write_time i.finished_at) (
                    field "error" (write_option str i.error) (
                      field "submit_script" (write_option str i.submit_script) (
                        field "submit_output" (write_option str i.submit_output) (
                          field "cpu_efficiency" (write_option float i.cpu_efficiency) (
                            field "max_rss" (write_option str i.max_rss) (
                              field "scheduler_state" (write_option str i.scheduler_state) (
                                field "exit_code" (write_option num i.exit_code) (
                                  field "outputs" (array (write_list output_to_dict i.outputs)) (
                                    field "has_run_summary" (bool i.has_run_summary) (
                                      field "pending_reason" (write_option str i.pending_reason) (
                                        field "cache_key" (write_option str i.cache_key) (
                                          field "cache_hit" (bool i.cache_hit) (
                                            field "input_hashes"
                                              (write_option write_text_dict i.input_hashes)
                                              (field "output_hashes"
                                                (write_option write_text_dict i.output_hashes)
                                                no_fields)))))))))))))))))))))

  -- `RunItem.from_dict`
  unfoldable pub item_from_dict : Json → Option RunItem
  unfolding ◌>>=◌
  item_from_dict v = do
    d ← to_object v
    task ← required (task_from_dict codec) d "task"
    status ← required (λ j. to_text j >>= status_named) d "status"
    job_id ← first_of (lookup d "job_id") (lookup d "slurm_job_id")
    user ← optional to_text (lookup d "user")
    submitted_at ← read_time (lookup d "submitted_at")
    started_at ← read_time (lookup d "started_at")
    finished_at ← read_time (lookup d "finished_at")
    error ← optional to_text (lookup d "error")
    submit_script ← first_of (lookup d "submit_script") (lookup d "sbatch_script")
    submit_output ← optional to_text (lookup d "submit_output")
    cpu_efficiency ← optional to_float (lookup d "cpu_efficiency")
    max_rss ← optional to_text (lookup d "max_rss")
    scheduler_state ← first_of (lookup d "scheduler_state") (lookup d "sacct_state")
    exit_code ← optional to_num (lookup d "exit_code")
    outputs ← default (λ j. to_items j >>= each output_from_dict) [] (lookup d "outputs")
    has_run_summary ← default (λ j. some (truth j)) false (lookup d "has_run_summary")
    pending_reason ← optional to_text (lookup d "pending_reason")
    cache_key ← optional to_text (lookup d "cache_key")
    cache_hit ← default (λ j. some (truth j)) false (lookup d "cache_hit")
    input_hashes ← optional to_text_dict (lookup d "input_hashes")
    output_hashes ← optional to_text_dict (lookup d "output_hashes")
    some (record {
      task = task;
      status = status;
      job_id = job_id;
      user = user;
      submitted_at = submitted_at;
      started_at = started_at;
      finished_at = finished_at;
      error = error;
      submit_script = submit_script;
      submit_output = submit_output;
      cpu_efficiency = cpu_efficiency;
      max_rss = max_rss;
      scheduler_state = scheduler_state;
      exit_code = exit_code;
      outputs = outputs;
      has_run_summary = has_run_summary;
      pending_reason = pending_reason;
      cache_key = cache_key;
      cache_hit = cache_hit;
      input_hashes = input_hashes;
      output_hashes = output_hashes;
    })

-- What is left of an item: an empty text is stored and read as a missing one where the reader falls
-- back on an older field.
unfoldable pub stored_item : RunItem → RunItem
stored_item i = record i {
  job_id = truthy i.job_id;
  submit_script = truthy i.submit_script;
  scheduler_state = truthy i.scheduler_state;
}

module _ (codec : Codec) (back : ReadsBack codec) where
  times-back : (o : Option ℕ) → read_time codec (some (write_time codec o)) ≡ some o
  times-back none = refl
  times-back (some n) = rw (read_time, parse_dt, back.time_shown n, back.time_back n) refl

  -- Reading what `to_dict` writes gives the item back, but for empty texts.
  pub item_from_dict-to_dict :
      (i : RunItem) → item_from_dict codec (item_to_dict codec i) ≡ some (stored_item i)
  unfolding item_from_dict item_to_dict ◌>>=◌ stored_item
  item_from_dict-to_dict i =
      rw
        (
          task_from_dict-to_dict codec back i.task,
          named-value i.status,
          first_of-text i.job_id,
          nullable-text i.user,
          times-back i.submitted_at,
          times-back i.started_at,
          times-back i.finished_at,
          nullable-text i.error,
          first_of-text i.submit_script,
          nullable-text i.submit_output,
          nullable-float i.cpu_efficiency,
          nullable-text i.max_rss,
          first_of-text i.scheduler_state,
          nullable-num i.exit_code,
          each-write_list output_from_dict output_to_dict output_from_dict-to_dict i.outputs,
          nullable-text i.pending_reason,
          nullable-text i.cache_key,
          nullable-text_dict i.input_hashes,
          nullable-text_dict i.output_hashes,
        )
        refl
