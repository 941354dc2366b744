-- ===== src/Manager/Submit.antt =====
-- `submit_task`, `_try_restore_from_cache` and `probe_cache_for_task` of runs/manager.py.
pub mod Outcome
use Prim.Native.Char.{code}
use scripthut.Common.{
  ℕ, String, ◌<>◌, Bool, true, false, not, ◌&&◌, ◌||◌, Option, none, some, List, [], ◌∷◌,
  if◌then◌else◌, or_else, truthy, ◌==◌, eqb,
}
use scripthut.Common.Dict.{Dict}
use scripthut.Model.{
  RunItem, RunItemStatus, TaskDefinition, Run, pending, submitted, completed, failed, commit,
  inputs_only, CacheScope,
}
use scripthut.Model.Status.{is_empty}
use scripthut.Manager.World.{World, Result, ok, raised, CacheManifest, SubmitResult}

-- The verdict of a probe: the key, the inputs it was computed from, and the manifest on a hit.
pub record Verdict : Type 0 where
  pub cacheable : Bool
  pub cache_key : Option String
  pub input_hashes : Option (Dict String)
  pub hit : Option CacheManifest

abbrev uncacheable : Verdict
uncacheable = record { cacheable = false; cache_key = none; input_hashes = none; hit = none }

-- `cached_exit not in (0, None)`: a cached failure.
abbrev pub is_cached_failure : Option ℕ → Bool
is_cached_failure none = false
is_cached_failure (some ℕ.zero) = false
is_cached_failure (some (ℕ.suc n)) = true

abbrev key_commit : CacheScope → Option String → Option String
key_commit commit c = c
key_commit inputs_only c = none

module _ (w : World) where
  abbrev usable : Option CacheManifest → Option CacheManifest
  usable none = none
  usable (some m) = if is_cached_failure m.exit_code then none else some m

  abbrev probe_hashed :
      TaskDefinition → Dict String → Option String → Option (Dict String) → Verdict
  probe_hashed task env commit_hash none = uncacheable
  probe_hashed task env commit_hash (some hashes) =
      let key = w.compute_key (record {
        command = task.command;
        env = env;
        commit_hash = key_commit task.cache_scope commit_hash;
        input_hashes = hashes;
      }) in
      record {
        cacheable = true;
        cache_key = some key;
        input_hashes = some hashes;
        hit = usable (w.cache_lookup key);
      }

  -- `probe_cache_for_task`. `ssh` says whether there is a shell, and `given` are the hashes that the
  -- caller has already.
  unfoldable pub probe_cache_for_task :
      TaskDefinition → Dict String → Option String → Bool → Option (Dict String) → Verdict
  probe_cache_for_task task env commit_hash ssh given =
      if not w.cache_enabled || (not ssh || (not task.cache || is_empty task.outputs))
      then uncacheable
      else probe_hashed task env commit_hash
          (or_else given (w.hash_inputs task.working_dir task.inputs))

  -- The item after a restore that went well.
  unfoldable pub mark_restored : CacheManifest → RunItem → RunItem
  mark_restored manifest item = record item {
    output_hashes = manifest.output_hashes;
    status = completed;
    cache_hit = true;
    started_at = or_else item.started_at (some w.now);
    finished_at = some w.now;
    exit_code = some 0;
    scheduler_state = some "CACHED";
  }

  abbrev note_verdict : Verdict → RunItem → RunItem
  note_verdict v item = record item {
    cache_key = or_else (truthy v.cache_key) item.cache_key;
    input_hashes = or_else v.input_hashes item.input_hashes;
  }

  -- `_try_restore_from_cache`: the item, and whether it was restored.
  unfoldable pub try_restore_from_cache :
      Run → RunItem → Dict String → Bool → Option (Dict String) → RunItem × Bool
  unfolding probe_cache_for_task mark_restored
  try_restore_from_cache run item env ssh given =
      let v = probe_cache_for_task item.task env run.commit_hash ssh given in
      let noted = note_verdict v item in
      elim v.hit [
        | none ↦ (noted, false)
        | some manifest ↦
            if w.cache_restore item.task.working_dir manifest
            then (mark_restored manifest noted, true)
            else (noted, false)
      ]

  -- The assignments to an item that could not be submitted.
  unfoldable pub fail_submit : String → RunItem → RunItem
  fail_submit message item = record item {
    status = failed;
    error = some message;
    submit_output = or_else (truthy item.submit_output) (some message);
    finished_at = some w.now;
  }

  unfoldable pub mark_submitted : SubmitResult → RunItem → RunItem
  mark_submitted r item = record item {
    job_id = some r.job_id;
    submit_output = truthy (some r.submit_output);
    status = submitted;
    submitted_at = some w.now;
  }

  -- `log_dir.replace("~", home_dir, 1)` where it starts with `~`
  abbrev expand_home : String → String
  expand_home String.[] = String.[]
  expand_home (String.◌∷◌ c s) = if eqb (code c) b'~' then w.home_dir <> s else String.◌∷◌ c s

  -- Whether the inputs are hashed up front: the task declares inputs or outputs.
  abbrev hashes_up_front : Bool → TaskDefinition → Bool
  hashes_up_front ssh task = ssh && (not (is_empty task.inputs) || not (is_empty task.outputs))

  -- From the generated script on: the cache, then the scheduler.
  unfoldable pub submit_script : Run → RunItem → Dict String → String → RunItem × Bool
  unfolding try_restore_from_cache fail_submit mark_submitted
  submit_script run item env script =
      let ssh = w.has_ssh run.backend_name in
      let hashed = hashes_up_front ssh item.task in
      let given = if hashed then w.hash_inputs item.task.working_dir item.task.inputs else none in
      let scripted = record item {
        submit_script = some script;
        input_hashes = if hashed then given else item.input_hashes;
      } in
      let (tried, restored) = try_restore_from_cache run scripted env ssh given in
      if restored then (tried, true) else elim (w.submit_job item.task script env) [
        | ok r ↦ (mark_submitted r tried, true)
        | raised message ↦ (fail_submit message tried, false)
      ]

  abbrev submit_in : Run → RunItem → Result (Dict String × String) → RunItem × Bool
  submit_in run item (raised message) = (fail_submit message item, false)
  submit_in run item (ok (env, extra_init)) =
      let log_dir = if w.has_ssh run.backend_name then expand_home run.log_dir else run.log_dir in
      elim (w.generate_script item.task log_dir env extra_init) [
        | raised message ↦ (fail_submit message item, false)
        | ok script ↦ submit_script run item env script
      ]

  -- `submit_task`: the item, and whether it went well.
  unfoldable pub submit_task : Run → RunItem → RunItem × Bool
  unfolding submit_script fail_submit
  submit_task run item =
      if w.has_job_backend run.backend_name
      then submit_in run item (w.environment run item.task)
      else (
        record item {
          status = failed;
          error = some ("No job backend for '" <> (run.backend_name <> "'"));
          finished_at = some w.now;
        },
        false,
      )
