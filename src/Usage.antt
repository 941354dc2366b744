-- ===== src/Usage.antt =====
-- The ledger of finished tasks, src/scripthut/runs/usage.py. A line of the file is what `json.loads`
-- makes of it, and `none` where it raises. `day_of` is the local day of a timestamp.
pub mod Ledger
pub mod Merged
use scripthut.Common.{
  ℕ, String, ◌<>◌, Bool, true, false, not, ◌&&◌, ◌||◌, Option, none, some, List, [], ◌∷◌, ◌++◌, map,
  keep, if◌then◌else◌, ◌==◌, elem, leb, eqb, length, is_some,
}
use scripthut.Model.{RunItem, Run}
use scripthut.Model.Status.{is_empty}
use scripthut.Storage.Json.{
  Json, Items, Fields, null, num, str, object, no_fields, field, ◌>>=◌, lookup, to_object, to_text,
  to_num, required, default, optional, truth, write_option,
}
use scripthut.Storage.Tasks.{Codec}
use scripthut.Storage.Items.{status_value}

pub record UsageRecord : Type 0 where
  pub run_id : String
  pub task_id : String
  pub cpus : ℕ
  pub started_at : ℕ
  pub finished_at : Option ℕ
  pub workflow_name : String
  pub source_name : Option String
  pub backend_name : String
  pub status : String

abbrev pub Key : Type 0
Key = String × String

-- `UsageRecord.key`
abbrev pub key : UsageRecord → Key
key r = (r.run_id, r.task_id)

abbrev pub same_key : Key → Key → Bool
same_key (a, b) (c, d) = (a == c) && (b == d)

-- `k in keys`
abbrev pub knows : List Key → Key → Bool
knows [] k = false
knows (j ∷ keys) k = same_key k j || knows keys k

abbrev item_record : Run → RunItem → ℕ → UsageRecord
item_record run item at = record {
  run_id = run.id;
  task_id = item.task.id;
  cpus = if eqb item.task.cpus 0 then 1 else item.task.cpus;
  started_at = at;
  finished_at = item.finished_at;
  workflow_name = run.workflow_name;
  source_name = run.source_name;
  backend_name = run.backend_name;
  status = status_value item.status;
}

unfoldable pub records_from_items : Run → List RunItem → List UsageRecord
records_from_items run [] = []
records_from_items run (item ∷ items) =
    let rest = records_from_items run items in
    elim item.started_at [ none ↦ rest | some at ↦ item_record run item at ∷ rest ]

unfoldable pub records_from_runs : List Run → List UsageRecord
unfolding records_from_items
records_from_runs [] = []
records_from_runs (run ∷ runs) = records_from_items run run.items ++ records_from_runs runs

-- `UsageLog`: its file, and the keys that are cached.
pub record UsageLog : Type 0 where
  pub lines : List (Option Json)
  pub keys : Option (List Key)

abbrev pub is_since : (ℕ → ℕ) → Option ℕ → UsageRecord → Bool
is_since day_of none r = true
is_since day_of (some first) r = leb first (day_of r.started_at)

-- `rec.status in {s.value for s in _TERMINAL}`
abbrev pub is_terminal : UsageRecord → Bool
is_terminal r = elem r.status ("completed" ∷ "failed" ∷ "dep_failed" ∷ [])

abbrev pub pending_records : List Key → List Run → List UsageRecord
pending_records known runs =
    keep (λ r. is_terminal r && not (knows known (key r))) (records_from_runs runs)

module _ (codec : Codec) where
  -- `datetime.fromisoformat(d["finished"]) if d.get("finished") else None`
  abbrev read_finished : Option Json → Option (Option ℕ)
  read_finished none = some none
  read_finished (some v) =
      if truth v
      then (elim (to_text v >>= codec.fromisoformat) [ none ↦ none | some n ↦ some (some n) ])
      else some none

  -- `_parse`, of a document
  unfoldable pub parse_document : Json → Option UsageRecord
  unfolding ◌>>=◌
  parse_document v = do
    d ← to_object v
    run_id ← required to_text d "run"
    task_id ← required to_text d "task"
    cpus ← default to_num 1 (lookup d "cpus")
    started_at ← required (λ j. to_text j >>= codec.fromisoformat) d "started"
    finished_at ← read_finished (lookup d "finished")
    workflow_name ← default to_text "" (lookup d "workflow")
    source_name ← optional to_text (lookup d "source")
    backend_name ← default to_text "" (lookup d "backend")
    status ← default to_text "" (lookup d "status")
    some (record {
      run_id = run_id;
      task_id = task_id;
      cpus = cpus;
      started_at = started_at;
      finished_at = finished_at;
      workflow_name = workflow_name;
      source_name = source_name;
      backend_name = backend_name;
      status = status;
    })

  abbrev pub parse : Option Json → Option UsageRecord
  parse none = none
  parse (some v) = parse_document v

  -- The document of a line that `record` writes.
  unfoldable pub dump : UsageRecord → Json
  dump r = object (
      field "run" (str r.run_id) (
        field "task" (str r.task_id) (
          field "cpus" (num r.cpus) (
            field "started" (str (codec.isoformat r.started_at)) (
              field "finished"
                (elim r.finished_at [ none ↦ null | some n ↦ str (codec.isoformat n) ])
                (field "workflow" (str r.workflow_name) (
                  field "source" (write_option str r.source_name) (
                    field "backend" (str r.backend_name)
                      (field "status" (str r.status) no_fields)))))))))

  -- `records`, without a first day
  unfoldable pub read_lines : List (Option Json) → List UsageRecord
  unfolding parse_document
  read_lines [] = []
  read_lines (line ∷ lines) =
      let rest = read_lines lines in elim (parse line) [ none ↦ rest | some r ↦ r ∷ rest ]

  unfoldable pub records : (ℕ → ℕ) → Option ℕ → UsageLog → List UsageRecord
  unfolding read_lines
  records day_of since log = keep (is_since day_of since) (read_lines log.lines)

  -- `_known_keys`
  abbrev pub known_keys : UsageLog → List Key
  known_keys log = elim log.keys [ none ↦ map key (read_lines log.lines) | some keys ↦ keys ]

  -- The end of `record`: `writable` says whether the file can be appended to.
  abbrev pub write_pending : Bool → UsageLog → List Key → List UsageRecord → UsageLog × ℕ
  write_pending writable log known pending =
      if not (is_empty pending) && writable
      then (
        record {
          lines = log.lines ++ map (λ r. some (dump r)) pending;
          keys = some (known ++ map key pending);
        },
        length pending,
      )
      else (record log { keys = some known }, 0)

  -- `UsageLog.record`: the log, and how many tasks were recorded.
  unfoldable pub record_runs : Bool → UsageLog → List Run → UsageLog × ℕ
  unfolding records_from_runs dump read_lines
  record_runs writable log runs =
      write_pending writable log (known_keys log) (pending_records (known_keys log) runs)

-- `{rec.key: rec for rec in ...}`: a later record takes the place of an earlier one.
unfoldable pub put_record : List UsageRecord → UsageRecord → List UsageRecord
put_record [] r = r ∷ []
put_record (s ∷ live) r = if same_key (key s) (key r) then r ∷ live else s ∷ put_record live r

unfoldable pub live_records : List UsageRecord → List UsageRecord → List UsageRecord
unfolding put_record
live_records live [] = live
live_records live (r ∷ rest) = live_records (put_record live r) rest

-- `merged_records`, with a log
unfoldable pub merged_records : Codec → (ℕ → ℕ) → Option ℕ → UsageLog → List Run → List UsageRecord
unfolding records live_records records_from_runs
merged_records codec day_of since log runs =
    let live = live_records [] (records_from_runs runs) in
    keep (λ r. not (knows (map key live) (key r))) (records codec day_of since log)
    ++ keep (is_since day_of since) live
