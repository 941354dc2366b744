-- ===== src/Tests/Documents/Ledgers.antt =====
-- A ledger of finished tasks (src/scripthut/runs/usage.py), on which its theorems are applied.
use scripthut.Common.{◌≡◌, refl, true, none, some, List, [], ◌∷◌, keep}
use scripthut.Model.{RunItem, RunItemStatus, Run}
use scripthut.Storage.Json.{null}
use scripthut.Usage.{UsageLog, is_since, records_from_runs, read_lines, record_runs, merged_records}
use scripthut.Usage.Ledger.{Recorded, record_runs-Recorded}
use scripthut.Usage.Merged.{having, latest, having-merged_records}
use scripthut.Tests.{a_run, lost_item}
use scripthut.Tests.Documents.{a_codec, a_codec-reads}

-- A finished task and one that runs.
abbrev done_item : RunItem
done_item = record lost_item {
  status = RunItemStatus.completed;
  started_at = some 5;
  finished_at = some 9;
}

abbrev live_item : RunItem
live_item = record lost_item { status = RunItemStatus.running; started_at = some 7 }

abbrev some_runs : List Run
some_runs = a_run (done_item ∷ []) ∷ []

-- A line that cannot be read, and nothing cached.
abbrev a_log : UsageLog
a_log = record { lines = none ∷ some null ∷ []; keys = none }

one_recorded : (record_runs a_codec true a_log some_runs).1 ≡ 1
unfolding record_runs
one_recorded = refl

record_runs-Recorded_example :
    Recorded a_codec a_codec-reads a_log some_runs (record_runs a_codec true a_log some_runs)
record_runs-Recorded_example =
    record_runs-Recorded a_codec a_codec-reads a_log some_runs (λ k. refl)

abbrev written : UsageLog
written = (record_runs a_codec true a_log some_runs).0

having-merged_records_example :
    having
      ("r1", "lost")
      (merged_records a_codec (λ n. n) (some 6) written (a_run (live_item ∷ []) ∷ []))
    ≡ keep
        (is_since (λ n. n) (some 6))
        (elim (latest ("r1", "lost") (records_from_runs (a_run (live_item ∷ []) ∷ []))) [
          | none ↦ having ("r1", "lost") (read_lines a_codec written.lines)
          | some r ↦ r ∷ []
        ])
having-merged_records_example =
    having-merged_records a_codec (λ n. n) (some 6) written (a_run (live_item ∷ []) ∷ [])
      ("r1", "lost")
