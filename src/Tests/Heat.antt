-- ===== src/Tests/Heat.antt =====
-- Records of usage (src/scripthut/runs/usage.py) and the grid of src/scripthut/runs/activity.py.
use scripthut.Common.{ℕ, ◌+◌, ◌≡◌, refl, Option, none, some, List, [], ◌∷◌, arith}
use scripthut.Usage.{UsageRecord}
use scripthut.Activity.{
  ActivityDay, day_length, hour_length, iter_slices, slices, iter_day_slices, assign_levels,
  empty_day, grid_days,
}
use scripthut.Activity.Slices.{time_in, overlap, time_in-slices}
use scripthut.Activity.Cells.{HasHours, work_on, window, grid_days-HasHours}
use scripthut.Common.Dict.{Dict, get, put}
use scripthut.Activity.Hourly.{
  sum_of, amount, pop, roll, rank, insert_source, place_of, hourly_buckets, hourly_totals,
  totals_of, fold_totals, shown_sources, folded_sources,
}
use scripthut.Activity.Hourly.Overlaps.{work_in, total_at-work_in}
use scripthut.Activity.Hourly.Totals.{total_at, records_at, total_at-hourly_buckets}
use scripthut.Activity.Levels.{Shaded, assign_levels-Shaded}

abbrev a_record : ℕ → Option ℕ → UsageRecord
a_record start end = record {
  run_id = "r1";
  task_id = "fit";
  cpus = 2;
  started_at = start;
  finished_at = end;
  workflow_name = "demo";
  source_name = none;
  backend_name = "hpc";
  status = "completed";
}

-- A clock that is an hour ahead.
abbrev local_time : ℕ → ℕ
local_time n = n + hour_length

-- A task across midnight, and one that still runs.
abbrev some_records : List UsageRecord
some_records = a_record 10800000000 (some 97200000000) ∷ a_record 172800000000 none ∷ []

across_midnight :
    iter_day_slices local_time 10800000000 97200000000 ≡ (0, 72000000000) ∷ (1, 14400000000) ∷ []
unfolding iter_day_slices slices iter_slices
across_midnight = refl

time_in-slices_example :
    time_in 1 (slices day_length local_time 10800000000 97200000000)
    ≡ overlap day_length 14400000000 100800000000 1
time_in-slices_example =
    time_in-slices day_length local_time 10800000000 97200000000 1 (omega arith)

grid_days-HasHours_example :
    HasHours
      (λ day. work_on local_time 176400000000 day some_records)
      (window 0 3)
      (grid_days local_time some_records 2 176400000000 3)
grid_days-HasHours_example = grid_days-HasHours local_time some_records 2 176400000000 3

abbrev two_days : List ActivityDay
two_days = record (empty_day 1) { cpu_hours = 7 } ∷ empty_day 2 ∷ []

assign_levels-Shaded_example : Shaded (assign_levels two_days)
assign_levels-Shaded_example = assign_levels-Shaded two_days (refl, (refl, tt))

total_at-hourly_buckets_example :
    total_at (hourly_buckets local_time some_records 176400000000 51) 5
    ≡ records_at (place_of local_time 176400000000 51) local_time 176400000000 some_records 5
total_at-hourly_buckets_example =
    total_at-hourly_buckets local_time some_records 176400000000 51 5 (refl, (refl, tt))
      (omega arith)

total_at-work_in_example :
    total_at (hourly_buckets local_time some_records 176400000000 51) 5
    ≡ work_in local_time 176400000000 5 some_records
total_at-work_in_example =
    total_at-work_in local_time hour_length some_records 176400000000 51 5 5 (λ t. refl)
      (refl, (refl, tt)) (omega arith) refl

-- Two processors for a whole hour.
busy_hour : work_in local_time 176400000000 5 some_records ≡ 7200000000
busy_hour = refl

-- Six sources, without and with one called "Other" that is folded.
abbrev five_sources : Dict ℕ
five_sources = ("a", 9) ∷ ("b", 8) ∷ ("c", 7) ∷ ("d", 6) ∷ ("e", 5) ∷ []

folds_sixth :
    hourly_totals (("f", 4) ∷ five_sources)
    ≡ some (("a", 9) ∷ ("b", 8) ∷ ("c", 7) ∷ ("d", 6) ∷ ("e", 5) ∷ ("Other", 4) ∷ [])
unfolding hourly_totals totals_of sum_of amount fold_totals shown_sources folded_sources rank
    insert_source roll pop put get
folds_sixth = refl

raises_on_other : hourly_totals (("Other", 4) ∷ five_sources) ≡ none
unfolding hourly_totals totals_of sum_of amount fold_totals shown_sources folded_sources rank
    insert_source roll pop put get
raises_on_other = refl
