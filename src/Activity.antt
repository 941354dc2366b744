-- ===== src/Activity.antt =====
-- The usage heatmap, src/scripthut/runs/activity.py. A timestamp is a number of microseconds, and
-- `local` its reading on the server's clock, since the day 0 of the calendar (`date.toordinal`). The
-- source's hours of a processor are here its microseconds, without rounding.
pub mod Slices
pub mod Cells
pub mod Levels
pub mod Hourly
use Prim.Native.Nat.{◌%◌}
use scripthut.Common.{
  min, ℕ, zero, suc, ◌+◌, ◌-◌, ◌*◌, ◌/◌, String, Bool, Option, none, some, List, [], ◌∷◌, map, keep,
  if◌then◌else◌, elem, ltb, leb, eqb, length, get_elem?, is_some,
}
use scripthut.Usage.{UsageRecord}

pub record ActivityDay : Type 0 where
  pub day : ℕ
  pub cpu_hours : ℕ
  pub runs : ℕ
  pub tasks : ℕ
  pub level : ℕ

pub record ActivityGrid : Type 0 where
  pub weeks : List (List (Option ActivityDay))
  pub days : List ActivityDay
  pub total_cpu_hours : ℕ
  pub active_days : ℕ
  pub busiest : Option ActivityDay
  pub window_days : ℕ

abbrev pub day_length : ℕ
day_length = 86400000000

abbrev pub hour_length : ℕ
hour_length = 3600000000

-- The loop of both slicers, on fuel.
unfoldable pub iter_slices : ℕ → ℕ → ℕ → ℕ → List (ℕ × ℕ)
iter_slices width zero cursor end = []
iter_slices width (suc fuel) cursor end =
    let slice_end = min ((cursor / width + 1) * width) end in
    let rest = iter_slices width fuel slice_end end in
    if ltb cursor end
    then (if leb slice_end cursor then [] else (cursor / width, slice_end - cursor) ∷ rest)
    else []

-- Both ends are read on the clock of the start, so the end is where the interval's length leads. Each
-- slice takes a microsecond at least.
unfoldable pub slices : ℕ → (ℕ → ℕ) → ℕ → ℕ → List (ℕ × ℕ)
unfolding iter_slices
slices width local start end =
    iter_slices width (end - start) (local start) (local start + (end - start))

unfoldable pub iter_day_slices : (ℕ → ℕ) → ℕ → ℕ → List (ℕ × ℕ)
unfolding slices
iter_day_slices local start end = slices day_length local start end

unfoldable pub iter_hour_slices : (ℕ → ℕ) → ℕ → ℕ → List (ℕ × ℕ)
unfolding slices
iter_hour_slices local start end = slices hour_length local start end

-- `int(index)` of a list in which the index stands
abbrev pub at : List ℕ → ℕ → ℕ
at values i = elim (get_elem? values i) [ none ↦ 0 | some v ↦ v ]

unfoldable pub insert_value : ℕ → List ℕ → List ℕ
insert_value a [] = a ∷ []
insert_value a (b ∷ values) =
    let rest = insert_value a values in if leb a b then a ∷ b ∷ values else b ∷ rest

-- `sorted(values)`
unfoldable pub sort_values : List ℕ → List ℕ
unfolding insert_value
sort_values [] = []
sort_values (a ∷ values) = insert_value a (sort_values values)

-- The chain of tests of `_assign_levels`, for the cuts and the top.
abbrev pub level_of : ℕ → ℕ → ℕ → ℕ → ℕ → ℕ
level_of low middle high top c =
    if leb c 0
    then 0
    else (if leb top c
        then 4
        else (if leb c low then 1 else (if leb c middle then 2 else (if leb c high then 3 else 4))))

abbrev pub active_values : List ActivityDay → List ℕ
active_values days = keep (λ v. ltb 0 v) (map (λ d. d.cpu_hours) days)

-- The level of a number of hours, among sorted values.
abbrev pub shade : List ℕ → ℕ → ℕ
shade values c =
    let last = length values - 1 in
    level_of (at values (last / 4)) (at values (last / 2)) (at values (last * 3 / 4))
      (at values last) c

abbrev pub shaded : List ℕ → ActivityDay → ActivityDay
shaded values d = record d { level = shade values d.cpu_hours }

abbrev pub assign_with : List ℕ → List ActivityDay → List ActivityDay
assign_with [] days = days
assign_with (v ∷ values) days = map (shaded (v ∷ values)) days

unfoldable pub assign_levels : List ActivityDay → List ActivityDay
unfolding sort_values
assign_levels days = assign_with (sort_values (active_values days)) days

abbrev pub empty_day : ℕ → ActivityDay
empty_day day = record { day = day; cpu_hours = 0; runs = 0; tasks = 0; level = 0 }

-- `buckets`, in the order of the days
abbrev pub empty_days : ℕ → ℕ → List ActivityDay
empty_days first zero = []
empty_days first (suc n) = empty_day first ∷ empty_days (first + 1) n

-- `buckets.get(day)`
abbrev pub find_day : ℕ → List ActivityDay → Option ActivityDay
find_day day [] = none
find_day day (d ∷ days) = if eqb d.day day then some d else find_day day days

-- `run_ids.setdefault(day, set()).add(run_id)`
abbrev pub note_run : ℕ → String → List (ℕ × List String) → List (ℕ × List String)
note_run day id [] = (day, id ∷ []) ∷ []
note_run day id ((other, ids) ∷ run_ids) =
    if eqb other day
    then (other, if elem id ids then ids else id ∷ ids) ∷ run_ids
    else (other, ids) ∷ note_run day id run_ids

-- The variables of the loop over the records.
pub record Tally : Type 0 where
  pub buckets : List ActivityDay
  pub run_ids : List (ℕ × List String)

-- `bucket.cpu_hours += ...; bucket.tasks += 1`
abbrev pub charge_day : ℕ → ℕ → List ActivityDay → List ActivityDay
charge_day day amount days =
    map
      (λ d.
        if eqb d.day day
        then record d { cpu_hours = d.cpu_hours + amount; tasks = d.tasks + 1 }
        else d)
      days

abbrev pub cpus_or_one : UsageRecord → ℕ
cpus_or_one r = if eqb r.cpus 0 then 1 else r.cpus

unfoldable pub charge_slices : UsageRecord → List (ℕ × ℕ) → Tally → Tally
charge_slices r [] t = t
charge_slices r ((day, length) ∷ slices) t =
    let charged : Tally = record {
      buckets = charge_day day (length * cpus_or_one r) t.buckets;
      run_ids = note_run day r.run_id t.run_ids;
    } in
    charge_slices r slices (if is_some (find_day day t.buckets) then charged else t)

-- `rec.finished_at or now`
abbrev pub end_of : ℕ → UsageRecord → ℕ
end_of now r = elim r.finished_at [ none ↦ now | some at ↦ at ]

unfoldable pub charge_records : (ℕ → ℕ) → ℕ → List UsageRecord → Tally → Tally
unfolding charge_slices iter_day_slices
charge_records local now [] t = t
charge_records local now (r ∷ records) t =
    charge_records local now records
      (charge_slices r (iter_day_slices local r.started_at (end_of now r)) t)

-- `for day, ids in run_ids.items(): buckets[day].runs = len(ids)`
abbrev pub count_runs : List (ℕ × List String) → List ActivityDay → List ActivityDay
count_runs [] days = days
count_runs ((day, ids) ∷ run_ids) days =
    count_runs run_ids (map (λ d. if eqb d.day day then record d { runs = length ids } else d) days)

abbrev week : List ActivityDay → ℕ → ℕ → List (Option ActivityDay)
week days cursor zero = []
week days cursor (suc n) = find_day cursor days ∷ week days (cursor + 1) n

-- `while cursor <= today`, on fuel.
unfoldable pub weeks_from : List ActivityDay → ℕ → ℕ → ℕ → List (List (Option ActivityDay))
weeks_from days today zero cursor = []
weeks_from days today (suc fuel) cursor =
    let rest = weeks_from days today fuel (cursor + 7) in
    if leb cursor today then week days cursor 7 ∷ rest else []

abbrev total_hours : List ActivityDay → ℕ
total_hours [] = 0
total_hours (d ∷ days) = d.cpu_hours + total_hours days

-- `max(active, key=...)`, the first of the largest
abbrev busiest_of : Option ActivityDay → List ActivityDay → Option ActivityDay
busiest_of best [] = best
busiest_of none (d ∷ days) = busiest_of (some d) days
busiest_of (some b) (d ∷ days) =
    busiest_of (some (if ltb b.cpu_hours d.cpu_hours then d else b)) days

-- The days of the grid.
unfoldable pub grid_days : (ℕ → ℕ) → List UsageRecord → ℕ → ℕ → ℕ → List ActivityDay
unfolding charge_records assign_levels
grid_days local records today now window_days =
    let t =
      charge_records local now records
        (record { buckets = empty_days (today - (window_days - 1)) window_days; run_ids = [] }) in
    assign_levels (count_runs t.run_ids t.buckets)

-- `start.weekday()` is `(start.toordinal() + 6) % 7`.
unfoldable pub build_activity_grid : (ℕ → ℕ) → List UsageRecord → ℕ → ℕ → ℕ → ActivityGrid
unfolding grid_days weeks_from
build_activity_grid local records today now window_days =
    let days = grid_days local records today now window_days in
    let start = today - (window_days - 1) in
    let active = keep (λ d. ltb 0 d.cpu_hours) days in
    record {
      weeks = weeks_from days today (suc today) (start - (start + 6) % 7);
      days = days;
      total_cpu_hours = total_hours days;
      active_days = length active;
      busiest = busiest_of none active;
      window_days = window_days;
    }
